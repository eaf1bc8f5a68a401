-- ===== src/Zookeeper.antt =====
-- scripts/zookeeper_setup.py: the servers of a ZooKeeper ensemble, started, stopped and asked for
-- their leader.
pub mod Leader
pub mod Switches
pub mod Workload
pub mod Quorums
pub mod Comprehensive
use frugal_leader_election.Base.{
  ℕ, zero, suc, ◌+◌, ◌%◌, Bool, true, false, Option, none, some, List, [], ◌∷◌, ◌++◌, Text, codes,
  length, map, ◌==◌, if◌then◌else◌,
}
use frugal_leader_election.Base.Result.{ok, err, value_error}
use frugal_leader_election.Base.Dict.{Dict, get, values}
use frugal_leader_election.Base.Equality.{nat_eq}
use frugal_leader_election.Text.{has_substring}
use frugal_leader_election.Text.Decimal.{decimal}
use frugal_leader_election.Remote.{
  Action, History, World, sudo, run, put, sleep, Prog, pure, raise, script, attempt, each,
  enumerate, in_range, try_each, run_each, ◌>>=◌, ◌>>◌,
}
use frugal_leader_election.Tasks.{nth}

abbrev pub stop_command : Text
stop_command = codes "~/zookeeper/bin/zkServer.sh stop"

abbrev pub start_command : Text
start_command = codes "~/zookeeper/bin/zkServer.sh start"

abbrev pub status_command : Text
status_command = codes "/users/PeterYao/zookeeper/bin/zkServer.sh status"

-- The servers by their number, in the order in which they were loaded.
module _ (connections : Dict ℕ Text) where
  unfoldable pub kill_node : ℕ → Prog (Unit {0})
  kill_node node_id = elim (get node_id connections) [
    | none ↦ pure tt
    | some host ↦ attempt (script (sudo host stop_command ∷ []))
  ]

  unfoldable pub start_node : ℕ → Prog (Unit {0})
  start_node node_id = elim (get node_id connections) [
    | none ↦ pure tt
    | some host ↦ attempt (script (sudo host start_command ∷ []))
  ]

  -- What the answer of one server does to `leader_node_id` and `leader_conn`.
  abbrev pub see : Option (ℕ × Text) → ℕ × Text → Option Text → Option (ℕ × Text)
  see found server none = found
  see found server (some stdout) =
      if has_substring (codes "leader") stdout then some server else found

  unfoldable pub ask_servers :
      Dict ℕ Text → Option (ℕ × Text) → World → History → Option (ℕ × Text) × History
  ask_servers [] found w h = (found, h)
  ask_servers ((node_id, host) ∷ servers) found w h =
      let status : Action = run host status_command in
      ask_servers servers (see found (node_id, host) (w.respond h status)) w (h ++ (status ∷ []))

  -- `get_leader`, which does not raise
  unfoldable pub get_leader : World → History → Option (ℕ × Text) × History
  get_leader w h = ask_servers connections none w h

  -- `list.remove`, or `none` for a `ValueError`
  abbrev pub remove : ℕ → List ℕ → Option (List ℕ)
  remove n [] = none
  remove n (m ∷ ms) =
      let rest = remove n ms in
      if n == m then some ms else elim rest [ none ↦ none | some ks ↦ some (m ∷ ks) ]

  -- The body of the loop in `designate_leader` up to the question for the leader
  unfoldable pub restart_others : List ℕ → Prog (Unit {0})
  restart_others others = each kill_node others >> script (sleep 25 ∷ []) >> each start_node others

  abbrev pub is_leader : ℕ → Option (ℕ × Text) → Bool
  is_leader node_id none = false
  is_leader node_id (some server) = server.0 == node_id

  -- The loop, for at most `fuel` rounds: `false` where the fuel ends before the loop.
  unfoldable pub until_leader : (fuel : ℕ) → ℕ → List ℕ → Option (ℕ × Text) → Prog Bool
  until_leader zero node_id ids leader w h = (ok (is_leader node_id leader), h)
  until_leader (suc fuel) node_id ids leader w h = elim (is_leader node_id leader) [
    | true ↦ (ok true, h)
    | false ↦ elim (remove node_id ids) [
      | none ↦ (err value_error, h)
      | some others ↦
          let (r, t) = restart_others others w h in
          elim r [
            | err e ↦ (err e, t)
            | ok u ↦ let (next, v) = get_leader w t in until_leader fuel node_id ids next w v
          ]
    ]
  ]

  unfoldable pub designate_leader : (fuel : ℕ) → ℕ → List ℕ → Prog Bool
  designate_leader fuel node_id ids w h =
      let (leader, t) = get_leader w h in until_leader fuel node_id ids leader w t

  -- `setup_ycsb`: a server that is not known ends the whole loop.
  abbrev pub ycsb_calls : Bool → Text → List Action
  ycsb_calls install_maven host =
      (if install_maven
        then run host (codes "sudo apt update && sudo apt install -y maven") ∷ []
        else [])
      ++ (run host (codes "git clone http://github.com/brianfrankcooper/YCSB.git")
          ∷ run host
              (codes "cd YCSB && mvn -pl site.ycsb:zookeeper-binding -am clean package -DskipTests")
          ∷ [])

  unfoldable pub setup_ycsb : Bool → List ℕ → Prog (Unit {0})
  setup_ycsb install_maven [] = pure tt
  setup_ycsb install_maven (node_id ∷ ids) = elim (get node_id connections) [
    | none ↦ pure tt
    | some host ↦ attempt (script (ycsb_calls install_maven host)) >> setup_ycsb install_maven ids
  ]

-- `kill_running_zk`, `start_zookeeper_server` and `check_leader_node` for the hosts of a group
unfoldable pub kill_running_zk : List Text → Prog (Unit {0})
kill_running_zk group =
    try_each (λ i host. sudo host stop_command ∷ sudo host (codes "pkill -f QuorumPeerMain") ∷ []) 0
      group

unfoldable pub start_zookeeper_server : List Text → Prog (Unit {0})
start_zookeeper_server group =
    try_each (λ i host. run host (codes "sudo ~/zookeeper/bin/zkServer.sh start") ∷ []) 0 group

unfoldable pub check_leader_node : List Text → Prog (Unit {0})
check_leader_node group =
    try_each
      (λ i host.
        run host (codes "/users/PeterYao/apache-zookeeper-3.8.4-bin/bin/zkServer.sh status") ∷ [])
      0 group

abbrev pub nodes_id_correspondence : List ℕ
nodes_id_correspondence = 0 ∷ 2 ∷ 1 ∷ 3 ∷ 4 ∷ []

-- `list.index`, or `none` for a `ValueError`
abbrev pub index_of : ℕ → List ℕ → Option ℕ
index_of n [] = none
index_of n (m ∷ ms) =
    let rest = index_of n ms in
    if n == m then some 0 else elim rest [ none ↦ none | some i ↦ some (suc i) ]

-- `group_list[(idx + i) % len(group_list)]` for `i` in a range
abbrev pub start_one : Text → List Action
start_one host =
    sudo host (codes "~/apache-zookeeper-3.8.4-bin/bin/zkServer.sh start") ∷ sleep 1 ∷ []

abbrev pub start_at : List Text → ℕ → Prog (Unit {0})
start_at group j = elim (nth j group) [
  | none ↦ pure tt
  | some host ↦ attempt (script (start_one host))
]

unfoldable pub start_in_turn : List Text → ℕ → Prog (Unit {0})
start_in_turn group idx = in_range (λ i. start_at group ((idx + i) % length group)) 0 (length group)

unfoldable pub start_zk_ensemble_with_designated_leader : List Text → ℕ → Prog (Unit {0})
start_zk_ensemble_with_designated_leader group leader =
    elim (index_of leader nodes_id_correspondence) [
      | none ↦ raise value_error
      | some idx ↦ start_in_turn group idx
    ]

-- `create_my_id`
abbrev pub my_id_calls : ℕ × Text → List Action
my_id_calls (id, host) =
    run host (codes "mkdir -p /users/PeterYao/zookeeper/data")
    ∷ run host (
        codes "echo "
        ++ (decimal (suc id) ++ codes " | sudo tee /users/PeterYao/zookeeper/data/myid"))
    ∷ []

unfoldable pub create_my_id : Dict ℕ Text → Prog (Unit {0})
create_my_id group_dict = run_each (λ i server. my_id_calls server) 0 group_dict

unfoldable pub upload_zoo_cfg : Text → Prog (Unit {0})
upload_zoo_cfg host =
    attempt (script (put host (codes "zoo.cfg") (codes "zookeeper/conf/zoo.cfg") ∷ []))

unfoldable pub download_zookeeper : Text → Prog (Unit {0})
download_zookeeper host = attempt (
    script (
      run host (
        codes
          "wget https://dlcdn.apache.org/zookeeper/zookeeper-3.8.4/apache-zookeeper-3.8.4-bin.tar.gz")
      ∷ run host (codes "tar -xvf apache-zookeeper-3.8.4-bin.tar.gz")
      ∷ run host (codes "rm apache-zookeeper-3.8.4-bin.tar.gz")
      ∷ []))

unfoldable pub download_zookeeper_github : Text → Prog (Unit {0})
download_zookeeper_github host = attempt (
    script (
      run host (
        codes
          "export JAVA_HOME=/usr/lib/jvm/java-11-openjdk-amd64 && cd zookeeper && mvn clean install -DskipTests")
      ∷ []))

unfoldable pub setup_java : Text → Prog (Unit {0})
setup_java host = attempt (
    script (
      run host (codes "sudo apt update")
      ∷ run host (codes "sudo apt install -y default-jdk")
      ∷ run host (codes "java -version")
      ∷ []))

unfoldable pub upload_new_logback_xml : Dict ℕ Text → Prog (Unit {0})
upload_new_logback_xml connections =
    try_each
      (λ i host.
        put host (codes "logback.xml") (codes "/users/PeterYao/apache-zookeeper-3.8.4-bin/conf")
        ∷ [])
      0 (values connections)
