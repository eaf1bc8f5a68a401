-- ===== src/Zookeeper/Comprehensive.antt =====
-- The experiments of scripts/zookeeper_setup.py that no other code calls, and its main program.
use frugal_leader_election.Base.{
  ℕ, Bool, Option, none, some, List, [], ◌∷◌, ◌++◌, Text, codes, if◌then◌else◌,
}
use frugal_leader_election.Base.Dict.{Dict, get}
use frugal_leader_election.Base.Equality.{nat_eq}
use frugal_leader_election.Base.Result.{ok, err, value_error, index_error, unbound_local}
use frugal_leader_election.Text.Decimal.{decimal}
use frugal_leader_election.Remote.{
  Action, run, sudo, get as download, load_yaml, sleep, Prog, pure, script, attempt, ◌>>◌,
}
use frugal_leader_election.Delays.{add_delay_to_all_nodes}
use frugal_leader_election.Tasks.{nth}
use frugal_leader_election.Zookeeper.{get_leader, nodes_id_correspondence, index_of}
use frugal_leader_election.Remote.Threads.{thread_of}
use frugal_leader_election.Zookeeper.Switches.{
  Switch, setup_delay_fat_tree_normal, clear_all_switch_weights,
}

-- `nodes`, which is also the group
abbrev pub nodes : List Text
nodes =
    codes "PeterYao@c220g1-031111.wisc.cloudlab.us"
    ∷ codes "PeterYao@c220g1-031117.wisc.cloudlab.us"
    ∷ codes "PeterYao@c220g1-031130.wisc.cloudlab.us"
    ∷ codes "PeterYao@c220g1-031119.wisc.cloudlab.us"
    ∷ codes "PeterYao@c220g1-031105.wisc.cloudlab.us"
    ∷ []

abbrev pub server_calls : Text → List Action
server_calls host =
    sudo host (codes "~/apache-zookeeper-3.8.4-bin/bin/zkServer.sh stop")
    ∷ sleep 4
    ∷ sudo host (codes "~/apache-zookeeper-3.8.4-bin/bin/zkServer.sh start")
    ∷ []

-- One run of the workload on the leader, for the read and the write ratio and their names in the file
pub record Ratios : Type 0 where
  pub read : Text
  pub write : Text
  pub read_name : Text
  pub write_name : Text

abbrev pub comprehensive_output : (latency_mean std_dev dist_name : Text) → Ratios → ℕ → Text
comprehensive_output latency_mean std_dev dist_name r leader =
    codes "zk_lat_leader_node"
    ++ (decimal leader
        ++ (codes "_"
            ++ (latency_mean
                ++ (codes "_"
                    ++ (std_dev
                        ++ (codes "_"
                            ++ (dist_name
                                ++ (codes "_read_"
                                    ++ (r.read_name
                                        ++ (codes "_write_"
                                            ++ (r.write_name ++ codes ".txt")))))))))))

abbrev pub comprehensive_command : Ratios → (ip output : Text) → Text
comprehensive_command r ip output =
    codes
      "\n                cd ~/YCSB\n                ./bin/ycsb run zookeeper -threads 1 -P workloads/workloadb                 -p zookeeper.connectString="
    ++ (ip
        ++ (codes ":2181/benchmark                 -p readproportion="
            ++ (r.read
                ++ (codes " -p updateproportion="
                    ++ (r.write
                        ++ (codes
                              "                 -p operationcount=1000000                 -p hdrhistogram.percentiles=10,25,50,75,90,95,99,99.5                 -p histogram.buckets=500 > "
                            ++ (output ++ codes "\n            ")))))))

module _ (connections : Dict ℕ Text) where
  -- The servers in the order of the group: a leader that is not known raises.
  unfoldable pub kill_leader_then_reinstatiate : Prog (Unit {0})
  kill_leader_then_reinstatiate w h =
      let (leader, t) = get_leader connections w h in
      elim leader [
        | none ↦ (err value_error, t)
        | some server ↦ elim (index_of server.0 nodes_id_correspondence) [
          | none ↦ (err value_error, t)
          | some seq ↦ elim (nth seq nodes) [
            | none ↦ (err index_error, t)
            | some host ↦
                attempt
                  (script (server_calls host) >> λ v u. (ok tt, (get_leader connections v u).1)) w t
          ]
        ]
      ]

  -- The address of the leader. A leader that is not in the YAML file has that of the round before.
  abbrev pub address : Option Text → Option Text → Option Text
  address none old = old
  address (some ip) old = some ip

  -- The loop over the ratios; without a leader the experiment ends.
  unfoldable pub runs_from_leader :
      (zk_ip_addr : Dict ℕ Text) (latency_mean std_dev dist_name : Text)
      → Option Text
      → List Ratios
      → Prog (Unit {0})
  runs_from_leader zk_ip_addr latency_mean std_dev dist_name old [] w h = (ok tt, h)
  runs_from_leader zk_ip_addr latency_mean std_dev dist_name old (r ∷ rs) w h =
      let (leader, t) = get_leader connections w h in
      elim leader [
        | none ↦ (ok tt, t)
        | some (leader_node_id, host) ↦ elim (address (get leader_node_id zk_ip_addr) old) [
          | none ↦ (err unbound_local, t)
          | some ip ↦
              let output = comprehensive_output latency_mean std_dev dist_name r leader_node_id in
              (script (
                    run host (comprehensive_command r ip output)
                    ∷ download host (codes "/users/PeterYao/YCSB/" ++ output) output
                    ∷ [])
                  >> runs_from_leader zk_ip_addr latency_mean std_dev dist_name (some ip) rs)
                w t
        ]
      ]

  -- `comprehensive_exp`, for the nine pairs of ratios
  unfoldable pub comprehensive_exp :
      (zk_ip_addr : Dict ℕ Text) (latency_mean std_dev dist_name : Text) (run_from_leader : Bool)
      → List Ratios
      → Prog (Unit {0})
  comprehensive_exp zk_ip_addr latency_mean std_dev dist_name run_from_leader ratios =
      add_delay_to_all_nodes latency_mean std_dev dist_name connections
      >> script (load_yaml (codes "nodes.yaml") ∷ [])
      >> (if run_from_leader
          then runs_from_leader zk_ip_addr latency_mean std_dev dist_name none ratios
          else pure tt)

-- `install_zookeeper_parallel`: what each thread calls in its `try`
abbrev pub install_calls : ℕ → Text → List Action
install_calls i host =
    run host (
      codes
        "export JAVA_HOME=/usr/lib/jvm/java-11-openjdk-amd64 && cd zookeeper && mvn clean install -DskipTests")
    ∷ []

unfoldable pub install_zookeeper_parallel : List Text → ℕ → List Action
install_zookeeper_parallel hosts j = thread_of install_calls hosts 0 j

-- The main program, behind its arguments
unfoldable pub main : {F : Type 0} → (F → F) → (F → Text) → List Switch → F → Text → Prog (Unit {0})
main triple str switch_info delay std =
    script (load_yaml (codes "fattree.yaml") ∷ [])
    >> clear_all_switch_weights switch_info
    >> setup_delay_fat_tree_normal triple str switch_info delay std
