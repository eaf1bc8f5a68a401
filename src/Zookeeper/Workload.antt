-- ===== src/Zookeeper/Workload.antt =====
-- The YCSB workload that runs against the ensemble, and the experiments built from it.
pub mod Client
use frugal_leader_election.Base.{
  ℕ, zero, suc, ◌+◌, ◌*◌, Bool, true, false, Option, none, some, List, [], ◌∷◌, ◌++◌, Text, codes,
  ◌==◌, if◌then◌else◌,
}
use frugal_leader_election.Base.Result.{Result, ok, err, unbound_local, value_error}
use frugal_leader_election.Base.Dict.{Dict, get, values}
use frugal_leader_election.Base.Equality.{nat_eq}
use frugal_leader_election.Text.Decimal.{decimal}
use frugal_leader_election.Remote.{
  Action, History, World, sudo, run, get as download, load_yaml, sleep, Prog, pure, raise, script,
  attempt, each, in_range, ◌>>=◌, ◌>>◌,
}
use frugal_leader_election.Delays.{add_delay_to_node, clear_all_weights}
use frugal_leader_election.Zookeeper.{get_leader, designate_leader, kill_running_zk}
use frugal_leader_election.Zookeeper.Switches.{
  Switch, setup_delay_fat_tree, clear_all_switch_weights,
}

-- What one run of the workload is about.
pub record Settings : Type 0 where
  pub output_file_name : Text
  pub contact_leader : Bool
  pub threads_count : ℕ
  pub num_operations : ℕ
  pub read_ratio : Text
  pub write_ratio : Text

-- The line breaks of the command that are escaped leave the indentation behind.
abbrev pub ycsb_command : Settings → Text → Text
ycsb_command s ip =
    codes "\n            cd ~/YCSB\n            ./bin/ycsb run zookeeper -threads "
    ++ (decimal s.threads_count
        ++ (codes " -P workloads/workloadb             -p zookeeper.connectString="
            ++ (ip
                ++ (codes ":2181/benchmark             -p readproportion="
                    ++ (s.read_ratio
                        ++ (codes " -p updateproportion="
                            ++ (s.write_ratio
                                ++ (codes "             -p operationcount="
                                    ++ (decimal s.num_operations
                                        ++ (codes
                                              "             -p hdrhistogram.percentiles=10,25,50,75,90,95,99,99.5             -p histogram.buckets=500 > "
                                            ++ (s.output_file_name ++ codes "\n        ")))))))))))

-- The command for a client on another node, whose ratios are fixed
abbrev pub client_command : Settings → Text → Text
client_command s ip =
    codes "\n            cd ~/YCSB\n            ./bin/ycsb run zookeeper -threads "
    ++ (decimal s.threads_count
        ++ (codes " -P workloads/workloadb             -p zookeeper.connectString="
            ++ (ip
                ++ (codes
                      ":2181/benchmark             -p readproportion=0.2 -p updateproportion=0.8             -p insertorder=HASHED -p requestdistribution=uniform             -p operationcount="
                    ++ (decimal s.num_operations
                        ++ (codes
                              "             -p hdrhistogram.percentiles=10,25,50,75,90,95,99,99.5             -p histogram.buckets=500 > "
                            ++ (s.output_file_name ++ codes "\n        ")))))))

abbrev pub remote_output : Settings → Text
remote_output s = codes "/users/PeterYao/YCSB/" ++ s.output_file_name

-- The servers, and the address of each for ZooKeeper's clients, from the YAML file.
module _ (connections : Dict ℕ Text) (zk_ip_addr : Dict ℕ Text) where
  -- The leader is found, but its address may not be in the file: then the variable has no value.
  unfoldable pub run_on : Settings → ℕ × Text → Prog (Unit {0})
  run_on s (leader_node_id, host) = elim (get leader_node_id zk_ip_addr) [
    | none ↦ raise unbound_local
    | some ip ↦
        script (run host (ycsb_command s ip) ∷ [])
        >> attempt (script (download host (remote_output s) s.output_file_name ∷ []))
  ]

  unfoldable pub run_on_leader : Settings → Prog (Unit {0})
  run_on_leader s w h =
      let (leader, t) = get_leader connections w h in
      elim leader [ none ↦ (ok tt, t) | some server ↦ run_on s server w t ]

  -- The branch for a client on another node, with the value that `leader_zk_connection_ip` has
  -- there: a variable without a value raises where the command is put together.
  unfoldable pub run_on_client :
      (leader_zk_connection_ip : Option Text) (client_node_id server_node_id : ℕ)
      → Settings
      → Prog (Unit {0})
  run_on_client leader_zk_connection_ip client_node_id server_node_id s =
      elim (get client_node_id connections) [
        | none ↦ pure tt
        | some client ↦ elim (get server_node_id connections) [
          | none ↦ pure tt
          | some server ↦ elim leader_zk_connection_ip [
            | none ↦ raise unbound_local
            | some ip ↦
                script (run client (client_command s ip) ∷ [])
                >> attempt (script (download client (remote_output s) s.output_file_name ∷ []))
          ]
        ]
      ]

  -- `leader_zk_connection_ip` is set in the other branch only.
  unfoldable pub run_ycsb_workload_from_node :
      (client_node_id server_node_id : ℕ) → Settings → Prog (Unit {0})
  run_ycsb_workload_from_node client_node_id server_node_id s =
      script (load_yaml (codes "fattree_physical.yaml") ∷ [])
      >> (if s.contact_leader
          then run_on_leader s
          else run_on_client none client_node_id server_node_id s)

  -- `run_once`, with `1 - read_ratio` as text
  unfoldable pub run_once : Prog (Unit {0})
  run_once w h =
      (run_ycsb_workload_from_node 1 1 (record {
        output_file_name = codes "logtest.txt";
        contact_leader = true;
        threads_count = 1;
        num_operations = 5;
        read_ratio = codes "0";
        write_ratio = codes "1";
      })
          >> kill_running_zk (values connections))
        w (get_leader connections w h).1

  abbrev pub all_nodes : List ℕ
  all_nodes = 0 ∷ 1 ∷ 2 ∷ 3 ∷ 4 ∷ []

  -- `designate_leader` for its effect; `fuel` bounds the rounds of its loop.
  abbrev pub designate : (fuel : ℕ) → ℕ → Prog (Unit {0})
  designate fuel node_id = designate_leader connections fuel node_id all_nodes >>= λ done. pure tt

  -- Python's floats are a parameter: whether one is zero, and what the switches need of them.
  module _ {F : Type 0} (triple : F → F) (str : F → Text) (is_zero : F → Bool)
      (switch_info : List Switch) (fuel : ℕ) where
    abbrev pub delay_unless_zero : F → Prog (Unit {0})
    delay_unless_zero lat =
        if is_zero lat then pure tt else setup_delay_fat_tree triple str switch_info lat

    abbrev pub file_name : (leader_id : ℕ) → (latency : F) → (rest : Text) → ℕ → Text
    file_name leader_id latency rest thd_cnt =
        codes "zk_leader_node"
        ++ (decimal leader_id
            ++ (codes "_"
                ++ (str latency
                    ++ (codes "ms_" ++ (decimal thd_cnt ++ (codes "threads" ++ rest))))))

    -- `varying_thread_count_exp`: 10, 12 and so on up to 26 threads
    abbrev pub thread_run : ℕ → F → ℕ → Prog (Unit {0})
    thread_run leader_id latency i =
        let thd_cnt = 10 + 2 * i in
        run_ycsb_workload_from_node 0 0 (record {
          output_file_name = file_name leader_id latency (codes ".txt") thd_cnt;
          contact_leader = true;
          threads_count = thd_cnt;
          num_operations = 5000;
          read_ratio = codes "0.1";
          write_ratio = codes "0.9";
        })

    unfoldable pub varying_thread_count_exp : ℕ → F → Prog (Unit {0})
    varying_thread_count_exp leader_id latency =
        clear_all_switch_weights switch_info
        >> designate fuel leader_id
        >> delay_unless_zero latency
        >> in_range (thread_run leader_id latency) 0 9

    -- `varying_leader_exp` for its latencies
    abbrev pub leader_run : F → ℕ → Prog (Unit {0})
    leader_run lat j = run_ycsb_workload_from_node 0 0 (record {
      output_file_name =
          file_name 1 lat (codes "_base_delay_0_ms_run" ++ (decimal j ++ codes "_triple.txt")) 20;
      contact_leader = true;
      threads_count = 20;
      num_operations = 10000;
      read_ratio = codes "0.1";
      write_ratio = codes "0.9";
    })

    unfoldable pub varying_leader_exp : List F → Prog (Unit {0})
    varying_leader_exp latencies =
        clear_all_switch_weights switch_info
        >> designate fuel 1
        >> each (λ lat. delay_unless_zero lat >> in_range (leader_run lat) 0 3) latencies

  -- `varying_read_write_exp`, for its read ratios: how each is named in the file, it, and 1 less it
  abbrev pub ratio_run : Text × Text × Text → ℕ → Prog (Unit {0})
  ratio_run (name, read, write) j = run_ycsb_workload_from_node 0 0 (record {
    output_file_name =
        codes "zk_leader_node4_3ms_20threads_base_delay_0_ms_read_ratio_"
        ++ (name ++ (codes "_run" ++ (decimal j ++ codes ".txt")));
    contact_leader = true;
    threads_count = 20;
    num_operations = 10000;
    read_ratio = read;
    write_ratio = write;
  })

  unfoldable pub varying_read_write_exp : (fuel : ℕ) → List (Text × Text × Text) → Prog (Unit {0})
  varying_read_write_exp fuel ratios =
      clear_all_weights
      >> designate fuel 4
      >> add_delay_to_node 4 (codes "3") (codes "1") (codes "constant") connections []
      >> each (λ ratio. in_range (ratio_run ratio) 0 3) ratios
