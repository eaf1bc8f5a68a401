-- ===== src/Tasks/Servers.antt =====
-- The tasks that start and stop the replicas.

pub mod Order
use frugal_leader_election.Base.{ℕ, suc, ◌+◌, none, some, List, [], ◌∷◌, ◌++◌, Text, codes}
use frugal_leader_election.Text.{strip, split_on}
use frugal_leader_election.Text.Decimal.{decimal}
use frugal_leader_election.Base.Result.{index_error}
use frugal_leader_election.Remote.{
  Action, sudo, run, put, sleep, load_yaml, Prog, raise, script, enumerate, in_range, try_each,
  run_each, ◌>>=◌, ◌>>◌,
}
use frugal_leader_election.Tasks.{nodes, binary_path, bind_ips, bind_ip, nth, without, node_name}
use frugal_leader_election.Tasks.Logs.{download_logs_default}

-- The command that starts a replica in the background, with its output in a file.
abbrev pub start_command : (config flags log : Text) → ℕ → Text
start_command config flags log replica_id =
    codes "cd frugal-leader-election && nohup "
    ++ (binary_path
        ++ (codes " --config="
            ++ (config
                ++ (codes " --replicaId="
                    ++ (decimal replica_id
                        ++ (flags ++ (codes " > scripts/" ++ (log ++ codes " 2>&1 &"))))))))

-- `start_remote`
abbrev pub log_subdir : Text → Text
log_subdir config_file = codes "logs/" ++ without (codes ".yaml") config_file

abbrev pub prepare_replica : Text → ℕ → Text → List Action
prepare_replica config_file i host =
    sudo host (codes "killall leader_election")
    ∷ run host (codes "mkdir -p frugal-leader-election/scripts/" ++ log_subdir config_file)
    ∷ []

abbrev pub start_replica : (config_file log_suffix : Text) → ℕ → Text → List Action
start_replica config_file log_suffix i host =
    run host (
      start_command (codes "configs/" ++ config_file) []
        (log_subdir config_file
          ++ (codes "/" ++ (node_name i ++ (codes "_" ++ (log_suffix ++ codes ".log")))))
        i)
    ∷ []

unfoldable pub start_remote : (config_file log_suffix : Text) → Prog (Unit {0})
start_remote config_file log_suffix =
    script (load_yaml (codes "../configs/" ++ config_file) ∷ [])
    >> run_each (prepare_replica config_file) 0 nodes
    >> try_each (start_replica config_file log_suffix) 0 nodes

abbrev pub remote_config_path : Text
remote_config_path = codes "/users/PeterYao/frugal-leader-election/configs/remote.yaml"

-- `start_remote_default`
abbrev pub put_config : ℕ → Text → List Action
put_config i host =
    put host (codes "/home/peter/frugal-leader-election/configs/remote.yaml") remote_config_path
    ∷ []

abbrev pub clean_default : ℕ → Text → List Action
clean_default i host =
    sudo host (codes "killall leader_election")
    ∷ sudo host (codes "killall client")
    ∷ run host (codes "mkdir -p frugal-leader-election/scripts/logs")
    ∷ run host (codes "rm -f frugal-leader-election/scripts/logs/*")
    ∷ []

abbrev pub start_default : Text → ℕ → Text → List Action
start_default flags i host =
    run host
      (start_command remote_config_path flags (codes "logs/" ++ (node_name i ++ codes ".log")) i)
    ∷ []

unfoldable pub start_remote_default : Prog (Unit {0})
start_remote_default =
    try_each put_config 0 nodes
    >> script (load_yaml (codes "../configs/remote.yaml") ∷ [])
    >> run_each clean_default 0 nodes
    >> try_each (start_default (codes " --minloglevel=0")) 0 nodes

-- `start_remote_default_with_client`, with the random number of the client
abbrev pub clean_with_client : ℕ → Text → List Action
clean_with_client i host =
    sudo host (codes "killall leader_election")
    ∷ run host (codes "mkdir -p frugal-leader-election/scripts/logs")
    ∷ run host (codes "rm -f frugal-leader-election/scripts/logs/*")
    ∷ []

abbrev pub first_host : Text
first_host = codes "amd128.utah.cloudlab.us"

abbrev pub client_here : (server_ip server_port send_mode value : Text) → ℕ → List Action
client_here server_ip server_port send_mode value client_id =
    run first_host (
      codes "cd frugal-leader-election && nohup bazel-bin/client "
      ++ (server_ip
          ++ (codes " "
              ++ (server_port
                  ++ (codes " "
                      ++ (send_mode
                          ++ (codes " "
                              ++ (value
                                  ++ (codes " "
                                      ++ (decimal client_id
                                          ++ (codes " "
                                              ++ (bind_ip 4
                                                  ++ codes " > client_remote.log 2>&1"))))))))))))
    ∷ sleep 100
    ∷ []

unfoldable pub start_remote_default_with_client :
    (leader_id : ℕ) (server_port send_mode value : Text) (client_id : ℕ) → Prog (Unit {0})
start_remote_default_with_client leader_id server_port send_mode value client_id =
    try_each put_config 0 nodes
    >> script (load_yaml (codes "../configs/remote.yaml") ∷ [])
    >> run_each clean_with_client 0 nodes
    >> try_each (start_default (codes " --minloglevel=1")) 0 nodes
    >> elim (nth leader_id bind_ips) [
      | none ↦ raise index_error
      | some server_ip ↦ script (client_here server_ip server_port send_mode value client_id)
    ]

-- `count_leader`
unfoldable pub count_leader : Prog (Unit {0})
count_leader =
    run_each
      (λ i host.
        run host (
          codes "cd frugal-leader-election/scripts && python3 count_leader.py logs/node_"
          ++ (decimal i ++ codes ".log"))
        ∷ [])
      1 nodes

-- `run_iperf3_servers` and `run_iperf3_clients`
abbrev pub iperf_command : Text → ℕ → Text
iperf_command mode i =
    codes "python3 frugal-leader-election/scripts/background_tcp_simulation/iperf_tcp_gen.py "
    ++ (decimal i ++ (codes " " ++ mode))

unfoldable pub run_iperf3_servers : Prog (Unit {0})
run_iperf3_servers = try_each (λ i host. run host (iperf_command (codes "server") i) ∷ []) 1 nodes

unfoldable pub run_iperf3_clients : Prog (Unit {0})
run_iperf3_clients = try_each (λ i host. sudo host (iperf_command (codes "client") i) ∷ []) 1 nodes

-- `killall_remote`, `killall_python` and `killall_remote_iperf`
abbrev pub kill_on : Text → ℕ → Text → List Action
kill_on program i host = sudo host (codes "killall " ++ program) ∷ []

unfoldable pub killall_remote : Prog (Unit {0})
killall_remote = try_each (kill_on (codes "leader_election")) 0 nodes

unfoldable pub killall_python : Prog (Unit {0})
killall_python = try_each (kill_on (codes "python3")) 0 nodes

unfoldable pub killall_remote_iperf : Prog (Unit {0})
killall_remote_iperf = try_each (kill_on (codes "iperf3")) 0 nodes

-- One round of `run_multiple_experiments`
unfoldable pub experiment : (config_file : Text) (wait_time i : ℕ) → Prog (Unit {0})
experiment config_file wait_time i =
    start_remote config_file (codes "run_" ++ decimal (suc i))
    >> script (sleep wait_time ∷ [])
    >> killall_remote

unfoldable pub run_multiple_experiments :
    (config_file : Text) (times wait_time : ℕ) → Prog (Unit {0})
run_multiple_experiments config_file times wait_time =
    in_range (experiment config_file wait_time) 0 times

-- `automate_exp`, with the text that the clock gives for the folder of each round
unfoldable pub automate_exp : Text → (ℕ → Text) → Prog (Unit {0})
automate_exp config_files timestamp =
    enumerate
      (λ i config_file.
        run_multiple_experiments (strip config_file) 5 530 >> download_logs_default (timestamp i))
      0 (split_on b',' config_files)
