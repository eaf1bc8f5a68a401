-- ===== src/Tasks/Clients.antt =====
-- The tasks that run clients on the nodes and collect what they measured.
pub mod Robust
use frugal_leader_election.Base.{
  ℕ, suc, ◌+◌, Bool, true, false, none, some, List, [], ◌∷◌, ◌++◌, Text, codes, take,
}
use frugal_leader_election.Base.Result.{Result, ok, err, index_error, file_not_found}
use frugal_leader_election.Text.Decimal.{decimal}
use frugal_leader_election.Remote.{
  Action, History, World, sudo, run, get, sleep, local, make_dirs, move, Prog, pure, raise, script,
  attempt, each, in_range, try_each, ◌>>=◌, ◌>>◌,
}
use frugal_leader_election.Tasks.{nodes, bind_ips, bind_ip, nth, remote_base, remote_thp}
use frugal_leader_election.Tasks.Logs.{fetch_result}
use frugal_leader_election.Tasks.Servers.{start_remote_default}

-- `bazel-bin/client` with its arguments
abbrev pub client_words : (server_ip server_port value : Text) → ℕ → Text → Text
client_words server_ip server_port value client_id ip =
    codes " && nohup bazel-bin/client "
    ++ (server_ip
        ++ (codes " "
            ++ (server_port
                ++ (codes " maxcap "
                    ++ (value ++ (codes " " ++ (decimal client_id ++ (codes " " ++ ip))))))))

-- `start_client_remote`
abbrev pub client_on : (host server_ip server_port value ip : Text) → List Action
client_on host server_ip server_port value ip =
    sudo host (codes "killall client")
    ∷ run host (
        codes "cd frugal-leader-election"
        ++ (client_words server_ip server_port value 316 ip ++ codes "> client.log 2>&1 &"))
    ∷ sleep 100
    ∷ run host (codes "killall client")
    ∷ []

unfoldable pub start_client_remote :
    (remote_host_id : ℕ) (server_ip server_port value ip : Text) → Prog (Unit {0})
start_client_remote remote_host_id server_ip server_port value ip =
    elim (nth remote_host_id nodes) [
      | none ↦ raise index_error
      | some host ↦ attempt (script (client_on host server_ip server_port value ip))
    ]

-- The clients of all nodes, in `folder`, with the random number of each.
abbrev pub launch_client :
    (folder server_ip server_port value : Text) → (ℕ → ℕ) → ℕ → Text → List Action
launch_client folder server_ip server_port value client_ids i host =
    sudo host (codes "killall client")
    ∷ run host (
        codes "cd "
        ++ (folder
            ++ (client_words server_ip server_port value (client_ids i) (bind_ip i)
                ++ codes " > client_remote.log 2>&1 &")))
    ∷ []

abbrev pub kill_programs : Text → ℕ → Text → List Action
kill_programs programs i host = sudo host (codes "killall " ++ programs) ∷ []

-- `for f in files: try: shutil.move(f, os.path.join(folder, f))`
abbrev pub move_into : Text → ℕ → Text → List Action
move_into folder i file = move file (folder ++ (codes "/" ++ file)) ∷ []

-- The loop over `glob.glob(pattern)`
unfoldable pub archive_all : (folder pattern : Text) → Prog (Unit {0})
archive_all folder pattern w h = try_each (move_into folder) 0 (w.glob h pattern) w h

-- `start_clients_remote`, with the folder that is named by the clock
unfoldable pub start_clients_remote :
    (leader_id : ℕ) (server_port value : Text) (client_ids : ℕ → ℕ) (folder_name : Text)
    → Prog (Unit {0})
start_clients_remote leader_id server_port value client_ids folder_name =
    elim (nth leader_id bind_ips) [
      | none ↦ raise index_error
      | some server_ip ↦
          try_each
            (launch_client (codes "frugal-leader-election") server_ip server_port value client_ids)
            0 (take 5 nodes)
          >> script (sleep 200 ∷ [])
          >> try_each (kill_programs (codes "client")) 0 nodes
          >> try_each (fetch_result []) 0 (take 5 nodes)
          >> attempt (script (local (codes "python3" ∷ codes "sum_all_clients.py" ∷ []) ∷ []))
          >> script (make_dirs folder_name ∷ [])
          >> archive_all folder_name (codes "client_remote_*.log")
    ]

-- The parts that `start_clients_remote_collect` and `test_petition` share: the summary of each
-- node, its download, the merge and the archive.
abbrev pub summarise : ℕ → Text → List Action
summarise i host =
    run host (
      codes "cd "
      ++ (remote_base
          ++ (codes " && python3 "
              ++ (remote_thp ++ codes " client_remote.log --out thp_summary.csv"))))
    ∷ []

abbrev pub download_summary : ℕ → Text → List Action
download_summary i host =
    get host (codes "/users/PeterYao/frugal-leader-election/thp_summary.csv")
      (codes "thp_" ++ (decimal i ++ codes ".csv"))
    ∷ []

abbrev pub merge_call : List Text → Action
merge_call fs = local (
    (codes "python3" ∷ codes "merge_thp_summaries.py" ∷ fs)
    ++ (codes "--plot"
        ∷ codes "combined_throughput.png"
        ∷ codes "--csv"
        ∷ codes "combined_throughput.csv"
        ∷ []))

-- Only with files to merge. A merge that fails is a `CalledProcessError`, which is caught. Where no
-- python3 can be started on this machine, `subprocess.run` raises another error, which is not.
unfoldable pub merge_files : Bool → List Text → Prog (Unit {0})
merge_files has_python [] = pure tt
merge_files true (f ∷ fs) = attempt (script (merge_call (f ∷ fs) ∷ []))
merge_files false (f ∷ fs) = raise file_not_found

-- `sorted` is a parameter, as the order of texts is not used elsewhere.
unfoldable pub merge_summaries : Bool → (List Text → List Text) → Prog (Unit {0})
merge_summaries has_python sorted w h =
    merge_files has_python (sorted (w.glob h (codes "thp_*.csv"))) w h

abbrev pub merged_files : List Text
merged_files = codes "combined_throughput.png" ∷ codes "combined_throughput.csv" ∷ []

-- `if os.path.exists(fname)`: a name without wildcards matches the file itself.
unfoldable pub archive_existing : (folder : Text) → Text → Prog (Unit {0})
archive_existing folder fname w h = elim (w.glob h fname) [
  | [] ↦ pure tt w h
  | _ ∷ _ ↦ attempt (script (move fname (folder ++ (codes "/" ++ fname)) ∷ [])) w h
]

-- Both lists of files are made before the first file is moved.
unfoldable pub archive_outputs : Text → Prog (Unit {0})
archive_outputs ts_folder w h =
    (try_each (move_into ts_folder) 0
          (w.glob h (codes "client_remote_*.log") ++ w.glob h (codes "thp_*.csv"))
        >> each (archive_existing ts_folder) merged_files)
      w h

unfoldable pub collect_summaries : Bool → (List Text → List Text) → Text → Prog (Unit {0})
collect_summaries has_python sorted ts_folder =
    try_each summarise 0 (take 5 nodes)
    >> try_each download_summary 0 (take 5 nodes)
    >> merge_summaries has_python sorted
    >> script (make_dirs ts_folder ∷ [])
    >> archive_outputs ts_folder

unfoldable pub start_clients_remote_collect :
    (has_python : Bool) (sorted : List Text → List Text) (leader_id : ℕ) (server_port value : Text)
    (client_ids : ℕ → ℕ) (ts_folder : Text) (run_seconds : ℕ)
    → Prog (Unit {0})
start_clients_remote_collect has_python sorted leader_id server_port value client_ids ts_folder
      run_seconds =
    elim (nth leader_id bind_ips) [
      | none ↦ raise index_error
      | some server_ip ↦
          try_each (launch_client remote_base server_ip server_port value client_ids) 0
            (take 5 nodes)
          >> script (sleep run_seconds ∷ [])
          >> try_each (kill_programs (codes "client")) 0 (take 5 nodes)
          >> collect_summaries has_python sorted ts_folder
    ]

-- `batch_experiments_motivation`, with the random numbers and the folder of each round
unfoldable pub batch_experiments_motivation :
    (has_python : Bool) (sorted : List Text → List Text) (leader_id : ℕ) (server_port value : Text)
    (client_ids : ℕ → ℕ → ℕ) (ts_folder : ℕ → Text) (runs : ℕ)
    → Prog (Unit {0})
batch_experiments_motivation has_python sorted leader_id server_port value client_ids ts_folder
      runs =
    in_range
      (λ i.
        start_remote_default
        >> start_clients_remote_collect has_python sorted leader_id server_port value (client_ids i)
            (ts_folder i) 150)
      1 runs

-- `test_petition`: the delay on the network card of the fourth node
abbrev pub petition_host : Text
petition_host = codes "amd139.utah.cloudlab.us"

abbrev pub set_delay : Text → Action
set_delay delay = run petition_host (
    codes
      "sudo tc qdisc del dev enp65s0f0np0 root || true ; sudo tc qdisc add dev enp65s0f0np0 root netem delay "
    ++ delay)

unfoldable pub test_petition :
    (has_python : Bool) (sorted : List Text → List Text) (leader_id : ℕ) (server_port value : Text)
    (client_ids : ℕ → ℕ) (ts_folder : Text)
    → Prog (Unit {0})
test_petition has_python sorted leader_id server_port value client_ids ts_folder =
    script (set_delay (codes "0.5ms") ∷ [])
    >> start_remote_default
    >> elim (nth leader_id bind_ips) [
      | none ↦ raise index_error
      | some server_ip ↦
          try_each (launch_client remote_base server_ip server_port value client_ids) 0
            (take 5 nodes)
          >> script (
              sleep 55
              ∷ set_delay (codes "12ms")
              ∷ run petition_host (codes "sudo tc qdisc show dev enp65s0f0np0")
              ∷ sleep 120
              ∷ [])
          >> try_each (kill_programs (codes "client leader_election")) 0 (take 5 nodes)
          >> collect_summaries has_python sorted ts_folder
    ]
