-- ===== src/Tasks/Logs.antt =====
-- The tasks that fetch logs and results.
use frugal_leader_election.Base.{ℕ, suc, ◌+◌, ◌-◌, List, [], ◌∷◌, ◌++◌, Text, codes, take}
use frugal_leader_election.Text.Decimal.{decimal}
use frugal_leader_election.Remote.{
  Action, run, get, make_dirs, Prog, script, in_range, try_each, ◌>>◌,
}
use frugal_leader_election.Tasks.{nodes, node_name}

abbrev pub downloaded_logs : Text → Text
downloaded_logs name = codes "downloaded_logs/" ++ name

-- `download_logs`. `log_dir_name` is the argument, or what the clock gives for it.
abbrev pub download_log : (log_dir_name log_suffix : Text) → ℕ → Text → List Action
download_log log_dir_name log_suffix i host =
    let file : Text = node_name i ++ (codes "_" ++ (log_suffix ++ codes ".log")) in
    get host
      (codes "/users/PeterYao/frugal-leader-election/scripts/logs/"
        ++ (log_dir_name ++ (codes "/" ++ file)))
      (downloaded_logs log_dir_name ++ (codes "/" ++ file))
    ∷ []

unfoldable pub download_logs : (log_dir_name log_suffix : Text) → Prog (Unit {0})
download_logs log_dir_name log_suffix =
    script (make_dirs (downloaded_logs log_dir_name) ∷ [])
    >> try_each (download_log log_dir_name log_suffix) 0 (take 1 nodes)

unfoldable pub download_multi_logs : (log_dir_name : Text) (start_idx end_idx : ℕ) → Prog (Unit {0})
download_multi_logs log_dir_name start_idx end_idx =
    script (make_dirs (downloaded_logs log_dir_name) ∷ [])
    >> in_range (λ idx. download_logs log_dir_name (codes "run_" ++ decimal idx)) start_idx
        (end_idx + 1 - start_idx)

-- `download_logs_default`, with the text that the clock gives
abbrev pub download_default : Text → ℕ → Text → List Action
download_default timestamp i host =
    get host
      (codes "/users/PeterYao/frugal-leader-election/scripts/logs/"
        ++ (node_name i ++ codes ".log"))
      (downloaded_logs timestamp ++ (codes "/" ++ (node_name i ++ codes ".log")))
    ∷ []

unfoldable pub download_logs_default : Text → Prog (Unit {0})
download_logs_default timestamp =
    script (make_dirs (downloaded_logs timestamp) ∷ [])
    >> try_each (download_default timestamp) 0 nodes

-- `get_results`
abbrev pub client_remote : ℕ → Text
client_remote i = codes "client_remote_" ++ (decimal i ++ codes ".log")

abbrev pub fetch_result : Text → ℕ → Text → List Action
fetch_result blank i host =
    run host (
      codes
        "cd ~/frugal-leader-election && python3 scripts/analyze_resp_time.py client_remote.log > result.txt 2>&1"
      ++ blank)
    ∷ get host (codes "/users/PeterYao/frugal-leader-election/result.txt") (client_remote i)
    ∷ []

unfoldable pub get_results : Prog (Unit {0})
get_results = try_each (fetch_result (codes " ")) 0 (take 5 nodes)

-- `analyze_logs_false_pos`
abbrev pub analyze_false_pos : ℕ → Text → List Action
analyze_false_pos i host =
    run host
      (codes "cd frugal-leader-election/scripts && python3 extract_failure.py " ++ decimal (suc i))
    ∷ make_dirs (codes "plots")
    ∷ get host (codes "failure_occurrences.png")
        (codes "plots/leader_failure_node_" ++ (decimal (suc i) ++ codes "_downloaded.png"))
    ∷ []

unfoldable pub analyze_logs_false_pos : Prog (Unit {0})
analyze_logs_false_pos = try_each analyze_false_pos 0 nodes
