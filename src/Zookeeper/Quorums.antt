-- ===== src/Zookeeper/Quorums.antt =====
-- How often each node is in a quorum of ZooKeeper's leader, between two times: the reader of the
-- leader's log, and the experiment that runs the workload and reads it.
pub mod Members
use frugal_leader_election.Base.{
  ℕ, zero, suc, ◌+◌, Bool, true, false, Option, none, some, List, [], ◌∷◌, ◌++◌, Text, codes,
  length, leb, ◌==◌, ◌&&◌, ◌||◌, is_some, if◌then◌else◌,
}
use mathlib.Core.List.{foldl}
use frugal_leader_election.Base.Dict.{Dict, get, contains}
use frugal_leader_election.Base.Equality.{nat_eq}
use frugal_leader_election.Base.Counter.{add_one}
use frugal_leader_election.Base.Result.{Result, ok, err}
use frugal_leader_election.Text.{is_digit, is_space, has_substring, split_blanks, split_on}
use frugal_leader_election.Text.Decimal.{decimal}
use frugal_leader_election.Regex.{
  Regex, lit, one, alt, times, group, line_end, optional, some_of, ◌⨾◌, match_start, find, group_of,
}
use frugal_leader_election.Time.{Datetime, strptime}
use frugal_leader_election.Remote.{
  Action, History, World, get as download, read_file, Prog, pure, ask, script, attempt, ◌>>=◌, ◌>>◌,
}
use frugal_leader_election.Text.{natural}
use frugal_leader_election.Zookeeper.Switches.{Switch, clear_all_switch_weights}
use frugal_leader_election.Zookeeper.Workload.{
  Settings, run_ycsb_workload_from_node, designate, delay_unless_zero, file_name,
}

abbrev pub one_or_two : Regex
one_or_two = alt (times 2 is_digit) (times 1 is_digit)

-- "%Y-%m-%d %H:%M:%S,%f", for the whole text. A field that is out of range fails below.
abbrev pub time_format : Regex
time_format =
    group 1 (times 4 is_digit)
    ⨾ lit (codes "-")
    ⨾ group 2 one_or_two
    ⨾ lit (codes "-")
    ⨾ group 3 one_or_two
    ⨾ lit (codes " ")
    ⨾ group 4 one_or_two
    ⨾ lit (codes ":")
    ⨾ group 5 one_or_two
    ⨾ lit (codes ":")
    ⨾ group 6 one_or_two
    ⨾ lit (codes ",")
    ⨾ group 7 (some_of is_digit)
    ⨾ line_end

-- A field of two digits, the first of which may be left out
abbrev pub two_digits : Text → Text
two_digits (c ∷ []) = b'0' ∷ c ∷ []
two_digits s = s

-- `strptime` in this format: the same time as that of the fields in the format of the other logs
unfoldable pub line_time : Text → Option Datetime
line_time s = elim (match_start time_format s) [
  | none ↦ none
  | some m ↦ strptime (
      group_of 1 m
      ++ (two_digits (group_of 2 m)
          ++ (two_digits (group_of 3 m)
              ++ (codes " "
                  ++ (two_digits (group_of 4 m)
                      ++ (codes ":"
                          ++ (two_digits (group_of 5 m)
                              ++ (codes ":"
                                  ++ (two_digits (group_of 6 m)
                                      ++ (codes "." ++ group_of 7 m))))))))))
]

-- `[0-9,\s]`
abbrev pub in_list : ℕ → Bool
in_list c = is_digit c || c == b',' || is_space c

abbrev pub quorum_pattern : Regex
quorum_pattern = lit (codes "[") ⨾ group 1 (some_of in_list) ⨾ lit (codes "]")

-- `[int(x) for x in parts if x.strip().isdigit()]`
abbrev pub numbers : List Text → List ℕ
numbers [] = []
numbers (x ∷ xs) = elim (natural x) [ none ↦ numbers xs | some n ↦ n ∷ numbers xs ]

-- `quorum_list` of a line
unfoldable pub quorum_list : Text → List ℕ
quorum_list line = elim (find quorum_pattern line) [
  | none ↦ []
  | some m ↦ numbers (split_on b',' (group_of 1 m))
]

-- The time of a line, if its first two tokens are one.
abbrev pub time_of : List Text → Option Datetime
time_of (date ∷ clock ∷ tokens) = line_time (date ++ (codes " " ++ clock))
time_of _ = none

-- `start_time <= line_time <= end_time`
abbrev pub lies_in : Datetime → Datetime → Option Datetime → Bool
lies_in start_time end_time none = false
lies_in start_time end_time (some t) = leb start_time t && leb t end_time

abbrev pub tracker_phrase : Text
tracker_phrase = codes "All quorums present in synced leader tracker:"

-- The nodes that a line counts for.
unfoldable pub members_of : Datetime → Datetime → Text → List ℕ
members_of start_time end_time line =
    if has_substring tracker_phrase line
      && lies_in start_time end_time (time_of (split_blanks line))
    then quorum_list line
    else []

-- `if node in counts: counts[node] += 1`
abbrev pub add_known : Dict ℕ ℕ → ℕ → Dict ℕ ℕ
add_known counts node = if contains node counts then add_one counts node else counts

-- `{i: 0 for i in range(1, 6)}`
abbrev pub no_counts : Dict ℕ ℕ
no_counts = (1, 0) ∷ (2, 0) ∷ (3, 0) ∷ (4, 0) ∷ (5, 0) ∷ []

abbrev pub count_line : Datetime → Datetime → Dict ℕ ℕ → Text → Dict ℕ ℕ
count_line start_time end_time counts line =
    foldl add_known counts (members_of start_time end_time line)

unfoldable pub parse_zookeeper_log : List Text → Datetime → Datetime → Dict ℕ ℕ
parse_zookeeper_log lines start_time end_time =
    foldl (count_line start_time end_time) no_counts lines

abbrev pub log_name : ℕ → Text
log_name id =
    codes "zookeeper-root-server-node-"
    ++ (decimal id ++ codes ".quorum.nyunetworks.emulab.net.out")

-- `download_zookeeper_log`
unfoldable pub download_zookeeper_log : ℕ → Text → Prog Text
download_zookeeper_log id host =
    attempt (
      script
        (download host (codes "/users/PeterYao/zookeeper/logs/" ++ log_name id) (log_name id) ∷ []))
    >> pure (log_name id)

-- The servers and their addresses, the switches, Python's floats, and the clock in London, which
-- depends on the calls made so far.
module _ (connections : Dict ℕ Text) (zk_ip_addr : Dict ℕ Text) {F : Type 0} (triple : F → F)
    (str : F → Text) (is_zero : F → Bool) (switch_info : List Switch) (fuel : ℕ)
    (get_london_time : History → Datetime) where
  -- An experiment by its latency and its number, with the times of its start and its end.
  abbrev pub Experiment : Type 0
  Experiment = (F × ℕ) × (Datetime × Datetime)

  unfoldable pub run_experiment : ℕ → F → ℕ → Prog Experiment
  run_experiment node_id lat j w h =
      let (r, t) =
        run_ycsb_workload_from_node connections zk_ip_addr 0 0
          (record {
            output_file_name =
                file_name connections zk_ip_addr triple str is_zero switch_info fuel node_id lat
                  (codes "_base_delay_0_ms_run" ++ (decimal j ++ codes "_quorum.txt")) 20;
            contact_leader = true;
            threads_count = 20;
            num_operations = 10000;
            read_ratio = codes "0.1";
            write_ratio = codes "0.9";
          })
          w h in
      elim r [
        | err e ↦ (err e, t)
        | ok u ↦ (ok ((lat, j), (get_london_time h, get_london_time t)), t)
      ]

  -- The three runs of a latency
  abbrev pub runs_of : ℕ → F → List ℕ → Prog (List Experiment)
  runs_of node_id lat [] = pure []
  runs_of node_id lat (j ∷ js) =
      run_experiment node_id lat j >>= λ e. runs_of node_id lat js >>= λ es. pure (e ∷ es)

  -- The loop over the latencies
  unfoldable pub leader_experiments : ℕ → List F → Prog (List Experiment)
  leader_experiments node_id [] = pure []
  leader_experiments node_id (lat ∷ lats) =
      delay_unless_zero connections zk_ip_addr triple str is_zero switch_info fuel lat
      >> runs_of node_id lat (0 ∷ 1 ∷ 2 ∷ [])
      >>= λ es. leader_experiments node_id lats >>= λ rest. pure (es ++ rest)

  -- What the plots of a leader show: its experiments, each with its counts.
  unfoldable pub read_counts : Text → List Experiment → Prog (List (Experiment × Dict ℕ ℕ))
  read_counts log [] = pure []
  read_counts log (e ∷ es) = ask (read_file log) >>= λ contents. read_counts log es >>= λ rest.
      pure ((e, parse_zookeeper_log (split_on 10 contents) (e.1).0 (e.1).1) ∷ rest)

  unfoldable pub quorums_of : ℕ → List F → Prog (List (Experiment × Dict ℕ ℕ))
  quorums_of node_id latencies =
      clear_all_switch_weights switch_info
      >> designate connections zk_ip_addr fuel node_id
      >> leader_experiments node_id latencies
      >>= λ es. elim (get node_id connections) [
        | none ↦ pure []
        | some host ↦ download_zookeeper_log node_id host >>= λ log. read_counts log es
      ]

  -- `varying_leader_quorum_exp`, for its leaders 1, 2 and 3 and its latencies
  unfoldable pub varying_leader_quorum_exp : List ℕ → List F → Prog (List (Experiment × Dict ℕ ℕ))
  varying_leader_quorum_exp [] latencies = pure []
  varying_leader_quorum_exp (node_id ∷ ids) latencies = quorums_of node_id latencies >>= λ counts.
      varying_leader_quorum_exp ids latencies >>= λ rest. pure (counts ++ rest)
