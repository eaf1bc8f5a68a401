-- ===== src/Tests/Throughput.antt =====
-- Runs of the summaries of a client's log and of their sum, and of the two counts of messages.
use frugal_leader_election.Base.{ℕ, ◌+◌, ◌≡◌, refl, leb, ◌&&◌, List, [], ◌∷◌, Text, codes, map}
use frugal_leader_election.Base.Dict.{get_or}
use frugal_leader_election.Base.Equality.{nat_eq, list_eq}
use frugal_leader_election.Base.Int.{pos, ◌+ℤ◌, ◌-ℤ◌, ◌*ℤ◌}
use frugal_leader_election.Base.Result.{ok}
use frugal_leader_election.Regex.{find, search_from, run, greedy, lazy, eat, eat_one}
use frugal_leader_election.Time.{Datetime, strptime, plus, less, seconds}
use frugal_leader_election.Throughput.{success_timestamp, parse_success_timestamps, throughput}
use frugal_leader_election.Throughput.Buckets.{Outcome, throughput-Outcome}
use frugal_leader_election.Throughput.Merge.{Rows, read_summary, merge, all_files, merge-sum}
use frugal_leader_election.Quorums.{nodes_of, members, count_quorum_nodes}
use frugal_leader_election.Quorums.Lines.{
  Report, IsReport, line_of, mentions, count_quorum_nodes-mentions,
}
use frugal_leader_election.Queues.{queue_time, times}
use frugal_leader_election.Ycsb.Groups.{group_all}

-- 19:10:00 on 27 October 2024, in microseconds
abbrev ten_past : Datetime
ten_past = 63865653000000000

abbrev client_log : List Text
client_log =
    codes "I20241027 19:10:00.000000 12 client.cpp:9] Received ClientResponse: id=1 success=1"
    ∷ codes "I20241027 19:10:01.000000 12 client.cpp:9] Received ClientResponse: id=2 success=0"
    ∷ codes "I20241027 19:10:02.000000 12 client.cpp:9] Received ClientResponse: id=3 success=1"
    ∷ codes "I20241027 19:10:04.000000 12 client.cpp:9] Received ClientResponse: id=4 success=1"
    ∷ []

abbrev successes : List Datetime
successes = ten_past ∷ (ten_past + 2000000) ∷ (ten_past + 4000000) ∷ []

client_log_test : parse_success_timestamps client_log ≡ ok successes
unfolding parse_success_timestamps success_timestamp find search_from run greedy lazy eat eat_one
    strptime
client_log_test = refl

start_test : plus ten_past (seconds (pos 1)) ≡ ok (ten_past + 1000000)
unfolding plus ◌+ℤ◌ ◌*ℤ◌
start_test = refl

end_test : less (ten_past + 4000000) (seconds (pos 1)) ≡ ok (ten_past + 3000000)
unfolding less ◌-ℤ◌ ◌*ℤ◌
end_test = refl

throughput-Outcome_example :
    Outcome
      (λ t. leb (ten_past + 1000000) t && leb t (ten_past + 3000000))
      successes
      (throughput (pos 1) client_log)
throughput-Outcome_example =
    throughput-Outcome (pos 1) client_log client_log_test refl start_test end_test

abbrev two_files : List Rows
two_files = ((5, 2) ∷ (6, 1) ∷ []) ∷ ((6, 4) ∷ (9, 3) ∷ []) ∷ []

merge_test : merge two_files ≡ ok ((5, 2) ∷ (6, 5) ∷ (9, 3) ∷ [])
unfolding merge read_summary
merge_test = refl

merge-sum_example :
    get_or {K = ℕ} {V = ℕ} 6 0 ((5, 2) ∷ (6, 5) ∷ (9, 3) ∷ []) ≡ all_files 6 two_files
merge-sum_example = merge-sum two_files ((5, 2) ∷ (6, 5) ∷ (9, 3) ∷ []) 6 merge_test

abbrev quorum_lines : List Text
quorum_lines = codes "Commit with quorum size: 2 a b" ∷ codes "with quorum size: 2 b c" ∷ []

members_test : members quorum_lines ≡ codes "a" ∷ codes "b" ∷ codes "b" ∷ codes "c" ∷ []
unfolding nodes_of find search_from run greedy lazy eat eat_one
members_test = refl

abbrev queue_lines : List Text
queue_lines = codes "Received message from 10.0.0.2:1. Queue time: 17 microseconds" ∷ []

queue_time_test : times queue_lines ≡ (codes "10.0.0.2", 17 ∷ []) ∷ []
unfolding times group_all queue_time find search_from run greedy lazy eat eat_one
queue_time_test = refl

abbrev quorum_report : Report
quorum_report = record { before = codes "Commit "; size = 2; nodes = codes "a b"; rest = [] }

quorum_report-IsReport : IsReport quorum_report
quorum_report-IsReport = record {
  no_w = (refl, (refl, (refl, (refl, (refl, (refl, (refl, tt)))))));
  some_nodes = λ e. cc;
  one_line = (refl, (refl, (refl, tt)));
  no_blank = refl;
  ends = tt;
  last = refl;
}

count_quorum_nodes-mentions_example :
    get_or (codes "b") 0 (count_quorum_nodes (map line_of (quorum_report ∷ quorum_report ∷ [])))
    ≡ mentions (codes "b") (quorum_report ∷ quorum_report ∷ [])
count_quorum_nodes-mentions_example =
    count_quorum_nodes-mentions (codes "b") (quorum_report ∷ quorum_report ∷ [])
      (quorum_report-IsReport, (quorum_report-IsReport, tt))
