-- ===== src/Tests/Summaries.antt =====
-- Runs of the short scripts on small logs. A float is a natural number here.
use frugal_leader_election.Base.{◌+◌, ◌*◌, ◌≡◌, refl, none, some, [], ◌∷◌, codes}
use frugal_leader_election.Base.Result.{ok, err, exit, for_each}
use frugal_leader_election.Regex.{find, search_from, match_start, run, greedy, eat, eat_one}
use frugal_leader_election.Text.{natural}
use frugal_leader_election.Summaries.{
  count_leader, parse_file, add_file, sum_all_clients, note_timeout, note_file,
  parse_election_timeouts, process_election_timeouts,
}

count_leader_test :
    (count_leader none ≡ err (exit "1"))
    × (count_leader (
          some (
            codes "I1 received ENOUGH votes to become leader"
            ∷ codes "Received votes"
            ∷ codes "Received enough votes to become leader for term 2"
            ∷ []))
        ≡ ok 2)
unfolding count_leader find search_from match_start run greedy eat eat_one
count_leader_test = (refl, refl)

-- The second file has no latency.
sum_all_clients_test :
    sum_all_clients natural ◌+◌ ◌*◌ 0 1000 (
      codes "Overall Throughput : 20 req/s\nAverage latency: 3 ms\n"
      ∷ codes "Overall Throughput: 7 req/s\n"
      ∷ codes "Overall Throughput: 10 req/s\nAverage latency:5 ms\n"
      ∷ [])
    ≡ ok (30, 110)
unfolding sum_all_clients add_file parse_file for_each natural find search_from match_start run
    greedy eat eat_one
sum_all_clients_test = refl

process_election_timeouts_test :
    process_election_timeouts natural ◌+◌ ◌*◌ 0 1000 (
      (codes "a", codes "Using Raft timeout for election timeout: 2 seconds" ∷ codes "x" ∷ [])
      ∷ (codes "b", codes "Using Raft timeout for election timeout: 3 seconds" ∷ [])
      ∷ [])
    ≡ ok (some (2000 ∷ 3000 ∷ [], (codes "a", 2000) ∷ (codes "b", 3000) ∷ []))
unfolding process_election_timeouts parse_election_timeouts note_file note_timeout for_each natural
    find search_from match_start run greedy eat eat_one
process_election_timeouts_test = refl
