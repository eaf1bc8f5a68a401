-- ===== src/Tests/Consistency.antt =====
-- Runs of the consistency check on small logs, and its theorems at one of them.
use frugal_leader_election.Base.{
  ℕ, ◌≤◌, ◌≡◌, refl, ◌↔◌, true, false, some, List, [], ◌∷◌, arith, Text, codes,
}
use frugal_leader_election.Base.Dict.{get, values}
use frugal_leader_election.Base.Equality.{nat_eq, list_eq}
use frugal_leader_election.Base.Sort.{member}
use frugal_leader_election.Text.{strip}
use frugal_leader_election.Text.Decimal.{decimal}
use frugal_leader_election.Regex.{find, search_from, run, greedy, eat, eat_one}
use frugal_leader_election.Consistency.{
  RaftLog, Logs, quorum, parse_line, parse_file, add_line, present, opinion, all_indices,
  index_consistent, check_indices, majority_consistent,
}
use frugal_leader_election.Consistency.Votes.{
  Agreed, held, votes, majority_consistent_iff, reported_iff, quorum_unique,
}
use frugal_leader_election.Consistency.Parse.{
  dump_line, parse_line-dump_line, last_entry, get-parse_file,
}

-- Three logs that agree on index 1. On index 2 each has its own entry.
abbrev first_log : RaftLog
first_log = (1, (1, codes "x")) ∷ (2, (1, codes "y")) ∷ []

abbrev second_log : RaftLog
second_log = (1, (1, codes "x")) ∷ (2, (2, codes "y")) ∷ []

abbrev third_log : RaftLog
third_log = (1, (1, codes "x")) ∷ []

abbrev three_logs : Logs
three_logs = (codes "a", first_log) ∷ (codes "b", second_log) ∷ (codes "c", third_log) ∷ []

quorum_test : quorum 5 ≡ 3
unfolding quorum
quorum_test = refl

majority_consistent_test : majority_consistent 2 three_logs ≡ (false, 2 ∷ [])
unfolding majority_consistent check_indices index_consistent all_indices opinion present decimal
majority_consistent_test = refl

majority_consistent_iff_example :
    ((majority_consistent 2 three_logs).0 ≡ true)
    ↔ ((idx : ℕ) → held idx (values three_logs) ≡ true → Agreed 2 idx (values three_logs))
majority_consistent_iff_example = majority_consistent_iff 2 three_logs (omega arith)

reported_iff_example :
    (member 2 (majority_consistent 2 three_logs).1 ≡ true)
    ↔ ((held 2 (values three_logs) ≡ true) × ¬ Agreed 2 2 (values three_logs))
reported_iff_example = reported_iff 2 2 three_logs (omega arith)

two_votes : quorum 3 ≤ votes (codes "1|x") 1 (values three_logs)
unfolding quorum opinion present decimal
two_votes = omega arith

quorum_unique_example : codes "1|x" ≡ codes "1|x"
quorum_unique_example =
    quorum_unique 1 (values three_logs) (codes "1|x") (codes "1|x") two_votes two_votes

abbrev dump_lines : List Text
dump_lines =
    codes "Index: 1, Term: 1, Command: a, Ballot: 0"
    ∷ codes "noise"
    ∷ codes "Index: 1, Term: 2, Command: b, Ballot: 0"
    ∷ []

parse_file_test : parse_file dump_lines ≡ (1, (2, codes "b")) ∷ []
unfolding parse_file add_line parse_line find search_from run greedy eat eat_one
parse_file_test = refl

get-parse_file_example : get 1 (parse_file dump_lines) ≡ last_entry 1 dump_lines
get-parse_file_example = get-parse_file 1 dump_lines

parse_line-dump_line_example :
    parse_line (dump_line 7 2 (codes "set x") (codes " 0")) ≡ some (7, (2, strip (codes "set x")))
parse_line-dump_line_example =
    parse_line-dump_line 7 2 (codes "set x") (codes " 0") (λ h. cc)
      (refl, (refl, (refl, (refl, (refl, tt))))) refl
