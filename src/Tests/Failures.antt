-- ===== src/Tests/Failures.antt =====
-- A run of the two functions that read failures, and their theorems there.
use frugal_leader_election.Base.{◌≡◌, refl, some, List, [], ◌∷◌, Text, codes}
use frugal_leader_election.Regex.{find, search_from, match_start, run, greedy, lazy, eat, eat_one}
use frugal_leader_election.Time.{strptime}
use frugal_leader_election.Durations.{stamp_at_start}
use frugal_leader_election.Failures.{
  failures_match, note_last, last_heartbeat_failure, occurrence_match, note_occurrence,
  failure_occurrences,
}
use frugal_leader_election.Failures.Reports.{last_report, last_heartbeat_failure-report}

abbrev failure_lines : List Text
failure_lines =
    codes
      "I20241027 19:10:00.000000 12 node.cpp:34] Heartbeat received from leader 1. False positive check mode is active, resetting election timeout. 2 failures out of 7"
    ∷ codes "I20241027 19:10:01.000000 12 node.cpp:34] Other"
    ∷ []

failure_occurrences_test : failure_occurrences 0 failure_lines ≡ (63865653000000000, 2) ∷ []
unfolding failure_occurrences note_occurrence occurrence_match find search_from run greedy lazy eat
    eat_one strptime
failure_occurrences_test = refl

last_heartbeat_failure_test : last_heartbeat_failure 0 failure_lines ≡ some (2, 7)
unfolding last_heartbeat_failure note_last failures_match stamp_at_start match_start find
    search_from run greedy lazy eat eat_one strptime
last_heartbeat_failure_test = refl

last_heartbeat_failure-report_example :
    last_heartbeat_failure 0 failure_lines ≡ last_report 0 failure_lines
last_heartbeat_failure-report_example = last_heartbeat_failure-report 0 failure_lines
