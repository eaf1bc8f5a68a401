-- ===== src/Queues.antt =====
-- scripts/concurrent_q_analysis.py: the times that messages wait in a queue, by their senders.
use frugal_leader_election.Base.{ℕ, ◌≡◌, none, some, List, [], Option, Text, codes}
use frugal_leader_election.Base.Dict.{Dict, get_or}
use frugal_leader_election.Base.Equality.{nat_eq, list_eq}
use frugal_leader_election.Regex.{Regex, lit, many, group, some_of, ◌⨾◌, find, group_of}
use frugal_leader_election.Text.{is_digit, not_newline, int}
use frugal_leader_election.Ycsb.Groups.{group_all}
use frugal_leader_election.Ycsb.Groups.Members.{values_with, get_or-group_all}

-- `\d+\.\d+\.\d+\.\d+`
abbrev address_re : Regex
address_re =
    some_of is_digit
    ⨾ lit (codes ".")
    ⨾ some_of is_digit
    ⨾ lit (codes ".")
    ⨾ some_of is_digit
    ⨾ lit (codes ".")
    ⨾ some_of is_digit

abbrev pub queue_re : Regex
queue_re =
    lit (codes "Received message from ")
    ⨾ group 1 address_re
    ⨾ many not_newline
    ⨾ lit (codes "Queue time: ")
    ⨾ group 2 (some_of is_digit)
    ⨾ lit (codes " microseconds")

-- The sender and the time that a line reports.
unfoldable pub queue_time : Text → Option (Text × ℕ)
queue_time line = elim (find queue_re line) [
  | none ↦ none
  | some m ↦ some (group_of 1 m, int (group_of 2 m))
]

unfoldable pub times : List Text → Dict Text (List ℕ)
times lines = group_all queue_time lines

-- The times of a sender are those that the lines report for it, in the order of the lines.
get_or-times :
    (ip : Text) (lines : List Text) → get_or ip [] (times lines) ≡ values_with queue_time ip lines
unfolding times
get_or-times ip lines = get_or-group_all queue_time ip lines
