-- ===== src/Safety.antt =====
-- scripts/safety_margin_analysis.py: the time from an election timeout to the next stale
-- AppendEntries message, which shows that the suspected leader was alive.
pub mod Pairs
use frugal_leader_election.Base.{
  ℕ, Bool, true, false, Option, none, some, List, [], ◌∷◌, ◌++◌, Text, codes, if◌then◌else◌,
}
use frugal_leader_election.Base.Int.{ℤ}
use frugal_leader_election.Base.Result.{Result, ok, err, value_error, or_raise, ◌>>=◌, for_each}
use frugal_leader_election.Regex.{Regex, lit, many, times, group, some_of, ◌⨾◌, find, group_of}
use frugal_leader_election.Text.{is_digit, not_newline}
use frugal_leader_election.Time.{Datetime, Timedelta, strptime, minus}

-- `I(\d{8} \d{2}:\d{2}:\d{2}\.\d+)`
abbrev pub head_re : Regex
head_re =
    lit (codes "I")
    ⨾ group 1 (
        times 8 is_digit
        ⨾ lit (codes " ")
        ⨾ times 2 is_digit
        ⨾ lit (codes ":")
        ⨾ times 2 is_digit
        ⨾ lit (codes ":")
        ⨾ times 2 is_digit
        ⨾ lit (codes ".")
        ⨾ some_of is_digit)

abbrev pub election_timeout_pattern : Regex
election_timeout_pattern =
    head_re
    ⨾ many not_newline
    ⨾ lit (codes "Election timeout occurred. Suspected leader failure count: ")
    ⨾ some_of is_digit

abbrev pub stale_append_entries_pattern : Regex
stale_append_entries_pattern =
    head_re ⨾ many not_newline ⨾ lit (codes "Received Stale AppendEntries from ") ⨾ many not_newline

-- `time_diffs` and `last_election_timeout_time`
pub record State : Type 0 where
  pub time_diffs : List Timedelta
  pub last : Option Datetime

abbrev pub start : State
start = record { time_diffs = []; last = none }

-- The branch for a stale message, with the text of its time.
unfoldable pub on_stale : State → Text → Result State
on_stale s stamp = elim s.last [
  | none ↦ ok s
  | some t ↦ do
    u ← or_raise (strptime stamp) value_error
    ok (record { time_diffs = s.time_diffs ++ (minus u t ∷ []); last = none })
]

unfoldable pub step : State → Text → Result State
step s line = elim (find election_timeout_pattern line) [
  | some m ↦ do t ← or_raise (strptime (group_of 1 m)) value_error; ok (record s { last = some t })
  | none ↦ elim (find stale_append_entries_pattern line) [
    | none ↦ ok s
    | some m ↦ on_stale s (group_of 1 m)
  ]
]

unfoldable pub process_log_file : List Text → Result (List Timedelta)
process_log_file lines = for_each step start lines >>= λ s. ok s.time_diffs

-- `analyze_logs_in_folder`: the differences of all files, which it then summarises.
unfoldable pub analyze_logs : List (List Text) → Result (List Timedelta)
analyze_logs [] = ok []
analyze_logs (lines ∷ files) = do
  diffs ← process_log_file lines
  rest ← analyze_logs files
  ok (diffs ++ rest)
