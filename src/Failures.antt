-- ===== src/Failures.antt =====
-- scripts/extract_failure.py, extract_last_heartbeat_failure and plot_failure_occurrences: the
-- last count of failures and all of them, behind a cutoff time.
pub mod Reports
use frugal_leader_election.Base.{
  ℕ, Bool, true, false, Option, none, some, List, [], ◌∷◌, ◌++◌, Text, codes, ltb, if◌then◌else◌,
}
use mathlib.Core.List.{foldl}
use frugal_leader_election.Text.{is_digit, not_newline, int}
use frugal_leader_election.Regex.{Regex, lit, many_lazy, times, group, some_of, ◌⨾◌, find, group_of}
use frugal_leader_election.Time.{Datetime, strptime}
use frugal_leader_election.Durations.{stamp_at_start}

-- `\d{8} \d{2}:\d{2}:\d{2}\.\d{6}`
abbrev pub clock_pattern : Regex
clock_pattern =
    times 8 is_digit
    ⨾ lit (codes " ")
    ⨾ times 2 is_digit
    ⨾ lit (codes ":")
    ⨾ times 2 is_digit
    ⨾ lit (codes ":")
    ⨾ times 2 is_digit
    ⨾ lit (codes ".")
    ⨾ times 6 is_digit

-- The rest of both patterns; the groups of the two counts have the numbers `i` and `j`.
abbrev pub failures_pattern : ℕ → ℕ → Regex
failures_pattern i j =
    lit (codes " ")
    ⨾ some_of is_digit
    ⨾ lit (codes " node.cpp:")
    ⨾ some_of is_digit
    ⨾ lit (codes "] Heartbeat received from leader ")
    ⨾ many_lazy not_newline
    ⨾ lit (codes " False positive check mode is active, resetting election timeout. ")
    ⨾ group i (some_of is_digit)
    ⨾ lit (codes " failures out of ")
    ⨾ group j (some_of is_digit)

abbrev pub last_pattern : Regex
last_pattern = lit (codes "I") ⨾ clock_pattern ⨾ failures_pattern 1 2

abbrev pub occurrence_pattern : Regex
occurrence_pattern = lit (codes "I") ⨾ group 1 clock_pattern ⨾ failures_pattern 2 3

-- The failures and the heartbeats that a line reports.
unfoldable pub failures_match : Text → Option (ℕ × ℕ)
failures_match line = elim (find last_pattern line) [
  | none ↦ none
  | some m ↦ some (int (group_of 1 m), int (group_of 2 m))
]

-- One round of the first loop, for a line with this time stamp.
unfoldable pub note_last : Datetime → Option Datetime → Text → Option (ℕ × ℕ) → Option (ℕ × ℕ)
note_last cutoff_time none line last = last
note_last cutoff_time (some t) line last =
    if ltb t cutoff_time then last else elim (failures_match line) [ none ↦ last | some r ↦ some r ]

-- `last_failures` and `last_total`, which are set together.
unfoldable pub last_heartbeat_failure : Datetime → List Text → Option (ℕ × ℕ)
last_heartbeat_failure cutoff_time lines =
    foldl (λ last line. note_last cutoff_time (stamp_at_start line) line last) none lines

-- The time and the failures that a line reports; `none` where the time is no point of time.
unfoldable pub occurrence_match : Text → Option (Datetime × ℕ)
occurrence_match line = elim (find occurrence_pattern line) [
  | none ↦ none
  | some m ↦ elim (strptime (group_of 1 m)) [ none ↦ none | some t ↦ some (t, int (group_of 2 m)) ]
]

-- One round of the second loop: `timestamps` and `failure_counts` grow together.
unfoldable pub note_occurrence : Datetime → List (Datetime × ℕ) → Text → List (Datetime × ℕ)
note_occurrence cutoff_time found line = elim (occurrence_match line) [
  | none ↦ found
  | some o ↦ if ltb o.0 cutoff_time then found else found ++ (o ∷ [])
]

unfoldable pub failure_occurrences : Datetime → List Text → List (Datetime × ℕ)
failure_occurrences cutoff_time lines = foldl (note_occurrence cutoff_time) [] lines
