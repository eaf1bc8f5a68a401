-- ===== src/Durations.antt =====
-- `parse_log_file` of scripts/parse_plot_log.py, and the same loop in `plot_view_durations` of
-- scripts/extract_failure.py: cuts a log into stretches of time in one role, with their
-- durations and numbers of heartbeats, from a cutoff time on.
pub mod Spans
pub mod Counts
use frugal_leader_election.Base.{
  ℕ, ◌+◌, Bool, true, false, Option, none, some, List, [], ◌∷◌, ◌++◌, Text, codes, is_some, ltb,
  if◌then◌else◌,
}
use frugal_leader_election.Base.Int.{ℤ, pos}
use frugal_leader_election.Base.Result.{Result, ok, err, type_error, exit, ◌>>=◌, for_each}
use frugal_leader_election.Regex.{Regex, lit, one, alt, group, ◌⨾◌, find, match_start, group_of}
use frugal_leader_election.Time.{Datetime, Timedelta, strptime, minus, seconds, plus}
use frugal_leader_election.Views.{
  Role, leader, follower, role_eq, is_severity, date_re, timestamp_of,
}

abbrev pub follower_pattern : Regex
follower_pattern = lit (codes "Received append entries message.")

abbrev pub leader_pattern : Regex
leader_pattern = lit (codes "[LEADER] Sent heartbeat")

abbrev pub heartbeat_pattern : Regex
heartbeat_pattern = alt (lit (codes "Sent")) (lit (codes "Received")) ⨾ lit (codes " heartbeat")

-- A view that has ended. `duration` is the difference of its ends, whose `total_seconds()`, a float,
-- the scripts keep.
pub record Span : Type 0 where
  pub role : Role
  pub start_time : Datetime
  pub end_time : Datetime
  pub duration : Timedelta
  pub heartbeat_count : ℕ

-- The variables of the loop; `current_view` holds its role and start time.
pub record Loop : Type 0 where
  pub views : List Span
  pub current_view : Option (Role × Datetime)
  pub heartbeat_count : ℕ
  pub timestamp : Option Datetime

abbrev pub start : Loop
start = record { views = []; current_view = none; heartbeat_count = 0; timestamp = none }

-- The end of a view at the time `t`.
abbrev pub close : Role × Datetime → Datetime → ℕ → Span
close (role, since) t heartbeats = record {
  role = role;
  start_time = since;
  end_time = t;
  duration = minus t since;
  heartbeat_count = heartbeats;
}

-- The branch for a line that shows the node in `role`.
unfoldable pub change_to : Role → Datetime → Loop → Loop
change_to role t s = elim s.current_view [
  | none ↦ record s { current_view = some (role, t) }
  | some v ↦ if role_eq v.0 role then s else (record s {
    views = s.views ++ (close v t s.heartbeat_count ∷ []);
    current_view = some (role, t);
    heartbeat_count = 0;
  })
]

-- The role that a line shows.
unfoldable pub role_shown : Text → Option Role
role_shown line =
    if is_some (find follower_pattern line)
    then some follower
    else if is_some (find leader_pattern line)
    then some leader
    else none

abbrev pub role_change : Option Role → Datetime → Loop → Loop
role_change none t s = s
role_change (some role) t s = change_to role t s

-- `if current_view is not None` and the line has a heartbeat
unfoldable pub count_heartbeat : Bool → Loop → Loop
count_heartbeat beat s = elim s.current_view [
  | none ↦ s
  | some v ↦ record s {
    heartbeat_count = if beat then s.heartbeat_count + 1 else s.heartbeat_count;
  }
]

abbrev pub has_heartbeat : Text → Bool
has_heartbeat line = is_some (find heartbeat_pattern line)

-- The body of the loop for a line at the time `t`, behind the cutoff.
unfoldable pub body : Datetime → Text → Loop → Loop
body t line s = count_heartbeat (has_heartbeat line) (role_change (role_shown line) t s)

-- The line is read: its time becomes `timestamp`, and it counts from the cutoff time on.
unfoldable pub at_time : Datetime → Datetime → Text → Loop → Loop
at_time cutoff_time t line s =
    let seen : Loop = record s { timestamp = some t } in
    if ltb t cutoff_time then seen else body t line seen

-- Behind the loop: the last view ends at the last time stamp that was read.
unfoldable pub finish : Loop → Result (List Span)
finish s = elim s.current_view [
  | none ↦ ok s.views
  | some v ↦ elim s.timestamp [
    | none ↦ err type_error
    | some t ↦ ok (s.views ++ (close v t s.heartbeat_count ∷ []))
  ]
]

-- The time stamp at the start of a line, as scripts/extract_failure.py reads it.
abbrev pub stamp_pattern : Regex
stamp_pattern = one is_severity ⨾ group 1 date_re

unfoldable pub stamp_at_start : Text → Option Datetime
stamp_at_start line = elim (match_start stamp_pattern line) [
  | none ↦ none
  | some m ↦ strptime (group_of 1 m)
]

-- One round of the loop of scripts/extract_failure.py, whose cutoff time is an argument.
unfoldable pub view_step : Datetime → Loop → Text → Result Loop
view_step cutoff_time s line = elim (stamp_at_start line) [
  | none ↦ ok s
  | some t ↦ ok (at_time cutoff_time t line s)
]

-- The views of `plot_view_durations`.
unfoldable pub view_durations : Datetime → List Text → Result (List Span)
view_durations cutoff_time lines = for_each (view_step cutoff_time) start lines >>= finish

-- One round of the loop of scripts/parse_plot_log.py: the first stamped line only sets the
-- cutoff, 30 seconds later.
unfoldable pub plot_step : Option Datetime × Loop → Text → Result (Option Datetime × Loop)
plot_step (cutoff, s) line = elim (timestamp_of line) [
  | none ↦ ok (cutoff, s)
  | some t ↦ elim cutoff [
    | none ↦ do
      cutoff_time ← plus t (seconds (pos 30))
      ok (some cutoff_time, record s { timestamp = some t })
    | some cutoff_time ↦ ok (some cutoff_time, at_time cutoff_time t line s)
  ]
]

unfoldable pub parse_plot_log : List Text → Result (List Span)
parse_plot_log lines = for_each plot_step (none, start) lines >>= λ s. finish s.1

-- The cutoff of `main` in scripts/extract_failure.py: 30 seconds after the first time stamp.
unfoldable pub find_cutoff : List Text → Result Datetime
find_cutoff [] = err (exit "No valid timestamps found in the log file.")
find_cutoff (line ∷ lines) = elim (stamp_at_start line) [
  | none ↦ find_cutoff lines
  | some t ↦ plus t (seconds (pos 30))
]
