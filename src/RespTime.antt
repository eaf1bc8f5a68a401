-- ===== src/RespTime.antt =====
-- scripts/analyze_resp_time.py: the latencies of committed requests, in all and for each leader,
-- and the commits and the time of each leader's sections of the log.
pub mod Totals
use frugal_leader_election.Base.{
  ℕ, ◌+◌, Bool, true, false, Option, none, some, List, [], ◌∷◌, ◌++◌, Text, codes, is_some, ◌==◌,
  if◌then◌else◌,
}
use frugal_leader_election.Base.Int.{ℤ, pos, ◌+ℤ◌}
use frugal_leader_election.Base.Dict.{Dict, update}
use frugal_leader_election.Base.Equality.{nat_eq, list_eq}
use frugal_leader_election.Base.Result.{
  Result, ok, err, exit, value_error, or_raise, ◌>>=◌, for_each,
}
use frugal_leader_election.Regex.{
  Regex, lit, one, many, times, group, some_of, ◌⨾◌, find, match_start, group_of,
}
use frugal_leader_election.Text.{is_digit, is_space, is_digit_or_dot, not_newline}
use frugal_leader_election.Time.{Datetime, Timedelta, strptime, minus}

-- The pattern of `parse_timestamp`
abbrev pub timestamp_re : Regex
timestamp_re =
    lit (codes "I")
    ⨾ group 1 (times 8 is_digit)
    ⨾ lit (codes " ")
    ⨾ group 2 (
        times 2 is_digit
        ⨾ lit (codes ":")
        ⨾ times 2 is_digit
        ⨾ lit (codes ":")
        ⨾ times 2 is_digit
        ⨾ lit (codes ".")
        ⨾ some_of is_digit)

unfoldable pub parse_timestamp : Text → Result (Option Datetime)
parse_timestamp line = elim (match_start timestamp_re line) [
  | none ↦ ok none
  | some m ↦ do
    t ← or_raise (strptime (group_of 1 m ++ (b' ' ∷ group_of 2 m))) value_error
    ok (some t)
]

abbrev pub rcv_re : Regex
rcv_re =
    lit (codes "Received ClientResponse:")
    ⨾ many is_space
    ⨾ lit (codes "latency=")
    ⨾ many is_space
    ⨾ group 1 (some_of is_digit_or_dot)
    ⨾ lit (codes ",")
    ⨾ many is_space
    ⨾ lit (codes "success=")
    ⨾ group 2 (one is_digit)
    ⨾ lit (codes ",")
    ⨾ many is_space
    ⨾ lit (codes "from=")
    ⨾ group 3 (some_of is_digit_or_dot)
    ⨾ many not_newline
    ⨾ lit (codes "request_id=")
    ⨾ group 4 (some_of is_digit)

abbrev pub begin_leader_re : Regex
begin_leader_re = lit (codes "Begin of Leadership under: ") ⨾ group 1 (some_of is_digit_or_dot)

abbrev pub end_leader_re : Regex
end_leader_re = lit (codes "End of Leadership under: ") ⨾ group 1 (some_of is_digit_or_dot)

-- The commits and the time of a leader's sections. The script adds up seconds as floats; here
-- they are whole microseconds.
pub record Section : Type 0 where
  pub commits : ℕ
  pub duration : Timedelta

abbrev pub no_section : Section
no_section = record { commits = 0; duration = pos 0 }

-- The accumulators. `active` holds `active_leader` and `section_start`, which are set and reset
-- together. Python's floats are not modelled: `F` is any type of them.
pub record State (F : Type 0) : Type 0 where
  pub overall_latencies : List F
  pub per_leader_latencies : Dict Text (List F)
  pub successful_commits : ℕ
  pub leader_throughput : Dict Text Section
  pub active : Option (Text × Datetime)
  pub section_commits : ℕ
  pub begin_ts : Option Datetime
  pub end_ts : Option Datetime

abbrev pub add_section : ℕ → Timedelta → Section → Section
add_section n d s = record { commits = s.commits + n; duration = s.duration +ℤ d }

module _ {F : Type 0} where
  abbrev pub start : State F
  start = record {
    overall_latencies = [];
    per_leader_latencies = [];
    successful_commits = 0;
    leader_throughput = [];
    active = none;
    section_commits = 0;
    begin_ts = none;
    end_ts = none;
  }

  -- The section that is open, if there is one, ends at the time `t`.
  unfoldable pub close_section : Datetime → State F → Dict Text Section
  close_section t s = elim s.active [
    | none ↦ s.leader_throughput
    | some a ↦
        update a.0 no_section (add_section s.section_commits (minus t a.1)) s.leader_throughput
  ]

  -- `begin_ts` and `end_ts`
  unfoldable pub note_time : Option Datetime → State F → State F
  note_time none s = s
  note_time (some t) s = record s {
    begin_ts = some (elim s.begin_ts [ none ↦ t | some b ↦ b ]);
    end_ts = some t;
  }

  unfoldable pub begin_section : Text → Datetime → State F → State F
  begin_section leader t s = record s {
    leader_throughput = close_section t s;
    active = some (leader, t);
    section_commits = 0;
  }

  unfoldable pub end_section : Datetime → State F → State F
  end_section t s = record s {
    leader_throughput = close_section t s;
    active = none;
    section_commits = 0;
  }

  abbrev pub push_latency : F → List F → List F
  push_latency x xs = xs ++ (x ∷ [])

  unfoldable pub commit : Text → F → State F → State F
  commit leader_ip latency_ms s = record s {
    successful_commits = s.successful_commits + 1;
    overall_latencies = push_latency latency_ms s.overall_latencies;
    per_leader_latencies = update leader_ip [] (push_latency latency_ms) s.per_leader_latencies;
    section_commits = if is_some s.active then s.section_commits + 1 else s.section_commits;
  }

-- `m.group(2) == "1"`
abbrev pub is_one : Text → Bool
is_one [] = false
is_one (c ∷ []) = c == b'1'
is_one (c ∷ d ∷ s) = false

module _ {F : Type 0} (float : Text → Option F) where
  -- The last part of the loop's body: a response of the client.
  unfoldable pub on_response : Text → State F → Result (State F)
  on_response line s = elim (find rcv_re line) [
    | none ↦ ok s
    | some m ↦ do
      latency_ms ← or_raise (float (group_of 1 m)) value_error
      ok (if is_one (group_of 2 m) then commit (group_of 3 m) latency_ms s else s)
  ]

  -- The middle part: the end of a section, which needs a time stamp and an open section.
  unfoldable pub on_end : Option Datetime → Text → State F → Result (State F)
  on_end none line s = on_response line s
  on_end (some t) line s = elim (find end_leader_re line) [
    | none ↦ on_response line s
    | some m ↦ elim s.active [ none ↦ on_response line s | some a ↦ ok (end_section t s) ]
  ]

  unfoldable pub on_line : Option Datetime → Text → State F → Result (State F)
  on_line none line s = on_end none line s
  on_line (some t) line s = elim (find begin_leader_re line) [
    | none ↦ on_end (some t) line s
    | some m ↦ ok (begin_section (group_of 1 m) t s)
  ]

  -- One round of the loop over the lines.
  unfoldable pub step : State F → Text → Result (State F)
  step s line = do ts ← parse_timestamp line; on_line ts line (note_time ts s)

-- What is reported, before averages are taken.
pub record Report (F : Type 0) : Type 0 where
  pub latencies : List F
  pub by_leader : Dict Text (List F)
  pub committed : ℕ
  pub sections : Dict Text Section

module _ {F : Type 0} (float : Text → Option F) where
  -- Behind the loop the last section is closed at the last time stamp.
  unfoldable pub close_last : State F → Dict Text Section
  close_last s = elim s.end_ts [ none ↦ s.leader_throughput | some t ↦ close_section t s ]

  unfoldable pub report : State F → Result (Report F)
  report s = elim s.overall_latencies [
    | [] ↦ err (exit "No successful commits with latency data found.")
    | _ ∷ _ ↦ ok (record {
      latencies = s.overall_latencies;
      by_leader = s.per_leader_latencies;
      committed = s.successful_commits;
      sections = close_last s;
    })
  ]

  -- The `except Exception` round the loop
  abbrev pub guarded : Result (State F) → Result (State F)
  guarded (ok s) = ok s
  guarded (err e) = err (exit "Error reading")

  unfoldable pub analyze : List Text → Result (Report F)
  analyze lines = guarded (for_each (step float) start lines) >>= report
