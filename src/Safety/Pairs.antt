-- ===== src/Safety/Pairs.antt =====
-- Which pairs of lines the differences are between.
use frugal_leader_election.Base.{
  ◌≡◌, refl, inl, inr, Option, none, some, List, [], ◌∷◌, ◌++◌, arith, Text, Option-cases,
}
use frugal_leader_election.Base.Result.{ok, for_each, for_each-nil, for_each-cons}
use frugal_leader_election.Regex.{find, group_of}
use frugal_leader_election.Time.{Datetime, Timedelta, strptime, minus}
use frugal_leader_election.Safety.{
  State, election_timeout_pattern, stale_append_entries_pattern, on_stale, step, process_log_file,
}
use mathlib.Core.Option.{some-injective}
use mathlib.Core.List.{append-nil, append_assoc}

-- The two kinds of lines that matter, with the text of their time.
pub data Event : Type 0 where
  timeout stale : Datetime → Event

-- The event of a line. `some none` is a line that matters and whose time is no point of time.
abbrev pub event_of : Text → Option (Option Event)
event_of line = elim (find election_timeout_pattern line) [
  | some m ↦ some (elim (strptime (group_of 1 m)) [ none ↦ none | some t ↦ some (timeout t) ])
  | none ↦ elim (find stale_append_entries_pattern line) [
    | none ↦ none
    | some m ↦ some (elim (strptime (group_of 1 m)) [ none ↦ none | some t ↦ some (stale t) ])
  ]
]

abbrev add_event : Option (Option Event) → Option (List Event) → Option (List Event)
add_event none es = es
add_event (some none) es = none
add_event (some (some e)) none = none
add_event (some (some e)) (some es) = some (e ∷ es)

-- The events of a log, if all their times are points of time.
abbrev pub events : List Text → Option (List Event)
events [] = some []
events (line ∷ lines) = add_event (event_of line) (events lines)

-- For each stale message directly behind an election timeout, the time between the two.
abbrev pub gaps : List Event → List Timedelta
gaps [] = []
gaps (stale u ∷ es) = gaps es
gaps (timeout t ∷ []) = []
gaps (timeout t ∷ timeout u ∷ es) = gaps (timeout u ∷ es)
gaps (timeout t ∷ stale u ∷ es) = minus u t ∷ gaps es

-- The same with the last timeout in front, as the loop has it.
abbrev pending : Option Datetime → List Event → List Event
pending none es = es
pending (some t) es = timeout t ∷ es

-- What an event does to the two variables.
abbrev after_stale : List Timedelta → Option Datetime → Datetime → State
after_stale diffs none u = record { time_diffs = diffs; last = none }
after_stale diffs (some t) u = record { time_diffs = diffs ++ (minus u t ∷ []); last = none }

abbrev state : List Timedelta → Option Datetime → State
state diffs last = record { time_diffs = diffs; last = last }

step-none : (line : Text) (s : State) → event_of line ≡ none → step s line ≡ ok s
unfolding step
step-none line s h = ground arith

step_timeout :
    (line : Text) (s : State) {t : Datetime}
    → event_of line ≡ some (some (timeout t))
    → step s line ≡ ok (record s { last = some t })
unfolding step
step_timeout line s h = ground arith

step_stale :
    (line : Text) (diffs : List Timedelta) (last : Option Datetime) {u : Datetime}
    → event_of line ≡ some (some (stale u))
    → step (state diffs last) line ≡ ok (after_stale diffs last u)
unfolding step on_stale
step_stale line diffs none h = ground arith
step_stale line diffs (some t) h = ground arith

none-ne-some : {A : Type 0} {a : A} → ¬ (◌≡◌ {A = Option A} none (some a))
none-ne-some h = cc

events_cons :
    (o : Option (Option Event)) (rest : Option (List Event)) (ev : Event) {es : List Event}
    → o ≡ some (some ev)
    → add_event o rest ≡ some es
    → (fs : List Event) × (rest ≡ some fs) × (es ≡ ev ∷ fs)
events_cons none rest ev e h = cc
events_cons (some none) rest ev e h = cc
events_cons (some (some f)) none ev e h = cc
events_cons (some (some f)) (some fs) ev e h = (fs, refl, cc)

gaps-timeout :
    (last : Option Datetime) (t : Datetime) (es : List Event)
    → gaps (timeout t ∷ es) ≡ gaps (pending last (timeout t ∷ es))
gaps-timeout none t es = refl
gaps-timeout (some u) t es = refl

gaps-stale :
    (diffs : List Timedelta) (last : Option Datetime) (u : Datetime) (es : List Event)
    → (after_stale diffs last u).time_diffs ++ gaps es ≡ diffs ++ gaps (pending last (stale u ∷ es))
gaps-stale diffs none u es = refl
gaps-stale diffs (some t) u es = append_assoc diffs (minus u t ∷ []) (gaps es)

last-after_stale :
    (diffs : List Timedelta) (last : Option Datetime) (u : Datetime)
    → after_stale diffs last u ≡ state (after_stale diffs last u).time_diffs none
last-after_stale diffs none u = refl
last-after_stale diffs (some t) u = refl

gaps-none : (last : Option Datetime) → gaps (pending last []) ≡ []
gaps-none none = refl
gaps-none (some t) = refl

loop :
    (lines : List Text) (diffs : List Timedelta) (last : Option Datetime) {es : List Event}
    → events lines ≡ some es
    → (u : State) × (for_each step (state diffs last) lines ≡ ok u)
      × (u.time_diffs ≡ diffs ++ gaps (pending last es))
loop [] diffs last h = (
  state diffs last,
  rw for_each-nil refl,
  rw (← some-injective _ _ h, gaps-none, append-nil) refl,
)
loop (line ∷ lines) diffs last {es} h = elim (Option-cases (event_of line)) [
  | inl other ↦
      let (u, p, q) = loop lines diffs last (rw other at h) in
      (u, rw (for_each-cons, step-none line (state diffs last) other) p, q)
  | inr (none, e) ↦ absurd (none-ne-some (rw e at h))
  | inr (some (timeout t), e) ↦
      let (fs, r, c) = events_cons (event_of line) (events lines) (timeout t) e h in
      let (u, p, q) = loop lines diffs (some t) r in
      (
        u,
        rw (for_each-cons, step_timeout line (state diffs last) e) p,
        rw (c, ← gaps-timeout last t fs) q,
      )
  | inr (some (stale t), e) ↦
      let (fs, r, c) = events_cons (event_of line) (events lines) (stale t) e h in
      let (u, p, q) = loop lines (after_stale diffs last t).time_diffs none r in
      (
        u,
        rw (for_each-cons, step_stale line diffs last e, last-after_stale diffs last t) p,
        rw (c, ← gaps-stale diffs last t fs) q,
      )
]

-- Of a log whose timeouts and stale messages all have a valid time, the script takes exactly
-- the differences between a stale message and the election timeout directly before it, where
-- only these two kinds of lines count.
pub process_log_file-gaps :
    (lines : List Text) {es : List Event}
    → events lines ≡ some es
    → process_log_file lines ≡ ok (gaps es)
unfolding process_log_file
process_log_file-gaps lines {es} h =
    let (u, p, q) = loop lines [] none h in rw (p, q, process_log_file) refl
