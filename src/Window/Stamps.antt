-- ===== src/Window/Stamps.antt =====
-- `parse_ts` of the two scripts (it is the same in both), and their loop for the first and the
-- last time stamp.
use frugal_leader_election.Base.{
  ◌≡◌, refl, ◌∙◌, Bool, true, false, Option, none, some, List, [], ◌∷◌, ◌++◌, arith, Text, codes,
  is_some, All,
}
use frugal_leader_election.Base.Result.{
  Result, ok, err, or_raise, value_error, ◌>>=◌, for_each, for_each-nil, for_each-cons,
}
use frugal_leader_election.Regex.{
  Regex, lit, times, group, line_start, some_of, ◌⨾◌, match_start, group_of,
}
use frugal_leader_election.Text.{is_digit, is_space}
use frugal_leader_election.Time.{Datetime, strptime}
use mathlib.Core.Option.{or_else}

-- `\d{2}:\d{2}:\d{2}\.\d{6}`
abbrev pub clock_re : Regex
clock_re =
    times 2 is_digit
    ⨾ lit (codes ":")
    ⨾ times 2 is_digit
    ⨾ lit (codes ":")
    ⨾ times 2 is_digit
    ⨾ lit (codes ".")
    ⨾ times 6 is_digit

-- TS_RE
abbrev pub ts_re : Regex
ts_re =
    line_start ⨾ lit (codes "I") ⨾ group 1 (times 8 is_digit) ⨾ some_of is_space ⨾ group 2 clock_re

-- The time stamp of a line, or `none` where the line has none. A stamp that is no point of time
-- raises a `ValueError`, which the scripts do not catch.
unfoldable pub parse_ts : Text → Result (Option Datetime)
parse_ts line = elim (match_start ts_re line) [
  | none ↦ ok none
  | some m ↦ do
    t ← or_raise (strptime (group_of 1 m ++ (b' ' ∷ group_of 2 m))) value_error
    ok (some t)
]

-- `first_ts` and `last_ts`
abbrev pub Ends : Type 0
Ends = Option Datetime × Option Datetime

abbrev pub see : Ends → Option Datetime → Ends
see ends none = ends
see (none, _) (some t) = (some t, some t)
see (some first, _) (some t) = (some first, some t)

-- One round of the first pass.
abbrev pub note_ts : Ends → Text → Result Ends
note_ts ends line = do ts ← parse_ts line; ok (see ends ts)

unfoldable pub find_ends : List Text → Result Ends
unfolding for_each
find_ends lines = for_each note_ts (none, none) lines

-- `not lines`
abbrev pub is_empty : List Text → Bool
is_empty [] = true
is_empty (line ∷ lines) = false

-- No line raises.
abbrev pub Readable : List Text → Type 0
Readable = All (λ line. (t : Option Datetime) × (parse_ts line ≡ ok t))

-- The time stamp of a readable line.
abbrev pub stamp : Text → Option Datetime
stamp line = elim (parse_ts line) [ ok t ↦ t | err e ↦ none ]

-- The first and the last time stamp of the lines, as the scripts mean them.
abbrev pub first_stamp : List Text → Option Datetime
first_stamp [] = none
first_stamp (line ∷ lines) = or_else (stamp line) (first_stamp lines)

abbrev pub last_stamp : List Text → Option Datetime
last_stamp [] = none
last_stamp (line ∷ lines) = or_else (last_stamp lines) (stamp line)

-- The state of the loop: a last stamp is there exactly if a first one is.
abbrev InStep : Ends → Type 0
InStep e = is_some e.0 ≡ is_some e.1

for_each-note_ts :
    (lines : List Text) (ends : Ends)
    → InStep ends
    → Readable lines
    → for_each note_ts ends lines
      ≡ ok (or_else ends.0 (first_stamp lines), or_else (last_stamp lines) ends.1)
unfolding or_else
for_each-note_ts [] (a, b) s r = rw for_each-nil (ground arith)
for_each-note_ts (line ∷ lines) (none, none) s ((none, e), r) =
    rw (for_each-cons, e) (for_each-note_ts lines (none, none) refl r ∙ ground arith)
for_each-note_ts (line ∷ lines) (none, none) s ((some t, e), r) =
    rw (for_each-cons, e) (for_each-note_ts lines (some t, some t) refl r ∙ ground arith)
for_each-note_ts (line ∷ lines) (some a, some b) s ((none, e), r) =
    rw (for_each-cons, e) (for_each-note_ts lines (some a, some b) refl r ∙ ground arith)
for_each-note_ts (line ∷ lines) (some a, some b) s ((some t, e), r) =
    rw (for_each-cons, e) (for_each-note_ts lines (some a, some t) refl r ∙ ground arith)
for_each-note_ts (line ∷ lines) (none, some b) s r = cc
for_each-note_ts (line ∷ lines) (some a, none) s r = cc

-- In a log where no line raises, the loop finds the first and the last time stamp.
pub find_ends_lem :
    (lines : List Text)
    → Readable lines
    → find_ends lines ≡ ok (first_stamp lines, last_stamp lines)
unfolding find_ends or_else
find_ends_lem lines r = for_each-note_ts lines (none, none) refl r ∙ ground arith
