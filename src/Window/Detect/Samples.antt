-- ===== src/Window/Detect/Samples.antt =====
-- Which samples the script of detection times collects, and how it ends.
use frugal_leader_election.Base.{
  ℕ, ◌≡◌, refl, ap, ◌∙◌, Option, none, some, List, [], ◌∷◌, ◌++◌, arith, Text, if◌then◌else◌,
}
use frugal_leader_election.Base.Int.{ℤ}
use frugal_leader_election.Base.Result.{
  Result, ok, err, value_error, or_raise, ◌>>=◌, for_each, for_each-nil, for_each-cons,
}
use frugal_leader_election.Regex.{find, group_of}
use frugal_leader_election.Time.{Datetime, seconds, plus, less}
use frugal_leader_election.Window.Stamps.{
  parse_ts, find_ends_lem, Readable, stamp, first_stamp, last_stamp,
}
use frugal_leader_election.Window.Detect.{
  pat_line, between, collect_line, summary, detect_between, detect_stats,
}
use mathlib.Core.List.{append-nil, append_assoc}

-- The number in a line of the window that reports a detection time.
abbrev pub number_in : Datetime → Datetime → Text → Option Text
number_in low high line = elim (stamp line) [
  | none ↦ none
  | some t ↦
      if between low high t
      then (elim (find pat_line line) [ none ↦ none | some m ↦ some (group_of 1 m) ])
      else none
]

-- The numbers of all such lines, in their order.
abbrev pub numbers : Datetime → Datetime → List Text → List Text
numbers low high [] = []
numbers low high (line ∷ lines) = elim (number_in low high line) [
  | none ↦ numbers low high lines
  | some w ↦ w ∷ numbers low high lines
]

module _ {F : Type 0} (float : Text → Option F) (zero_float : F) (mean pstdev : List F → F) where
  -- One more float in front of those that follow.
  abbrev push : F → Option (List F) → Option (List F)
  push x none = none
  push x (some xs) = some (x ∷ xs)

  -- All texts as floats, if each of them is one.
  abbrev pub floats : List Text → Option (List F)
  floats [] = some []
  floats (w ∷ ws) = elim (float w) [ none ↦ none | some x ↦ push x (floats ws) ]

  abbrev pub gathered : List F → Option (List F) → Result (List F)
  gathered acc none = err value_error
  gathered acc (some xs) = ok (acc ++ xs)

  -- What one line adds.
  abbrev added : List F → Option Text → Result (List F)
  added acc none = ok acc
  added acc (some w) = or_raise (float w) value_error >>= λ x. ok (acc ++ (x ∷ []))

  collect_line_lem :
      (low high : Datetime) (acc : List F) (line : Text) {ts : Option Datetime}
      → parse_ts line ≡ ok ts
      → collect_line float zero_float mean pstdev low high acc line
        ≡ added acc (number_in low high line)
  unfolding collect_line
  collect_line_lem low high acc line {ts = none} e = ground arith
  collect_line_lem low high acc line {ts = some t} e = ground arith

  gathered-push :
      (acc : List F) (x : F) (o : Option (List F))
      → gathered (acc ++ (x ∷ [])) o ≡ gathered acc (push x o)
  gathered-push acc x none = refl
  gathered-push acc x (some xs) = ap ok (append_assoc acc (x ∷ []) xs)

  for_each-collect_line :
      (low high : Datetime) (lines : List Text) (acc : List F)
      → Readable lines
      → for_each (collect_line float zero_float mean pstdev low high) acc lines
        ≡ gathered acc (floats (numbers low high lines))
  for_each-collect_line low high [] acc r = rw (for_each-nil, append-nil) refl
  for_each-collect_line low high (line ∷ lines) acc ((ts, e), r) =
      rw (for_each-cons, collect_line_lem low high acc line e)
        (go (λ a. for_each-collect_line low high lines a r) (number_in low high line))
    where
      onward : List F → Result (List F)
      onward a = for_each (collect_line float zero_float mean pstdev low high) a lines

      convert :
          ((a : List F) → onward a ≡ gathered a (floats (numbers low high lines)))
          → (x : Option F)
          → ((or_raise x value_error >>= λ y. ok (acc ++ (y ∷ []))) >>= onward)
            ≡ gathered acc
                (elim x [ none ↦ none | some y ↦ push y (floats (numbers low high lines)) ])
      convert ih none = refl
      convert ih (some x) =
          ih (acc ++ (x ∷ [])) ∙ gathered-push acc x (floats (numbers low high lines))

      go :
          ((a : List F) → onward a ≡ gathered a (floats (numbers low high lines)))
          → (o : Option Text)
          → (added acc o >>= onward)
            ≡ gathered acc (
                floats
                  (elim o [ none ↦ numbers low high lines | some w ↦ w ∷ numbers low high lines ]))
      go ih none = ih acc
      go ih (some w) = convert ih (float w)

  -- How the script ends, from the floats.
  abbrev pub reported : Option (List F) → Result (ℕ × F × F)
  reported none = err value_error
  reported (some xs) = ok (summary float zero_float mean pstdev xs)

  -- In a log where no line raises and some line has a time stamp, and whose cuts are points of
  -- time, the script summarises the numbers of the lines between the cuts that report a
  -- detection time, in their order, and raises a `ValueError` if one of them is no float.
  pub detect_stats_lem :
      (skip_first skip_last : ℤ) (lines : List Text) {first last low high : Datetime}
      → Readable lines
      → first_stamp lines ≡ some first
      → last_stamp lines ≡ some last
      → plus first (seconds skip_first) ≡ ok low
      → less last (seconds skip_last) ≡ ok high
      → detect_stats float zero_float mean pstdev skip_first skip_last lines
        ≡ reported (floats (numbers low high lines))
  unfolding detect_stats detect_between
  detect_stats_lem sf sl [] r a b p q = cc
  detect_stats_lem sf sl (line ∷ lines) {low} {high} r a b p q =
      rw
        (
          find_ends_lem (line ∷ lines) r,
          a,
          b,
          p,
          q,
          for_each-collect_line low high (line ∷ lines) [] r,
        )
        (go (floats (numbers low high (line ∷ lines))))
    where
      go :
          (o : Option (List F))
          → (gathered [] o >>= λ xs. ok (summary float zero_float mean pstdev xs)) ≡ reported o
      go none = refl
      go (some xs) = refl
