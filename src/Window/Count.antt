-- ===== src/Window/Count.antt =====
-- scripts/remote_count_timeouts.py: the number of election timeouts in a log, without those of
-- the first and the last seconds.
use frugal_leader_election.Base.{
  ℕ, ◌+◌, ◌≡◌, refl, ◌∙◌, Bool, true, false, ◌&&◌, none, some, List, [], ◌∷◌, arith, Text, codes,
  is_some, count, if◌then◌else◌,
}
use frugal_leader_election.Base.Int.{ℤ, ltb_ℤ, leb_ℤ}
use frugal_leader_election.Base.Result.{
  Result, ok, err, exit, ◌>>=◌, ◌>>◌, raise_if, for_each, for_each-nil, for_each-cons,
}
use frugal_leader_election.Regex.{lit, find}
use frugal_leader_election.Regex.Literal.{is_some-find_lit}
use frugal_leader_election.Text.{has_substring}
use frugal_leader_election.Time.{Datetime, minus, seconds}
use frugal_leader_election.Window.Stamps.{
  is_empty, parse_ts, Ends, find_ends, find_ends_lem, Readable, stamp, first_stamp, last_stamp,
}

-- PATTERN; its dot is escaped, so it is plain text.
abbrev pub timeout_phrase : Text
timeout_phrase = codes "Election timeout occurred. Starting leader election"

-- A line with the time stamp `t`, in a log from `first` to `last`: neither `continue` is taken.
unfoldable pub counts_at : ℤ → ℤ → Datetime → Datetime → Datetime → Bool
counts_at skip_first skip_last first last t =
    if ltb_ℤ (minus t first) (seconds skip_first)
    then false
    else if ltb_ℤ (minus last t) (seconds skip_last)
    then false
    else true

-- One round of the second pass.
unfoldable pub count_line : ℤ → ℤ → Datetime → Datetime → ℕ → Text → Result ℕ
count_line skip_first skip_last first last n line = do
  ts ← parse_ts line
  elim ts [
    | none ↦ ok n
    | some t ↦ ok (
        if counts_at skip_first skip_last first last t && is_some (find (lit timeout_phrase) line)
        then n + 1
        else n)
  ]

-- The two passes after each other, where the first has found both stamps.
unfoldable pub second_pass : ℤ → ℤ → List Text → Ends → Result ℕ
second_pass skip_first skip_last lines (none, _) = err (exit "No valid timestamps found.")
second_pass skip_first skip_last lines (some first, none) = err (exit "No valid timestamps found.")
second_pass skip_first skip_last lines (some first, some last) =
    for_each (count_line skip_first skip_last first last) 0 lines

-- `main`: what is written to the output file, from the lines of the log.
unfoldable pub count_timeouts : ℤ → ℤ → List Text → Result ℕ
count_timeouts skip_first skip_last lines = do
  raise_if (is_empty lines) (exit "Empty log.")
  ends ← find_ends lines
  second_pass skip_first skip_last lines ends

-- The line has a time stamp at least `skip_first` seconds after `first` and at least `skip_last`
-- seconds before `last`, and contains the phrase.
abbrev pub is_counted : ℤ → ℤ → Datetime → Datetime → Text → Bool
is_counted skip_first skip_last first last line = elim (stamp line) [
  | none ↦ false
  | some t ↦
      leb_ℤ (seconds skip_first) (minus t first)
      && leb_ℤ (seconds skip_last) (minus last t)
      && has_substring timeout_phrase line
]

counts_at_lem :
    (skip_first skip_last : ℤ) (first last t : Datetime)
    → counts_at skip_first skip_last first last t
      ≡ (leb_ℤ (seconds skip_first) (minus t first) && leb_ℤ (seconds skip_last) (minus last t))
unfolding counts_at
counts_at_lem skip_first skip_last first last t = ground arith

is_counted_lem :
    (sf sl : ℤ) (first last : Datetime) (line : Text) {t : Datetime}
    → parse_ts line ≡ ok (some t)
    → is_counted sf sl first last line
      ≡ (counts_at sf sl first last t && is_some (find (lit timeout_phrase) line))
is_counted_lem sf sl first last line {t} e =
    ground (arith, counts_at_lem sf sl first last t, is_some-find_lit timeout_phrase line)

for_each-count_line :
    (skip_first skip_last : ℤ) (first last : Datetime) (lines : List Text) (n : ℕ)
    → Readable lines
    → for_each (count_line skip_first skip_last first last) n lines
      ≡ ok (n + count (is_counted skip_first skip_last first last) lines)
unfolding count_line
for_each-count_line sf sl first last [] n r = rw for_each-nil (ground arith)
for_each-count_line sf sl first last (line ∷ lines) n ((none, e), r) =
    rw (for_each-cons, e) (for_each-count_line sf sl first last lines n r ∙ ground arith)
for_each-count_line sf sl first last (line ∷ lines) n ((some t, e), r) =
    rw (for_each-cons, e)
      (for_each-count_line sf sl first last lines _ r
        ∙ ground (arith, is_counted_lem sf sl first last line e))

-- In a log where no line raises and some line has a time stamp, the script writes the number of
-- lines that contain the phrase, at least `skip_first` seconds after the first stamp and at
-- least `skip_last` seconds before the last one.
pub count_timeouts_lem :
    (skip_first skip_last : ℤ) (lines : List Text) {first last : Datetime}
    → Readable lines
    → first_stamp lines ≡ some first
    → last_stamp lines ≡ some last
    → count_timeouts skip_first skip_last lines
      ≡ ok (count (is_counted skip_first skip_last first last) lines)
unfolding count_timeouts second_pass
count_timeouts_lem sf sl [] r a b = cc
count_timeouts_lem sf sl (line ∷ lines) {first} {last} r a b =
    rw (find_ends_lem (line ∷ lines) r, a, b)
      (for_each-count_line sf sl first last (line ∷ lines) 0 r ∙ ground arith)

-- A log without lines, and a log of lines that do not raise and have no time stamp, end the
-- script with a message each.
pub count_timeouts_exits :
    (skip_first skip_last : ℤ) (line : Text) (lines : List Text)
    → Readable (line ∷ lines)
    → first_stamp (line ∷ lines) ≡ none
    → (count_timeouts skip_first skip_last [] ≡ err (exit "Empty log."))
      × (count_timeouts skip_first skip_last (line ∷ lines)
          ≡ err (exit "No valid timestamps found."))
unfolding count_timeouts second_pass
count_timeouts_exits sf sl line lines r a = (refl, rw (find_ends_lem (line ∷ lines) r, a) refl)
