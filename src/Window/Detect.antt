-- ===== src/Window/Detect.antt =====
-- scripts/remote_detect_stats.py: the detection times of a log, without those of the first and
-- the last seconds, with their mean and deviation.
pub mod Samples
use frugal_leader_election.Base.{
  ℕ, ◌+◌, ◌≡◌, refl, ap, ◌∙◌, Bool, true, false, not, ◌&&◌, ◌||◌, Option, none, some, List, [], ◌∷◌,
  ◌++◌, arith, Text, codes, is_some, count, if◌then◌else◌, leb, ltb, ◌==◌, length,
}
use frugal_leader_election.Base.Int.{
  ℤ, pos, negsuc, ltb_ℤ, pos_part, neg_part, ◌+ℤ◌, ◌-ℤ◌, +ℤ_parts, -ℤ_parts,
}
use frugal_leader_election.Base.Result.{
  Result, ok, err, exit, value_error, ◌>>=◌, ◌>>◌, raise_if, or_raise, for_each, for_each-nil,
  for_each-cons,
}
use frugal_leader_election.Regex.{Regex, lit, group, some_of, ◌⨾◌, find, group_of}
use frugal_leader_election.Text.{is_digit_or_dot, is_space}
use frugal_leader_election.Time.{Datetime, minus, seconds, plus, less, plus_lem, less_lem}
use frugal_leader_election.Window.Stamps.{
  is_empty, parse_ts, Ends, find_ends, find_ends_lem, Readable, stamp, first_stamp, last_stamp,
}
use frugal_leader_election.Window.Count.{counts_at}

-- PAT_LINE
abbrev pub pat_line : Regex
pat_line =
    lit (codes "Using Raft estimation for election timeout:")
    ⨾ some_of is_space
    ⨾ group 1 (some_of is_digit_or_dot)
    ⨾ some_of is_space
    ⨾ lit (codes "Milliseconds")

-- `low_cut <= ts <= high_cut`
unfoldable pub between : Datetime → Datetime → Datetime → Bool
between low high t = leb low t && leb t high

-- Python's floats, and the functions of `statistics`, are not modelled: `F` is any type of them.
module _ {F : Type 0} (float : Text → Option F) (zero_float : F) (mean pstdev : List F → F) where
  -- One round of the loop that collects the samples.
  unfoldable pub collect_line : Datetime → Datetime → List F → Text → Result (List F)
  collect_line low_cut high_cut samples line = do
    ts ← parse_ts line
    elim ts [
      | none ↦ ok samples
      | some t ↦ elim (between low_cut high_cut t) [
        | false ↦ ok samples
        | true ↦ elim (find pat_line line) [
          | none ↦ ok samples
          | some m ↦ do x ← or_raise (float (group_of 1 m)) value_error; ok (samples ++ (x ∷ []))
        ]
      ]
    ]

  -- The line of numbers that is written: how many samples, their mean and their deviation.
  unfoldable pub summary : List F → ℕ × F × F
  summary [] = (0, zero_float, zero_float)
  summary (x ∷ []) = (1, mean (x ∷ []), zero_float)
  summary (x ∷ y ∷ xs) = (length (x ∷ y ∷ xs), mean (x ∷ y ∷ xs), pstdev (x ∷ y ∷ xs))

  unfoldable pub detect_between : ℤ → ℤ → List Text → Ends → Result (ℕ × F × F)
  detect_between skip_first skip_last lines (none, _) = err (exit "No timestamps found.")
  detect_between skip_first skip_last lines (some first, none) = err (exit "No timestamps found.")
  detect_between skip_first skip_last lines (some first, some last) = do
    low_cut ← plus first (seconds skip_first)
    high_cut ← less last (seconds skip_last)
    samples ← for_each (collect_line low_cut high_cut) [] lines
    ok (summary samples)

  -- `main`
  unfoldable pub detect_stats : ℤ → ℤ → List Text → Result (ℕ × F × F)
  detect_stats skip_first skip_last lines = do
    raise_if (is_empty lines) (exit "Empty log.")
    ends ← find_ends lines
    detect_between skip_first skip_last lines ends

sum_parts : (a b : ℕ) (d : ℤ) → pos b ≡ pos a +ℤ d → b + neg_part d ≡ a + pos_part d
sum_parts a b d h = omega (arith, +ℤ_parts (pos a) d, ap pos_part h, ap neg_part h)

difference_parts : (a b : ℕ) (d : ℤ) → pos b ≡ pos a -ℤ d → b + pos_part d ≡ a + neg_part d
difference_parts a b d h = omega (arith, -ℤ_parts (pos a) d, ap pos_part h, ap neg_part h)

-- `low_cut <= ts` against `ts - first_ts < timedelta(...)`, and so for the other end.
after_low :
    (d : ℤ) (first t low : ℕ)
    → low + neg_part d ≡ first + pos_part d
    → leb low t ≡ not (ltb_ℤ (minus t first) d)
after_low (pos n) first t low h = ground arith
after_low (negsuc n) first t low h = ground arith

before_high :
    (d : ℤ) (last t high : ℕ)
    → high + pos_part d ≡ last + neg_part d
    → leb t high ≡ not (ltb_ℤ (minus last t) d)
before_high (pos n) last t high h = ground arith
before_high (negsuc n) last t high h = ground arith

-- The two scripts look at the same window: where the cuts are points of time, a stamp lies
-- between them exactly if the counting script takes neither `continue`.
between-counts_at :
    (skip_first skip_last : ℤ) (first last t : Datetime) {low high : Datetime}
    → plus first (seconds skip_first) ≡ ok low
    → less last (seconds skip_last) ≡ ok high
    → between low high t ≡ counts_at skip_first skip_last first last t
unfolding counts_at between
between-counts_at sf sl first last t {low} {high} p q =
    rw
      (
        after_low (seconds sf) first t low (sum_parts first low (seconds sf) (plus_lem first _ p)),
        before_high (seconds sl) last t high
            (difference_parts last high (seconds sl) (less_lem last _ q)),
      )
      (go (ltb_ℤ (minus t first) (seconds sf)) (ltb_ℤ (minus last t) (seconds sl)))
  where
    go : (a b : Bool) → (not a && not b) ≡ (if a then false else if b then false else true)
    go true b = refl
    go false true = refl
    go false false = refl
