-- ===== src/Ycsb/Groups/Names.antt =====
-- The names of the result files that the experiments write, as scripts/ycsb_compare.py reads them.
use frugal_leader_election.Base.{
  ℕ, ◌≡◌, ◌≢◌, refl, ap, sym, ◌∙◌, true, Option, none, some, List, [], ◌∷◌, ◌++◌, Text, codes, All,
}
use mathlib.Core.Option as Option
use mathlib.Core.List.{append_assoc}
use frugal_leader_election.Base.Dict.{Dict, insert}
use frugal_leader_election.Base.Equality.{Eq, nat_eq}
use frugal_leader_election.Text.{is_digit}
use frugal_leader_election.Text.Decimal.{decimal, int-decimal, decimal-digits, decimal-ne-nil}
use frugal_leader_election.Regex.{
  Regex, lit, alt, some_of, ◌⨾◌, run, eat, place, Place, taken, match_start,
}
use frugal_leader_election.Regex.Steps.{
  Stops, last_of, taken-append, run-some_of, lit_step, group_step,
}
use frugal_leader_election.Ycsb.Results.{parse_ycsb_file, both_of}
use frugal_leader_election.Ycsb.Groups.{latency_re, run_re, with_results, classify_run}

alt_first :
    {B : Type 0} (r s : Regex) (a : Place) (k : Place → Option B) {v : B}
    → run r a k ≡ some v
    → run (alt r s) a k ≡ some v
unfolding run
alt_first r s a k h = rw h refl

-- The latency: digits, a point, and digits.
latency_step :
    {B : Type 0} (b : Option ℕ) (g : Dict ℕ Text) (k : Place → Option B) {v : B} (whole frac : Text)
    (r : Regex) (s : Text)
    → whole ≢ []
    → All (λ c. is_digit c ≡ true) whole
    → frac ≢ []
    → All (λ c. is_digit c ≡ true) frac
    → Stops is_digit s
    → run r
        (place
          (last_of (last_of (last_of b whole) (codes ".")) frac)
          s
          (insert 2 (whole ++ (codes "." ++ frac)) g))
        k
      ≡ some v
    → run (latency_re ⨾ r) (place b (whole ++ (codes "." ++ (frac ++ s))) g) k ≡ some v
unfolding run
latency_step b g k whole frac r s ne a fne fa st h =
    let text : taken (whole ++ (codes "." ++ (frac ++ s))) s ≡ whole ++ (codes "." ++ frac) =
      ap (λ t. taken t s) (sym (append_assoc whole (codes "." ++ frac) s))
      ∙ taken-append (whole ++ (codes "." ++ frac)) s in
    run-some_of is_digit whole b (codes "." ++ (frac ++ s)) g _ ne a refl (
      alt_first (lit (codes ".") ⨾ some_of is_digit) (lit []) _ _ (
        lit_step _ g _ (codes ".") (some_of is_digit) (frac ++ s)
          (run-some_of is_digit frac _ s g _ fne fa st (rw text h))))

-- The name of a result file: the leader, the latency, the threads, the base delay and the run.
abbrev pub result_file : (leader : ℕ) (whole frac : Text) (threads base_delay i : ℕ) → Text
result_file leader whole frac threads base_delay i =
    codes "zk_leader_node"
    ++ (decimal leader
        ++ (codes "_"
            ++ (whole
                ++ (codes "."
                    ++ (frac
                        ++ (codes "ms_"
                            ++ (decimal threads
                                ++ (codes "threads_base_delay_"
                                    ++ (decimal base_delay
                                        ++ (codes "_ms_run" ++ (decimal i ++ codes ".txt")))))))))))

ending :
    (b : Option ℕ) (g : Dict ℕ Text)
    → run (lit (codes ".txt")) (place b (codes ".txt") g) (λ e. some e.groups) ≡ some g
unfolding run eat
ending b g = refl

matched_name :
    (leader : ℕ) (whole frac : Text) (threads base_delay i : ℕ)
    → whole ≢ []
    → All (λ c. is_digit c ≡ true) whole
    → frac ≢ []
    → All (λ c. is_digit c ≡ true) frac
    → run
        (run_re (codes ".txt"))
        (place none (result_file leader whole frac threads base_delay i) [])
        (λ e. some e.groups)
      ≡ some (
          (1, decimal leader)
          ∷ (2, whole ++ (codes "." ++ frac))
          ∷ (3, decimal threads)
          ∷ (4, decimal base_delay)
          ∷ (5, decimal i)
          ∷ [])
matched_name leader whole frac threads base_delay i ne a fne fa =
    lit_step none [] _ (codes "zk_leader_node") _ _ (
      group_step _ [] _ 1 is_digit (decimal leader) _ _ (decimal-ne-nil leader)
        (decimal-digits leader) refl
        (lit_step _ _ _ (codes "_") _ _ (
          latency_step _ _ _ whole frac _ _ ne a fne fa refl (
            lit_step _ _ _ (codes "ms_") _ _ (
              group_step _ _ _ 3 is_digit (decimal threads) _ _ (decimal-ne-nil threads)
                (decimal-digits threads) refl
                (lit_step _ _ _ (codes "threads_base_delay_") _ _ (
                  group_step _ _ _ 4 is_digit (decimal base_delay) _ _ (decimal-ne-nil base_delay)
                    (decimal-digits base_delay) refl
                    (lit_step _ _ _ (codes "_ms_run") _ _ (
                      group_step _ _ _ 5 is_digit (decimal i) _ _ (decimal-ne-nil i)
                        (decimal-digits i) refl (ending _ _))))))))))

with_results-map :
    {F K : Type 0} ⦃f : Eq F⦄ (float : Text → Option F) (latency_of : Text → F) (key : K)
    (r : Option (F × F))
    → with_results float latency_of key r ≡ Option.map (λ both. (key, both)) r
with_results-map float latency_of key none = refl
with_results-map float latency_of key (some r) = refl

module _ {F : Type 0} ⦃f : Eq F⦄ (float : Text → Option F) (latency_of : Text → F) where
  -- A result file whose name is written from a leader, a latency with a point, numbers of threads, of
  -- the base delay and of the run, and which has both results, stands for this leader, this latency
  -- and these threads, with its results. One without both is passed over.
  pub classify_run-result_file :
      (leader : ℕ) (whole frac : Text) (threads base_delay i : ℕ) (lines : List Text)
      → whole ≢ []
      → All (λ c. is_digit c ≡ true) whole
      → frac ≢ []
      → All (λ c. is_digit c ≡ true) frac
      → classify_run float latency_of (result_file leader whole frac threads base_delay i, lines)
        ≡ Option.map
            (λ both. ((leader, (latency_of (whole ++ (codes "." ++ frac)), threads)), both))
            (both_of float (parse_ycsb_file float lines))
  unfolding classify_run match_start
  classify_run-result_file leader whole frac threads base_delay i lines ne a fne fa =
      rw
        (matched_name leader whole frac threads base_delay i ne a fne fa, classify_run, match_start)
        (rw (int-decimal leader, int-decimal threads)
          (with_results-map float latency_of
            (leader, (latency_of (whole ++ (codes "." ++ frac)), threads))
            (both_of float (parse_ycsb_file float lines))))
