-- ===== src/Regex/Steps.antt =====
-- How the matcher goes through a text whose parts are known: over a run of characters that ends
-- where the class ends, and over a group of such a run.
use frugal_leader_election.Base.{
  ℕ, ◌≡◌, ◌≢◌, refl, ap, Bool, true, false, Option, none, some, [], ◌∷◌, ◌++◌, arith, Text, length,
  length-append, take, All, ◌==◌,
}
use frugal_leader_election.Base.Dict.{Dict, insert}
use frugal_leader_election.Base.Equality.{nat_eq}
use frugal_leader_election.Regex.{
  Regex, lit, many, group, some_of, ◌⨾◌, eat, eat_one, Place, place, greedy, run, taken, find,
  search_from,
}

-- The character before the place after `s`.
abbrev pub last_of : Option ℕ → Text → Option ℕ
last_of b [] = b
last_of b (c ∷ s) = last_of (some c) s

-- The text does not go on with a character of the class.
abbrev pub Stops : (ℕ → Bool) → Text → Type 0
Stops p [] = Unit
Stops p (c ∷ s) = p c ≡ false

take_prefix : (w s : Text) (n : ℕ) → n ≡ length w → take n (w ++ s) ≡ w
take_prefix [] s n h = rw h
take_prefix (c ∷ w) s n h = rw h (ap (λ t. c ∷ t) (take_prefix w s (length w) refl))

pub taken-append : (w s : Text) → taken (w ++ s) s ≡ w
taken-append w s = take_prefix w s _ (omega (arith, length-append w s))

==_refl : (c : ℕ) → (c == c) ≡ true
==_refl c = ground arith

module _ {ℓ} {B : Type ℓ} where
  pub greedy_run :
      (p : ℕ → Bool) (w : Text) (b : Option ℕ) (s : Text) (g : Dict ℕ Text) (k : Place → Option B)
      {v : B}
      → All (λ c. p c ≡ true) w
      → Stops p s
      → k (place (last_of b w) s g) ≡ some v
      → greedy p b (w ++ s) g k ≡ some v
  unfolding greedy
  greedy_run p [] b [] g k a st h = h
  greedy_run p [] b (c ∷ s) g k a st h = ground arith
  greedy_run p (c ∷ w) b s g k a st h = ground (arith, greedy_run p w (some c) s g k a.1 st h)

  pub run-some_of :
      (p : ℕ → Bool) (w : Text) (b : Option ℕ) (s : Text) (g : Dict ℕ Text) (k : Place → Option B)
      {v : B}
      → w ≢ []
      → All (λ c. p c ≡ true) w
      → Stops p s
      → k (place (last_of b w) s g) ≡ some v
      → run (some_of p) (place b (w ++ s) g) k ≡ some v
  unfolding run eat_one
  run-some_of p [] b s g k ne a st h = absurd (ne refl)
  run-some_of p (c ∷ w) b s g k ne a st h = rw a.0 (greedy_run p w (some c) s g k a.1 st h)

  pub run_group_some_of :
      (n : ℕ) (p : ℕ → Bool) (w : Text) (b : Option ℕ) (s : Text) (g : Dict ℕ Text)
      (k : Place → Option B) {v : B}
      → w ≢ []
      → All (λ c. p c ≡ true) w
      → Stops p s
      → k (place (last_of b w) s (insert n w g)) ≡ some v
      → run (group n (some_of p)) (place b (w ++ s) g) k ≡ some v
  unfolding run
  run_group_some_of n p w b s g k {v} ne a st h =
      run-some_of p w b s g _ ne a st (rw taken-append h)

eat_self :
    (g : Dict ℕ Text) (cs : Text) (a : Option ℕ) (s : Text)
    → eat cs a (cs ++ s) g ≡ some (place (last_of a cs) s g)
unfolding eat
eat_self g [] a s = refl
eat_self g (c ∷ cs) a s = ground (arith, ==_refl c, eat_self g cs (some c) s)

-- One step of a pattern that is a sequence, for goals in which `run` stays shut.
module _ {ℓ} {B : Type ℓ} (b : Option ℕ) (g : Dict ℕ Text) (k : Place → Option B) {v : B} where
  pub lit_step :
      (cs : Text) (r : Regex) (s : Text)
      → run r (place (last_of b cs) s g) k ≡ some v
      → run (lit cs ⨾ r) (place b (cs ++ s) g) k ≡ some v
  unfolding run
  lit_step cs r s h = rw (eat_self g cs b s) h

  pub many_step :
      (p : ℕ → Bool) (w : Text) (r : Regex) (s : Text)
      → All (λ c. p c ≡ true) w
      → Stops p s
      → run r (place (last_of b w) s g) k ≡ some v
      → run (many p ⨾ r) (place b (w ++ s) g) k ≡ some v
  unfolding run
  many_step p w r s a st h = greedy_run p w b s g _ a st h

  pub some_of_step :
      (p : ℕ → Bool) (w : Text) (r : Regex) (s : Text)
      → w ≢ []
      → All (λ c. p c ≡ true) w
      → Stops p s
      → run r (place (last_of b w) s g) k ≡ some v
      → run (some_of p ⨾ r) (place b (w ++ s) g) k ≡ some v
  unfolding run
  some_of_step p w r s ne a st h = run-some_of p w b s g _ ne a st h

  pub group_step :
      (n : ℕ) (p : ℕ → Bool) (w : Text) (r : Regex) (s : Text)
      → w ≢ []
      → All (λ c. p c ≡ true) w
      → Stops p s
      → run r (place (last_of b w) s (insert n w g)) k ≡ some v
      → run (group n (some_of p) ⨾ r) (place b (w ++ s) g) k ≡ some v
  unfolding run
  group_step n p w r s ne a st h = run_group_some_of n p w b s g (λ c. run r c k) ne a st h

-- A pattern that matches at the start of a line is found there.
pub find_at_start :
    (r : Regex) (s : Text) {g : Dict ℕ Text}
    → run r (place none s []) (λ e. some e.groups) ≡ some g
    → find r s ≡ some g
unfolding find
find_at_start r [] h = h
find_at_start r (c ∷ s) h = rw (h, search_from)
