-- ===== src/Base/Counter.antt =====
-- `collections.Counter`, and the `defaultdict(int)` that the scripts count with.
use frugal_leader_election.Base.Tests.{if◌then◌else◌, ltb}
use frugal_leader_election.Base.Lists.{length, count, sum}
use frugal_leader_election.Base.Equality.{Eq, ◌=?◌, =?_cases, =?_refl}
use frugal_leader_election.Base.Dict.{Dict, values, get_or, insert, update, get-insert}
use Prim.Native.Nat.{ℕ, ◌+◌, ◌≤◌, suc}
use mathlib.Core.Path.{◌≡◌, refl}
use mathlib.Core.Logic.{inl, inr}
use mathlib.Core.List.{List, [], ◌∷◌, foldl}
use mathlib.Core.Option.{Option, none, some, some-injective}
use native.Mathlib.Omega.{arith}

module _ {ℓ} {K : Type ℓ} ⦃e : Eq K⦄ where
  -- `c[k] += 1`
  abbrev pub add_one : Dict K ℕ → K → Dict K ℕ
  add_one d k = update k 0 suc d

  -- `for k in ks: c[k] += 1`, and `c.update(ks)`
  abbrev pub add_all : Dict K ℕ → List K → Dict K ℕ
  add_all = foldl add_one

  -- `Counter(ks)`
  abbrev pub tally : List K → Dict K ℕ
  tally = add_all []

  -- The entry that `max` picks: the first of those with the largest count.
  unfoldable pub best : K × ℕ → Dict K ℕ → K × ℕ
  best b [] = b
  best b ((k, n) ∷ d) = best (if ltb b.1 n then (k, n) else b) d

  -- `c.most_common(1)[0]`
  unfoldable pub most_common : Dict K ℕ → Option (K × ℕ)
  unfolding best
  most_common [] = none
  most_common (b ∷ d) = some (best b d)

  pub get_or-add_one :
      (j k : K) (d : Dict K ℕ) → get_or j 0 (add_one d k) ≡ get_or j 0 d + (if k =? j then 1 else 0)
  get_or-add_one j k d =
      ground (arith, get-insert j k (suc (get_or k 0 d)) d, =?_cases j k, =?_cases k j)

  pub get_or-add_all :
      (j : K) (ks : List K) (d : Dict K ℕ)
      → get_or j 0 (add_all d ks) ≡ get_or j 0 d + count (λ k. k =? j) ks
  get_or-add_all j [] d = omega arith
  get_or-add_all j (k ∷ ks) d =
      omega (arith, get_or-add_all j ks (add_one d k), get_or-add_one j k d)

  -- A counter counts.
  pub get_or-tally : (j : K) (ks : List K) → get_or j 0 (tally ks) ≡ count (λ k. k =? j) ks
  get_or-tally j ks = omega (arith, get_or-add_all j ks [])

  sum-values-add_one : (d : Dict K ℕ) (k : K) → sum (values (add_one d k)) ≡ sum (values d) + 1
  sum-values-add_one [] k = refl
  sum-values-add_one ((j, n) ∷ d) k = ground (arith, sum-values-add_one d k)

  pub sum-values-add_all :
      (ks : List K) (d : Dict K ℕ) → sum (values (add_all d ks)) ≡ sum (values d) + length ks
  sum-values-add_all [] d = omega arith
  sum-values-add_all (k ∷ ks) d =
      omega (arith, sum-values-add_all ks (add_one d k), sum-values-add_one d k)

  pub le-best : (b : K × ℕ) (d : Dict K ℕ) → b.1 ≤ (best b d).1
  unfolding best
  le-best b [] = omega arith
  le-best b ((k, n) ∷ d) = ground (arith, le-best (k, n) d, le-best b d)

  pub get_or-le-best : (j : K) (b : K × ℕ) (d : Dict K ℕ) → get_or j 0 d ≤ (best b d).1
  unfolding best
  get_or-le-best j b [] = omega arith
  get_or-le-best j b ((k, n) ∷ d) =
      ground (arith, le-best (k, n) d, le-best b d, get_or-le-best j (k, n) d, get_or-le-best j b d)

  -- Every count of the dict is at most what `f` allows its key.
  abbrev pub Bounded : (K → ℕ) → Dict K ℕ → Type 0
  Bounded f [] = Unit
  Bounded f ((k, n) ∷ d) = (n ≤ f k) × Bounded f d

  Bounded-insert :
      (f : K → ℕ) (k : K) (n : ℕ) (d : Dict K ℕ) → n ≤ f k → Bounded f d → Bounded f (insert k n d)
  Bounded-insert f k n [] h b = (h, tt)
  Bounded-insert f k n ((j, m) ∷ d) h b = elim (=?_cases k j) [
    | inl (same, p) ↦ rw same (rw p at h, b.1)
    | inr (other, p) ↦ rw other (b.0, Bounded-insert f k n d h b.1)
  ]

  Bounded-mono : (f g : K → ℕ) (d : Dict K ℕ) → ((k : K) → f k ≤ g k) → Bounded f d → Bounded g d
  Bounded-mono f g [] h b = tt
  Bounded-mono f g ((j, m) ∷ d) h b = (omega (arith, h j), Bounded-mono f g d h b.1)

  get_or-le : (f : K → ℕ) (k : K) (d : Dict K ℕ) → Bounded f d → get_or k 0 d ≤ f k
  get_or-le f k [] b = omega arith
  get_or-le f k ((j, m) ∷ d) b = ground (arith, =?_cases k j, get_or-le f k d b.1)

  Bounded-add_all :
      (ks : List K) (f : K → ℕ) (d : Dict K ℕ)
      → Bounded f d
      → Bounded (λ j. f j + count (λ k. k =? j) ks) (add_all d ks)
  Bounded-add_all [] f d b = Bounded-mono f _ d (λ k. omega arith) b
  Bounded-add_all (k ∷ ks) f d b =
      Bounded-mono (λ j. f j + (if k =? j then 1 else 0) + count (λ i. i =? j) ks) _ _
        (λ j. omega arith)
        (Bounded-add_all ks (λ j. f j + (if k =? j then 1 else 0)) (add_one d k)
          (Bounded-insert _ k _ d (rw =?_refl (omega (arith, get_or-le f k d b)))
            (Bounded-mono f _ d (λ j. omega arith) b)))

  best-Bounded :
      (f : K → ℕ) (b : K × ℕ) (d : Dict K ℕ)
      → b.1 ≤ f b.0
      → Bounded f d
      → (best b d).1 ≤ f (best b d).0
  unfolding best
  best-Bounded f b [] h bd = h
  best-Bounded f b ((k, n) ∷ d) h bd =
      ground (arith, best-Bounded f (k, n) d bd.0 bd.1, best-Bounded f b d h bd.1)

  most_common_bounds :
      (f : K → ℕ) (d : Dict K ℕ) {w : K × ℕ}
      → most_common d ≡ some w
      → Bounded f d
      → (w.1 ≤ f w.0) × ((j : K) → get_or j 0 d ≤ w.1)
  unfolding most_common
  most_common_bounds f [] h b = cc
  most_common_bounds f (x ∷ d) {w} h b =
      let p : best x d ≡ w = some-injective _ _ h in
      (
        rw p at (best-Bounded f x d b.0 b.1),
        λ j. ground (arith, p, get_or-le-best j x d, le-best x d),
      )

  -- The winner of a count has as many votes as it says, and no other key has more.
  pub most_common-tally :
      (ks : List K) {w : K × ℕ}
      → most_common (tally ks) ≡ some w
      → (w.1 ≤ count (λ i. i =? w.0) ks) × ((j : K) → count (λ i. i =? j) ks ≤ w.1)
  most_common-tally ks {w} h =
      let (most, least) = most_common_bounds _ (tally ks) h (Bounded-add_all ks (λ j. 0) [] tt) in
      (omega arith, λ j. omega (arith, least j, get_or-tally j ks))

  get_or_of_none : (d : Dict K ℕ) → most_common d ≡ none → (j : K) → get_or j 0 d ≡ 0
  unfolding most_common
  get_or_of_none [] h j = refl
  get_or_of_none (x ∷ d) h j = cc

  -- There is no winner only where nothing was counted.
  pub most_common-tally-none :
      (ks : List K) → most_common (tally ks) ≡ none → (j : K) → count (λ i. i =? j) ks ≡ 0
  most_common-tally-none ks h j = omega (arith, get_or_of_none (tally ks) h j, get_or-tally j ks)
