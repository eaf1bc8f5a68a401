-- ===== src/Base/Dict.antt =====
-- A Python dict, in insertion order.
use frugal_leader_election.Base.Tests.{if◌then◌else◌, is_some}
use frugal_leader_election.Base.Equality.{Eq, ◌=?◌, =?_cases, =?_refl}
use Prim.Native.Nat.{ℕ, ◌+◌}
use mathlib.Core.Path.{◌≡◌, refl}
use mathlib.Core.Bool.{Bool}
use mathlib.Core.List.{List, [], ◌∷◌}
use mathlib.Core.Option.{Option, none, some}
use native.Mathlib.Omega.{arith}

abbrev pub Dict {ℓ κ} : Type ℓ → Type κ → Type (ℓ ⊔ κ)
Dict K V = List (K × V)

-- `list(d.keys())` and `list(d.values())`
abbrev pub keys {ℓ κ} : {K : Type ℓ} {V : Type κ} → Dict K V → List K
keys [] = []
keys ((k, v) ∷ d) = k ∷ keys d

abbrev pub values {ℓ κ} : {K : Type ℓ} {V : Type κ} → Dict K V → List V
values [] = []
values ((k, v) ∷ d) = v ∷ values d

module _ {ℓ κ} {K : Type ℓ} {V : Type κ} ⦃e : Eq K⦄ where
  -- `d.get(k)`
  abbrev pub get : K → Dict K V → Option V
  get k [] = none
  get k ((j, v) ∷ d) = if k =? j then some v else get k d

  -- `d.get(k, v)`, and the read of a `defaultdict`
  abbrev pub get_or : K → V → Dict K V → V
  get_or k v d = elim (get k d) [ none ↦ v | some w ↦ w ]

  -- `k in d`
  abbrev pub contains : K → Dict K V → Bool
  contains k d = is_some (get k d)

  -- `d[k] = v`
  abbrev pub insert : K → V → Dict K V → Dict K V
  insert k v [] = (k, v) ∷ []
  insert k v ((j, w) ∷ d) = if k =? j then (j, v) ∷ d else (j, w) ∷ insert k v d

  -- `del d[k]`, and the removal that `d.pop(k, None)` makes
  abbrev pub erase : K → Dict K V → Dict K V
  erase k [] = []
  erase k ((j, w) ∷ d) = if k =? j then d else (j, w) ∷ erase k d

  -- `d[k] = f(d[k])` where a missing key reads as `v`
  abbrev pub update : K → V → (V → V) → Dict K V → Dict K V
  update k v f d = insert k (f (get_or k v d)) d

  pub get-insert :
      (j k : K) (v : V) (d : Dict K V) → get j (insert k v d) ≡ (if j =? k then some v else get j d)
  get-insert j k v [] = refl
  get-insert j k v ((i, w) ∷ d) =
      ground (arith, =?_cases j k, =?_cases k i, =?_cases j i, get-insert j k v d)

  pub get_or-insert :
      (j k : K) (w v : V) (d : Dict K V)
      → get_or j w (insert k v d) ≡ (if j =? k then v else get_or j w d)
  get_or-insert j k w v d = ground (arith, get-insert j k v d, =?_cases j k)

  pub get_or-cons :
      (j k : K) (v w : V) (d : Dict K V)
      → get_or j v ((k, w) ∷ d) ≡ (if j =? k then w else get_or j v d)
  get_or-cons j k v w d = ground (arith, =?_cases j k)

  pub get-insert_self : (k : K) (v : V) (d : Dict K V) → get k (insert k v d) ≡ some v
  get-insert_self k v d = ground (arith, get-insert k k v d, =?_refl k)

-- A measure of the values, added up over a dict.
abbrev pub total {ℓ κ} : {K : Type ℓ} {V : Type κ} → (V → ℕ) → Dict K V → ℕ
total f [] = 0
total f ((k, v) ∷ d) = f v + total f d

module _ {ℓ κ} {K : Type ℓ} {V : Type κ} ⦃e : Eq K⦄ where
  -- A change of one value that adds `n` to its measure adds `n` to the sum. A missing key counts
  -- for the value that it reads as.
  pub total-update :
      (f : V → ℕ) (k : K) (v : V) (g : V → V) (n : ℕ) (d : Dict K V)
      → f v ≡ 0
      → ((w : V) → f (g w) ≡ f w + n)
      → total f (update k v g d) ≡ total f d + n
  total-update f k v g n [] z h = omega (arith, h v)
  total-update f k v g n ((j, w) ∷ d) z h = ground (arith, h w, total-update f k v g n d z h)
