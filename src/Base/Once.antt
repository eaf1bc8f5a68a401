-- ===== src/Base/Once.antt =====
-- Dicts whose keys stand there once, which all Python dicts are.
use frugal_leader_election.Base.Tests.{if◌then◌else◌}
use frugal_leader_election.Base.Lists.{length}
use frugal_leader_election.Base.Equality.{Eq, ◌=?◌, =?_cases}
use frugal_leader_election.Base.Dict.{Dict, insert, erase, contains}
use Prim.Native.Nat.{◌+◌}
use mathlib.Core.Path.{◌≡◌, refl}
use mathlib.Core.Logic.{◌≢◌, inl, inr}
use mathlib.Core.Bool.{true, false}
use mathlib.Core.List.{[], ◌∷◌}
use native.Mathlib.Omega.{arith}

module _ {ℓ κ} {K : Type ℓ} {V : Type κ} ⦃e : Eq K⦄ where
  abbrev pub Once : Dict K V → Type 0
  Once [] = Unit
  Once ((k, v) ∷ d) = (contains k d ≡ false) × Once d

  contains-insert :
      (j k : K) (v : V) (d : Dict K V)
      → contains j (insert k v d) ≡ (if j =? k then true else contains j d)
  contains-insert j k v [] = ground (arith, =?_cases j k)
  contains-insert j k v ((i, w) ∷ d) =
      ground (arith, =?_cases j k, =?_cases j i, =?_cases k i, contains-insert j k v d)

  pub Once-insert : (k : K) (v : V) (d : Dict K V) → Once d → Once (insert k v d)
  Once-insert k v [] o = (refl, tt)
  Once-insert k v ((i, w) ∷ d) o = elim (=?_cases k i) [
    | inl (same, p) ↦ rw same o
    | inr (other, p) ↦
        rw other (ground (arith, contains-insert i k v d, =?_cases i k, o.0), Once-insert k v d o.1)
  ]

  pub contains-erase_of_absent :
      (j k : K) (d : Dict K V) → contains j d ≡ false → contains j (erase k d) ≡ false
  contains-erase_of_absent j k [] h = refl
  contains-erase_of_absent j k ((i, w) ∷ d) h =
      ground (arith, =?_cases j i, =?_cases k i, contains-erase_of_absent j k d)

  pub Once-erase : (k : K) (d : Dict K V) → Once d → Once (erase k d)
  Once-erase k [] o = tt
  Once-erase k ((i, w) ∷ d) o = elim (=?_cases k i) [
    | inl (same, p) ↦ rw same o.1
    | inr (other, p) ↦ rw other (contains-erase_of_absent i k d o.0, Once-erase k d o.1)
  ]

  pub contains-erase : (k : K) (d : Dict K V) → Once d → contains k (erase k d) ≡ false
  contains-erase k [] o = refl
  contains-erase k ((i, w) ∷ d) o = elim (=?_cases k i) [
    | inl (same, p) ↦ rw (same, p) o.0
    | inr (other, p) ↦ ground (arith, other, contains-erase k d o.1)
  ]

  pub length-insert_of_absent :
      (k : K) (v : V) (d : Dict K V) → contains k d ≡ false → length (insert k v d) ≡ length d + 1
  length-insert_of_absent k v [] h = refl
  length-insert_of_absent k v ((i, w) ∷ d) h =
      ground (arith, =?_cases k i, length-insert_of_absent k v d)

  pub length-erase :
      (k : K) (d : Dict K V) → contains k d ≡ true → length (erase k d) + 1 ≡ length d
  length-erase k [] h = cc
  length-erase k ((i, w) ∷ d) h = ground (arith, =?_cases k i, length-erase k d)

  pub contains-insert_of_other :
      (j k : K) (v : V) (d : Dict K V) → j ≢ k → contains j (insert k v d) ≡ contains j d
  contains-insert_of_other j k v d h = ground (arith, contains-insert j k v d, =?_cases j k)
