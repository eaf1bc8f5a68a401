-- ===== src/Base/Sort.antt =====
-- `sorted(...)` on numbers: of a list, and of a set (each element once).
use frugal_leader_election.Base.Tests.{if◌then◌else◌, leb, ltb, ◌==◌}
use frugal_leader_election.Base.Lists.{count}
use Prim.Native.Nat.{ℕ, ◌≤◌, ◌+◌, suc}
use mathlib.Core.Path.{◌≡◌, refl}
use mathlib.Core.Bool.{Bool, true, false}
use mathlib.Core.List.{List, [], ◌∷◌}
use native.Mathlib.Omega.{arith}

abbrev insert_ordered : ℕ → List ℕ → List ℕ
insert_ordered x [] = x ∷ []
insert_ordered x (y ∷ ys) =
    let rest = insert_ordered x ys in if leb x y then x ∷ y ∷ ys else y ∷ rest

-- `sorted(xs)`
abbrev pub sorted : List ℕ → List ℕ
sorted [] = []
sorted (x ∷ xs) = insert_ordered x (sorted xs)

abbrev insert_once : ℕ → List ℕ → List ℕ
insert_once x [] = x ∷ []
insert_once x (y ∷ ys) =
    let rest = insert_once x ys in
    if x == y then y ∷ ys else if ltb x y then x ∷ y ∷ ys else y ∷ rest

-- `sorted(set(xs))`
abbrev pub sorted_set : List ℕ → List ℕ
sorted_set [] = []
sorted_set (x ∷ xs) = insert_once x (sorted_set xs)

-- `x in xs`
abbrev pub member : ℕ → List ℕ → Bool
member x [] = false
member x (y ∷ ys) = let rest = member x ys in if x == y then true else rest

-- Each element at least `lo`, and each larger than the one before.
abbrev pub Ascending : ℕ → List ℕ → Type 0
Ascending lo [] = Unit
Ascending lo (x ∷ xs) = (lo ≤ x) × Ascending (suc x) xs

abbrev pub IsSorted : ℕ → List ℕ → Type 0
IsSorted lo [] = Unit
IsSorted lo (x ∷ xs) = (lo ≤ x) × IsSorted x xs

insert_once-Ascending :
    (x lo : ℕ) (ys : List ℕ) → lo ≤ x → Ascending lo ys → Ascending lo (insert_once x ys)
insert_once-Ascending x lo [] h a = (h, tt)
insert_once-Ascending x lo (y ∷ ys) h a = ground (arith, insert_once-Ascending x (suc y) ys)

pub sorted_set-Ascending : (xs : List ℕ) → Ascending 0 (sorted_set xs)
sorted_set-Ascending [] = tt
sorted_set-Ascending (x ∷ xs) =
    insert_once-Ascending x 0 (sorted_set xs) (omega arith) (sorted_set-Ascending xs)

member-insert_once :
    (j x : ℕ) (ys : List ℕ) → member j (insert_once x ys) ≡ (if j == x then true else member j ys)
member-insert_once j x [] = refl
member-insert_once j x (y ∷ ys) = ground (arith, member-insert_once j x ys)

pub member-sorted_set : (j : ℕ) (xs : List ℕ) → member j (sorted_set xs) ≡ member j xs
member-sorted_set j [] = refl
member-sorted_set j (x ∷ xs) =
    ground (arith, member-insert_once j x (sorted_set xs), member-sorted_set j xs)

insert_ordered-IsSorted :
    (x lo : ℕ) (ys : List ℕ) → lo ≤ x → IsSorted lo ys → IsSorted lo (insert_ordered x ys)
insert_ordered-IsSorted x lo [] h a = (h, tt)
insert_ordered-IsSorted x lo (y ∷ ys) h a = ground (arith, insert_ordered-IsSorted x y ys)

pub sorted-IsSorted : (xs : List ℕ) → IsSorted 0 (sorted xs)
sorted-IsSorted [] = tt
sorted-IsSorted (x ∷ xs) =
    insert_ordered-IsSorted x 0 (sorted xs) (omega arith) (sorted-IsSorted xs)

count-insert_ordered :
    (p : ℕ → Bool) (x : ℕ) (ys : List ℕ)
    → count p (insert_ordered x ys) ≡ (if p x then 1 else 0) + count p ys
count-insert_ordered p x [] = refl
count-insert_ordered p x (y ∷ ys) = ground (arith, count-insert_ordered p x ys)

-- Sorting keeps every element, as often as it stands there.
pub count-sorted : (p : ℕ → Bool) (xs : List ℕ) → count p (sorted xs) ≡ count p xs
count-sorted p [] = refl
count-sorted p (x ∷ xs) = omega (arith, count-insert_ordered p x (sorted xs), count-sorted p xs)
