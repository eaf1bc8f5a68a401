-- ===== src/Background/Sim/Distinct.antt =====
-- The list of the connected sockets as a list without repetitions.
use frugal_leader_election.Base.{
  ◌≡◌, refl, arith, inl, inr, Bool, Bool-cases, true, false, List, [], ◌∷◌, ◌++◌, ◌||◌,
}
use frugal_leader_election.Base.Equality.{=?_cases, nat_eq}
use frugal_leader_election.Background.Sim.{Socket, socket_eq, same, among, without}

abbrev pub Distinct : List Socket → Type 0
Distinct [] = Unit
Distinct (x ∷ xs) = (among x xs ≡ false) × Distinct xs

pub among-append :
    (s x : Socket) (xs : List Socket) → among s (xs ++ (x ∷ [])) ≡ (among s xs || same s x)
among-append s x [] = ground arith
among-append s x (y ∷ xs) = ground (arith, among-append s x xs)

pub Distinct-append :
    (x : Socket) (xs : List Socket) → among x xs ≡ false → Distinct xs → Distinct (xs ++ (x ∷ []))
Distinct-append x [] h d = (refl, tt)
Distinct-append x (y ∷ xs) h d = (
  ground (arith, among-append y x xs, =?_cases x y, =?_cases y x, d.0, h),
  Distinct-append x xs (ground (arith, h)) d.1,
)

pub not-both : {b : Bool} → b ≡ false → b ≡ true → ⊥
not-both p q = cc

pub among-without :
    (s x : Socket) (xs : List Socket) → among s xs ≡ false → among s (without x xs) ≡ false
among-without s x [] h = refl
among-without s x (y ∷ xs) h = ground (arith, among-without s x xs)

pub Distinct-without : (x : Socket) (xs : List Socket) → Distinct xs → Distinct (without x xs)
Distinct-without x [] d = tt
Distinct-without x (y ∷ xs) d = elim (Bool-cases (same x y)) [
  | inl b ↦ rw b d.1
  | inr b ↦ rw b (among-without y x xs d.0, Distinct-without x xs d.1)
]

pub was-among :
    (s x : Socket) (xs : List Socket) → among s (without x xs) ≡ true → among s xs ≡ true
was-among s x xs h = elim (Bool-cases (among s xs)) [
  | inl b ↦ b
  | inr b ↦ absurd (not-both (among-without s x xs b) h)
]

-- What is taken out of a list is no longer there.
pub among-without_self :
    (s : Socket) (xs : List Socket) → Distinct xs → among s (without s xs) ≡ false
among-without_self s [] d = refl
among-without_self s (y ∷ xs) d = elim (=?_cases s y) [
  | inl (b, e) ↦ rw b (rw e d.0)
  | inr (b, e) ↦ rw (b) (ground (arith, b, among-without_self s xs d.1))
]
