-- ===== src/Consistency/Votes.antt =====
-- What the majority check decides: an index passes exactly when one opinion on it is held by a
-- quorum of the logs, and a quorum of more than half leaves room for one such opinion only.
use frugal_leader_election.Base.{
  ℕ, ◌+◌, ◌≤◌, ◌≡◌, refl, ap, sym, ◌∙◌, ◌≢◌, suc, ◌↔◌, inl, inr, Bool, true, false, List, [], ◌∷◌,
  ◌++◌, arith, if◌then◌else◌, Text, length, count, map, Option-cases, Bool-cases,
}
use frugal_leader_election.Base.Dict.{keys, values, contains}
use frugal_leader_election.Base.Equality.{nat_eq, list_eq, ◌=?◌, =?_cases}
use frugal_leader_election.Base.Counter.{
  tally, most_common, most_common-tally, most_common-tally-none,
}
use mathlib.Core.Bool.{false≢true}
use frugal_leader_election.Base.Sort.{sorted_set, member, Ascending, member-sorted_set}
use frugal_leader_election.Consistency.{
  RaftLog, Logs, quorum, opinion, all_indices, index_consistent, check_indices, majority_consistent,
}

-- How many of the logs say `o` about the index.
abbrev pub votes : Text → ℕ → List RaftLog → ℕ
votes o idx logs = count (λ i. i =? o) (map (opinion idx) logs)

-- Some opinion on the index is held by at least `q` of the logs.
abbrev pub Agreed : ℕ → ℕ → List RaftLog → Type 0
Agreed q idx logs = (o : Text) × (q ≤ votes o idx logs)

-- Some log has an entry for the index.
abbrev pub held : ℕ → List RaftLog → Bool
held idx [] = false
held idx (d ∷ ds) = let rest = held idx ds in if contains idx d then true else rest

pub index_consistent_iff :
    (q idx : ℕ) (logs : List RaftLog)
    → 1 ≤ q
    → (index_consistent q logs idx ≡ true) ↔ Agreed q idx logs
unfolding index_consistent
index_consistent_iff q idx logs h =
    elim (Option-cases (most_common (tally (map (opinion idx) logs)))) [
      | inl nobody ↦ (
        λ p. ground arith,
        λ (o, few).
            absurd (omega (arith, most_common-tally-none (map (opinion idx) logs) nobody o)),
      )
      | inr (w, won) ↦
          let (most, least) = most_common-tally (map (opinion idx) logs) won in
          (λ p. (w.0, ground arith), λ (o, few). ground (arith, least o))
    ]

-- Two opinions share no log.
count_disjoint :
    (a b : Text) (os : List Text)
    → a ≢ b
    → count (λ i. i =? a) os + count (λ i. i =? b) os ≤ length os
count_disjoint a b [] ne = omega arith
count_disjoint a b (o ∷ os) ne =
    ground (arith, count_disjoint a b os ne, =?_cases o a, =?_cases o b)

length-map : (f : RaftLog → Text) (ds : List RaftLog) → length (map f ds) ≡ length ds
length-map f [] = refl
length-map f (d ∷ ds) = ap suc (length-map f ds)

-- With the quorum of the script, more than half of the logs, at most one opinion on an index
-- has a quorum.
pub quorum_unique :
    (idx : ℕ) (logs : List RaftLog) (a b : Text)
    → quorum (length logs) ≤ votes a idx logs
    → quorum (length logs) ≤ votes b idx logs
    → a ≡ b
unfolding quorum
quorum_unique idx logs a b p q = elim (=?_cases a b) [
  | inl (same, e) ↦ e
  | inr (other, ne) ↦
      absurd (
        omega
          (arith, count_disjoint a b (map (opinion idx) logs) ne, length-map (opinion idx) logs))
]

member-append :
    (i : ℕ) (xs ys : List ℕ) → member i (xs ++ ys) ≡ (if member i xs then true else member i ys)
member-append i [] ys = refl
member-append i (x ∷ xs) ys = ground (arith, member-append i xs ys)

member-keys : (i : ℕ) (d : RaftLog) → member i (keys d) ≡ contains i d
member-keys i [] = refl
member-keys i (e ∷ d) = ground (arith, member-keys i d)

member-all_indices : (i : ℕ) (logs : List RaftLog) → member i (all_indices logs) ≡ held i logs
unfolding all_indices
member-all_indices i [] = refl
member-all_indices i (d ∷ ds) =
    ground
      (arith, member-append i (keys d) (all_indices ds), member-keys i d, member-all_indices i ds)

-- The printed indices are those of the loop that are not consistent.
member-check_indices :
    (q : ℕ) (logs : List RaftLog) (i : ℕ) (is : List ℕ)
    → member i (check_indices q logs is).1
      ≡ (if index_consistent q logs i then false else member i is)
unfolding check_indices
member-check_indices q logs i [] = ground arith
member-check_indices q logs i (j ∷ is) = ground (arith, member-check_indices q logs i is)

check_indices_empty :
    (q : ℕ) (logs : List RaftLog) (is : List ℕ)
    → ((check_indices q logs is).0 ≡ true) ↔ ((check_indices q logs is).1 ≡ [])
unfolding check_indices
check_indices_empty q logs [] = (λ h. refl, λ h. refl)
check_indices_empty q logs (j ∷ is) = ground (arith, check_indices_empty q logs is)

check_indices-Ascending :
    (q : ℕ) (logs : List RaftLog) (lo lo' : ℕ) (is : List ℕ)
    → lo ≤ lo'
    → Ascending lo' is
    → Ascending lo (check_indices q logs is).1
unfolding check_indices
check_indices-Ascending q logs lo lo' [] h a = tt
check_indices-Ascending q logs lo lo' (j ∷ is) h a = ground (
  arith,
  check_indices-Ascending q logs lo (suc j) is (omega arith) a.1,
  check_indices-Ascending q logs (suc j) (suc j) is (omega arith) a.1,
)

-- With a quorum `q` of at least 1, the indices printed as inconsistent are exactly those that
-- some log holds and on which no opinion is held by at least `q` logs.
pub reported_iff :
    (q idx : ℕ) (logs : Logs)
    → 1 ≤ q
    → (member idx (majority_consistent q logs).1 ≡ true)
      ↔ ((held idx (values logs) ≡ true) × ¬ Agreed q idx (values logs))
unfolding majority_consistent
reported_iff q idx logs h =
    let (sound, complete) = index_consistent_iff q idx (values logs) h in
    rw
      (
        member-check_indices q (values logs) idx,
        member-sorted_set idx (all_indices (values logs)),
        member-all_indices idx (values logs),
      )
      (elim (Bool-cases (index_consistent q (values logs) idx)) [
        | inl good ↦ rw good (λ p. cc, λ (_, no_one). absurd (no_one (sound good)))
        | inr bad ↦ rw bad (λ p. (p, λ a. false≢true (rw bad at (complete a))), λ (p, _). p)
      ])

passed_all :
    (q : ℕ) (logs : List RaftLog) (is : List ℕ) (i : ℕ)
    → (check_indices q logs is).0 ≡ true
    → member i is ≡ true
    → index_consistent q logs i ≡ true
unfolding check_indices
passed_all q logs [] i h m = cc
passed_all q logs (j ∷ is) i h m = ground (arith, passed_all q logs is i)

all_passed :
    (q : ℕ) (logs : List RaftLog) (is : List ℕ)
    → ((i : ℕ) → member i is ≡ true → index_consistent q logs i ≡ true)
    → (check_indices q logs is).0 ≡ true
unfolding check_indices
all_passed q logs [] h = refl
all_passed q logs (j ∷ is) h = ground (arith, h j, all_passed q logs is (λ i m. h i (ground arith)))

member-indices :
    (i : ℕ) (logs : List RaftLog) → member i (sorted_set (all_indices logs)) ≡ held i logs
member-indices i logs = member-sorted_set i (all_indices logs) ∙ member-all_indices i logs

-- With a quorum `q` of at least 1, the check passes exactly when, on every index that some log
-- holds, some opinion is held by at least `q` logs.
pub majority_consistent_iff :
    (q : ℕ) (logs : Logs)
    → 1 ≤ q
    → ((majority_consistent q logs).0 ≡ true)
      ↔ ((idx : ℕ) → held idx (values logs) ≡ true → Agreed q idx (values logs))
unfolding majority_consistent
majority_consistent_iff q logs h = (
  λ passed idx present.
      (index_consistent_iff q idx (values logs) h).0
        (passed_all q (values logs) _ idx passed (member-indices idx (values logs) ∙ present)),
  λ agreed. all_passed q (values logs) _ λ idx m.
      (index_consistent_iff q idx (values logs) h).1
        (agreed idx (sym (member-indices idx (values logs)) ∙ m)),
)
