-- ===== src/Tasks/Local/Tracked.antt =====
-- Which of the processes that were started can still be stopped.
use frugal_leader_election.Base.{
  ℕ, zero, suc, ◌≤◌, ◌≡◌, refl, ◌∙◌, arith, inl, inr, Bool-cases, true, false, ◌||◌, Option, none,
  some, List, [], ◌∷◌, ◌++◌, ◌==◌,
}
use frugal_leader_election.Base.Dict.{Dict, insert, values, contains}
use frugal_leader_election.Base.Equality.{=?_cases}
use frugal_leader_election.Base.Once.{contains-insert_of_other}
use frugal_leader_election.Base.Sort.{member}
use frugal_leader_election.Base.Result.{Result, ok, err, err-ne-ok}
use frugal_leader_election.Tasks.Local.{
  Name, replica, replica-injective, name_eq, Local, Machine, Task, register, launched,
  start_replicas, start_configured, start, stop, restart, and_then, open_log, replica_log,
}

-- Every process that was started has been asked to terminate or stands in the table.
abbrev pub Tracked : Local → Type 0
Tracked s =
    (p : ℕ) → member p s.started ≡ true → (member p s.asked || member p (values s.processes)) ≡ true

member-append : (p : ℕ) (xs ys : List ℕ) → member p (xs ++ ys) ≡ (member p xs || member p ys)
member-append p [] ys = refl
member-append p (x ∷ xs) ys = ground (arith, member-append p xs ys)

member-values-insert :
    (p pid : ℕ) (name : Name) (d : Dict Name ℕ)
    → contains name d ≡ false
    → member p (values (insert name pid d)) ≡ (member p (values d) || (p == pid))
member-values-insert p pid name [] h = ground arith
member-values-insert p pid name ((k, v) ∷ d) h =
    ground (arith, =?_cases name k, member-values-insert p pid name d)

register-Tracked :
    (name : Name) (pid : ℕ) (s : Local)
    → contains name s.processes ≡ false
    → Tracked s
    → Tracked (register name pid s)
register-Tracked name pid s absent t p h = ground (
  arith,
  member-append p s.started (pid ∷ []),
  member-values-insert p pid name s.processes absent,
  t p,
)

-- No replica with the number `i` or a higher one is in the table.
abbrev pub Free : ℕ → Dict Name ℕ → Type 0
Free i d = (j : ℕ) → i ≤ j → contains (replica j) d ≡ false

Free-insert : (i pid : ℕ) (d : Dict Name ℕ) → Free i d → Free (suc i) (insert (replica i) pid d)
Free-insert i pid d f j le =
    contains-insert_of_other (replica j) (replica i) pid d
      (λ e. absurd (omega (arith, replica-injective e)))
    ∙ f j (omega arith)

-- A state in which those asked are `asked`, and all others can be asked.
abbrev Kept : List ℕ → Local → Type 0
Kept asked s = Tracked s × (s.asked ≡ asked)

start_replicas-Kept :
    (i n : ℕ) (w : Machine) (s : Local) (asked : List ℕ)
    → Free i s.processes
    → Kept asked s
    → Kept asked (start_replicas i n w s).1
unfolding start_replicas
start_replicas-Kept i zero w s asked f k = k
start_replicas-Kept i (suc n) w s asked f k =
    go (λ t g l. start_replicas-Kept (suc i) n w t asked g l) (open_log (replica_log i) s) f k _
  where
    past : Result (Unit {0}) × Local → Result (Unit {0}) × Local
    past r = elim r.0 [ err e ↦ (err e, r.1) | ok x ↦ start_replicas (suc i) n w r.1 ]

    go :
        ((t : Local)
          → Free (suc i) t.processes
          → Kept asked t
          → Kept asked (start_replicas (suc i) n w t).1)
        → (t : Local) → Free i t.processes
        → Kept asked t
        → (o : Option ℕ) → Kept asked (past (launched (replica i) o t)).1
    go ih t g l none = l
    go ih t g l (some pid) =
        ih (register (replica i) pid t) (Free-insert i pid t.processes g)
          (register-Tracked (replica i) pid t (g i (omega arith)) l.0, l.1)

start_configured-Kept :
    (o : Option ℕ) (w : Machine) (s : Local) (asked : List ℕ)
    → Free 0 s.processes
    → Kept asked s
    → Kept asked (start_configured o w s).1
start_configured-Kept none w s asked f k = k
start_configured-Kept (some n) w s asked f k =
    start_replicas-Kept 0 n w (record s { logs = [] }) asked f k

start-Kept :
    (w : Machine) (s : Local) (asked : List ℕ)
    → Free 0 s.processes
    → Kept asked s
    → Kept asked (start w s).1
unfolding start
start-Kept w s asked f k = elim (Bool-cases (w.is_file s)) [
  | inl b ↦ rw (b, start) (start_configured-Kept (w.n_replicas s) w s asked f k)
  | inr b ↦ rw (b, start) k
]

-- `start` keeps every process in reach of `stop`, where no replica is in the table. It may raise
-- after some of the replicas.
pub start-Tracked :
    (w : Machine) (s : Local) → Free 0 s.processes → Tracked s → Tracked (start w s).1
start-Tracked w s f t = (start-Kept w s s.asked f (t, refl)).0

-- All that were started have been asked to terminate, and the table is empty.
abbrev pub Stopped : Local → Local → Type 0
Stopped before s =
    ((p : ℕ) → member p before.started ≡ true → member p s.asked ≡ true)
    × (s.started ≡ before.started)
    × (s.processes ≡ [])

pub stop-Stopped :
    (w : Machine) (s : Local) → Tracked s → ((stop w s).0 ≡ ok tt) × Stopped s (stop w s).1
unfolding stop
stop-Stopped w s = go s.processes
  where
    with_table : Dict Name ℕ → Local
    with_table ps = record s { processes = ps }

    go :
        (ps : Dict Name ℕ)
        → Tracked (with_table ps)
        → ((stop w (with_table ps)).0 ≡ ok tt) × Stopped s (stop w (with_table ps)).1
    go [] t = (refl, (λ p h. ground (arith, t p h), refl, refl))
    go (q ∷ qs) t = (
      refl,
      (λ p h. ground (arith, t p h, member-append p s.asked (values (q ∷ qs))), refl, refl),
    )

and_then_of_ok :
    (m k : Task) (w : Machine) (s : Local) → (m w s).0 ≡ ok tt → and_then m k w s ≡ k w (m w s).1
and_then_of_ok m k w s = go (m w s)
  where
    past : Result (Unit {0}) × Local → Result (Unit {0}) × Local
    past r = elim r.0 [ err e ↦ (err e, r.1) | ok x ↦ k w r.1 ]

    go : (r : Result (Unit {0}) × Local) → r.0 ≡ ok tt → past r ≡ k w r.1
    go (err e, t) h = absurd (err-ne-ok h)
    go (ok x, t) h = refl

-- Where all that were started can still be asked to terminate, `restart` asks all of them, and
-- those that it starts can all be asked too, whether it raises or not.
pub restart-Tracked :
    (w : Machine) (s : Local)
    → Tracked s
    → ((p : ℕ) → member p s.started ≡ true → member p (restart w s).1.asked ≡ true)
      × Tracked (restart w s).1
unfolding restart
restart-Tracked w s t =
    let (quiet, (all, same, empty)) = stop-Stopped w s t in
    let u : Local = (stop w s).1 in
    let tracked : Tracked u = λ p h. ground (arith, all p (rw same at h)) in
    let free : Free 0 u.processes = λ j le. rw empty refl in
    let (after, kept) = start-Kept w u u.asked free (tracked, refl) in
    rw (and_then_of_ok stop start w s quiet, restart) (λ p h. rw kept (all p h), after)
