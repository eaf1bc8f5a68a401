-- ===== src/Remote/Threads/Ends.antt =====
-- What threads have done when they have ended, in whichever order they ran.
use frugal_leader_election.Base.{
  ℕ, ◌≡◌, ◌≢◌, refl, sym, ap, ◌∙◌, arith, inl, inr, true, false, Option, Option-cases, none, some,
  List, [], ◌∷◌, ◌++◌, Text, is_some, All, ◌==◌, if◌then◌else◌,
}
use mathlib.Core.List.{append-nil, append_assoc}
use frugal_leader_election.Base.Equality.{=?_cases, =?_refl, nat_eq}
use frugal_leader_election.Remote.{Action, History, World}
use frugal_leader_election.Remote.Quiet.{Safe}
use frugal_leader_election.Remote.Threads.{
  Threads, calls, behind, set, Step, call, Reach, start, later,
}

-- The calls of one thread, in order.
abbrev pub calls_of : ℕ → List (ℕ × Action) → List Action
calls_of j [] = []
calls_of j (c ∷ history) = let rest = calls_of j history in if c.0 == j then c.1 ∷ rest else rest

calls_of-append :
    (j : ℕ) (xs ys : List (ℕ × Action)) → calls_of j (xs ++ ys) ≡ calls_of j xs ++ calls_of j ys
calls_of-append j [] ys = refl
calls_of-append j (c ∷ xs) ys = ground (arith, calls_of-append j xs ys)

-- A thread either is on its way, with its script in what it has made and has left, or was cut off
-- by a call that raised, which is the last that it has made.
pub data Done (w : World) (script made left : List Action) : Type 0 where
  on_way : script ≡ made ++ left → Done w script made left
  cut :
      (init xs : List Action) (a : Action) (h : History)
      → script ≡ init ++ (a ∷ xs)
      → made ≡ init ++ (a ∷ [])
      → left ≡ []
      → w.respond h a ≡ none
      → Done w script made left

Done-call :
    (w : World) (script made rest : List Action) (a : Action) (h : History)
    → script ≡ made ++ (a ∷ rest)
    → Done w script (made ++ (a ∷ [])) (behind (w.respond h a) rest)
Done-call w script made rest a h e = go (w.respond h a) refl
  where
    go : (o : Option Text) → w.respond h a ≡ o → Done w script (made ++ (a ∷ [])) (behind o rest)
    go none r = cut made rest a h e refl refl r
    go (some out) r = on_way (e ∙ sym (append_assoc made (a ∷ []) rest))

-- The thread that makes a call.
Done-step :
    (w : World) (script made left rest : List Action) (a : Action) (h : History)
    → left ≡ a ∷ rest
    → Done w script made left
    → Done w script (made ++ (a ∷ [])) (behind (w.respond h a) rest)
Done-step w script made left rest a h e (on_way p) = Done-call w script made rest a h (rw e at p)
Done-step w script made left rest a h e (cut init xs b g p q l r) = absurd (cons-ne-nil (sym e ∙ l))
  where
    cons-ne-nil : {x : Action} {ys : List Action} → ¬ (x ∷ ys ≡ [])
    cons-ne-nil c = cc

calls_of_self :
    (i : ℕ) (a : Action) (h : List (ℕ × Action))
    → calls_of i (h ++ ((i, a) ∷ [])) ≡ calls_of i h ++ (a ∷ [])
calls_of_self i a h = calls_of-append i h ((i, a) ∷ []) ∙ rw (=?_refl i) refl

calls_of_other :
    (j i : ℕ) (a : Action) (h : List (ℕ × Action))
    → j ≢ i
    → calls_of j (h ++ ((i, a) ∷ [])) ≡ calls_of j h
calls_of_other j i a h p =
    let other : (i == j) ≡ false = ground (arith, =?_cases i j) in
    calls_of-append j h ((i, a) ∷ []) ∙ rw other (append-nil (calls_of j h))

set_self : (i : ℕ) (rest : List Action) (left : ℕ → List Action) → set i rest left i ≡ rest
set_self i rest left = rw (=?_refl i) refl

Step-Done :
    (w : World) (scripts : ℕ → List Action) (j : ℕ) {s t : Threads}
    → Step w s t
    → Done w (scripts j) (calls_of j s.history) (s.left j)
    → Done w (scripts j) (calls_of j t.history) (t.left j)
Step-Done w scripts j {s} (call i a rest e) d = elim (=?_cases j i) [
  | inl (same, p) ↦
      rw
        (
          p,
          calls_of_self i a s.history,
          set_self i (behind (w.respond (calls s.history) a) rest) s.left,
        )
        (Done-step w (scripts i) (calls_of i s.history) (s.left i) rest a (calls s.history) e
          (rw p at d))
  | inr (other, p) ↦ rw (calls_of_other j i a s.history p, other) d
]

pub Reach-Done :
    (w : World) (scripts : ℕ → List Action) (j : ℕ) {s : Threads}
    → Reach w scripts s
    → Done w (scripts j) (calls_of j s.history) (s.left j)
Reach-Done w scripts j start = on_way refl
Reach-Done w scripts j (later r st) = Step-Done w scripts j st (Reach-Done w scripts j r)

All-at :
    (w : World) (init xs : List Action) (a : Action) → All (Safe w) (init ++ (a ∷ xs)) → Safe w a
All-at w [] xs a h = h.0
All-at w (b ∷ init) xs a h = All-at w init xs a h.1

none-ne-safe : (o : Option Text) → o ≡ none → is_some o ≡ true → ⊥
none-ne-safe o e h = cc

-- Whatever the order in which threads run and whatever the calls of the others do: the calls of a
-- thread none of whose calls raises and those that it has left are its script.
pub made-left :
    (w : World) (scripts : ℕ → List Action) (s : Threads) (j : ℕ)
    → Reach w scripts s
    → All (Safe w) (scripts j)
    → calls_of j s.history ++ s.left j ≡ scripts j
made-left w scripts s j r safe = go (Reach-Done w scripts j r)
  where
    go :
        Done w (scripts j) (calls_of j s.history) (s.left j)
        → calls_of j s.history ++ s.left j ≡ scripts j
    go (on_way p) = sym p
    go (cut init xs a h p q l raised) =
        absurd (none-ne-safe (w.respond h a) raised (All-at w init xs a (rw p at safe) h))

-- A run from one state to another.
pub data Run (w : World) (s : Threads) : Threads → Type 0 where
  stay : Run w s s
  go_on : {t u : Threads} → Run w s t → Step w t u → Run w s u

pub Reach-Run :
    {w : World} {scripts : ℕ → List Action} {s t : Threads}
    → Reach w scripts s
    → Run w s t
    → Reach w scripts t
Reach-Run r stay = r
Reach-Run r (go_on m st) = later (Reach-Run r m) st

abbrev after_call : World → Threads → ℕ → Action → List Action → Threads
after_call w s i a rest = record {
  history = s.history ++ ((i, a) ∷ []);
  left = set i (behind (w.respond (calls s.history) a) rest) s.left;
}

run_out_from :
    (w : World) (j : ℕ) (s t : Threads) (xs : List Action)
    → Run w s t
    → t.left j ≡ xs
    → (u : Threads) × Run w s u × (u.left j ≡ [])
run_out_from w j s t [] m e = (t, m, e)
run_out_from w j s t (a ∷ rest) m e =
    let u : Threads = after_call w t j a rest in
    let n : Run w s u = go_on m (call j a rest e) in
    let left : u.left j ≡ behind (w.respond (calls t.history) a) rest =
      set_self j (behind (w.respond (calls t.history) a) rest) t.left in
    elim (Option-cases (w.respond (calls t.history) a)) [
      | inl raised ↦ (u, n, left ∙ ap (λ o. behind o rest) raised)
      | inr (out, p) ↦ run_out_from w j s u rest n (left ∙ ap (λ o. behind o rest) p)
    ]

-- A thread can always run to its end.
pub run_out : (w : World) (j : ℕ) (s : Threads) → (u : Threads) × Run w s u × (u.left j ≡ [])
run_out w j s = run_out_from w j s s (s.left j) stay refl
