-- ===== src/Remote/Threads.antt =====
-- Threads that make calls on other machines at the same time. Each has a list of calls in a `try`,
-- so a call that raises ends its thread and no other. Which thread comes next is not determined.
pub mod Ends
use frugal_leader_election.Base.{
  ℕ, ◌≡◌, Bool, true, false, Option, none, some, List, [], ◌∷◌, ◌++◌, Text, map, ◌==◌,
  if◌then◌else◌,
}
use frugal_leader_election.Remote.{Action, World}

-- The calls so far, each with the number of its thread, and what each thread has left.
pub record Threads : Type 0 where
  pub history : List (ℕ × Action)
  pub left : ℕ → List Action

abbrev pub calls : List (ℕ × Action) → List Action
calls history = map (λ (c : ℕ × Action). c.1) history

-- What a thread has left behind a call.
abbrev pub behind : Option Text → List Action → List Action
behind none rest = []
behind (some out) rest = rest

abbrev pub set : ℕ → List Action → (ℕ → List Action) → ℕ → List Action
set i rest left j = if j == i then rest else left j

-- All threads at their start.
abbrev pub started : (ℕ → List Action) → Threads
started scripts = record { history = []; left = scripts }

pub data Step (w : World) (s : Threads) : Threads → Type 0 where
  call :
      (i : ℕ) (a : Action) (rest : List Action)
      → s.left i ≡ a ∷ rest
      → Step w s (record {
        history = s.history ++ ((i, a) ∷ []);
        left = set i (behind (w.respond (calls s.history) a) rest) s.left;
      })

pub data Reach (w : World) (scripts : ℕ → List Action) : Threads → Type 0 where
  start : Reach w scripts (started scripts)
  later : {s t : Threads} → Reach w scripts s → Step w s t → Reach w scripts t

-- The thread with the number `i` for the element at `i` of a list, and threads without calls behind.
abbrev pub thread_of : {A : Type 0} → (ℕ → A → List Action) → List A → ℕ → ℕ → List Action
thread_of f [] i j = []
thread_of f (x ∷ xs) i j = if j == i then f i x else thread_of f xs (ℕ.suc i) j
