-- ===== src/Remote/Laws.antt =====
-- Which calls the loops make.
use frugal_leader_election.Base.{
  ℕ, ◌+◌, ◌≡◌, refl, ap, sym, ◌∙◌, Bool, true, false, Option, none, some, List, [], ◌∷◌, ◌++◌, Text,
  is_some, ◌&&◌, if◌then◌else◌,
}
use frugal_leader_election.Base.Result.{Result, ok, err, remote_error, or_raise}
use mathlib.Core.List.{append-nil, append_assoc}
use frugal_leader_election.Remote.{
  Action, History, World, script, attempt, enumerate, try_each, run_each, ◌>>◌,
}

-- All calls come through.
abbrev pub comes_through : World → History → List Action → Bool
comes_through w h [] = true
comes_through w h (a ∷ calls) = is_some (w.respond h a) && comes_through w (h ++ (a ∷ [])) calls

-- The calls up to the first one that raises, this one too.
abbrev pub made : World → History → List Action → List Action
made w h [] = []
made w h (a ∷ calls) =
    a ∷ elim (w.respond h a) [ none ↦ [] | some out ↦ made w (h ++ (a ∷ [])) calls ]

-- How calls one after the other end.
abbrev pub ends : World → History → List Action → Result (Unit {0}) × History
ends w h calls = (if comes_through w h calls then ok tt else err remote_error, h ++ made w h calls)

pub script-ends :
    (calls : List Action) (w : World) (h : History) → script calls w h ≡ ends w h calls
unfolding script
script-ends [] w h = ap (λ t. (ok tt, t)) (sym (append-nil h))
script-ends (a ∷ calls) w h = go (script-ends calls w (h ++ (a ∷ []))) (w.respond h a)
  where
    t : History
    t = h ++ (a ∷ [])

    go :
        script calls w t ≡ ends w t calls
        → (o : Option Text)
        → (elim (or_raise o remote_error) [ err e ↦ (err e, t) | ok out ↦ script calls w t ]) ≡ (
          if is_some o && comes_through w t calls then ok tt else err remote_error,
          h ++ (a ∷ elim o [ none ↦ [] | some out ↦ made w t calls ]),
        )
    go ih none = refl
    go ih (some out) =
        ih
        ∙ ap (λ u. (if comes_through w t calls then ok tt else err remote_error, u))
            (append_assoc h (a ∷ []) (made w t calls))

-- Where all calls come through, all are made.
pub made-all :
    (calls : List Action) (w : World) (h : History)
    → comes_through w h calls ≡ true
    → made w h calls ≡ calls
made-all [] w h t = refl
made-all (a ∷ calls) w h t =
    ap (λ u. a ∷ u) (go (made-all calls w (h ++ (a ∷ []))) (w.respond h a) t)
  where
    go :
        (comes_through w (h ++ (a ∷ [])) calls ≡ true → made w (h ++ (a ∷ [])) calls ≡ calls)
        → (o : Option Text) → (is_some o && comes_through w (h ++ (a ∷ [])) calls) ≡ true
        → (elim o [ none ↦ [] | some out ↦ made w (h ++ (a ∷ [])) calls ]) ≡ calls
    go ih none c = cc
    go ih (some out) c = ih c

-- The calls of rows that are tried one after the other.
abbrev pub tried : World → History → List (List Action) → List Action
tried w h [] = []
tried w h (row ∷ rows) = made w h row ++ tried w (h ++ made w h row) rows

-- The rows of a list, with their numbers from `i` on.
abbrev pub rows_of : {A : Type 0} → (ℕ → A → List Action) → ℕ → List A → List (List Action)
rows_of f i [] = []
rows_of f i (x ∷ xs) = f i x ∷ rows_of f (i + 1) xs

abbrev pub concat : List (List Action) → List Action
concat [] = []
concat (row ∷ rows) = row ++ concat rows

-- A loop over `try` goes through all rows, whatever raises.
pub enumerate-tried :
    {A : Type 0} (f : ℕ → A → List Action) (i : ℕ) (xs : List A) (w : World) (h : History)
    → enumerate (λ j x. attempt (script (f j x))) i xs w h
      ≡ (ok tt, h ++ tried w h (rows_of f i xs))
unfolding enumerate
enumerate-tried f i [] w h = ap (λ t. (ok tt, t)) (sym (append-nil h))
enumerate-tried f i (x ∷ xs) w h =
    ap
      (λ (r : Result (Unit {0}) × History).
        enumerate (λ j x. attempt (script (f j x))) (i + 1) xs w r.1)
      (script-ends (f i x) w h)
    ∙ enumerate-tried f (i + 1) xs w (h ++ made w h (f i x))
    ∙ ap (λ t. (ok tt, t)) (append_assoc h (made w h (f i x)) _)

pub script-append :
    (xs ys : List Action) (w : World) (h : History)
    → (script xs >> script ys) w h ≡ script (xs ++ ys) w h
unfolding script
script-append [] ys w h = refl
script-append (a ∷ xs) ys w h = go (script-append xs ys w (h ++ (a ∷ []))) (w.respond h a)
  where
    t : History
    t = h ++ (a ∷ [])

    past : Result (Unit {0}) × History → Result (Unit {0}) × History
    past r = elim r.0 [ err e ↦ (err e, r.1) | ok u ↦ script ys w r.1 ]

    go :
        past (script xs w t) ≡ script (xs ++ ys) w t
        → (o : Option Text)
        → past (elim (or_raise o remote_error) [ err e ↦ (err e, t) | ok out ↦ script xs w t ])
          ≡ (elim (or_raise o remote_error) [ err e ↦ (err e, t) | ok out ↦ script (xs ++ ys) w t ])
    go ih none = refl
    go ih (some out) = ih

-- A loop without `try` makes the calls of all rows, one after the other.
pub enumerate-script :
    {A : Type 0} (f : ℕ → A → List Action) (i : ℕ) (xs : List A) (w : World) (h : History)
    → enumerate (λ j x. script (f j x)) i xs w h ≡ script (concat (rows_of f i xs)) w h
unfolding enumerate script
enumerate-script f i [] w h = refl
enumerate-script f i (x ∷ xs) w h =
    past (λ t. enumerate-script f (i + 1) xs w t) (script (f i x) w h)
    ∙ script-append (f i x) (concat (rows_of f (i + 1) xs)) w h
  where
    past :
        ((t : History)
          → enumerate (λ j x. script (f j x)) (i + 1) xs w t
            ≡ script (concat (rows_of f (i + 1) xs)) w t)
        → (r : Result (Unit {0}) × History)
        → (elim r.0 [
          | err e ↦ (err e, r.1)
          | ok u ↦ enumerate (λ j x. script (f j x)) (i + 1) xs w r.1
        ])
          ≡ (elim r.0 [
            | err e ↦ (err e, r.1)
            | ok u ↦ script (concat (rows_of f (i + 1) xs)) w r.1
          ])
    past ih (err e, t) = refl
    past ih (ok u, t) = ih t

-- What comes behind a result.
abbrev pub seq :
    Result (Unit {0}) × History
    → (History → Result (Unit {0}) × History)
    → Result (Unit {0}) × History
seq r k = elim r.0 [ err e ↦ (err e, r.1) | ok u ↦ k r.1 ]

made-single : (a : Action) (w : World) (h : History) → made w h (a ∷ []) ≡ a ∷ []
made-single a w h = go (w.respond h a)
  where
    go : (o : Option Text) → (a ∷ elim o [ none ↦ [] | some out ↦ [] ]) ≡ a ∷ []
    go none = refl
    go (some out) = refl

tried-singles :
    {A : Type 0} (f : ℕ → A → Action) (i : ℕ) (xs : List A) (w : World) (h : History)
    → tried w h (rows_of (λ j x. f j x ∷ []) i xs) ≡ concat (rows_of (λ j x. f j x ∷ []) i xs)
tried-singles f i [] w h = refl
tried-singles f i (x ∷ xs) w h =
    ap (λ row. row ++ tried w (h ++ made w h (f i x ∷ [])) (rows_of (λ j y. f j y ∷ []) (i + 1) xs))
      (made-single (f i x) w h)
    ∙ ap (λ t. f i x ∷ t) (tried-singles f (i + 1) xs w (h ++ made w h (f i x ∷ [])))

-- A loop over a `try` with one call makes all the calls, whatever raises.
pub try_each-singles :
    {A : Type 0} (f : ℕ → A → Action) (i : ℕ) (xs : List A) (w : World) (h : History)
    → try_each (λ j x. f j x ∷ []) i xs w h
      ≡ (ok tt, h ++ concat (rows_of (λ j x. f j x ∷ []) i xs))
try_each-singles f i xs w h =
    enumerate-tried (λ j x. f j x ∷ []) i xs w h
    ∙ ap (λ t. (ok tt, h ++ t)) (tried-singles f i xs w h)

-- Calls, and a loop without `try` behind them.
pub script-run_each :
    {A : Type 0} (calls : List Action) (f : ℕ → A → List Action) (i : ℕ) (xs : List A) (w : World)
    (h : History)
    → (script calls >> run_each f i xs) w h ≡ ends w h (calls ++ concat (rows_of f i xs))
script-run_each calls f i xs w h =
    behind (script calls w h)
    ∙ script-append calls (concat (rows_of f i xs)) w h
    ∙ script-ends (calls ++ concat (rows_of f i xs)) w h
  where
    behind :
        (r : Result (Unit {0}) × History)
        → seq r (run_each f i xs w) ≡ seq r (script (concat (rows_of f i xs)) w)
    behind (err e, t) = refl
    behind (ok u, t) = enumerate-script f i xs w t

-- What comes behind calls that all come through, and behind calls one of which raises.
pub seq-ends :
    (calls : List Action) (w : World) (h : History) (k : History → Result (Unit {0}) × History)
    → (comes_through w h calls ≡ true → seq (ends w h calls) k ≡ k (h ++ calls))
      × (comes_through w h calls ≡ false
          → seq (ends w h calls) k ≡ (err remote_error, h ++ made w h calls))
seq-ends calls w h k =
    (λ t. rw (t, ends) (ap (λ u. k (h ++ u)) (made-all calls w h t)), λ t. rw (t, ends) refl)
