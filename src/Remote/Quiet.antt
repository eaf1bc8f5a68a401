-- ===== src/Remote/Quiet.antt =====
-- What never raises.
use frugal_leader_election.Base.{
  ℕ, ◌+◌, ◌≡◌, refl, true, Option, none, some, List, [], ◌∷◌, ◌++◌, Text, is_some,
}
use frugal_leader_election.Base.Result.{Result, ok, err, or_raise, remote_error, err-ne-ok}
use frugal_leader_election.Remote.{Action, History, World, Prog, script, each, enumerate, ◌>>◌}
use frugal_leader_election.Remote.Laws.{seq}

module _ (w : World) where
  abbrev pub Quiet : Prog (Unit {0}) → Type 0
  Quiet m = (h : History) → (m w h).0 ≡ ok tt

  -- A call that never raises.
  abbrev pub Safe : Action → Type 0
  Safe a = (h : History) → is_some (w.respond h a) ≡ true

  quiet_seq :
      (r : Result (Unit {0}) × History) (k : History → Result (Unit {0}) × History)
      → r.0 ≡ ok tt
      → ((t : History) → (k t).0 ≡ ok tt)
      → (seq r k).0 ≡ ok tt
  quiet_seq (ok u, t) k p q = q t
  quiet_seq (err e, t) k p q = absurd (err-ne-ok p)

  pub Quiet-then : (m n : Prog (Unit {0})) → Quiet m → Quiet n → Quiet (m >> n)
  Quiet-then m n p q h = quiet_seq (m w h) (n w) (p h) q

  pub Quiet-call : (a : Action) → Safe a → Quiet (script (a ∷ []))
  unfolding script
  Quiet-call a s h = go (w.respond h a) (s h)
    where
      after : Option Text → Result (Unit {0}) × History
      after o = elim (or_raise o remote_error) [
        | err e ↦ (err e, h ++ (a ∷ []))
        | ok out ↦ (ok tt, h ++ (a ∷ []))
      ]

      go : (o : Option Text) → is_some o ≡ true → (after o).0 ≡ ok tt
      go none p = cc
      go (some out) p = refl

  pub Quiet-each :
      {A : Type 0} (body : A → Prog (Unit {0})) (xs : List A)
      → ((x : A) → Quiet (body x))
      → Quiet (each body xs)
  unfolding each
  Quiet-each body [] q h = refl
  Quiet-each body (x ∷ xs) q h =
      quiet_seq (body x w h) (each body xs w) (q x h) (Quiet-each body xs q)

  pub Quiet-enumerate :
      {A : Type 0} (body : ℕ → A → Prog (Unit {0})) (i : ℕ) (xs : List A)
      → ((j : ℕ) (x : A) → Quiet (body j x))
      → Quiet (enumerate body i xs)
  unfolding enumerate
  Quiet-enumerate body i [] q h = refl
  Quiet-enumerate body i (x ∷ xs) q h =
      quiet_seq (body i x w h) (enumerate body (i + 1) xs w) (q i x h)
        (Quiet-enumerate body (i + 1) xs q)
