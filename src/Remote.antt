-- ===== src/Remote.antt =====
-- What the scripts use of Fabric and of the shell: calls on other machines and on this one, in the
-- order in which they are made. How a call ends is not code of the repository, so it is a
-- parameter: the world says, from the calls made so far, what a call prints or that it raises.
pub mod Laws
pub mod Quiet
pub mod Threads
use frugal_leader_election.Base.{ℕ, zero, suc, ◌+◌, Option, none, some, List, [], ◌∷◌, ◌++◌, Text}
use frugal_leader_election.Base.Result.{Result, ok, err, Error, remote_error, or_raise}

-- A call: `conn.sudo`, `conn.run`, `conn.put` and `conn.get` on a host, and below them what is
-- done on this machine.
pub data Action : Type 0 where
  sudo run : (host cmd : Text) → Action
  put get : (host from to : Text) → Action
  sleep : (seconds : ℕ) → Action
  local : (words : List Text) → Action
  load_yaml read_file make_dirs : (path : Text) → Action
  write_file : (path contents : Text) → Action
  move : (from to : Text) → Action

abbrev pub History : Type 0
History = List Action

pub record World : Type 0 where
  -- What a call prints, or `none` if it raises.
  pub respond : History → Action → Option Text
  -- The files of this machine that match a pattern.
  pub glob : History → Text → List Text

-- What a script does: its result or exception, and the calls, the last one at the end.
abbrev pub Prog : Type 0 → Type 0
Prog A = World → History → Result A × History

abbrev pub pure : {A : Type 0} → A → Prog A
pure a w h = (ok a, h)

abbrev pub raise : {A : Type 0} → Error → Prog A
raise e w h = (err e, h)

infixl 5 ◌>>=◌ ◌>>◌
abbrev pub ◌>>=◌ : {A B : Type 0} → Prog A → (A → Prog B) → Prog B
◌>>=◌ m f w h = let (r, t) = m w h in elim r [ err e ↦ (err e, t) | ok a ↦ f a w t ]

abbrev pub ◌>>◌ : {A B : Type 0} → Prog A → Prog B → Prog B
m >> k = m >>= λ _. k

-- One call, and what it prints.
abbrev pub ask : Action → Prog Text
ask a w h = (or_raise (w.respond h a) remote_error, h ++ (a ∷ []))

-- Calls one after the other, whose output is not read.
unfoldable pub script : List Action → Prog (Unit {0})
script [] = pure tt
script (a ∷ calls) = ask a >> script calls

-- `try: m` with an `except Exception` that prints. No `sys.exit` stands in such a block.
abbrev pub attempt : Prog (Unit {0}) → Prog (Unit {0})
attempt m w h = (ok tt, (m w h).1)

-- `for x in xs: body(x)`
unfoldable pub each : {A : Type 0} → (A → Prog (Unit {0})) → List A → Prog (Unit {0})
each body [] = pure tt
each body (x ∷ xs) = body x >> each body xs

-- `for i, x in enumerate(xs, start): body(i, x)`
unfoldable pub enumerate : {A : Type 0} → (ℕ → A → Prog (Unit {0})) → ℕ → List A → Prog (Unit {0})
enumerate body i [] = pure tt
enumerate body i (x ∷ xs) = body i x >> enumerate body (i + 1) xs

-- `for i in range(start, start + n): body(i)`
unfoldable pub in_range : (ℕ → Prog (Unit {0})) → ℕ → ℕ → Prog (Unit {0})
in_range body i zero = pure tt
in_range body i (suc n) = body i >> in_range body (i + 1) n

-- `for i, x in enumerate(xs, start): try: calls(i, x)`
abbrev pub try_each : {A : Type 0} → (ℕ → A → List Action) → ℕ → List A → Prog (Unit {0})
try_each calls i xs = enumerate (λ j x. attempt (script (calls j x))) i xs

-- `for i, x in enumerate(xs, start): calls(i, x)`
abbrev pub run_each : {A : Type 0} → (ℕ → A → List Action) → ℕ → List A → Prog (Unit {0})
run_each calls i xs = enumerate (λ j x. script (calls j x)) i xs
