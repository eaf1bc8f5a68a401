-- ===== src/Base/Result.antt =====
-- A Python computation that may raise: the exceptions that the scripts can meet, and the loop
-- `for x in xs` over a state.
use mathlib.Core.Path.{◌≡◌, refl}
use mathlib.Core.List.{List, [], ◌∷◌}
use mathlib.Core.Option.{Option, none, some}
use mathlib.Core.Bool.{Bool, true, false}
use Prim.Native.String.{String}

-- `exit` is `sys.exit` with its message.
pub data Error : Type 0 where
  value_error overflow_error type_error key_error index_error zero_division stop_iteration : Error
  remote_error unbound_local file_not_found : Error
  exit : String → Error

pub data Result {ℓ} (A : Type ℓ) : Type ℓ where
  ok : A → Result A
  err : Error → Result A

pub ok-injective {ℓ} : {A : Type ℓ} {a b : A} → ok a ≡ ok b → a ≡ b
ok-injective h = cc

pub err-ne-ok {ℓ} : {A : Type ℓ} {e : Error} {a : A} → ¬ (err e ≡ ok a)
err-ne-ok h = cc

infixl 5 ◌>>=◌ ◌>>◌
abbrev pub ◌>>=◌ {ℓ κ} : {S : Type ℓ} {T : Type κ} → Result S → (S → Result T) → Result T
err raised >>= next = err raised
ok done >>= next = next done

abbrev pub ◌>>◌ {ℓ} : {B : Type ℓ} → Result (Unit {0}) → Result B → Result B
m >> k = m >>= λ _. k

abbrev pub raise_if : Bool → Error → Result (Unit {0})
raise_if true e = err e
raise_if false e = ok tt

abbrev pub or_raise {ℓ} : {A : Type ℓ} → Option A → Error → Result A
or_raise none e = err e
or_raise (some a) e = ok a

module _ {ℓ κ} {S : Type ℓ} {A : Type κ} where
  -- `for x in xs: s = step(s, x)`
  unfoldable pub for_each : (S → A → Result S) → S → List A → Result S
  for_each step s [] = ok s
  for_each step s (x ∷ xs) = step s x >>= λ t. for_each step t xs

  pub for_each-nil : (step : S → A → Result S) (s : S) → for_each step s [] ≡ ok s
  unfolding for_each
  for_each-nil step s = refl

  pub for_each-cons :
      (step : S → A → Result S) (s : S) (x : A) (xs : List A)
      → for_each step s (x ∷ xs) ≡ (step s x >>= λ t. for_each step t xs)
  unfolding for_each
  for_each-cons step s x xs = refl

module _ {ℓ κ} {S : Type ℓ} {T : Type κ} where
  -- What a computation that succeeds has come through.
  pub >>=-eq-ok :
      (first : Result S) (next : S → Result T) {t : T}
      → (first >>= next) ≡ ok t
      → (s : S) × (first ≡ ok s) × (next s ≡ ok t)
  >>=-eq-ok (err e) next raised = cc
  >>=-eq-ok (ok s) next done = (s, refl, done)
