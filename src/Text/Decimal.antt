-- ===== src/Text/Decimal.antt =====
-- `str(n)` of a number, and that `int` reads it back.
use frugal_leader_election.Base.{
  ℕ, zero, suc, ◌+◌, ◌/◌, ◌%◌, ◌<◌, ◌≡◌, ◌≢◌, ap, true, [], ◌∷◌, arith, ltb, if◌then◌else◌, Text,
  All,
}
use mathlib.Core.List.{foldl}
use frugal_leader_election.Text.{int, is_digit, add_digit}

-- The digits of `n` in front of `rest`.
pub digits_before : ℕ → ℕ → Text → Text
digits_before zero n rest = rest
digits_before (suc f) n rest =
    let more = digits_before f (n / 10) ((n % 10 + b'0') ∷ rest) in
    if ltb n 10 then (n + b'0') ∷ rest else more

-- `str(n)`. A number has at most as many digits as its value plus one.
unfoldable pub decimal : ℕ → Text
unfolding digits_before
decimal n = digits_before (suc n) n []

-- Reading on from the digits of `n` is reading on from `n`.
foldl-digits_before :
    (f n : ℕ) (rest : Text)
    → n < f
    → foldl add_digit 0 (digits_before f n rest) ≡ foldl add_digit n rest
unfolding digits_before
foldl-digits_before zero n rest h = elim h [ ]
foldl-digits_before (suc f) n rest h =
    let ones : add_digit (n / 10) (n % 10 + b'0') ≡ n = omega arith in
    let one : add_digit 0 (n + b'0') ≡ n = omega arith in
    ground (
      arith,
      foldl-digits_before f (n / 10) ((n % 10 + b'0') ∷ rest),
      ap (λ m. foldl add_digit m rest) ones,
      ap (λ m. foldl add_digit m rest) one,
    )

pub int-decimal : (n : ℕ) → int (decimal n) ≡ n
unfolding decimal
int-decimal n = foldl-digits_before (suc n) n [] (omega arith)

digits_before-digits :
    (f n : ℕ) (rest : Text)
    → All (λ c. is_digit c ≡ true) rest
    → All (λ c. is_digit c ≡ true) (digits_before f n rest)
unfolding digits_before
digits_before-digits zero n rest h = h
digits_before-digits (suc f) n rest h =
    ground (arith, digits_before-digits f (n / 10) ((n % 10 + b'0') ∷ rest))

pub decimal-digits : (n : ℕ) → All (λ c. is_digit c ≡ true) (decimal n)
unfolding decimal
decimal-digits n = digits_before-digits (suc n) n [] tt

digits_before-ne-nil : (f n : ℕ) (rest : Text) → rest ≢ [] → digits_before f n rest ≢ []
unfolding digits_before
digits_before-ne-nil zero n rest h = h
digits_before-ne-nil (suc f) n rest h =
    ground (arith, digits_before-ne-nil f (n / 10) ((n % 10 + b'0') ∷ rest) (λ p. cc))

pub decimal-ne-nil : (n : ℕ) → decimal n ≢ []
unfolding decimal
decimal-ne-nil n = ground (arith, digits_before-ne-nil n (n / 10) ((n % 10 + b'0') ∷ []) (λ p. cc))
