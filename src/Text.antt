-- ===== src/Text.antt =====
-- What the scripts use of Python's `str`: character classes, `strip`, `split`, `in`, `int`.
-- A text is a list of character codes and the logs are ASCII, so `\d` is `0` to `9` here.
pub mod Decimal
use frugal_leader_election.Base.{
  ℕ, ◌+◌, ◌*◌, ◌-◌, Bool, true, false, ◌&&◌, ◌||◌, not, Option, none, some, List, [], ◌∷◌, ◌++◌,
  ltb, leb, ◌==◌, if◌then◌else◌, Text,
}
use mathlib.Core.List.{foldl, reverse}

-- `\d`
abbrev pub is_digit : ℕ → Bool
is_digit c = leb b'0' c && leb c b'9'

-- `\s`, and what `strip()` and `split()` take for blanks
abbrev pub is_space : ℕ → Bool
is_space c = (leb 9 c && leb c 13) || (leb 28 c && leb c 32)

-- `\S`
abbrev pub not_space : ℕ → Bool
not_space c = not (is_space c)

-- `\w`
abbrev pub is_word : ℕ → Bool
is_word c = is_digit c || (leb b'a' c && leb c b'z') || (leb b'A' c && leb c b'Z') || c == b'_'

-- `[\d.]`
abbrev pub is_digit_or_dot : ℕ → Bool
is_digit_or_dot c = is_digit c || c == b'.'

-- `.`
abbrev pub not_newline : ℕ → Bool
not_newline c = not (c == 10)

-- `lower()` of a character
abbrev pub lower : ℕ → ℕ
lower c = if leb b'A' c && leb c b'Z' then c + 32 else c

-- `int(s)` for a text of digits, which is all that the patterns hand to it.
abbrev pub add_digit : ℕ → ℕ → ℕ
add_digit n c = n * 10 + (c - b'0')

abbrev pub int : Text → ℕ
int s = foldl add_digit 0 s

-- `s.lstrip()` and `s.strip()`
abbrev pub lstrip : Text → Text
lstrip [] = []
lstrip (c ∷ s) = let rest = lstrip s in if is_space c then rest else c ∷ s

abbrev pub strip : Text → Text
strip s = reverse (lstrip (reverse (lstrip s)))

-- `s.startswith(p)`
abbrev pub starts_with : Text → Text → Bool
starts_with s [] = true
starts_with [] (p ∷ ps) = false
starts_with (c ∷ s) (p ∷ ps) = c == p && starts_with s ps

-- `p in s`
abbrev pub has_substring : Text → Text → Bool
has_substring p [] = starts_with [] p
has_substring p (c ∷ s) = starts_with (c ∷ s) p || has_substring p s

-- Puts a character in front of the first piece.
abbrev cons_first : ℕ → List Text → List Text
cons_first c [] = (c ∷ []) ∷ []
cons_first c (w ∷ ws) = (c ∷ w) ∷ ws

-- `s.split(sep)` for a separator of one character
abbrev pub split_on : ℕ → Text → List Text
split_on sep [] = [] ∷ []
split_on sep (c ∷ s) =
    let rest = split_on sep s in if c == sep then [] ∷ rest else cons_first c rest

-- `s.split(sep)[0]`
abbrev pub before_first : ℕ → Text → Text
before_first sep [] = []
before_first sep (c ∷ s) = let rest = before_first sep s in if c == sep then [] else c ∷ rest

-- The pieces of `split()` from a text whose first piece may have begun.
abbrev drop_empty : List Text → List Text
drop_empty [] = []
drop_empty ([] ∷ ws) = drop_empty ws
drop_empty ((c ∷ w) ∷ ws) = (c ∷ w) ∷ drop_empty ws

abbrev pieces : Text → List Text
pieces [] = [] ∷ []
pieces (c ∷ s) = let rest = pieces s in if is_space c then [] ∷ rest else cons_first c rest

-- `s.split()`
abbrev pub split_blanks : Text → List Text
split_blanks s = drop_empty (pieces s)

abbrev pub all_digits : Text → Bool
all_digits [] = true
all_digits (c ∷ s) = is_digit c && all_digits s

-- `int(s)` where `s.strip().isdigit()`, and nothing for other texts
unfoldable pub natural : Text → Option ℕ
natural s = elim (strip s) [
  | [] ↦ none
  | c ∷ w ↦ if all_digits (c ∷ w) then some (int (c ∷ w)) else none
]
