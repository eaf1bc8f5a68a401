-- ===== src/Regex.antt =====
-- The part of Python's `re` that the scripts use: a backtracking matcher over the character
-- codes of a line. A star stands over one character class only, as in every pattern of the
-- scripts, so the matcher recurs on the pattern and on the line and needs no fuel.
pub mod Meaning
pub mod Literal
pub mod Steps
use frugal_leader_election.Base.{
  ℕ, ◌-◌, Bool, true, false, ◌&&◌, Option, none, some, List, [], ◌∷◌, ◌==◌, if◌then◌else◌, Text,
  length, take,
}
use frugal_leader_election.Base.Dict.{Dict, get_or, insert}
use frugal_leader_election.Base.Equality.{nat_eq}
use frugal_leader_election.Text.{is_word}

pub data Regex : Type 0 where
  lit : Text → Regex
  one : (ℕ → Bool) → Regex
  many : (ℕ → Bool) → Regex
  many_lazy : (ℕ → Bool) → Regex
  seq : Regex → Regex → Regex
  alt : Regex → Regex → Regex
  group : ℕ → Regex → Regex
  line_start : Regex
  line_end : Regex
  boundary : Regex

infixr 60 ◌⨾◌
abbrev pub ◌⨾◌ : Regex → Regex → Regex
r ⨾ s = seq r s

-- `[...]+`
abbrev pub some_of : (ℕ → Bool) → Regex
some_of p = one p ⨾ many p

-- `r?`
abbrev pub optional : Regex → Regex
optional r = alt r (lit [])

-- `[...]{n}`
abbrev pub times : ℕ → (ℕ → Bool) → Regex
times ℕ.zero p = lit []
times (ℕ.suc n) p = one p ⨾ times n p

-- Where a match stands: the character before, the text that is left, the groups so far.
pub record Place : Type 0 where
  pub before : Option ℕ
  pub rest : Text
  pub groups : Dict ℕ Text

abbrev pub place : Option ℕ → Text → Dict ℕ Text → Place
place b s g = record { before = b; rest = s; groups = g }

-- Reads the literal characters `cs`.
unfoldable pub eat : Text → Option ℕ → Text → Dict ℕ Text → Option Place
eat [] b s g = some (place b s g)
eat (c ∷ cs) b [] g = none
eat (c ∷ cs) b (x ∷ s) g = elim (c == x) [ true ↦ eat cs (some x) s g | false ↦ none ]

unfoldable pub eat_one : (ℕ → Bool) → Option ℕ → Text → Dict ℕ Text → Option Place
eat_one p b [] g = none
eat_one p b (x ∷ s) g = if p x then some (place (some x) s g) else none

abbrev pub is_word_at : Option ℕ → Bool
is_word_at none = false
is_word_at (some c) = is_word c

abbrev pub first : Text → Option ℕ
first [] = none
first (c ∷ s) = some c

-- `\b`
abbrev pub at_boundary : Place → Bool
at_boundary a = elim (is_word_at a.before) [
  | true ↦ elim (is_word_at (first a.rest)) [ true ↦ false | false ↦ true ]
  | false ↦ is_word_at (first a.rest)
]

-- `$`: at the end, or before the newline that ends the text
abbrev pub at_line_end : Text → Bool
at_line_end [] = true
at_line_end (c ∷ []) = c == 10
at_line_end (c ∷ d ∷ s) = false

abbrev pub at_line_start : Option ℕ → Bool
at_line_start none = true
at_line_start (some c) = false

-- What stands between two places of a text.
abbrev pub taken : Text → Text → Text
taken s t = take (length s - length t) s

abbrev pub capture : ℕ → Place → Place → Place
capture n a b = record b { groups = insert n (taken a.rest b.rest) b.groups }

module _ {ℓ} {B : Type ℓ} where
  -- The longest run first.
  unfoldable pub greedy : (ℕ → Bool) → Option ℕ → Text → Dict ℕ Text → (Place → Option B) → Option B
  greedy p b [] g k = k (place b [] g)
  greedy p b (c ∷ s) g k = elim (p c) [
    | true ↦ elim (greedy p (some c) s g k) [ none ↦ k (place b (c ∷ s) g) | some v ↦ some v ]
    | false ↦ k (place b (c ∷ s) g)
  ]

  -- The shortest run first.
  unfoldable pub lazy : (ℕ → Bool) → Option ℕ → Text → Dict ℕ Text → (Place → Option B) → Option B
  lazy p b [] g k = k (place b [] g)
  lazy p b (c ∷ s) g k = elim (k (place b (c ∷ s) g)) [
    | none ↦ elim (p c) [ true ↦ lazy p (some c) s g k | false ↦ none ]
    | some v ↦ some v
  ]

  abbrev pub then_at : Option Place → (Place → Option B) → Option B
  then_at none k = none
  then_at (some a) k = k a

  unfoldable pub run : Regex → Place → (Place → Option B) → Option B
  run (lit cs) a k = then_at (eat cs a.before a.rest a.groups) k
  run (one p) a k = then_at (eat_one p a.before a.rest a.groups) k
  run (many p) a k = greedy p a.before a.rest a.groups k
  run (many_lazy p) a k = lazy p a.before a.rest a.groups k
  run (seq r s) a k = run r a (λ b. run s b k)
  run (alt r s) a k = elim (run r a k) [ none ↦ run s a k | some v ↦ some v ]
  run (group n r) a k = run r a (λ b. k (capture n a b))
  run line_start a k = elim (at_line_start a.before) [ true ↦ k a | false ↦ none ]
  run line_end a k = elim (at_line_end a.rest) [ true ↦ k a | false ↦ none ]
  run boundary a k = elim (at_boundary a) [ true ↦ k a | false ↦ none ]

-- `re.match(r, s)`, with the groups
unfoldable pub match_start : Regex → Text → Option (Dict ℕ Text)
unfolding run eat eat_one greedy lazy
match_start r s = run r (place none s []) (λ b. some b.groups)

unfoldable pub search_from : Regex → Option ℕ → Text → Option (Dict ℕ Text)
unfolding run eat eat_one greedy lazy
search_from r b [] = run r (place b [] []) (λ e. some e.groups)
search_from r b (c ∷ s) = elim (run r (place b (c ∷ s) []) (λ e. some e.groups)) [
  | none ↦ search_from r (some c) s
  | some g ↦ some g
]

-- `re.search(r, s)`, with the groups
unfoldable pub find : Regex → Text → Option (Dict ℕ Text)
unfolding search_from
find r s = search_from r none s

-- `m.group(n)` of a group that took part in the match
abbrev pub group_of : ℕ → Dict ℕ Text → Text
group_of n g = get_or n [] g
