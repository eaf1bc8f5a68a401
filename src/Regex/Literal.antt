-- ===== src/Regex/Literal.antt =====
-- A pattern without special characters is found exactly in the texts that contain it.
use frugal_leader_election.Base.{ℕ, ◌≡◌, refl, Option, none, some, [], ◌∷◌, arith, Text, is_some}
use frugal_leader_election.Base.Dict.{Dict}
use frugal_leader_election.Text.{starts_with, has_substring}
use frugal_leader_election.Regex.{lit, eat, find, search_from}

is_some-eat :
    (cs : Text) (b : Option ℕ) (s : Text) (g : Dict ℕ Text)
    → is_some (eat cs b s g) ≡ starts_with s cs
unfolding eat
is_some-eat [] b [] g = refl
is_some-eat [] b (x ∷ s) g = refl
is_some-eat (c ∷ cs) b [] g = refl
is_some-eat (c ∷ cs) b (x ∷ s) g = ground (arith, is_some-eat cs (some x) s g)

is_some-search_from :
    (cs : Text) (b : Option ℕ) (s : Text) → is_some (search_from (lit cs) b s) ≡ has_substring cs s
unfolding search_from
is_some-search_from cs b [] = ground (arith, is_some-eat cs b [] [])
is_some-search_from cs b (c ∷ s) =
    ground (arith, is_some-eat cs b (c ∷ s) [], is_some-search_from cs (some c) s)

pub is_some-find_lit : (cs s : Text) → is_some (find (lit cs) s) ≡ has_substring cs s
unfolding find
is_some-find_lit cs s = is_some-search_from cs none s
