-- ===== src/Quorums/Lines.antt =====
-- The counts for the lines that a node writes about quorums (src/node.cpp).
use frugal_leader_election.Base.{
  ℕ, ◌≡◌, ◌≢◌, refl, ◌∙◌, arith, Bool, true, false, Option, none, some, List, [], ◌∷◌, ◌++◌, Text,
  codes, All, ◌==◌, count, count-append, sum, map,
}
use frugal_leader_election.Base.Dict.{Dict, get_or}
use frugal_leader_election.Base.Equality.{◌=?◌, nat_eq, list_eq}
use frugal_leader_election.Text.{is_digit, is_space, not_newline, split_blanks}
use frugal_leader_election.Text.Decimal.{decimal, decimal-digits, decimal-ne-nil}
use frugal_leader_election.Regex.{
  Regex, lit, many, some_of, group, ◌⨾◌, run, eat, place, Place, line_end, at_line_end, find,
  search_from,
}
use frugal_leader_election.Regex.Steps.{
  Stops, last_of, lit_step, many_step, some_of_step, group_step,
}
use frugal_leader_election.Quorums.{
  quorum_re, nodes_of, count_quorum_nodes, members, get_or-count_quorum_nodes,
}

-- A pattern that begins with a character is not found before the first such character.
run-other :
    {B : Type 0} (c x : ℕ) (cs : Text) (r : Regex) (b : Option ℕ) (s : Text) (k : Place → Option B)
    → (x == c) ≡ false
    → run (lit (c ∷ cs) ⨾ r) (place b (x ∷ s) []) k ≡ none
unfolding run eat
run-other c x cs r b s k ne = ground (arith, ne)

search_behind :
    (c : ℕ) (cs : Text) (r : Regex) (b : Option ℕ) (before s : Text) {g : Dict ℕ Text}
    → All (λ x. (x == c) ≡ false) before
    → run (lit (c ∷ cs) ⨾ r) (place (last_of b before) s []) (λ e. some e.groups) ≡ some g
    → search_from (lit (c ∷ cs) ⨾ r) b (before ++ s) ≡ some g
unfolding search_from run
search_behind c cs r b [] [] a h = h
search_behind c cs r b [] (y ∷ s) a h = rw (h, search_from) refl
search_behind c cs r b (x ∷ before) s a h =
    rw (run-other c x cs r b (before ++ s) (λ e. some e.groups) a.0, search_from)
      (search_behind c cs r (some x) before s a.1 h)

-- A line on a quorum: the text before, the size, the nodes as text, and the end of the line.
pub record Report : Type 0 where
  pub before : Text
  pub size : ℕ
  pub nodes : Text
  pub rest : Text

abbrev pub line_of : Report → Text
line_of r =
    r.before
    ++ (codes "with quorum size:"
        ++ (codes " " ++ (decimal r.size ++ (codes " " ++ (r.nodes ++ r.rest)))))

-- No `w` stands before the phrase, the nodes begin with no blank, and the line ends behind them.
pub record IsReport (r : Report) : Type 0 where
  pub no_w : All (λ x. (x == b'w') ≡ false) r.before
  pub some_nodes : r.nodes ≢ []
  pub one_line : All (λ x. not_newline x ≡ true) r.nodes
  pub no_blank : Stops is_space r.nodes
  pub ends : Stops not_newline r.rest
  pub last : at_line_end r.rest ≡ true

Stops-blank : (w s : Text) → w ≢ [] → All (λ c. is_digit c ≡ true) w → Stops is_space (w ++ s)
Stops-blank [] s ne a = absurd (ne refl)
Stops-blank (c ∷ w) s ne a = ground arith

Stops-append : (p : ℕ → Bool) (w s : Text) → w ≢ [] → Stops p w → Stops p (w ++ s)
Stops-append p [] s ne st = absurd (ne refl)
Stops-append p (c ∷ w) s ne st = st

at_end :
    (b : Option ℕ) (s : Text) (g : Dict ℕ Text)
    → at_line_end s ≡ true
    → run line_end (place b s g) (λ e. some e.groups) ≡ some g
unfolding run
at_end b s g h = rw h refl

matched :
    (b : Option ℕ) (r : Report)
    → IsReport r
    → run quorum_re
        (place b
          (codes "with quorum size:"
            ++ (codes " " ++ (decimal r.size ++ (codes " " ++ (r.nodes ++ r.rest)))))
          [])
        (λ e. some e.groups)
      ≡ some ((1, r.nodes) ∷ [])
matched b r v = lit_step b [] _ (codes "with quorum size:") _ _ (
    many_step _ [] _ is_space (codes " ") _ _ (refl, tt)
      (Stops-blank (decimal r.size) _ (decimal-ne-nil r.size) (decimal-digits r.size))
      (some_of_step _ [] _ is_digit (decimal r.size) _ _ (decimal-ne-nil r.size)
        (decimal-digits r.size) refl
        (some_of_step _ [] _ is_space (codes " ") _ _ (λ e. cc) (refl, tt)
          (Stops-append is_space r.nodes r.rest v.some_nodes v.no_blank)
          (group_step _ [] _ 1 not_newline r.nodes line_end r.rest v.some_nodes v.one_line v.ends
            (at_end _ r.rest _ v.last)))))

nodes_of-line_of : (r : Report) → IsReport r → nodes_of (line_of r) ≡ split_blanks r.nodes
unfolding nodes_of find
nodes_of-line_of r v =
    let found : find quorum_re (line_of r) ≡ some ((1, r.nodes) ∷ []) =
      search_behind b'w' (codes "ith quorum size:")
        (many is_space
          ⨾ some_of is_digit
          ⨾ some_of is_space
          ⨾ group 1 (some_of not_newline)
          ⨾ line_end)
        none r.before _ v.no_w (matched (last_of none r.before) r v) in
    rw (found, nodes_of) refl

-- The number of times that the reports name a node.
abbrev pub mentions : Text → List Report → ℕ
mentions node rs = sum (map (λ (r : Report). count (λ k. k =? node) (split_blanks r.nodes)) rs)

count-members :
    (node : Text) (rs : List Report)
    → All IsReport rs
    → count (λ k. k =? node) (members (map line_of rs)) ≡ mentions node rs
count-members node [] a = refl
count-members node (r ∷ rs) a = rw (nodes_of-line_of r a.0) (
    omega (
      arith,
      count-append (λ k. k =? node) (split_blanks r.nodes) (members (map line_of rs)),
      count-members node rs a.1,
    ))

-- In a log of lines that report a quorum, each a text without a `w`, "with quorum size: ", the size,
-- a blank, and the nodes up to the end of the line: the count of a node is the number of times that
-- it stands among the nodes, with 0 for a node that stands nowhere.
pub count_quorum_nodes-mentions :
    (node : Text) (rs : List Report)
    → All IsReport rs
    → get_or node 0 (count_quorum_nodes (map line_of rs)) ≡ mentions node rs
count_quorum_nodes-mentions node rs a =
    get_or-count_quorum_nodes node (map line_of rs) ∙ count-members node rs a
