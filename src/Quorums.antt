-- ===== src/Quorums.antt =====
-- scripts/quorum_analysis.py: how often each node is a member of a quorum.
pub mod Lines
use frugal_leader_election.Base.{
  ℕ, ◌≡◌, ◌+◌, arith, none, some, List, [], ◌∷◌, ◌++◌, Text, codes, count, count-append,
}
use mathlib.Core.List.{foldl}
use frugal_leader_election.Base.Dict.{Dict, get_or}
use frugal_leader_election.Base.Equality.{◌=?◌, nat_eq, list_eq}
use frugal_leader_election.Base.Counter.{add_all, get_or-add_all}
use frugal_leader_election.Regex.{Regex, lit, many, group, line_end, some_of, ◌⨾◌, find, group_of}
use frugal_leader_election.Text.{is_digit, is_space, not_newline, split_blanks}

abbrev pub quorum_re : Regex
quorum_re =
    lit (codes "with quorum size:")
    ⨾ many is_space
    ⨾ some_of is_digit
    ⨾ some_of is_space
    ⨾ group 1 (some_of not_newline)
    ⨾ line_end

-- The nodes that a line names.
unfoldable pub nodes_of : Text → List Text
nodes_of line = elim (find quorum_re line) [ none ↦ [] | some m ↦ split_blanks (group_of 1 m) ]

abbrev pub note_nodes : Dict Text ℕ → Text → Dict Text ℕ
note_nodes counts line = add_all counts (nodes_of line)

unfoldable pub count_quorum_nodes : List Text → Dict Text ℕ
count_quorum_nodes lines = foldl note_nodes [] lines

-- The nodes that the lines name, one behind the other.
abbrev pub members : List Text → List Text
members [] = []
members (line ∷ lines) = nodes_of line ++ members lines

get_or-from :
    (node : Text) (counts : Dict Text ℕ) (lines : List Text)
    → get_or node 0 (foldl note_nodes counts lines)
      ≡ get_or node 0 counts + count (λ k. k =? node) (members lines)
get_or-from node counts [] = omega arith
get_or-from node counts (line ∷ lines) = omega (
  arith,
  get_or-from node (note_nodes counts line) lines,
  get_or-add_all node (nodes_of line) counts,
  count-append (λ k. k =? node) (nodes_of line) (members lines),
)

-- The count of a node is how often the lines with a quorum name it, a node that is named twice in
-- a line twice.
pub get_or-count_quorum_nodes :
    (node : Text) (lines : List Text)
    → get_or node 0 (count_quorum_nodes lines) ≡ count (λ k. k =? node) (members lines)
unfolding count_quorum_nodes
get_or-count_quorum_nodes node lines = omega (arith, get_or-from node [] lines)
