-- ===== src/Consistency.antt =====
-- scripts/verify_consistency.py: reads the Raft log dump of each node into a map from index to
-- (term, command), and checks that for every index a quorum of nodes holds the same opinion.
pub mod Votes
pub mod Parse
pub mod Opinions
use frugal_leader_election.Base.{
  ℕ, ◌+◌, ◌/◌, Bool, true, false, Option, none, some, List, [], ◌∷◌, ◌++◌, leb, ◌==◌, if◌then◌else◌,
  Text, codes, length, map,
}
use frugal_leader_election.Base.Dict.{Dict, keys, values, get, insert}
use frugal_leader_election.Base.Equality.{nat_eq, list_eq}
use frugal_leader_election.Base.Counter.{tally, most_common}
use frugal_leader_election.Base.Sort.{sorted_set}
use frugal_leader_election.Regex.{Regex, lit, many, group, some_of, ◌⨾◌, find, group_of}
use frugal_leader_election.Text.{is_digit, is_space, int, strip}
use frugal_leader_election.Text.Decimal.{decimal}
use mathlib.Core.List.{foldl}

-- An entry of a log, (term, command), and a log by index.
abbrev pub Entry : Type 0
Entry = ℕ × Text

abbrev pub RaftLog : Type 0
RaftLog = Dict ℕ Entry

abbrev pub Logs : Type 0
Logs = Dict Text RaftLog

-- QUORUM, for a number of nodes
unfoldable pub quorum : ℕ → ℕ
quorum n_nodes = n_nodes / 2 + 1

-- `[^,]`
abbrev pub not_comma : ℕ → Bool
not_comma c = if c == b',' then false else true

-- LINE_RE
abbrev pub line_re : Regex
line_re =
    lit (codes "Index:")
    ⨾ many is_space
    ⨾ group 1 (some_of is_digit)
    ⨾ lit (codes ",")
    ⨾ many is_space
    ⨾ lit (codes "Term:")
    ⨾ many is_space
    ⨾ group 2 (some_of is_digit)
    ⨾ lit (codes ",")
    ⨾ many is_space
    ⨾ lit (codes "Command:")
    ⨾ many is_space
    ⨾ group 3 (some_of not_comma)

-- The index, term and command of a line, if it is the line of an entry.
unfoldable pub parse_line : Text → Option (ℕ × Entry)
parse_line line = elim (find line_re line) [
  | none ↦ none
  | some m ↦ some (int (group_of 1 m), (int (group_of 2 m), strip (group_of 3 m)))
]

-- One round of the loop over the lines of a file. A later entry of an index overwrites.
unfoldable pub add_line : RaftLog → Text → RaftLog
unfolding parse_line
add_line entries line = elim (parse_line line) [
  | none ↦ entries
  | some (idx, e) ↦ insert idx e entries
]

unfoldable pub parse_file : List Text → RaftLog
unfolding add_line
parse_file = foldl add_line []

-- Every file into `logs`. `read` gives the lines of a file, or `none` where there is no file:
-- then the node has an empty log.
abbrev log_of : Option (List Text) → RaftLog
unfolding parse_file
log_of none = []
log_of (some lines) = parse_file lines

unfoldable pub read_logs : (Text → Option (List Text)) → List Text → Logs
unfolding log_of
read_logs read = foldl (λ logs fname. insert fname (log_of (read fname)) logs) []

-- MISSING, and PRESENT of an entry
abbrev pub missing : Text
missing = codes "<MISSING>"

unfoldable pub present : Entry → Text
present (term, cmd) = decimal term ++ (b'|' ∷ cmd)

-- What one log says of an index.
unfoldable pub opinion : ℕ → RaftLog → Text
unfolding present
opinion idx ent = elim (get idx ent) [ none ↦ missing | some e ↦ present e ]

unfoldable pub all_indices : List RaftLog → List ℕ
all_indices [] = []
all_indices (d ∷ ds) = keys d ++ all_indices ds

-- `votes >= QUORUM` for the dominant opinion on an index.
unfoldable pub index_consistent : ℕ → List RaftLog → ℕ → Bool
unfolding opinion most_common
index_consistent q logs idx = elim (most_common (tally (map (opinion idx) logs))) [
  | none ↦ false
  | some (value, votes) ↦ leb q votes
]

-- The loop over the indices: `overall_ok`, and the indices that are printed as inconsistent.
unfoldable pub check_indices : ℕ → List RaftLog → List ℕ → Bool × List ℕ
check_indices q logs [] = (true, [])
check_indices q logs (idx ∷ rest) =
    let (overall_ok, bad) = check_indices q logs rest in
    if index_consistent q logs idx then (overall_ok, bad) else (false, idx ∷ bad)

-- `majority_consistent`
unfoldable pub majority_consistent : ℕ → Logs → Bool × List ℕ
unfolding all_indices check_indices index_consistent
majority_consistent q all_logs =
    let logs = values all_logs in check_indices q logs (sorted_set (all_indices logs))
