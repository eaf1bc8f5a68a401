-- ===== src/Leaders.antt =====
-- scripts/election_analysis.py, main: how often each node is ranked first, and the leader of each
-- term, from the logs of a folder. scripts/rank_analysis.py, main: the first of these alone.
pub mod Tables
pub mod Ranks
use frugal_leader_election.Base.{
  ℕ, zero, suc, ◌+◌, Bool, true, false, Option, none, some, List, [], ◌∷◌, ◌++◌, Text, codes,
  is_some, ◌==◌, ◌&&◌, if◌then◌else◌,
}
use mathlib.Core.List.{foldl}
use frugal_leader_election.Base.Dict.{Dict, get_or, insert, contains, values}
use frugal_leader_election.Base.Equality.{Eq, ◌=?◌, nat_eq, list_eq}
use frugal_leader_election.Base.Counter.{add_one, tally}
use frugal_leader_election.Text.{is_digit, not_space, int, starts_with, has_substring, before_first}
use frugal_leader_election.Regex.{Regex, lit, group, some_of, ◌⨾◌, find, group_of}

abbrev pub rank_pattern : Regex
rank_pattern =
    lit (codes "The rank of ")
    ⨾ group 1 (some_of not_space)
    ⨾ lit (codes " is: ")
    ⨾ group 2 (some_of is_digit)

abbrev pub leader_pattern : Regex
leader_pattern =
    lit (codes "Received AppendEntries from ")
    ⨾ group 1 (some_of not_space)
    ⨾ lit (codes " for term ")
    ⨾ group 2 (some_of is_digit)
    ⨾ lit (codes " with id ")
    ⨾ group 3 (some_of is_digit)

-- `ip_to_node`
abbrev pub ip_to_node : Dict Text Text
ip_to_node =
    (codes "10.10.4.2", codes "node_0")
    ∷ (codes "10.10.2.1", codes "node_1")
    ∷ (codes "10.10.2.2", codes "node_2")
    ∷ (codes "10.10.3.2", codes "node_3")
    ∷ (codes "10.10.5.2", codes "node_4")
    ∷ []

-- The name of the node at an address, or the address without its port.
unfoldable pub node_name : Text → Text
node_name ip_port = let ip = before_first b':' ip_port in get_or ip ip ip_to_node

-- `s.endswith(p)`
abbrev pub ends_with : Text → Text → Bool
ends_with [] p = [] =? p
ends_with (c ∷ s) p = if (c ∷ s) =? p then true else ends_with s p

-- The test of `files_to_process`
abbrev pub is_node_log : Text → Bool
is_node_log name = starts_with name (codes "node_") && ends_with name (codes ".log")

-- The address and the rank that a line reports.
unfoldable pub rank_match : Text → Option (Text × ℕ)
rank_match line = elim (find rank_pattern line) [
  | none ↦ none
  | some m ↦ some (group_of 1 m, int (group_of 2 m))
]

-- The address of a leader and the term that a line reports.
unfoldable pub leader_match : Text → Option (Text × ℕ)
leader_match line = elim (find leader_pattern line) [
  | none ↦ none
  | some m ↦ some (group_of 1 m, int (group_of 2 m))
]

pub record State : Type 0 where
  pub rank0_counts : Dict Text ℕ
  pub term_leaders : Dict ℕ Text

abbrev pub start : State
start = record { rank0_counts = []; term_leaders = [] }

unfoldable pub note_rank : Option (Text × ℕ) → Dict Text ℕ → Dict Text ℕ
note_rank none counts = counts
note_rank (some (ip_port, rank)) counts =
    if rank == 0 then add_one counts (node_name ip_port) else counts

-- Only the first leader of a term is kept.
unfoldable pub note_leader : Option (Text × ℕ) → Dict ℕ Text → Dict ℕ Text
note_leader none leaders = leaders
note_leader (some (ip_port, term)) leaders =
    if contains term leaders then leaders else insert term (node_name ip_port) leaders

-- One round of the loop over the lines.
unfoldable pub step : State → Text → State
step s line = record {
  rank0_counts = note_rank (rank_match line) s.rank0_counts;
  term_leaders = note_leader (leader_match line) s.term_leaders;
}

-- `for _ in range(n): next(f)`, where `none` is the `StopIteration`. The scripts have 1800 for `n`.
unfoldable pub skip_lines : ℕ → List Text → Option (List Text)
skip_lines zero lines = some lines
skip_lines (suc n) [] = none
skip_lines (suc n) (line ∷ lines) = skip_lines n lines

-- A file. One that is too short changes nothing.
unfoldable pub process_file : ℕ → State → List Text → State
process_file n s lines = elim (skip_lines n lines) [ none ↦ s | some rest ↦ foldl step s rest ]

-- The files of the folder in the order of `os.listdir`, by name.
unfoldable pub process_folder : ℕ → State → List (Text × List Text) → State
process_folder n s [] = s
process_folder n s ((name, lines) ∷ files) =
    process_folder n (if is_node_log name then process_file n s lines else s) files

-- The two tables at the end.
unfoldable pub analyze_folder : ℕ → List (Text × List Text) → State
analyze_folder n files = process_folder n start files

-- The number of terms of each node.
unfoldable pub leader_term_counts : Dict ℕ Text → Dict Text ℕ
leader_term_counts leaders = tally (values leaders)

-- The body of the loop in scripts/rank_analysis.py, which tests for two texts before it searches.
unfoldable pub rank_line : Dict Text ℕ → Text → Dict Text ℕ
rank_line counts line =
    if has_substring (codes "The rank of") line && has_substring (codes "is:") line
    then note_rank (rank_match line) counts
    else counts

unfoldable pub rank_file : ℕ → Dict Text ℕ → List Text → Dict Text ℕ
rank_file n counts lines = elim (skip_lines n lines) [
  | none ↦ counts
  | some rest ↦ foldl rank_line counts rest
]

unfoldable pub rank_folder : ℕ → Dict Text ℕ → List (Text × List Text) → Dict Text ℕ
rank_folder n counts [] = counts
rank_folder n counts ((name, lines) ∷ files) =
    rank_folder n (if is_node_log name then rank_file n counts lines else counts) files
