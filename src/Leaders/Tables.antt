-- ===== src/Leaders/Tables.antt =====
-- The two tables are what the lines behind the warm-up say.
use frugal_leader_election.Base.{
  ℕ, zero, suc, ◌+◌, ◌≡◌, refl, ap, sym, ◌∙◌, inl, inr, Bool, false, Option, none, some, List, [],
  ◌∷◌, ◌++◌, arith, Text, length, drop, count, sum, ◌==◌, ltb, Option-cases, if◌then◌else◌,
}
use mathlib.Core.List.{foldl}
use mathlib.Core.Option.{or_else}
use frugal_leader_election.Base.Dict.{Dict, get, get_or, values, get-insert}
use frugal_leader_election.Base.Equality.{◌=?◌, =?_cases, nat_eq, list_eq}
use frugal_leader_election.Base.Counter.{get_or-add_one, get_or-tally, sum-values-add_all}
use frugal_leader_election.Leaders.{
  node_name, is_node_log, rank_match, leader_match, State, start, note_rank, note_leader, step,
  skip_lines, process_file, process_folder, analyze_folder, leader_term_counts,
}

-- The lines of one file that count.
abbrev pub kept_of : ℕ → Text → List Text → List Text
kept_of n name lines =
    if is_node_log name then (if ltb (length lines) n then [] else drop n lines) else []

-- The lines of all files that count: those behind the first `n` of each node's log that has `n`.
abbrev pub kept : ℕ → List (Text × List Text) → List Text
kept n [] = []
kept n ((name, lines) ∷ files) = kept_of n name lines ++ kept n files

-- The line ranks the node first.
abbrev pub ranks_first : Text → Text → Bool
ranks_first node line = elim (rank_match line) [
  | none ↦ false
  | some (ip_port, rank) ↦ if rank == 0 then node_name ip_port =? node else false
]

-- The leader of the term that a line reports.
abbrev pub leader_in : ℕ → Text → Option Text
leader_in term line = elim (leader_match line) [
  | none ↦ none
  | some (ip_port, t) ↦ if term == t then some (node_name ip_port) else none
]

abbrev pub first_leader : ℕ → List Text → Option Text
first_leader term [] = none
first_leader term (line ∷ lines) = or_else (leader_in term line) (first_leader term lines)

skip_lines_lem :
    (n : ℕ) (lines : List Text)
    → skip_lines n lines ≡ (if ltb (length lines) n then none else some (drop n lines))
unfolding skip_lines
skip_lines_lem zero lines = ground arith
skip_lines_lem (suc n) [] = ground arith
skip_lines_lem (suc n) (line ∷ lines) = ground (arith, skip_lines_lem n lines)

foldl-append :
    (xs ys : List Text) (s : State) → foldl step s (xs ++ ys) ≡ foldl step (foldl step s xs) ys
foldl-append [] ys s = refl
foldl-append (x ∷ xs) ys s = foldl-append xs ys (step s x)

process_file-kept :
    (n : ℕ) (name : Text) (lines : List Text) (s : State)
    → (if is_node_log name then process_file n s lines else s) ≡ foldl step s (kept_of n name lines)
unfolding process_file
process_file-kept n name lines s = ground (arith, skip_lines_lem n lines)

process_folder-kept :
    (n : ℕ) (files : List (Text × List Text)) (s : State)
    → process_folder n s files ≡ foldl step s (kept n files)
unfolding process_folder
process_folder-kept n [] s = refl
process_folder-kept n ((name, lines) ∷ files) s =
    process_folder-kept n files _
    ∙ ap (λ t. foldl step t (kept n files)) (process_file-kept n name lines s)
    ∙ sym (foldl-append (kept_of n name lines) (kept n files) s)

get_or-note_rank :
    (node line : Text) (counts : Dict Text ℕ)
    → get_or node 0 (note_rank (rank_match line) counts)
      ≡ get_or node 0 counts + (if ranks_first node line then 1 else 0)
unfolding note_rank
get_or-note_rank node line counts = elim (Option-cases (rank_match line)) [
  | inl e ↦ rw (e, note_rank, ranks_first) (omega arith)
  | inr ((ip, rank), e) ↦
      rw (e, note_rank, ranks_first) (ground (arith, get_or-add_one node (node_name ip) counts))
]

get_or-loop :
    (node : Text) (lines : List Text) (s : State)
    → get_or node 0 (foldl step s lines).rank0_counts
      ≡ get_or node 0 s.rank0_counts + count (ranks_first node) lines
unfolding step
get_or-loop node [] s = omega arith
get_or-loop node (line ∷ lines) s =
    omega (arith, get_or-loop node lines (step s line), get_or-note_rank node line s.rank0_counts)

-- A node is counted as often as a line ranks it first, among the lines behind the first `n` of
-- the logs of nodes that have `n` lines.
get_or-rank0_counts :
    (n : ℕ) (node : Text) (files : List (Text × List Text))
    → get_or node 0 (analyze_folder n files).rank0_counts ≡ count (ranks_first node) (kept n files)
unfolding analyze_folder
get_or-rank0_counts n node files =
    rw (process_folder-kept n files start) (get_or-loop node (kept n files) start ∙ omega arith)

or_none : (o : Option Text) → o ≡ or_else o none
unfolding or_else
or_none none = refl
or_none (some x) = refl

or_else_assoc : (a b c : Option Text) → or_else (or_else a b) c ≡ or_else a (or_else b c)
unfolding or_else
or_else_assoc none b c = refl
or_else_assoc (some x) b c = refl

get-note_leader :
    (term : ℕ) (line : Text) (leaders : Dict ℕ Text)
    → get term (note_leader (leader_match line) leaders)
      ≡ or_else (get term leaders) (leader_in term line)
unfolding note_leader or_else
get-note_leader term line leaders = elim (Option-cases (leader_match line)) [
  | inl e ↦ rw (e, note_leader, leader_in) (or_none (get term leaders))
  | inr ((ip, t), e) ↦
      rw (e, note_leader, leader_in)
        (ground (arith, get-insert term t (node_name ip) leaders, =?_cases term t))
]

get-loop :
    (term : ℕ) (lines : List Text) (s : State)
    → get term (foldl step s lines).term_leaders
      ≡ or_else (get term s.term_leaders) (first_leader term lines)
unfolding step
get-loop term [] s = or_none (get term s.term_leaders)
get-loop term (line ∷ lines) s =
    get-loop term lines (step s line)
    ∙ ap (λ o. or_else o (first_leader term lines)) (get-note_leader term line s.term_leaders)
    ∙ or_else_assoc (get term s.term_leaders) (leader_in term line) (first_leader term lines)

-- A term has the leader that the first line about the term reports, among the lines behind the
-- first `n` of the logs of nodes that have `n` lines, and no leader if there is no such line.
pub get-term_leaders :
    (n term : ℕ) (files : List (Text × List Text))
    → get term (analyze_folder n files).term_leaders ≡ first_leader term (kept n files)
unfolding analyze_folder or_else
get-term_leaders n term files =
    rw (process_folder-kept n files start) (get-loop term (kept n files) start)

-- The number of terms of a node is the number of terms that have it as leader, and these numbers
-- add up to the number of terms.
leader_term_counts-total :
    (node : Text) (leaders : Dict ℕ Text)
    → (get_or node 0 (leader_term_counts leaders) ≡ count (λ k. k =? node) (values leaders))
      × (sum (values (leader_term_counts leaders)) ≡ length leaders)
unfolding leader_term_counts
leader_term_counts-total node leaders = (
  get_or-tally node (values leaders),
  sum-values-add_all (values leaders) [] ∙ length-values leaders,
)
  where
    length-values : (d : Dict ℕ Text) → 0 + length (values d) ≡ length d
    length-values [] = refl
    length-values ((k, v) ∷ d) = omega (arith, length-values d)
