-- ===== src/Consistency/Parse.antt =====
-- The parser against the lines that the node's log dump writes (src/node.cpp), and the entries
-- that a file ends up with.
use frugal_leader_election.Base.{
  ℕ, ◌≡◌, ◌≢◌, refl, inl, inr, Bool, true, Option, none, some, List, [], ◌∷◌, ◌++◌, arith, Text,
  All, codes, if◌then◌else◌, ◌==◌, Option-cases,
}
use frugal_leader_election.Base.Dict.{insert, get, get-insert}
use frugal_leader_election.Base.Equality.{nat_eq}
use mathlib.Core.Option.{or_else}
use mathlib.Core.List.{foldl}
use frugal_leader_election.Text.{strip, is_digit, is_space}
use frugal_leader_election.Text.Decimal.{decimal, int-decimal, decimal-digits, decimal-ne-nil}
use frugal_leader_election.Regex.{run, place}
use frugal_leader_election.Regex.Steps.{
  Stops, lit_step, many_step, group_step, run_group_some_of, find_at_start,
}
use frugal_leader_election.Consistency.{
  Entry, RaftLog, not_comma, line_re, parse_line, add_line, parse_file,
}

-- The line that a node dumps for an entry; `rest` is what follows the command and its comma.
abbrev pub dump_line : ℕ → ℕ → Text → Text → Text
dump_line idx term cmd rest =
    codes "Index: "
    ++ (decimal idx
        ++ (codes ", Term: " ++ (decimal term ++ (codes ", Command: " ++ (cmd ++ (b',' ∷ rest))))))

Stops-blank : (w s : Text) → w ≢ [] → All (λ c. is_digit c ≡ true) w → Stops is_space (w ++ s)
Stops-blank [] s ne a = absurd (ne refl)
Stops-blank (c ∷ w) s ne a = ground arith

Stops-append : (p : ℕ → Bool) (w s : Text) → w ≢ [] → Stops p w → Stops p (w ++ s)
Stops-append p [] s ne st = absurd (ne refl)
Stops-append p (c ∷ w) s ne st = st

matched_dump :
    (idx term : ℕ) (cmd rest : Text)
    → cmd ≢ []
    → All (λ c. not_comma c ≡ true) cmd
    → Stops is_space cmd
    → run line_re (place none (dump_line idx term cmd rest) []) (λ e. some e.groups)
      ≡ some ((1, decimal idx) ∷ (2, decimal term) ∷ (3, cmd) ∷ [])
matched_dump idx term cmd rest ne a st = lit_step none [] _ (codes "Index:") _ _ (
    many_step _ [] _ is_space (32 ∷ []) _ _ (refl, tt)
      (Stops-blank (decimal idx) _ (decimal-ne-nil idx) (decimal-digits idx))
      (group_step _ [] _ 1 is_digit (decimal idx) _ _ (decimal-ne-nil idx) (decimal-digits idx) refl
        (lit_step _ _ _ (codes ",") _ _ (
          many_step _ _ _ is_space (32 ∷ []) _ _ (refl, tt) refl
            (lit_step _ _ _ (codes "Term:") _ _ (
              many_step _ _ _ is_space (32 ∷ []) _ _ (refl, tt)
                (Stops-blank (decimal term) _ (decimal-ne-nil term) (decimal-digits term))
                (group_step _ _ _ 2 is_digit (decimal term) _ _ (decimal-ne-nil term)
                  (decimal-digits term) refl
                  (lit_step _ _ _ (codes ",") _ _ (
                    many_step _ _ _ is_space (32 ∷ []) _ _ (refl, tt) refl
                      (lit_step _ _ _ (codes "Command:") _ _ (
                        many_step _ _ _ is_space (32 ∷ []) _ _ (refl, tt)
                          (Stops-append is_space cmd _ ne st)
                          (run_group_some_of 3 not_comma cmd _ _ _ _ ne a refl refl))))))))))))

-- A dumped line is read back: the index, the term, and the command without blanks around it.
-- The command has no comma, is not empty and does not begin with a blank.
pub parse_line-dump_line :
    (idx term : ℕ) (cmd rest : Text)
    → cmd ≢ []
    → All (λ c. not_comma c ≡ true) cmd
    → Stops is_space cmd
    → parse_line (dump_line idx term cmd rest) ≡ some (idx, (term, strip cmd))
unfolding parse_line
parse_line-dump_line idx term cmd rest ne a st =
    rw
      (
        find_at_start line_re (dump_line idx term cmd rest)
            (matched_dump idx term cmd rest ne a st),
        parse_line,
      )
      (rw (int-decimal idx, int-decimal term) refl)

-- What a line says about the index.
abbrev pub entry_of : ℕ → Text → Option Entry
entry_of idx line = elim (parse_line line) [
  | none ↦ none
  | some (i, e) ↦ if idx == i then some e else none
]

-- The entry of the last line that has one for the index.
abbrev pub last_entry : ℕ → List Text → Option Entry
last_entry idx [] = none
last_entry idx (line ∷ lines) = or_else (last_entry idx lines) (entry_of idx line)

get-add_lines :
    (idx : ℕ) (lines : List Text) (d : RaftLog)
    → get idx (foldl add_line d lines) ≡ or_else (last_entry idx lines) (get idx d)
unfolding add_line or_else
get-add_lines idx [] d = refl
get-add_lines idx (line ∷ lines) d = elim (Option-cases (parse_line line)) [
  | inl other ↦ ground (arith, get-add_lines idx lines d)
  | inr ((i, e), found) ↦
      ground (arith, get-add_lines idx lines (insert i e d), get-insert idx i e d)
]

-- The log read from a file has, for each index, the entry of the last line with that index,
-- and none for an index that no line has.
pub get-parse_file :
    (idx : ℕ) (lines : List Text) → get idx (parse_file lines) ≡ last_entry idx lines
unfolding parse_file or_else
get-parse_file idx lines = ground (arith, get-add_lines idx lines [])
