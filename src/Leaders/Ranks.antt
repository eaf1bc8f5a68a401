-- ===== src/Leaders/Ranks.antt =====
-- scripts/rank_analysis.py counts what scripts/election_analysis.py counts: its test before the
-- search is no more than a shortcut.
use frugal_leader_election.Base.{
  ℕ, ◌≡◌, refl, ap, ◌∙◌, inl, inr, Bool, true, false, Option, none, some, List, [], ◌∷◌, ◌++◌,
  arith, Text, codes, Option-cases, Bool-cases, ◌==◌, if◌then◌else◌,
}
use mathlib.Core.List.{foldl}
use mathlib.Core.Option.{some-injective}
use frugal_leader_election.Base.Dict.{Dict}
use frugal_leader_election.Text.{starts_with, has_substring, not_space}
use frugal_leader_election.Regex.{Place, eat, eat_one, find}
use frugal_leader_election.Regex.Meaning.{Run, Occurs, find_iff}
use frugal_leader_election.Leaders.{
  rank_pattern, is_node_log, rank_match, State, start, note_rank, step, skip_lines, process_file,
  process_folder, analyze_folder, rank_line, rank_file, rank_folder,
}

none-ne-some : {A : Type 0} {a : A} → ¬ (none ≡ some a)
none-ne-some h = cc

has_substring-start : (p s : Text) → starts_with s p ≡ true → has_substring p s ≡ true
has_substring-start p [] h = h
has_substring-start p (c ∷ s) h = ground arith

has_substring-later :
    (p s : Text) (c : ℕ) → has_substring p s ≡ true → has_substring p (c ∷ s) ≡ true
has_substring-later p s c h = ground arith

has_substring-tail : (c : ℕ) (p s : Text) → starts_with s (c ∷ p) ≡ true → has_substring p s ≡ true
has_substring-tail c p [] h = cc
has_substring-tail c p (x ∷ s) h =
    has_substring-later p s x (has_substring-start p s (ground arith))

starts_with-append : (s p q : Text) → starts_with s (p ++ q) ≡ true → starts_with s p ≡ true
starts_with-append s [] q h = refl
starts_with-append [] (c ∷ p) q h = h
starts_with-append (x ∷ s) (c ∷ p) q h = ground (arith, starts_with-append s p q)

-- What stands behind a match stands in the text.
has_substring-eat :
    (p cs : Text) (b : Option ℕ) (s : Text) (g : Dict ℕ Text) {e : Place}
    → eat cs b s g ≡ some e
    → has_substring p e.rest ≡ true
    → has_substring p s ≡ true
unfolding eat
has_substring-eat p [] b [] g h k = rw (← some-injective _ _ h) at k
has_substring-eat p [] b (x ∷ s) g h k = rw (← some-injective _ _ h) at k
has_substring-eat p (c ∷ cs) b [] g h k = cc
has_substring-eat p (c ∷ cs) b (x ∷ s) g h k = elim (Bool-cases (c == x)) [
  | inl t ↦ has_substring-later p s x (has_substring-eat p cs (some x) s g (rw (t, eat) at h) k)
  | inr f ↦ absurd (none-ne-some (rw (f, eat) at h))
]

starts_with-eat :
    (cs : Text) (b : Option ℕ) (s : Text) (g : Dict ℕ Text) {e : Place}
    → eat cs b s g ≡ some e
    → starts_with s cs ≡ true
unfolding eat
starts_with-eat [] b s g h = refl
starts_with-eat (c ∷ cs) b [] g h = cc
starts_with-eat (c ∷ cs) b (x ∷ s) g {e} h = ground (arith, starts_with-eat cs (some x) s g {e = e})

has_substring-Run :
    (p : Text) (q : ℕ → Bool) {b : Option ℕ} {s : Text} {g : Dict ℕ Text} {e : Place}
    → Run q b s g e
    → has_substring p e.rest ≡ true
    → has_substring p s ≡ true
has_substring-Run p q (Run.stop b s g) k = k
has_substring-Run p q (Run.more b c s g _ r) k =
    has_substring-later p s c (has_substring-Run p q r k)

has_substring-eat_one :
    (p : Text) (q : ℕ → Bool) (b : Option ℕ) (s : Text) (g : Dict ℕ Text) {e : Place}
    → eat_one q b s g ≡ some e
    → has_substring p e.rest ≡ true
    → has_substring p s ≡ true
unfolding eat_one
has_substring-eat_one p q b [] g h k = cc
has_substring-eat_one p q b (c ∷ s) g h k = elim (Bool-cases (q c)) [
  | inl t ↦ has_substring-later p s c (rw (← some-injective _ _ (rw t at h)) at k)
  | inr f ↦ absurd (none-ne-some (rw f at h))
]

tested :
    {b : Option ℕ} {s : Text}
    → Occurs rank_pattern b s
    → (has_substring (codes "The rank of") s ≡ true) × (has_substring (codes "is:") s ≡ true)
tested (Occurs.later b c s o) =
    let (p, q) = tested o in
    (has_substring-later (codes "The rank of") s c p, has_substring-later (codes "is:") s c q)
tested (Occurs.here b s e (p, m, (r, (t, (u, n, o), w), (v, l, x)))) =
    let start = starts_with-eat (codes "The rank of ") b s [] m in
    let inside : has_substring (codes "is:") r.rest ≡ true =
      has_substring-tail 32 (codes "is:") r.rest (
        starts_with-append r.rest (codes " is:") (codes " ")
          (starts_with-eat (codes " is: ") r.before r.rest r.groups l)) in
    let named : has_substring (codes "is:") t.rest ≡ true = rw (ap (λ y. y.rest) w) at inside in
    (
      has_substring-start (codes "The rank of") s
          (starts_with-append s (codes "The rank of") (codes " ") start),
      has_substring-eat (codes "is:") (codes "The rank of ") b s [] m (
          has_substring-eat_one (codes "is:") not_space p.before p.rest p.groups n
            (has_substring-Run (codes "is:") not_space o named)),
    )

rank_line-note_rank :
    (counts : Dict Text ℕ) (line : Text)
    → rank_line counts line ≡ note_rank (rank_match line) counts
unfolding rank_line note_rank rank_match
rank_line-note_rank counts line = elim (Option-cases (find rank_pattern line)) [
  | inl e ↦ rw (e, rank_line, note_rank, rank_match) (ground arith)
  | inr (m, e) ↦
      let (p, q) = tested ((find_iff rank_pattern line).0 (rw e refl)) in rw (p, q, rank_line) refl
]

foldl-rank_line :
    (lines : List Text) (s : State)
    → foldl rank_line s.rank0_counts lines ≡ (foldl step s lines).rank0_counts
unfolding step
foldl-rank_line [] s = refl
foldl-rank_line (line ∷ lines) s =
    ap (λ counts. foldl rank_line counts lines) (rank_line-note_rank s.rank0_counts line)
    ∙ foldl-rank_line lines (step s line)

rank_file-process_file :
    (n : ℕ) (lines : List Text) (s : State)
    → rank_file n s.rank0_counts lines ≡ (process_file n s lines).rank0_counts
unfolding rank_file process_file
rank_file-process_file n lines s = elim (Option-cases (skip_lines n lines)) [
  | inl e ↦ rw (e, rank_file, process_file) refl
  | inr (rest, e) ↦ rw (e, rank_file, process_file) (foldl-rank_line rest s)
]

rank_folder-process_folder :
    (n : ℕ) (files : List (Text × List Text)) (s : State)
    → rank_folder n s.rank0_counts files ≡ (process_folder n s files).rank0_counts
unfolding rank_folder process_folder
rank_folder-process_folder n [] s = refl
rank_folder-process_folder n ((name, lines) ∷ files) s =
    ap (λ counts. rank_folder n counts files) (go (is_node_log name))
    ∙ rank_folder-process_folder n files (if is_node_log name then process_file n s lines else s)
  where
    go :
        (b : Bool)
        → (if b then rank_file n s.rank0_counts lines else s.rank0_counts)
          ≡ (if b then process_file n s lines else s).rank0_counts
    go true = rank_file-process_file n lines s
    go false = refl

-- scripts/rank_analysis.py and scripts/election_analysis.py find the same counts, for the same
-- files and the same number of lines skipped: a line that the first passes over for want of a
-- text would not have matched.
pub rank_folder-analyze_folder :
    (n : ℕ) (files : List (Text × List Text))
    → rank_folder n [] files ≡ (analyze_folder n files).rank0_counts
unfolding analyze_folder
rank_folder-analyze_folder n files = rank_folder-process_folder n files start
