-- ===== src/Terms.antt =====
-- scripts/length_analysis.py, plot_heartbeat_lengths: how many heartbeats each term lasts.
use frugal_leader_election.Base.{
  ℕ, ◌+◌, max, ◌≡◌, refl, ◌∙◌, ap, inl, inr, arith, Bool, false, ◌&&◌, Option, none, some, List, [],
  ◌∷◌, Text, codes, count, if◌then◌else◌,
}
use mathlib.Core.List.{foldl}
use frugal_leader_election.Base.Dict.{Dict, get_or, keys, insert, update, get_or-insert}
use frugal_leader_election.Base.Equality.{◌=?◌, =?_cases, nat_eq, list_eq}
use frugal_leader_election.Base.Counter.{add_one, most_common, get_or-add_one}
use frugal_leader_election.Base.Sort.{sorted}
use frugal_leader_election.Regex.{Regex, lit, group, some_of, ◌⨾◌, find, group_of}
use frugal_leader_election.Text.{is_digit, is_digit_or_dot, int}

abbrev pub follower_pattern : Regex
follower_pattern =
    lit (codes "Received AppendEntries from ")
    ⨾ group 1 (some_of is_digit_or_dot)
    ⨾ lit (codes ":")
    ⨾ some_of is_digit
    ⨾ lit (codes " for term ")
    ⨾ group 2 (some_of is_digit)
    ⨾ lit (codes " with id ")
    ⨾ group 3 (some_of is_digit)

abbrev pub leader_pattern : Regex
leader_pattern =
    lit (codes "[LEADER] Sent heartbeat ")
    ⨾ group 1 (some_of is_digit)
    ⨾ lit (codes " for term ")
    ⨾ group 2 (some_of is_digit)

-- The term, and the leader's address.
unfoldable pub follower_match : Text → Option (ℕ × Text)
follower_match line = elim (find follower_pattern line) [
  | none ↦ none
  | some m ↦ some (int (group_of 2 m), group_of 1 m)
]

-- The term, and the number of the heartbeat.
unfoldable pub leader_match : Text → Option (ℕ × ℕ)
leader_match line = elim (find leader_pattern line) [
  | none ↦ none
  | some m ↦ some (int (group_of 2 m), int (group_of 1 m))
]

-- `heartbeat_counts`: by term and leader
abbrev pub Counts : Type 0
Counts = Dict ℕ (Dict Text ℕ)

-- The node itself.
abbrev pub self : Text
self = codes "self"

abbrev pub note_received : Option (ℕ × Text) → Counts → Counts
note_received none counts = counts
note_received (some (term, ip)) counts = update term [] (λ leaders. add_one leaders ip) counts

abbrev pub raise_own : ℕ → Dict Text ℕ → Dict Text ℕ
raise_own n leaders = insert self (max (get_or self 0 leaders) n) leaders

abbrev pub note_sent : Option (ℕ × ℕ) → Counts → Counts
note_sent none counts = counts
note_sent (some (term, n)) counts = update term [] (raise_own n) counts

-- One round of the loop over the lines.
abbrev pub note_line : Counts → Text → Counts
note_line counts line = note_sent (leader_match line) (note_received (follower_match line) counts)

unfoldable pub heartbeat_counts : List Text → Counts
heartbeat_counts lines = foldl note_line [] lines

-- The leader of a term with the most heartbeats, and how many.
abbrev pub lengths_of : Counts → List ℕ → List (ℕ × Option (Text × ℕ))
lengths_of counts [] = []
lengths_of counts (term ∷ terms) =
    (term, most_common (get_or term [] counts)) ∷ lengths_of counts terms

unfoldable pub term_lengths : List Text → List (ℕ × Option (Text × ℕ))
term_lengths lines = let counts = heartbeat_counts lines in lengths_of counts (sorted (keys counts))

-- The count of a leader in a term.
abbrev pub beats : ℕ → Text → Counts → ℕ
beats term ip counts = get_or ip 0 (get_or term [] counts)

-- Whether a line says that a heartbeat of this leader came in this term.
abbrev pub received : ℕ → Text → Option (ℕ × Text) → Bool
received term ip none = false
received term ip (some (t, i)) = (term =? t) && (i =? ip)

beats-note_received :
    (term : ℕ) (ip : Text) (o : Option (ℕ × Text)) (counts : Counts)
    → beats term ip (note_received o counts)
      ≡ beats term ip counts + (if received term ip o then 1 else 0)
beats-note_received term ip none counts = omega arith
beats-note_received term ip (some (t, i)) counts = elim (=?_cases term t) [
  | inl (c, e) ↦
      ap (get_or ip 0) (get_or-insert term t [] (add_one (get_or t [] counts) i) counts)
      ∙ rw (c, e) (get_or-add_one ip i (get_or t [] counts))
  | inr (c, e) ↦
      ap (get_or ip 0) (get_or-insert term t [] (add_one (get_or t [] counts) i) counts)
      ∙ rw c (omega arith)
]

beats-note_sent :
    (term : ℕ) (ip : Text) (o : Option (ℕ × ℕ)) (counts : Counts)
    → (ip =? self) ≡ false
    → beats term ip (note_sent o counts) ≡ beats term ip counts
beats-note_sent term ip none counts h = refl
beats-note_sent term ip (some (t, n)) counts h = elim (=?_cases term t) [
  | inl (c, e) ↦
      ap (get_or ip 0) (get_or-insert term t [] (raise_own n (get_or t [] counts)) counts)
      ∙ rw (c, e)
          (get_or-insert ip self 0 (max (get_or self 0 (get_or t [] counts)) n) (get_or t [] counts)
            ∙ rw h refl)
  | inr (c, e) ↦
      ap (get_or ip 0) (get_or-insert term t [] (raise_own n (get_or t [] counts)) counts)
      ∙ rw c refl
]

beats-from :
    (term : ℕ) (ip : Text) (lines : List Text) (counts : Counts)
    → (ip =? self) ≡ false
    → beats term ip (foldl note_line counts lines)
      ≡ beats term ip counts + count (λ line. received term ip (follower_match line)) lines
beats-from term ip [] counts h = omega arith
beats-from term ip (line ∷ lines) counts h = omega (
  arith,
  beats-from term ip lines (note_line counts line) h,
  beats-note_sent term ip (leader_match line) (note_received (follower_match line) counts) h,
  beats-note_received term ip (follower_match line) counts,
)

-- The count of a term and an address is the number of lines that report a heartbeat of this leader
-- in this term. What the node reports of its own heartbeats does not change it.
pub heartbeat_counts-received :
    (term : ℕ) (ip : Text) (lines : List Text)
    → (ip =? self) ≡ false
    → beats term ip (heartbeat_counts lines)
      ≡ count (λ line. received term ip (follower_match line)) lines
unfolding heartbeat_counts
heartbeat_counts-received term ip lines h = omega (arith, beats-from term ip lines [] h)
