-- ===== src/Zookeeper/Quorums/Members.antt =====
-- What the reader of the leader's log counts.
use frugal_leader_election.Base.{
  ℕ, ◌+◌, ◌≤◌, ◌≡◌, refl, ap, sym, ◌∙◌, arith, inl, inr, Bool-cases, true, Option, none, some, leb,
  ◌&&◌, codes, sum, map, List, [], ◌∷◌, Text, count, ◌==◌, if◌then◌else◌,
}
use mathlib.Core.List.{foldl}
use frugal_leader_election.Base.Dict.{Dict, get_or, contains, insert, keys}
use frugal_leader_election.Base.Equality.{=?_cases, nat_eq}
use frugal_leader_election.Base.Counter.{get_or-add_one}
use frugal_leader_election.Base.Sort.{member}
use frugal_leader_election.Text.{has_substring, split_blanks}
use frugal_leader_election.Time.{Datetime}
use frugal_leader_election.Zookeeper.Quorums.{
  quorum_list, time_of, lies_in, tracker_phrase, members_of, add_known, no_counts, count_line,
  parse_zookeeper_log,
}

-- A change of a key that is there keeps the keys.
keys-insert_of_present :
    (k n : ℕ) (d : Dict ℕ ℕ) → contains k d ≡ true → keys (insert k n d) ≡ keys d
keys-insert_of_present k n [] h = cc
keys-insert_of_present k n ((j, m) ∷ d) h = elim (=?_cases k j) [
  | inl (same, p) ↦ rw same refl
  | inr (other, p) ↦ rw other (ap (λ ks. j ∷ ks) (keys-insert_of_present k n d (rw other at h)))
]

keys-add_known : (counts : Dict ℕ ℕ) (node : ℕ) → keys (add_known counts node) ≡ keys counts
keys-add_known counts node = elim (Bool-cases (contains node counts)) [
  | inl b ↦ rw (b, add_known) (keys-insert_of_present node _ counts b)
  | inr b ↦ rw (b, add_known) refl
]

contains-member : (k : ℕ) (d : Dict ℕ ℕ) → contains k d ≡ member k (keys d)
contains-member k [] = refl
contains-member k ((j, m) ∷ d) = ground (arith, contains-member k d)

get_or-add_known :
    (node k : ℕ) (counts : Dict ℕ ℕ)
    → contains node counts ≡ true
    → get_or node 0 (add_known counts k) ≡ get_or node 0 counts + (if k == node then 1 else 0)
get_or-add_known node k counts h = elim (Bool-cases (contains k counts)) [
  | inl b ↦
      rw (b, add_known) (get_or-add_one node k counts ∙ ap (λ n. get_or node 0 counts + n) refl)
  | inr b ↦ rw (b, add_known) (ground (arith, h, b))
]

-- The counts of a known node after a list of nodes, and the keys.
known-foldl :
    (node : ℕ) (ks : List ℕ) (counts : Dict ℕ ℕ)
    → contains node counts ≡ true
    → (keys (foldl add_known counts ks) ≡ keys counts)
      × (get_or node 0 (foldl add_known counts ks)
          ≡ get_or node 0 counts + count (λ k. k == node) ks)
known-foldl node [] counts h = (refl, omega arith)
known-foldl node (k ∷ ks) counts h =
    let same : keys (add_known counts k) ≡ keys counts = keys-add_known counts k in
    let there : contains node (add_known counts k) ≡ true =
      contains-member node (add_known counts k)
      ∙ ap (member node) same
      ∙ sym (contains-member node counts)
      ∙ h in
    let (ks_same, total) = known-foldl node ks (add_known counts k) there in
    (ks_same ∙ same, omega (arith, total, get_or-add_known node k counts h))

-- How often a line names a node in its quorum, where its time lies in the window.
abbrev pub named_at : Datetime → Datetime → ℕ → Text → Option Datetime → ℕ
named_at start_time end_time node line none = 0
named_at start_time end_time node line (some t) =
    if leb start_time t && leb t end_time then count (λ k. k == node) (quorum_list line) else 0

-- How often a line names a node: it is one on the quorums and begins with a time in the window.
abbrev pub named : Datetime → Datetime → ℕ → Text → ℕ
named start_time end_time node line =
    if has_substring (codes "All quorums present in synced leader tracker:") line
    then named_at start_time end_time node line (time_of (split_blanks line))
    else 0

count-members_of :
    (node : ℕ) (line : Text) (start_time end_time : Datetime)
    → count (λ k. k == node) (members_of start_time end_time line)
      ≡ named start_time end_time node line
unfolding members_of
count-members_of node line start_time end_time =
    elim (Bool-cases (has_substring tracker_phrase line)) [
      | inl b ↦ rw (b, members_of) (go (time_of (split_blanks line)))
      | inr b ↦ rw (b, members_of) refl
    ]
  where
    go :
        (o : Option Datetime)
        → count
            (λ k. k == node)
            (if true && lies_in start_time end_time o then quorum_list line else [])
          ≡ named_at start_time end_time node line o
    go none = refl
    go (some t) = elim (Bool-cases (leb start_time t && leb t end_time)) [
      | inl b ↦ rw b refl
      | inr b ↦ rw b refl
    ]

lines-foldl :
    (node : ℕ) (lines : List Text) (start_time end_time : Datetime) (counts : Dict ℕ ℕ)
    → contains node counts ≡ true
    → (keys (foldl (count_line start_time end_time) counts lines) ≡ keys counts)
      × (get_or node 0 (foldl (count_line start_time end_time) counts lines)
          ≡ get_or node 0 counts + sum (map (named start_time end_time node) lines))
lines-foldl node [] start_time end_time counts h = (refl, omega arith)
lines-foldl node (line ∷ lines) start_time end_time counts h =
    let ks : List ℕ = members_of start_time end_time line in
    let (same, first) = known-foldl node ks counts h in
    let there : contains node (foldl add_known counts ks) ≡ true =
      contains-member node (foldl add_known counts ks)
      ∙ ap (member node) same
      ∙ sym (contains-member node counts)
      ∙ h in
    let (all_same, rest) =
      lines-foldl node lines start_time end_time (foldl add_known counts ks) there in
    (all_same ∙ same, omega (arith, first, rest, count-members_of node line start_time end_time))

-- The counts have the nodes 1 to 5 for keys, whatever the lines say. Each of these nodes is counted
-- as often as it stands in the quorums of those lines that have the phrase on all quorums and whose
-- first two tokens are a time from `start_time` to `end_time`, both included.
pub parse_zookeeper_log-counts :
    (lines : List Text) (start_time end_time : Datetime) (node : ℕ)
    → 1 ≤ node
    → node ≤ 5
    → (keys (parse_zookeeper_log lines start_time end_time) ≡ 1 ∷ 2 ∷ 3 ∷ 4 ∷ 5 ∷ [])
      × (get_or node 0 (parse_zookeeper_log lines start_time end_time)
          ≡ sum (map (named start_time end_time node) lines))
unfolding parse_zookeeper_log
parse_zookeeper_log-counts lines start_time end_time node low high =
    let known : contains node no_counts ≡ true = ground arith in
    let zero : get_or node 0 no_counts ≡ 0 = ground arith in
    let (same, total) = lines-foldl node lines start_time end_time no_counts known in
    (same, omega (arith, total, zero))
