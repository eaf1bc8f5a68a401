-- ===== src/Ycsb/Profile/Agreement.antt =====
-- The two readers of profiles, `plot_combined_ycsb_profiles` and `plot_ycsb_profile`.
use frugal_leader_election.Base.{
  ◌≡◌, refl, sym, ◌∙◌, ap, ◌≢◌, ◌⊎◌, inl, inr, Bool, Bool-cases, true, false, Option, none, some,
  List, [], ◌∷◌, Text, codes, if◌then◌else◌,
}
use mathlib.Core.List.{foldl}
use frugal_leader_election.Base.Dict.{Dict, get, insert, get-insert}
use frugal_leader_election.Base.Equality.{◌=?◌, =?_cases, nat_eq, list_eq}
use frugal_leader_election.Text.{has_substring}
use frugal_leader_election.Ycsb.{parts_of, read_float}
use frugal_leader_election.Ycsb.Profile.{
  percentiles, profile_percentiles, is_one_of, Latencies, Profile, note_percentile, note_latency,
  note_parts, note_line, start, combined_profile, note_profile_latency, note_profile_parts,
  note_profile_line, ycsb_profile,
}

-- A percentile that both read.
abbrev pub Shared : Text → Type 0
Shared k =
    (has_substring (codes "AverageLatency(us)") k ≡ false)
    × (is_one_of k percentiles ≡ true)
    × (is_one_of k profile_percentiles ≡ true)

module _ {F : Type 0} (float : Text → Option F) where
  -- What a line with this key and value does to the percentile `k`.
  abbrev seen : (k key value : Text) → Option F → Option F
  seen k key value old = if k =? key then read_float float value old else old

  get-note_percentile :
      (k key value : Text) (d : Dict Text F)
      → get k (note_percentile float key value d) ≡ seen k key value (get k d)
  get-note_percentile k key value d = go (float value) (=?_cases k key)
    where
      go :
          (o : Option F)
          → ((k =? key ≡ true) × (k ≡ key)) ⊎ ((k =? key ≡ false) × (k ≢ key))
          → get k (elim o [ none ↦ d | some x ↦ insert key x d ])
            ≡ (if k =? key then elim o [ none ↦ get k d | some x ↦ some x ] else get k d)
      go none (inl (c, e)) = rw c refl
      go none (inr (c, e)) = rw c refl
      go (some x) (inl (c, e)) = rw (get-insert k key x d, c) refl
      go (some x) (inr (c, e)) = rw (get-insert k key x d, c) refl

  note_latency-seen :
      (k key value : Text) (l : Latencies F)
      → Shared k
      → get k (note_latency float key value l).percentiles ≡ seen k key value (get k l.percentiles)
  unfolding note_latency
  note_latency-seen k key value l sh = elim (=?_cases k key) [
    | inl (c, e) ↦
        rw (rw e at sh.0, rw e at sh.1, note_latency)
          (get-note_percentile k key value l.percentiles)
    | inr (c, e) ↦
        other c (Bool-cases (has_substring (codes "AverageLatency(us)") key))
          (Bool-cases (is_one_of key percentiles))
  ]
    where
      other :
          (k =? key) ≡ false
          → (has_substring (codes "AverageLatency(us)") key ≡ true)
            ⊎ (has_substring (codes "AverageLatency(us)") key ≡ false)
          → (is_one_of key percentiles ≡ true) ⊎ (is_one_of key percentiles ≡ false)
          → get k (note_latency float key value l).percentiles
            ≡ seen k key value (get k l.percentiles)
      other c (inl a) b = rw (a, c, note_latency) refl
      other c (inr a) (inl b) =
          rw (a, b, note_latency) (get-note_percentile k key value l.percentiles)
      other c (inr a) (inr b) = rw (a, b, c, note_latency) refl

  note_profile_latency-seen :
      (k key value : Text) (l : Latencies F)
      → Shared k
      → get k (note_profile_latency float key value l).percentiles
        ≡ seen k key value (get k l.percentiles)
  unfolding note_profile_latency
  note_profile_latency-seen k key value l sh = elim (=?_cases k key) [
    | inl (c, e) ↦
        rw (rw e at sh.2, note_profile_latency) (get-note_percentile k key value l.percentiles)
    | inr (c, e) ↦ other c (Bool-cases (is_one_of key profile_percentiles))
  ]
    where
      other :
          (k =? key) ≡ false
          → (is_one_of key profile_percentiles ≡ true) ⊎ (is_one_of key profile_percentiles ≡ false)
          → get k (note_profile_latency float key value l).percentiles
            ≡ seen k key value (get k l.percentiles)
      other c (inl b) = rw (b, note_profile_latency) (get-note_percentile k key value l.percentiles)
      other c (inr b) = rw (b, c, note_profile_latency) refl

  -- The two profiles say the same of the throughput and of the percentile `k`.
  abbrev pub Agree : Text → Profile F → Profile F → Type 0
  Agree k p q =
      (p.throughput ≡ q.throughput)
      × (get k p.read.percentiles ≡ get k q.read.percentiles)
      × (get k p.update.percentiles ≡ get k q.update.percentiles)

  latencies-agree :
      (k key value : Text) (l m : Latencies F)
      → Shared k
      → get k l.percentiles ≡ get k m.percentiles
      → get k (note_latency float key value l).percentiles
        ≡ get k (note_profile_latency float key value m).percentiles
  latencies-agree k key value l m sh e =
      note_latency-seen k key value l sh
      ∙ ap (seen k key value) e
      ∙ sym (note_profile_latency-seen k key value m sh)

  note_parts-Agree :
      (k section key value : Text) (p q : Profile F)
      → Shared k
      → Agree k p q
      → Agree k
          (note_parts float section key value p)
          (note_profile_parts float section key value q)
  unfolding note_parts note_profile_parts
  note_parts-Agree k section key value p q sh (t, r, u) =
      choose (section =? codes "[OVERALL]") (has_substring (codes "Throughput(ops/sec)") key)
        (section =? codes "[READ]") (section =? codes "[UPDATE]")
    where
      choose :
          (a b c d : Bool)
          → Agree k
              (if a
                then (if b
                    then record p { throughput = read_float float value p.throughput }
                    else p)
                else if c
                then record p { read = note_latency float key value p.read }
                else if d
                then record p { update = note_latency float key value p.update }
                else p)
              (if a
                then (if b
                    then record q { throughput = read_float float value q.throughput }
                    else q)
                else if c
                then record q { read = note_profile_latency float key value q.read }
                else if d
                then record q { update = note_profile_latency float key value q.update }
                else q)
      choose true true c d = (ap (read_float float value) t, r, u)
      choose true false c d = (t, r, u)
      choose false b true d = (t, latencies-agree k key value p.read q.read sh r, u)
      choose false b false true = (t, r, latencies-agree k key value p.update q.update sh u)
      choose false b false false = (t, r, u)

  note_line-Agree :
      (k line : Text) (p q : Profile F)
      → Shared k
      → Agree k p q
      → Agree k (note_line float p line) (note_profile_line float q line)
  unfolding note_line note_profile_line
  note_line-Agree k line p q sh a = go (parts_of line)
    where
      go :
          (parts : List Text)
          → Agree k
              (elim parts [
                | section ∷ key ∷ value ∷ rest ↦ note_parts float section key value p
                | _ ↦ p
              ])
              (elim parts [
                | section ∷ key ∷ value ∷ rest ↦ note_profile_parts float section key value q
                | _ ↦ q
              ])
      go [] = a
      go (section ∷ []) = a
      go (section ∷ key ∷ []) = a
      go (section ∷ key ∷ value ∷ rest) = note_parts-Agree k section key value p q sh a

  lines-Agree :
      (k : Text) (lines : List Text) (p q : Profile F)
      → Shared k
      → Agree k p q
      → Agree k (foldl (note_line float) p lines) (foldl (note_profile_line float) q lines)
  lines-Agree k [] p q sh a = a
  lines-Agree k (line ∷ lines) p q sh a =
      lines-Agree k lines (note_line float p line) (note_profile_line float q line) sh
        (note_line-Agree k line p q sh a)

  -- The two readers of a result file find the same throughput, and the same latency of reads and of
  -- updates at every percentile that is in the lists of both.
  pub combined_profile-ycsb_profile :
      (k : Text) (lines : List Text)
      → Shared k
      → Agree k (combined_profile float lines) (ycsb_profile float lines)
  unfolding combined_profile ycsb_profile
  combined_profile-ycsb_profile k lines sh =
      lines-Agree k lines (start float) (start float) sh (refl, refl, refl)
