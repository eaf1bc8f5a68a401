-- ===== src/Ycsb/Profile.antt =====
-- The latencies and the throughput of one file: `plot_combined_ycsb_profiles`, whose loop is the
-- same text in scripts/ycsb_analysis.py and scripts/ycsb_analysis_auto.py, and `plot_ycsb_profile`.

pub mod Agreement
use frugal_leader_election.Base.{
  Bool, true, false, Option, none, some, List, [], ◌∷◌, Text, codes, if◌then◌else◌,
}
use mathlib.Core.List.{foldl}
use frugal_leader_election.Base.Dict.{Dict, insert}
use frugal_leader_election.Base.Equality.{◌=?◌, nat_eq, list_eq}
use frugal_leader_election.Text.{has_substring}
use frugal_leader_election.Ycsb.{parts_of, read_float}

abbrev pub percentiles_to : Text → List Text
percentiles_to last =
    codes "10thPercentileLatency(us)"
    ∷ codes "25thPercentileLatency(us)"
    ∷ codes "50thPercentileLatency(us)"
    ∷ codes "75thPercentileLatency(us)"
    ∷ codes "90thPercentileLatency(us)"
    ∷ codes "95thPercentileLatency(us)"
    ∷ codes "99thPercentileLatency(us)"
    ∷ last
    ∷ []

abbrev pub percentiles : List Text
percentiles = percentiles_to (codes "99.9PercentileLatency(us)")

-- The list of `plot_ycsb_profile`
abbrev pub profile_percentiles : List Text
profile_percentiles = percentiles_to (codes "99.5PercentileLatency(us)")

abbrev pub is_one_of : Text → List Text → Bool
is_one_of x [] = false
is_one_of x (y ∷ ys) = if x =? y then true else is_one_of x ys

-- The mean and the percentiles of one kind of operation.
pub record Latencies (F : Type 0) : Type 0 where
  pub avg : Option F
  pub percentiles : Dict Text F

pub record Profile (F : Type 0) : Type 0 where
  pub read : Latencies F
  pub update : Latencies F
  pub throughput : Option F

-- Python's floats are a parameter.
module _ {F : Type 0} (float : Text → Option F) where
  abbrev pub no_latencies : Latencies F
  no_latencies = record { avg = none; percentiles = [] }

  abbrev pub start : Profile F
  start = record { read = no_latencies; update = no_latencies; throughput = none }

  abbrev pub note_percentile : (key value : Text) → Dict Text F → Dict Text F
  note_percentile key value d = elim (float value) [ none ↦ d | some x ↦ insert key x d ]

  unfoldable pub note_latency : (key value : Text) → Latencies F → Latencies F
  note_latency key value l =
      if has_substring (codes "AverageLatency(us)") key
      then record l { avg = read_float float value l.avg }
      else if is_one_of key percentiles
      then record l { percentiles = note_percentile key value l.percentiles }
      else l

  -- A line with at least three parts.
  unfoldable pub note_parts : (section key value : Text) → Profile F → Profile F
  note_parts section key value p =
      if section =? codes "[OVERALL]"
      then (if has_substring (codes "Throughput(ops/sec)") key
          then record p { throughput = read_float float value p.throughput }
          else p)
      else if section =? codes "[READ]"
      then record p { read = note_latency key value p.read }
      else if section =? codes "[UPDATE]"
      then record p { update = note_latency key value p.update }
      else p

  unfoldable pub note_line : Profile F → Text → Profile F
  note_line p line = elim (parts_of line) [
    | section ∷ key ∷ value ∷ rest ↦ note_parts section key value p
    | _ ↦ p
  ]

  unfoldable pub combined_profile : List Text → Profile F
  combined_profile lines = foldl note_line start lines

  -- `plot_ycsb_profile`, which reads no means
  unfoldable pub note_profile_latency : (key value : Text) → Latencies F → Latencies F
  note_profile_latency key value l =
      if is_one_of key profile_percentiles
      then record l { percentiles = note_percentile key value l.percentiles }
      else l

  unfoldable pub note_profile_parts : (section key value : Text) → Profile F → Profile F
  note_profile_parts section key value p =
      if section =? codes "[OVERALL]"
      then (if has_substring (codes "Throughput(ops/sec)") key
          then record p { throughput = read_float float value p.throughput }
          else p)
      else if section =? codes "[READ]"
      then record p { read = note_profile_latency key value p.read }
      else if section =? codes "[UPDATE]"
      then record p { update = note_profile_latency key value p.update }
      else p

  unfoldable pub note_profile_line : Profile F → Text → Profile F
  note_profile_line p line = elim (parts_of line) [
    | section ∷ key ∷ value ∷ rest ↦ note_profile_parts section key value p
    | _ ↦ p
  ]

  unfoldable pub ycsb_profile : List Text → Profile F
  ycsb_profile lines = foldl note_profile_line start lines
