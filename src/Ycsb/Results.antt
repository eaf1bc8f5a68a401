-- ===== src/Ycsb/Results.antt =====
-- `parse_ycsb_file`, the same text in scripts/ycsb_compare.py, scripts/ycsb_compare_both.py and
-- scripts/ycsb_thread_analysis.py.
use frugal_leader_election.Base.{
  Bool, Option, none, some, List, [], ◌∷◌, Text, codes, ◌&&◌, if◌then◌else◌,
}
use mathlib.Core.List.{foldl}
use frugal_leader_election.Text.{strip, starts_with, has_substring}
use frugal_leader_election.Ycsb.{parts_of, read_float}

-- `parts[-1]`; a list of parts is not empty.
abbrev pub last_part : Text → List Text → Text
last_part p [] = p
last_part p (q ∷ qs) = last_part q qs

abbrev pub is_throughput : Text → Bool
is_throughput line =
    starts_with (strip line) (codes "[OVERALL]")
    && has_substring (codes "Throughput(ops/sec)") (strip line)

abbrev pub is_update : Text → Bool
is_update line =
    starts_with (strip line) (codes "[UPDATE]")
    && has_substring (codes "AverageLatency(us)") (strip line)

-- Python's floats are a parameter.
module _ {F : Type 0} (float : Text → Option F) where
  -- `throughput` and `update_avg`
  unfoldable pub note_result : Option F × Option F → Text → Option F × Option F
  note_result (throughput, update_avg) line =
      if is_throughput line
      then (read_float float (last_part [] (parts_of line)) throughput, update_avg)
      else if is_update line
      then (throughput, read_float float (last_part [] (parts_of line)) update_avg)
      else (throughput, update_avg)

  unfoldable pub parse_ycsb_file : List Text → Option F × Option F
  parse_ycsb_file lines = foldl note_result (none, none) lines

  -- Both numbers, or none for a file that is passed over with a warning
  abbrev pub both_of : Option F × Option F → Option (F × F)
  both_of (none, u) = none
  both_of (some t, none) = none
  both_of (some t, some u) = some (t, u)
