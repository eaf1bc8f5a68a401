-- ===== src/Ycsb.antt =====
-- The scripts that read the output of YCSB: scripts/ycsb_analysis.py and scripts/ycsb_analysis_auto.py
-- with their profiles, and scripts/ycsb_compare.py, scripts/ycsb_compare_both.py and
-- scripts/ycsb_thread_analysis.py with the results of many files.
pub mod Profile
pub mod Results
pub mod Groups
pub mod Connections
use frugal_leader_election.Base.{List, map, Text, codes, Option, none, some}
use frugal_leader_election.Text.{strip, split_on}

-- `[p.strip() for p in line.split(",")]` of a line without blanks at its ends
abbrev pub parts_of : Text → List Text
parts_of line = map strip (split_on b',' (strip line))

-- `try: old = float(s)`, which keeps the old value on a `ValueError`
abbrev pub read_float : {F : Type 0} → (Text → Option F) → Text → Option F → Option F
read_float float s old = elim (float s) [ none ↦ old | some x ↦ some x ]
