-- ===== src/Ycsb/Groups.antt =====
-- The files of the experiments in groups by what their names say.

pub mod Members
pub mod Names
use frugal_leader_election.Base.{
  ℕ, Bool, true, false, Option, none, some, List, [], ◌∷◌, ◌++◌, Text, codes, map, leb,
  if◌then◌else◌,
}
use mathlib.Core.List.{foldl}
use frugal_leader_election.Base.Dict.{Dict, update}
use frugal_leader_election.Base.Equality.{Eq, nat_eq, list_eq, pair_eq}
use frugal_leader_election.Text.{is_digit, is_digit_or_dot, int}
use frugal_leader_election.Regex.{
  Regex, lit, one, many, group, some_of, optional, ◌⨾◌, match_start, group_of,
}
use frugal_leader_election.Ycsb.Results.{parse_ycsb_file, both_of}

abbrev pub append_one : {V : Type 0} → V → List V → List V
append_one v vs = vs ++ (v ∷ [])

-- `groups.setdefault(key, []).append(value)` for each file that has a key and a value
module _ {A K V : Type 0} ⦃e : Eq K⦄ (classify : A → Option (K × V)) where
  abbrev pub add_member : Dict K (List V) → Option (K × V) → Dict K (List V)
  add_member groups none = groups
  add_member groups (some (key, value)) = update key [] (append_one value) groups

  unfoldable pub group_all : List A → Dict K (List V)
  group_all xs = foldl (λ groups x. add_member groups (classify x)) [] xs

abbrev digits : ℕ → Regex
digits i = group i (some_of is_digit)

-- A file by the name behind its folder, and its lines.
abbrev pub File : Type 0
File = Text × List Text

-- scripts/ycsb_analysis_auto.py, automated_plot_experiments
abbrev pub auto_regex : Regex
auto_regex =
    lit (codes "zk_lat_leader_node")
    ⨾ digits 1
    ⨾ lit (codes "_")
    ⨾ digits 2
    ⨾ lit (codes "_")
    ⨾ digits 3
    ⨾ lit (codes "_pareto_read_")
    ⨾ group 4 (some_of is_digit_or_dot)
    ⨾ lit (codes "_write_")
    ⨾ group 5 (some_of is_digit_or_dot)
    ⨾ lit (codes ".txt")

-- The key is the mean, the deviation and the two ratios; the value is the leader and the name.
unfoldable pub classify_auto : Text → Option ((Text × (Text × (Text × Text))) × (ℕ × Text))
classify_auto fname = elim (match_start auto_regex fname) [
  | none ↦ none
  | some m ↦
      some
        ((group_of 2 m, (group_of 3 m, (group_of 4 m, group_of 5 m))), (int (group_of 1 m), fname))
]

-- `file_list.sort(key=leader)`, which keeps the order of files with the same leader
abbrev pub insert_by_leader : ℕ × Text → List (ℕ × Text) → List (ℕ × Text)
insert_by_leader f [] = f ∷ []
insert_by_leader f (g ∷ gs) =
    let rest = insert_by_leader f gs in if leb f.0 g.0 then f ∷ g ∷ gs else g ∷ rest

abbrev pub sort_by_leader : List (ℕ × Text) → List (ℕ × Text)
sort_by_leader [] = []
sort_by_leader (f ∷ fs) = insert_by_leader f (sort_by_leader fs)

abbrev pub sort_group :
    (Text × (Text × (Text × Text))) × List (ℕ × Text) → (Text × (Text × (Text × Text))) × List Text
sort_group (key, files) = (key, map (λ (f : ℕ × Text). f.1) (sort_by_leader files))

unfoldable pub automated_groups : List Text → Dict (Text × (Text × (Text × Text))) (List Text)
automated_groups files = map sort_group (group_all classify_auto files)

abbrev pub latency_re : Regex
latency_re = group 2 (some_of is_digit ⨾ optional (lit (codes ".") ⨾ some_of is_digit))

-- The part of the names that scripts/ycsb_compare.py and scripts/ycsb_compare_both.py share
abbrev pub run_re : Text → Regex
run_re ending =
    lit (codes "zk_leader_node")
    ⨾ digits 1
    ⨾ lit (codes "_")
    ⨾ latency_re
    ⨾ lit (codes "ms_")
    ⨾ digits 3
    ⨾ lit (codes "threads_base_delay_")
    ⨾ digits 4
    ⨾ lit (codes "_ms_run")
    ⨾ digits 5
    ⨾ lit ending

abbrev pub thread_re : Regex
thread_re =
    lit (codes "zk_leader_node")
    ⨾ digits 1
    ⨾ lit (codes "_")
    ⨾ digits 2
    ⨾ lit (codes "ms_")
    ⨾ digits 3
    ⨾ lit (codes "threads.txt")

-- Python's floats are a parameter. The latency of a name is always one.
module _ {F : Type 0} ⦃f : Eq F⦄ (float : Text → Option F) (latency_of : Text → F) where
  abbrev pub with_results : {K : Type 0} → K → Option (F × F) → Option (K × (F × F))
  with_results key none = none
  with_results key (some r) = some (key, r)

  unfoldable pub classify_run : File → Option ((ℕ × (F × ℕ)) × (F × F))
  classify_run (fname, lines) = elim (match_start (run_re (codes ".txt")) fname) [
    | none ↦ none
    | some m ↦
        with_results (int (group_of 1 m), (latency_of (group_of 2 m), int (group_of 3 m)))
          (both_of float (parse_ycsb_file float lines))
  ]

  -- scripts/ycsb_compare.py, group_experiment_results
  unfoldable pub group_experiment_results : List File → Dict (ℕ × (F × ℕ)) (List (F × F))
  group_experiment_results files = group_all classify_run files

  -- scripts/ycsb_compare_both.py: the key has the type of the file too.
  abbrev pub with_type :
      Text → List Text → Option (Dict ℕ Text) → Option ((ℕ × (F × (ℕ × Text))) × (F × F))
  with_type file_type lines none = none
  with_type file_type lines (some m) =
      with_results
        (int (group_of 1 m), (latency_of (group_of 2 m), (int (group_of 3 m), file_type)))
        (both_of float (parse_ycsb_file float lines))

  unfoldable pub classify_typed : File → Option ((ℕ × (F × (ℕ × Text))) × (F × F))
  classify_typed (fname, lines) = elim (match_start (run_re (codes ".txt")) fname) [
    | some m ↦ with_type (codes "regular") lines (some m)
    | none ↦ with_type (codes "triple") lines (match_start (run_re (codes "_triple.txt")) fname)
  ]

  unfoldable pub group_typed_results : List File → Dict (ℕ × (F × (ℕ × Text))) (List (F × F))
  group_typed_results files = group_all classify_typed files

  -- scripts/ycsb_thread_analysis.py, main: the value has the number of threads too.
  abbrev pub with_threads : (ℕ × ℕ) → ℕ → Option (F × F) → Option ((ℕ × ℕ) × (ℕ × F × F))
  with_threads key threads none = none
  with_threads key threads (some (t, u)) = some (key, (threads, t, u))

  unfoldable pub classify_threads : File → Option ((ℕ × ℕ) × (ℕ × F × F))
  classify_threads (fname, lines) = elim (match_start thread_re fname) [
    | none ↦ none
    | some m ↦
        with_threads (int (group_of 1 m), int (group_of 2 m)) (int (group_of 3 m))
          (both_of float (parse_ycsb_file float lines))
  ]

  unfoldable pub group_thread_results : List File → Dict (ℕ × ℕ) (List (ℕ × F × F))
  group_thread_results files = group_all classify_threads files
