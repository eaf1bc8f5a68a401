-- ===== src/Tasks/Counts.antt =====
-- The tasks that run a counting script on all nodes and add up what it wrote.

pub mod Totals
use frugal_leader_election.Base.{
  ℕ, zero, suc, ◌+◌, Bool, true, false, Option, none, some, List, [], ◌∷◌, ◌++◌, Text, codes, take,
  sum, map, ◌&&◌, ◌==◌, if◌then◌else◌,
}
use frugal_leader_election.Base.Result.{Result, ok, err, value_error, or_raise}
use mathlib.Core.Option as Option
use frugal_leader_election.Base.Int.{ℤ, pos, negsuc, ◌+ℤ◌}
use frugal_leader_election.Text.{strip, is_digit, add_digit, split_blanks}
use frugal_leader_election.Text.Decimal.{decimal}
use frugal_leader_election.Remote.{
  Action, History, World, run, get, sleep, make_dirs, move, read_file, write_file, Prog, pure, ask,
  script, attempt, each, in_range, try_each, ◌>>=◌, ◌>>◌,
}
use frugal_leader_election.Tasks.{nodes, script_dir, remote_detect}
use frugal_leader_election.Tasks.Servers.{start_remote_default}
use frugal_leader_election.Tasks.Clients.{move_into}

-- The digits of a number from the value `n` on; a `_` may stand between two of them.
abbrev read_digits : (behind_digit : Bool) → ℕ → Text → Option ℕ
read_digits behind_digit n [] = if behind_digit then some n else none
read_digits behind_digit n (c ∷ s) = elim (is_digit c) [
  | true ↦ read_digits true (add_digit n c) s
  | false ↦ elim (behind_digit && c == b'_') [ true ↦ read_digits false n s | false ↦ none ]
]

abbrev negated : ℕ → ℤ
negated zero = pos 0
negated (suc n) = negsuc n

-- `int` of a text without blanks at its ends
abbrev signed : Text → Option ℤ
signed [] = none
signed (c ∷ s) =
    if c == b'-'
    then Option.map negated (read_digits false 0 s)
    else if c == b'+'
    then Option.map pos (read_digits false 0 s)
    else Option.map pos (read_digits false 0 (c ∷ s))

-- `int(s.strip())`, or none for a `ValueError`
unfoldable pub to_int : Text → Option ℤ
to_int s = signed (strip s)

-- `sum(xs)` and `str(n)` of integers
abbrev pub total : List ℤ → ℤ
total [] = pos 0
total (x ∷ xs) = x +ℤ total xs

abbrev pub integer : ℤ → Text
integer (pos n) = decimal n
integer (negsuc n) = codes "-" ++ decimal (suc n)

abbrev pub skips : ℕ → ℕ → Text
skips skip_first skip_last =
    codes " --skip-first " ++ (decimal skip_first ++ (codes " --skip-last " ++ decimal skip_last))

-- `logs/node_{i + 1}.log`
abbrev pub node_log : ℕ → Text
node_log i = codes "logs/node_" ++ (decimal (suc i) ++ codes ".log")

-- `sum_remote_timeouts`
abbrev pub count_on : (skip_first skip_last : ℕ) → ℕ → Text → List Action
count_on skip_first skip_last i host =
    run host (
      codes "cd /users/PeterYao/frugal-leader-election/scripts && python3 remote_count_timeouts.py "
      ++ (node_log i ++ (skips skip_first skip_last ++ codes " --out timeout_count.txt")))
    ∷ []

abbrev pub timeout_file : ℕ → Text
timeout_file i = codes "timeout_" ++ (decimal i ++ codes ".txt")

-- The body of the `try` that fetches the count of a node
unfoldable pub fetch_count : ℕ → Text → Prog ℤ
fetch_count i host =
    ask (
      get host (codes "/users/PeterYao/frugal-leader-election/scripts/timeout_count.txt")
        (timeout_file i))
    >> (ask (read_file (timeout_file i)) >>= λ s w h. (or_raise (to_int s) value_error, h))

-- `totals`. A node whose count is not fetched adds nothing.
abbrev pub add_total : Result ℤ → List ℤ → List ℤ
add_total (ok val) totals = totals ++ (val ∷ [])
add_total (err e) totals = totals

unfoldable pub fetch_counts : ℕ → List Text → List ℤ → Prog (List ℤ)
fetch_counts i [] totals w h = (ok totals, h)
fetch_counts i (host ∷ hosts) totals w h =
    let (r, t) = fetch_count i host w h in fetch_counts (i + 1) hosts (add_total r totals) w t

-- The loop over the files, whose list is made before the first one is moved.
unfoldable pub archive_counts : (ts_folder pattern last : Text) → Prog (Unit {0})
archive_counts ts_folder pattern last w h =
    try_each (move_into ts_folder) 0 (w.glob h pattern ++ (last ∷ [])) w h

abbrev pub write_total : List ℤ → Action
write_total totals = write_file (codes "total_timeouts.txt") (integer (total totals) ++ codes "\n")

unfoldable pub sum_remote_timeouts : (skip_first skip_last : ℕ) (ts_folder : Text) → Prog (Unit {0})
sum_remote_timeouts skip_first skip_last ts_folder =
    start_remote_default
    >> script (sleep 504 ∷ [])
    >> try_each (count_on skip_first skip_last) 0 (take 5 nodes)
    >> fetch_counts 0 (take 5 nodes) []
    >>= λ totals.
        script (write_total totals ∷ make_dirs ts_folder ∷ [])
        >> archive_counts ts_folder (codes "timeout_*.txt") (codes "total_timeouts.txt")

-- `sum_remote_detect`
abbrev pub detect_on : (skip_first skip_last : ℕ) → ℕ → Text → List Action
detect_on skip_first skip_last i host =
    run host (
      codes "cd "
      ++ (script_dir
          ++ (codes " && python3 "
              ++ (remote_detect
                  ++ (codes " "
                      ++ (node_log i
                          ++ (skips skip_first skip_last ++ codes " --out detect_stats.txt")))))))
    ∷ []

abbrev pub detect_file : ℕ → Text
detect_file i = codes "detect_" ++ (decimal i ++ codes ".txt")

-- Python's floats are a parameter: reading one, `int` of one, and the summary of the nodes, which
-- is the text that is written.
module _ {F : Type 0} (float : Text → Option F) (to_nat : F → Option ℕ)
    (summary : List (ℕ × F × F) → Text) where
  -- `(int(cnt), m, s)`
  abbrev with_count : Option ℕ → F → F → Result (ℕ × F × F)
  with_count none m d = err value_error
  with_count (some n) m d = ok (n, m, d)

  -- `cnt, m, s = map(float, f.read().split())`
  unfoldable pub three_floats : Text → Result (ℕ × F × F)
  three_floats s = elim (split_blanks s) [
    | a ∷ b ∷ c ∷ [] ↦ elim (float a) [
      | none ↦ err value_error
      | some cnt ↦ elim (float b) [
        | none ↦ err value_error
        | some m ↦ elim (float c) [ none ↦ err value_error | some d ↦ with_count (to_nat cnt) m d ]
      ]
    ]
    | _ ↦ err value_error
  ]

  unfoldable pub fetch_stats : ℕ → Text → Prog (ℕ × F × F)
  fetch_stats i host =
      ask (get host (script_dir ++ codes "/detect_stats.txt") (detect_file i))
      >> (ask (read_file (detect_file i)) >>= λ s w h. (three_floats s, h))

  abbrev pub add_stats : Result (ℕ × F × F) → List (ℕ × F × F) → List (ℕ × F × F)
  add_stats (ok val) per_node = per_node ++ (val ∷ [])
  add_stats (err e) per_node = per_node

  unfoldable pub fetch_all_stats : ℕ → List Text → List (ℕ × F × F) → Prog (List (ℕ × F × F))
  fetch_all_stats i [] per_node w h = (ok per_node, h)
  fetch_all_stats i (host ∷ hosts) per_node w h =
      let (r, t) = fetch_stats i host w h in
      fetch_all_stats (i + 1) hosts (add_stats r per_node) w t

  abbrev pub total_n : List (ℕ × F × F) → ℕ
  total_n per_node = sum (map (λ (x : ℕ × F × F). x.0) per_node)

  -- Behind the loops; without samples nothing is written.
  unfoldable pub save_stats : Text → List (ℕ × F × F) → Prog (Unit {0})
  save_stats ts_folder per_node = elim (total_n per_node) [
    | zero ↦ pure tt
    | suc n ↦
        script
          (write_file (codes "detect_summary.txt") (summary per_node) ∷ make_dirs ts_folder ∷ [])
        >> archive_counts ts_folder (codes "detect_*.txt") (codes "detect_summary.txt")
  ]

  unfoldable pub sum_remote_detect : (skip_first skip_last : ℕ) (ts_folder : Text) → Prog (Unit {0})
  sum_remote_detect skip_first skip_last ts_folder =
      try_each (detect_on skip_first skip_last) 0 (take 5 nodes)
      >> fetch_all_stats 0 (take 5 nodes) []
      >>= save_stats ts_folder

  -- `batch_sum_remote_detect` and `batch_sum_remote_timeouts`, with the folders of each round
  unfoldable pub batch_sum_remote_detect : (ℕ → Text) → Prog (Unit {0})
  batch_sum_remote_detect ts_folder =
      in_range
        (λ i.
          start_remote_default >> script (sleep 305 ∷ []) >> sum_remote_detect 30 30 (ts_folder i))
        1 1

  unfoldable pub batch_sum_remote_timeouts :
      (timeouts_folder detect_folder : ℕ → Text) → Prog (Unit {0})
  batch_sum_remote_timeouts timeouts_folder detect_folder =
      in_range
        (λ i.
          sum_remote_timeouts 30 30 (timeouts_folder i)
          >> sum_remote_detect 30 30 (detect_folder i))
        0 2
