-- ===== src/Summaries.antt =====
-- scripts/sum_all_clients.py, scripts/count_leader.py, scripts/timeout_mean.py and
-- scripts/detection_time_analysis.py: what these short scripts collect from the lines of their files.
use frugal_leader_election.Base.{
  ℕ, Option, none, some, List, [], ◌∷◌, ◌++◌, Text, codes, count, ◌==◌, is_some,
}
use frugal_leader_election.Base.Dict.{Dict, update, values}
use frugal_leader_election.Base.Equality.{list_eq, nat_eq}
use frugal_leader_election.Base.Result.{
  Result, ok, err, exit, value_error, or_raise, ◌>>=◌, for_each,
}
use frugal_leader_election.Text.{is_digit, is_digit_or_dot, is_space, int, lower}
use frugal_leader_election.Regex.{Regex, lit, one, many, group, some_of, ◌⨾◌, find, group_of}

-- A pattern with `re.IGNORECASE`
abbrev pub any_case : Text → Regex
any_case [] = lit []
any_case (c ∷ s) = one (λ x. lower x == lower c) ⨾ any_case s

-- `PATTERN` of count_leader.py
abbrev pub leader_re : Regex
leader_re = any_case (codes "Received enough votes to become leader")

-- `main` of count_leader.py, for the lines of the file or none where it is missing
unfoldable pub count_leader : Option (List Text) → Result ℕ
count_leader none = err (exit "1")
count_leader (some lines) = ok (count (λ line. is_some (find leader_re line)) lines)

-- The two patterns of sum_all_clients.py
abbrev pub throughput_re : Regex
throughput_re =
    lit (codes "Overall Throughput")
    ⨾ many is_space
    ⨾ lit (codes ":")
    ⨾ many is_space
    ⨾ group 1 (some_of is_digit_or_dot)
    ⨾ many is_space
    ⨾ lit (codes "req/s")

abbrev pub latency_re : Regex
latency_re =
    lit (codes "Average latency")
    ⨾ many is_space
    ⨾ lit (codes ":")
    ⨾ many is_space
    ⨾ group 1 (some_of is_digit_or_dot)
    ⨾ many is_space
    ⨾ lit (codes "ms")

abbrev pub jacobson_re : Regex
jacobson_re =
    lit (codes "Using Jacobson estimation for election timeout: ")
    ⨾ group 1 (some_of is_digit_or_dot)
    ⨾ lit (codes " Milliseconds, additional delay: ")
    ⨾ group 2 (some_of is_digit)
    ⨾ lit (codes " Milliseconds")

abbrev pub raft_re : Regex
raft_re =
    lit (codes "Using Raft timeout for election timeout: ")
    ⨾ group 1 (some_of is_digit_or_dot)
    ⨾ lit (codes " seconds")

-- Python's floats are a parameter: the number of a text, if it is one, and what is done with them.
module _ {F : Type 0} (float : Text → Option F) (plus times : F → F → F)
    (zero_float thousand : F) where
  -- The throughput and the latency of a client's file
  unfoldable pub parse_file : Text → Result (Option (F × F))
  parse_file content = elim (find throughput_re content) [
    | none ↦ ok none
    | some tp_m ↦ elim (find latency_re content) [
      | none ↦ ok none
      | some lat_m ↦ do
        tp ← or_raise (float (group_of 1 tp_m)) value_error
        lat ← or_raise (float (group_of 1 lat_m)) value_error
        ok (some (tp, lat))
    ]
  ]

  -- `total_tp` and `weighted_lat_sum`
  abbrev pub add_client : F × F → Option (F × F) → F × F
  add_client totals none = totals
  add_client totals (some (tp, lat)) = (plus totals.0 tp, plus totals.1 (times lat tp))

  unfoldable pub add_file : F × F → Text → Result (F × F)
  add_file totals content = do client ← parse_file content; ok (add_client totals client)

  -- The loop of `main` over the files, all of which are there
  unfoldable pub sum_all_clients : List Text → Result (F × F)
  sum_all_clients contents = for_each add_file (zero_float, zero_float) contents

  -- `timeout_values` and `additional_delay_values` of timeout_mean.py
  abbrev pub Values : Type 0
  Values = List F × List ℕ

  unfoldable pub note_values : Values → Text → Result Values
  note_values vs line = elim (find jacobson_re line) [
    | none ↦ ok vs
    | some m ↦ do
      timeout ← or_raise (float (group_of 1 m)) value_error
      ok (vs.0 ++ (times timeout thousand ∷ []), vs.1 ++ (int (group_of 2 m) ∷ []))
  ]

  -- The loop of `analyze_logs`, over the lines of each file in the folder
  unfoldable pub timeout_values : Values → List (List Text) → Result Values
  timeout_values vs files = for_each (λ us lines. for_each note_values us lines) vs files

  -- `election_timeouts[filename].append(...)`, for a line of the file
  unfoldable pub note_timeout : Text → Dict Text (List F) → Text → Result (Dict Text (List F))
  note_timeout filename timeouts line = elim (find raft_re line) [
    | none ↦ ok timeouts
    | some m ↦ do
      election_timeout_value ← or_raise (float (group_of 1 m)) value_error
      ok (update filename [] (λ vs. vs ++ (times election_timeout_value thousand ∷ [])) timeouts)
  ]

  unfoldable pub note_file : Dict Text (List F) → Text × List Text → Result (Dict Text (List F))
  note_file timeouts file = for_each (note_timeout file.0) timeouts file.1

  -- `parse_election_timeouts`, for the files of the folder with their lines
  unfoldable pub parse_election_timeouts : List (Text × List Text) → Result (Dict Text (List F))
  parse_election_timeouts files = for_each note_file [] files

  -- `all_timeouts`
  abbrev pub concat : List (List F) → List F
  concat [] = []
  concat (vs ∷ rest) = vs ++ concat rest

  -- The rows of the CSV file: the name of the file and a value
  abbrev pub rows_of : Text → List F → List (Text × F)
  rows_of filename [] = []
  rows_of filename (v ∷ vs) = (filename, v) ∷ rows_of filename vs

  abbrev pub csv_rows : Dict Text (List F) → List (Text × F)
  csv_rows [] = []
  csv_rows ((filename, vs) ∷ rest) = rows_of filename vs ++ csv_rows rest

  -- `process_election_timeouts`: the values of the statistics with the rows, or nothing where no
  -- line has a value
  unfoldable pub process_election_timeouts :
      List (Text × List Text) → Result (Option (List F × List (Text × F)))
  process_election_timeouts files = do
    timeouts ← parse_election_timeouts files
    ok (elim (concat (values timeouts)) [ [] ↦ none | v ∷ vs ↦ some (v ∷ vs, csv_rows timeouts) ])
