-- ===== src/Tests/Ycsb.antt =====
-- Runs of the readers of YCSB results on small files, and their theorems there.
use frugal_leader_election.Base.{ℕ, ◌≡◌, refl, Option, some, List, [], ◌∷◌, Text, codes}
use mathlib.Core.Option as Option
use frugal_leader_election.Base.Equality.{nat_eq, list_eq, pair_eq}
use frugal_leader_election.Text.{int}
use frugal_leader_election.Text.Decimal.{decimal}
use frugal_leader_election.Ycsb.Groups.{classify_run}
use frugal_leader_election.Ycsb.Groups.Names.{classify_run-result_file}
use frugal_leader_election.Ycsb.Profile.{combined_profile, ycsb_profile}
use frugal_leader_election.Ycsb.Profile.Agreement.{Agree, combined_profile-ycsb_profile}
use frugal_leader_election.Ycsb.Results.{parse_ycsb_file, note_result, both_of}

-- Floats without a fraction
abbrev float : Text → Option ℕ
float s = some (int s)

abbrev run_lines : List Text
run_lines =
    codes "[OVERALL], Throughput(ops/sec), 120"
    ∷ codes "[UPDATE], AverageLatency(us), 35"
    ∷ codes "[UPDATE], MaxLatency(us), 99"
    ∷ []

parse_ycsb_file_test : parse_ycsb_file float run_lines ≡ (some 120, some 35)
unfolding parse_ycsb_file note_result
parse_ycsb_file_test = refl

classify_run-result_file_example :
    classify_run float int
      (codes "zk_leader_node1_0.5ms_20threads_base_delay_0_ms_run2.txt", run_lines)
    ≡ Option.map
        (λ both. ((1, (int (codes "0.5"), 20)), both))
        (both_of float (parse_ycsb_file float run_lines))
unfolding decimal
classify_run-result_file_example =
    classify_run-result_file float int 1 (codes "0") (codes "5") 20 0 2 run_lines (λ e. cc)
      (refl, tt) (λ e. cc) (refl, tt)

combined_profile-ycsb_profile_example :
    Agree float
      (codes "99thPercentileLatency(us)")
      (combined_profile float run_lines)
      (ycsb_profile float run_lines)
combined_profile-ycsb_profile_example =
    combined_profile-ycsb_profile float (codes "99thPercentileLatency(us)") run_lines
      (refl, refl, refl)
