-- ===== src/Tests/Windows.antt =====
-- Runs of the scripts that read times, and their theorems there.
use frugal_leader_election.Base.{
  ℕ, ◌≡◌, ◌≤◌, refl, Option, none, some, List, [], ◌∷◌, Text, codes, count, length, ◌+◌, sum,
}
use mathlib.Core.Option.{or_else}
use frugal_leader_election.Base.Int.{pos, ◌+ℤ◌, ◌-ℤ◌, ◌*ℤ◌}
use frugal_leader_election.Base.Result.{ok, err, exit, for_each}
use frugal_leader_election.Text.{int}
use frugal_leader_election.Regex.{find, search_from, match_start, run, greedy, eat, eat_one}
use frugal_leader_election.Time.{Datetime, strptime, plus, less, seconds}
use frugal_leader_election.Window.Stamps.{parse_ts, find_ends, Readable, first_stamp, last_stamp}
use frugal_leader_election.Window.Count.{
  counts_at, count_line, second_pass, count_timeouts, is_counted, count_timeouts_lem,
  count_timeouts_exits,
}
use frugal_leader_election.Window.Detect.{detect_stats}
use frugal_leader_election.Window.Detect.Samples.{numbers, floats, reported, detect_stats_lem}
use frugal_leader_election.Safety.{process_log_file}
use frugal_leader_election.Safety.Pairs.{timeout, stale, events, gaps, process_log_file-gaps}
use frugal_leader_election.RespTime.{
  parse_timestamp, Report, close_section, note_time, begin_section, end_section, commit,
  on_response, on_end, on_line, close_last, report, analyze,
}
use frugal_leader_election.RespTime.{step as response_step}
use frugal_leader_election.RespTime.Totals.{samples, section_total, analyze-totals}

-- 19:10:00 on 27 October 2024, in microseconds
abbrev ten_past : Datetime
ten_past = 63865653000000000

abbrev window_log : List Text
window_log =
    codes "I20241027 19:10:00.000000 Start"
    ∷ codes "no time stamp"
    ∷ codes "I20241027 19:10:02.000000 Election timeout occurred. Starting leader election"
    ∷ codes
        "I20241027 19:10:03.000000 Using Raft estimation for election timeout: 267.5 Milliseconds"
    ∷ []

window_log-Readable : Readable window_log
unfolding parse_ts match_start run greedy eat eat_one strptime
window_log-Readable = (
  (some ten_past, refl),
  ((none, refl), ((some (ten_past + 2000000), refl), ((some (ten_past + 3000000), refl), tt))),
)

first_stamp_test : first_stamp window_log ≡ some ten_past
unfolding parse_ts match_start run greedy eat eat_one strptime or_else
first_stamp_test = refl

last_stamp_test : last_stamp window_log ≡ some (ten_past + 3000000)
unfolding parse_ts match_start run greedy eat eat_one strptime or_else
last_stamp_test = refl

count_timeouts_test : count_timeouts (pos 1) (pos 0) window_log ≡ ok 1
unfolding count_timeouts second_pass count_line counts_at find_ends for_each parse_ts match_start
    find search_from run greedy eat eat_one strptime ◌*ℤ◌
count_timeouts_test = refl

count_timeouts_lem_example :
    count_timeouts (pos 1) (pos 0) window_log
    ≡ ok (count (is_counted (pos 1) (pos 0) ten_past (ten_past + 3000000)) window_log)
count_timeouts_lem_example =
    count_timeouts_lem (pos 1) (pos 0) window_log window_log-Readable first_stamp_test
      last_stamp_test

noise-Readable : Readable (codes "noise" ∷ [])
unfolding parse_ts match_start run greedy eat eat_one strptime
noise-Readable = ((none, refl), tt)

noise-first_stamp : first_stamp (codes "noise" ∷ []) ≡ none
unfolding parse_ts match_start run greedy eat eat_one strptime or_else
noise-first_stamp = refl

count_timeouts_exits_example :
    (count_timeouts (pos 30) (pos 0) [] ≡ err (exit "Empty log."))
    × (count_timeouts (pos 30) (pos 0) (codes "noise" ∷ [])
        ≡ err (exit "No valid timestamps found."))
count_timeouts_exits_example =
    count_timeouts_exits (pos 30) (pos 0) (codes "noise") [] noise-Readable noise-first_stamp

low_cut : plus ten_past (seconds (pos 1)) ≡ ok (ten_past + 1000000)
unfolding plus ◌*ℤ◌ ◌+ℤ◌
low_cut = refl

high_cut : less (ten_past + 3000000) (seconds (pos 0)) ≡ ok (ten_past + 3000000)
unfolding less ◌*ℤ◌ ◌-ℤ◌
high_cut = refl

-- Tenths in place of floats, for the run of the model
abbrev tenths : Text → Option ℕ
tenths w = some (int w)

abbrev no_mean : List ℕ → ℕ
no_mean xs = sum xs

detect_stats_lem_example :
    detect_stats tenths 0 no_mean no_mean (pos 1) (pos 0) window_log
    ≡ reported tenths 0 no_mean no_mean (
        floats tenths 0 no_mean no_mean
          (numbers (ten_past + 1000000) (ten_past + 3000000) window_log))
detect_stats_lem_example =
    detect_stats_lem tenths 0 no_mean no_mean (pos 1) (pos 0) window_log window_log-Readable
      first_stamp_test last_stamp_test low_cut high_cut

abbrev failure_log : List Text
failure_log =
    codes "I20241027 19:10:00.000000 Election timeout occurred. Suspected leader failure count: 1"
    ∷ codes "I20241027 19:10:02.000000 Received Stale AppendEntries from 1"
    ∷ codes "I20241027 19:10:03.000000 Received Stale AppendEntries from 2"
    ∷ []

failure_log-events :
    events failure_log
    ≡ some (timeout ten_past ∷ stale (ten_past + 2000000) ∷ stale (ten_past + 3000000) ∷ [])
unfolding find search_from run greedy eat eat_one strptime
failure_log-events = refl

process_log_file-gaps_example :
    process_log_file failure_log
    ≡ ok (gaps (timeout ten_past ∷ stale (ten_past + 2000000) ∷ stale (ten_past + 3000000) ∷ []))
process_log_file-gaps_example = process_log_file-gaps failure_log failure_log-events

abbrev client_log : List Text
client_log =
    codes "I20241027 19:10:00.000000 Begin of Leadership under: 127.0.0.4"
    ∷ codes
        "I20241027 19:10:02.000000 Received ClientResponse: latency= 6, success=1, from=127.0.0.4, request_id=13"
    ∷ codes "I20241027 19:10:03.000000 End of Leadership under: 127.0.0.4"
    ∷ []

abbrev client_report : Report ℕ
client_report = record {
  latencies = 6 ∷ [];
  by_leader = (codes "127.0.0.4", 6 ∷ []) ∷ [];
  committed = 1;
  sections = (codes "127.0.0.4", record { commits = 1; duration = pos 3000000 }) ∷ [];
}

analyze_test : analyze tenths client_log ≡ ok client_report
unfolding analyze for_each response_step parse_timestamp on_line on_end on_response note_time
    begin_section end_section commit close_section close_last report match_start find search_from
    run greedy eat eat_one strptime ◌+ℤ◌
analyze_test = refl

analyze-totals_example :
    (length client_report.latencies ≡ client_report.committed)
    × (samples client_report.by_leader ≡ client_report.committed)
    × (section_total client_report.sections ≤ client_report.committed)
analyze-totals_example = analyze-totals tenths client_log analyze_test
