-- ===== src/Tests/Views.antt =====
-- Runs of the parsers of views on a small log, and their theorems there.
use frugal_leader_election.Base.{◌+◌, ◌≡◌, refl, false, none, List, [], ◌∷◌, Text, codes, count}
use frugal_leader_election.Base.Int.{pos, ◌+ℤ◌, ◌*ℤ◌}
use frugal_leader_election.Base.Result.{ok, for_each}
use frugal_leader_election.Regex.{find, search_from, match_start, run, greedy, eat, eat_one}
use frugal_leader_election.Time.{Datetime, strptime, plus}
use frugal_leader_election.Views.{
  View, leader, follower, timestamp_of, leader_match, follower_match, enter, set_count, on_leader,
  on_follower, step, finish, parse_log_file,
}
use frugal_leader_election.Views.Shape.{NumberedFrom, Changing, parse_log_file-shape}
use frugal_leader_election.Views.Heartbeats.{
  follower_heartbeats, is_received, parse_log_file-follower_heartbeats,
}
use frugal_leader_election.Durations.{
  Span, change_to, role_shown, count_heartbeat, body, at_time, stamp_at_start, view_step,
  view_durations, plot_step, parse_plot_log,
}
use frugal_leader_election.Durations.{finish as end_of_log}
use frugal_leader_election.Durations.Spans.{Chain, view_durations-Chain}
use frugal_leader_election.Durations.Counts.{heartbeats, reported, view_durations-heartbeats}

abbrev node_log : List Text
node_log =
    codes "I20241027 19:09:25.000000 Received heartbeat (AppendEntries) from leader 1 for term 1"
    ∷ codes "no time stamp"
    ∷ codes "I20241027 19:09:26.000000 [LEADER] Sent heartbeat 4 for term 2"
    ∷ []

parse_log_file_test :
    parse_log_file node_log
    ≡ ok (
        record { view_number = 1; role = follower; term = 1; heartbeat_count = 1 }
        ∷ record { view_number = 2; role = leader; term = 2; heartbeat_count = 4 }
        ∷ [])
unfolding parse_log_file for_each step on_leader on_follower enter set_count timestamp_of
    leader_match follower_match finish find search_from run greedy eat eat_one strptime
parse_log_file_test = refl

parse_log_file-shape_example :
    (vs : List View) × (parse_log_file node_log ≡ ok vs) × NumberedFrom 1 vs × Changing none vs
parse_log_file-shape_example = parse_log_file-shape node_log

parse_log_file-follower_heartbeats_example :
    (vs : List View) × (parse_log_file node_log ≡ ok vs)
    × (follower_heartbeats vs ≡ count is_received node_log)
parse_log_file-follower_heartbeats_example = parse_log_file-follower_heartbeats node_log

abbrev role_log : List Text
role_log =
    codes "I20241027 19:09:25.000000 Start"
    ∷ codes "I20241027 19:10:00.000000 Received append entries message."
    ∷ codes "I20241027 19:10:01.500000 Received heartbeat"
    ∷ codes "I20241027 19:10:02.000000 [LEADER] Sent heartbeat"
    ∷ []

-- 19:10:00 on that day. One microsecond is 1.
abbrev ten_past : Datetime
ten_past = 63865653000000000

abbrev follower_span : Span
follower_span = record {
  role = follower;
  start_time = ten_past;
  end_time = ten_past + 2000000;
  duration = pos 2000000;
  heartbeat_count = 1;
}

abbrev leader_span : Span
leader_span = record {
  role = leader;
  start_time = ten_past + 2000000;
  end_time = ten_past + 2000000;
  duration = pos 0;
  heartbeat_count = 1;
}

parse_plot_log_test : parse_plot_log role_log ≡ ok (follower_span ∷ leader_span ∷ [])
unfolding parse_plot_log for_each plot_step at_time body change_to role_shown count_heartbeat
    end_of_log timestamp_of find search_from run greedy eat eat_one strptime plus ◌+ℤ◌ ◌*ℤ◌
parse_plot_log_test = refl

view_durations_test : view_durations ten_past role_log ≡ ok (follower_span ∷ leader_span ∷ [])
unfolding view_durations for_each view_step at_time body change_to role_shown count_heartbeat
    end_of_log stamp_at_start match_start find search_from run greedy eat eat_one strptime
view_durations_test = refl

view_durations-Chain_example :
    (vs : List Span) × (view_durations ten_past role_log ≡ ok vs) × Chain none vs
view_durations-Chain_example = view_durations-Chain ten_past role_log

view_durations-heartbeats_example :
    heartbeats (follower_span ∷ leader_span ∷ []) ≡ reported ten_past role_log false
view_durations-heartbeats_example = view_durations-heartbeats ten_past role_log view_durations_test
