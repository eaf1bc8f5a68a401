-- ===== src/Tests/Terms.antt =====
-- A run of the lengths of terms on three lines, and their theorem there.
use frugal_leader_election.Base.{◌≡◌, refl, some, List, [], ◌∷◌, Text, codes, count}
use frugal_leader_election.Base.Counter.{most_common, best}
use frugal_leader_election.Regex.{find, search_from, run, greedy, eat, eat_one}
use frugal_leader_election.Terms.{
  follower_match, leader_match, heartbeat_counts, term_lengths, beats, received,
  heartbeat_counts-received,
}

abbrev beat_lines : List Text
beat_lines =
    codes "Received AppendEntries from 10.0.0.2:80 for term 4 with id 1"
    ∷ codes "[LEADER] Sent heartbeat 7 for term 4"
    ∷ codes "Received AppendEntries from 10.0.0.2:80 for term 4 with id 2"
    ∷ []

term_lengths_test : term_lengths beat_lines ≡ (4, some (codes "self", 7)) ∷ []
unfolding term_lengths heartbeat_counts follower_match leader_match most_common best find
    search_from run greedy eat eat_one
term_lengths_test = refl

heartbeat_counts-received_example :
    beats 4 (codes "10.0.0.2") (heartbeat_counts beat_lines)
    ≡ count (λ line. received 4 (codes "10.0.0.2") (follower_match line)) beat_lines
heartbeat_counts-received_example = heartbeat_counts-received 4 (codes "10.0.0.2") beat_lines refl
