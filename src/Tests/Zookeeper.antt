-- ===== src/Tests/Zookeeper.antt =====
-- Runs of the functions on the ZooKeeper ensemble in small worlds, and their theorems there.
use frugal_leader_election.Base.{
  ℕ, ◌+◌, ◌≤◌, arith, ◌≡◌, refl, ◌↔◌, true, false, Option, none, some, [], ◌∷◌, ◌++◌, Text, codes,
  keep, map, if◌then◌else◌,
}
use frugal_leader_election.Base.Dict.{Dict}
use frugal_leader_election.Base.Equality.{◌=?◌, nat_eq, list_eq}
use frugal_leader_election.Base.Result.{ok}
use frugal_leader_election.Remote.{Action, World, run}
use frugal_leader_election.Zookeeper.{get_leader, designate_leader, is_leader}
use frugal_leader_election.Zookeeper.Leader.{
  status_of, leads, last_of, leader_after, get_leader-last, designate_leader-ends,
}
use frugal_leader_election.Zookeeper.Workload.{Settings}
use frugal_leader_election.Base.{List}
use frugal_leader_election.Base.Dict.{keys, get_or}
use frugal_leader_election.Regex.{
  find, search_from, match_start, run as run_regex, greedy, eat, eat_one,
}
use frugal_leader_election.Time.{Datetime, strptime}
use frugal_leader_election.Text.{natural}
use frugal_leader_election.Zookeeper.Quorums.{
  parse_zookeeper_log, members_of, quorum_list, line_time,
}
use frugal_leader_election.Zookeeper.Quorums.Members.{named, parse_zookeeper_log-counts}
use frugal_leader_election.Base.{sum}

abbrev servers : Dict ℕ Text
servers = (0, codes "a") ∷ (1, codes "b") ∷ (2, codes "c") ∷ []

-- The server `b` says that it leads, and `c` does not answer.
abbrev answer : Text → Option Text
answer host =
    if host =? codes "b"
    then some (codes "Mode: leader")
    else if host =? codes "c"
    then none
    else some (codes "Mode: follower")

abbrev respond_led : Action → Option Text
respond_led (run host cmd) = answer host
respond_led _ = some []

abbrev led : World
led = record { respond = λ h a. respond_led a; glob = λ h pattern. [] }

get_leader-last_example :
    get_leader servers led []
    ≡ (last_of none (keep (leads answer) servers), [] ++ map status_of servers)
get_leader-last_example = get_leader-last servers answer led [] (λ host t. refl)

get_leader_test : last_of none (keep (leads answer) servers) ≡ some (1, codes "b")
get_leader_test = refl

designate_leader-ends_example :
    ((designate_leader servers 4 1 (0 ∷ 1 ∷ 2 ∷ []) led []).0 ≡ ok true) ↔ (
      (k : ℕ) × (k ≤ 4)
      × (is_leader servers 1 (
            leader_after servers k
              (0 ∷ 2 ∷ [])
              led
              (get_leader servers led []).0
              (get_leader servers led []).1)
          ≡ true))
designate_leader-ends_example =
    designate_leader-ends servers 4 1 (0 ∷ 1 ∷ 2 ∷ []) (0 ∷ 2 ∷ []) led [] (λ h. refl) refl

abbrev from_client : Settings
from_client = record {
  output_file_name = codes "zkProfile.txt";
  contact_leader = false;
  threads_count = 3;
  num_operations = 5000;
  read_ratio = codes "0.1";
  write_ratio = codes "0.9";
}

abbrev quorum_log : List Text
quorum_log =
    codes "2025-03-02 10:00:01,5 - All quorums present in synced leader tracker: [1, 3, 7]"
    ∷ codes "2025-03-02 10:00:02,5 - All quorums present in synced leader tracker: [2,3]"
    ∷ codes "2025-03-02 11:00:00,0 - All quorums present in synced leader tracker: [3]"
    ∷ codes "All quorums present in synced leader tracker: [4]"
    ∷ []

-- From 10:00:00 to 10:30:00 of that day, node 3 is there twice and node 4 is not.
abbrev ten : Datetime
ten = 63876506400000000

quorum_log_test :
    parse_zookeeper_log quorum_log ten (ten + 1800000000)
    ≡ (1, 1) ∷ (2, 1) ∷ (3, 2) ∷ (4, 0) ∷ (5, 0) ∷ []
unfolding parse_zookeeper_log members_of quorum_list line_time natural find search_from run_regex
    greedy eat eat_one strptime match_start
quorum_log_test = refl

parse_zookeeper_log-counts_example :
    (keys (parse_zookeeper_log quorum_log ten (ten + 1800000000)) ≡ 1 ∷ 2 ∷ 3 ∷ 4 ∷ 5 ∷ [])
    × (get_or 3 0 (parse_zookeeper_log quorum_log ten (ten + 1800000000))
        ≡ sum (map (named ten (ten + 1800000000) 3) quorum_log))
parse_zookeeper_log-counts_example =
    parse_zookeeper_log-counts quorum_log ten (ten + 1800000000) 3 (omega arith) (omega arith)
