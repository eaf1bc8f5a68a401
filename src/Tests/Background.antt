-- ===== src/Tests/Background.antt =====
-- A run of the threads that start the background traffic, and the theorem there.
use frugal_leader_election.Base.{◌≡◌, refl, true, ◌||◌, none, some, [], ◌∷◌, ◌++◌, Text, codes}
use frugal_leader_election.Text.Decimal.{decimal}
use frugal_leader_election.Remote.{Action, World, run}
use frugal_leader_election.Remote.Threads.{Threads, Reach, start, later, set, call}
use frugal_leader_election.Remote.Threads.Ends.{calls_of, Run}
use frugal_leader_election.Background.Deploy.{target_script, auto_sim}
use frugal_leader_election.Background.Deploy.Nodes.{stop_and_start, auto_sim-node}
use frugal_leader_election.Tasks.{nth}
use frugal_leader_election.Base.{List}
use frugal_leader_election.Base.Result.{err, exit}
use frugal_leader_election.Background.Iperf as Iperf
use frugal_leader_election.Background.Sim
use frugal_leader_election.Background.Sim.{
  Socket, made, among, Place, Node, create, enter, move, unmade, close_all, creating, connecting,
  closing_all, main, node_ip_list,
}
use frugal_leader_election.Background.Sim.Kept.{held, closed-or-held}
use frugal_leader_election.Background.Sim.Distinct.{Distinct}
use frugal_leader_election.Background.Sim.Listed.{may_list, active-Distinct}

abbrev calm : World
calm = record { respond = λ h a. some []; glob = λ h pattern. [] }

abbrev second : Text
second = codes "amd141.utah.cloudlab.us"

abbrev kill : Action
kill = run second (codes "sudo killall python3")

abbrev simulate : Action
simulate =
    run second
      (codes "nohup python3 " ++ (target_script ++ (codes " " ++ (decimal 2 ++ codes " 7899 &"))))

-- The second thread makes its first call before any other starts.
abbrev halfway : Threads
halfway = record { history = (1, kill) ∷ []; left = set 1 (simulate ∷ []) auto_sim }

halfway-Reach : Reach calm auto_sim halfway
unfolding auto_sim
halfway-Reach = later {t = halfway} start (call 1 kill (simulate ∷ []) refl)

auto_sim-node_example :
    (calls_of 1 halfway.history ++ halfway.left 1 ≡ stop_and_start second 2)
    × ((u : Threads) × Run calm halfway u × (calls_of 1 u.history ≡ stop_and_start second 2))
    × ((ips : Text × List Text) × (main 2 ≡ some ips) × (nth 1 node_ip_list ≡ some ips.0))
auto_sim-node_example =
    auto_sim-node calm halfway 1 second halfway-Reach refl (λ h. refl, (λ h. refl, tt))

-- A thread connects, and then all connections are closed.
abbrev connected : Node
connected = enter 1 0 (create 1 Sim.start)

connected-Reach : Sim.Reach connected
connected-Reach = Sim.later (Sim.later Sim.here (creating 1 refl)) (connecting 1 0 refl refl)

active-Distinct_example :
    Distinct connected.active
    × ((s : Socket) → among s connected.active ≡ true → may_list connected s ≡ true)
active-Distinct_example = active-Distinct connected connected-Reach

closed-or-held_example :
    ((close_all connected).closed (made 1 0) || held (close_all connected) (made 1 0)) ≡ true
closed-or-held_example =
    closed-or-held (close_all connected) (made 1 0) (Sim.later connected-Reach closing_all) refl

-- A socket that cannot be made in the first round ends its thread.
unmade_test : (move 1 (unmade (Sim.start.current 1)) Sim.start).place 1 ≡ Place.ended
unmade_test = refl

main_test :
    (main 6 ≡ none)
    × (main 2
        ≡ some (
          codes "10.0.0.3",
          codes "10.0.0.2" ∷ codes "10.0.4.2" ∷ codes "10.0.1.2" ∷ codes "10.0.1.3" ∷ [],
        ))
unfolding main
main_test = (refl, refl)

iperf_test : (Iperf.main (some 6) (codes "server") calm []).0 ≡ err (exit "1")
unfolding Iperf.main
iperf_test = refl
