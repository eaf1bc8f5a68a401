-- ===== src/Background/Deploy/Nodes.antt =====
-- What the threads do on each node.
use frugal_leader_election.Base.{refl, codes, none, length, inl, inr, Option-cases}
use frugal_leader_election.Base.{
  ℕ, zero, suc, ◌+◌, ◌≡◌, ap, sym, ◌∙◌, arith, some, List, [], ◌∷◌, ◌++◌, All, ◌==◌, Text, true,
  false,
}
use frugal_leader_election.Text.Decimal.{decimal}
use frugal_leader_election.Remote.{Action, World, run}
use frugal_leader_election.Background.Sim.{main, node_ip_list, targets_from}
use frugal_leader_election.Remote.Quiet.{Safe}
use frugal_leader_election.Remote.Threads.{Threads, Reach, thread_of}
use frugal_leader_election.Remote.Threads.Ends.{calls_of, made-left, Run, Reach-Run, run_out}
use mathlib.Core.List.{append-nil}
use frugal_leader_election.Tasks.{nth}
use frugal_leader_election.Background.Deploy.{nodes, simulation_calls, auto_sim}

-- What a node is to do: stop Python, and start the simulation in the background.
abbrev pub stop_and_start : Text → ℕ → List Action
stop_and_start host number =
    run host (codes "sudo killall python3")
    ∷ run host (
        codes "nohup python3 ~/frugal-leader-election/scripts/background_tcp_simulation/tcp_sim.py "
        ++ (decimal number ++ codes " 7899 &"))
    ∷ []

-- Lists of the same length have the same places.
none-beyond :
    {A B : Type 0} (j : ℕ) (xs : List A) (ys : List B) {x : A}
    → length xs ≡ length ys
    → nth j xs ≡ some x
    → ¬ (nth j ys ≡ none)
none-beyond j [] ys e n m = cc
none-beyond j (x ∷ xs) [] e n m = omega (arith, e)
none-beyond zero (x ∷ xs) (y ∷ ys) e n m = cc
none-beyond (suc j) (x ∷ xs) (y ∷ ys) e n m = none-beyond j xs ys (omega (arith, e)) n m

thread_of-nth :
    {A : Type 0} (f : ℕ → A → List Action) (xs : List A) (i j k : ℕ) (x : A)
    → k ≡ i + j
    → nth j xs ≡ some x
    → thread_of f xs i k ≡ f k x
thread_of-nth f [] i j k x p h = cc
thread_of-nth f (y ∷ xs) i zero k x p h =
    let here : (k == i) ≡ true = ground arith in
    let same : y ≡ x = cc in
    let number : i ≡ k = omega arith in rw here (ap (λ z. f i z) same ∙ ap (λ m. f m x) number)
thread_of-nth f (y ∷ xs) i (suc j) k x p h =
    let later : (k == i) ≡ false = ground arith in
    rw later (thread_of-nth f xs (suc i) j k x (omega arith) h)

-- Each of the nodes has an address of its own in the simulation.
plan-of :
    (j : ℕ) (host : Text)
    → nth j nodes ≡ some host
    → (ips : Text × List Text) × (main (suc j) ≡ some ips) × (nth j node_ip_list ≡ some ips.0)
unfolding main
plan-of j host n = elim (Option-cases (nth j node_ip_list)) [
  | inl e ↦ absurd (none-beyond j nodes node_ip_list refl n e)
  | inr (ip, e) ↦ ((ip, targets_from (suc j) 1 node_ip_list), rw (e, main) refl, e)
]

-- In whichever order the threads of auto_sim.py run, and whatever happens on the other nodes: where
-- no call on a node raises, what its thread has called and has yet to call is first to stop Python
-- there, and then to start tcp_sim.py with the number of the node from 1 on and the port 7899, and
-- the run can go on to a state where it has called both. tcp_sim.py accepts that number, and listens
-- on the address that stands in its list where the node stands in the list of auto_sim.py.
pub auto_sim-node :
    (w : World) (s : Threads) (j : ℕ) (host : Text)
    → Reach w auto_sim s
    → nth j nodes ≡ some host
    → All (Safe w) (simulation_calls j host)
    → (calls_of j s.history ++ s.left j ≡ stop_and_start host (j + 1))
      × ((u : Threads) × Run w s u × (calls_of j u.history ≡ stop_and_start host (j + 1)))
      × ((ips : Text × List Text) × (main (j + 1) ≡ some ips) × (nth j node_ip_list ≡ some ips.0))
unfolding auto_sim
auto_sim-node w s j host r n safe =
    let number : suc j ≡ j + 1 = omega arith in
    let script : auto_sim j ≡ stop_and_start host (suc j) =
      thread_of-nth simulation_calls nodes 0 j j host (omega arith) n in
    let all_safe : All (Safe w) (auto_sim j) = rw script safe in
    let (u, run_on, empty) = run_out w j s in
    let kept : calls_of j u.history ++ u.left j ≡ auto_sim j =
      made-left w auto_sim u j (Reach-Run r run_on) all_safe in
    let ended : calls_of j u.history ≡ stop_and_start host (suc j) =
      sym (append-nil (calls_of j u.history))
      ∙ ap (λ l. calls_of j u.history ++ l) (sym empty)
      ∙ kept
      ∙ script in
    rw⁻¹ number (made-left w auto_sim s j r all_safe ∙ script, (u, run_on, ended), plan-of j host n)
