-- ===== src/Background/Iperf.antt =====
-- scripts/background_tcp_simulation/iperf_tcp_gen.py: the iperf3 servers and clients of a node.
pub mod Streams
use frugal_leader_election.Base.{
  ℕ, zero, suc, ◌+◌, Bool, true, false, Option, none, some, List, [], ◌∷◌, ◌++◌, Text, codes, ltb,
  leb, ◌==◌, ◌&&◌, map, if◌then◌else◌,
}
use frugal_leader_election.Base.Equality.{◌=?◌, list_eq, nat_eq}
use frugal_leader_election.Base.Result.{exit}
use frugal_leader_election.Text.{lower}
use frugal_leader_election.Text.Decimal.{decimal}
use frugal_leader_election.Remote.{Action, local, Prog, raise, script}

abbrev pub total_nodes : ℕ
total_nodes = 5

abbrev pub address : ℕ → Text
address node_num = codes "10.0." ++ (decimal node_num ++ codes ".2")

-- `range(i, i + n)`
abbrev pub range : (i n : ℕ) → List ℕ
range i zero = []
range i (suc n) = i ∷ range (suc i) n

abbrev pub server_words : (node_num port : ℕ) → List Text
server_words node_num port =
    codes "iperf3"
    ∷ codes "-s"
    ∷ codes "-p"
    ∷ decimal port
    ∷ codes "-B"
    ∷ address node_num
    ∷ codes "-D"
    ∷ []

abbrev pub client_words : (target_node port : ℕ) → List Text
client_words target_node port =
    codes "iperf3"
    ∷ codes "-c"
    ∷ address target_node
    ∷ codes "-p"
    ∷ decimal port
    ∷ codes "-t"
    ∷ codes "0"
    ∷ codes "-P"
    ∷ codes "1"
    ∷ codes "-b"
    ∷ codes "10K"
    ∷ codes "-l"
    ∷ codes "0.5K"
    ∷ []

abbrev pub server_call : (node_num k : ℕ) → Action
server_call node_num k = local (server_words node_num (5000 + k))

abbrev pub client_call : (node_num target_node : ℕ) → Action
client_call node_num target_node = local (client_words target_node (5000 + node_num))

-- `if target_node == node_num: continue`
abbrev pub but : ℕ → List ℕ → List ℕ
but node_num [] = []
but node_num (k ∷ ks) = let rest = but node_num ks in if k == node_num then rest else k ∷ rest

unfoldable pub server_calls : ℕ → List Action
server_calls node_num = map (server_call node_num) (range 1 total_nodes)

unfoldable pub client_calls : ℕ → List Action
client_calls node_num = map (client_call node_num) (but node_num (range 1 total_nodes))

unfoldable pub start_iperf3_servers : ℕ → Prog (Unit {0})
start_iperf3_servers node_num = script (server_calls node_num)

unfoldable pub start_iperf3_clients : ℕ → Prog (Unit {0})
start_iperf3_clients node_num = script (client_calls node_num)

abbrev pub in_mode : Text → ℕ → Prog (Unit {0})
in_mode mode node_num =
    if mode =? codes "server"
    then start_iperf3_servers node_num
    else if mode =? codes "client"
    then start_iperf3_clients node_num
    else raise (exit "1")

-- `main` for its two arguments, the first of which is none where it is not a number from 0 on
unfoldable pub main : Option ℕ → Text → Prog (Unit {0})
main none mode = raise (exit "1")
main (some node_num) mode =
    if ltb node_num 1
    then raise (exit "1")
    else if ltb total_nodes node_num
    then raise (exit "1")
    else in_mode (map lower mode) node_num
