-- ===== src/Background/Sim.antt =====
-- scripts/background_tcp_simulation/tcp_sim.py: the threads of a node, which share the list of the
-- sockets that are connected. Each takes the lock for one access to the list, and which thread comes
-- next is not determined.
pub mod Kept
pub mod Distinct
pub mod Listed
use frugal_leader_election.Base.{
  ℕ, zero, suc, ◌+◌, ◌≡◌, refl, ap, arith, ◌↔◌, Bool, true, false, Option, none, some, List, [],
  ◌∷◌, ◌++◌, Text, codes, ◌==◌, ==_iff, ◌&&◌, ◌||◌, leb, if◌then◌else◌,
}
use frugal_leader_election.Base.Equality.{Eq}
use frugal_leader_election.Tasks.{nth}

-- A socket by the thread that makes it: the number `k` of the thread that connects to the target
-- `i`, or the number `k` that the listener accepts.
pub data Socket : Type 0 where
  made : (i k : ℕ) → Socket
  accepted : (k : ℕ) → Socket

abbrev pub same : Socket → Socket → Bool
same (made i k) (made j l) = i == j && k == l
same (made i k) (accepted l) = false
same (accepted k) (made j l) = false
same (accepted k) (accepted l) = k == l

made-injective : {i j k l : ℕ} → made i k ≡ made j l → (i ≡ j) × (k ≡ l)
made-injective e = (cc, cc)

accepted-injective : {k l : ℕ} → accepted k ≡ accepted l → k ≡ l
accepted-injective e = cc

pub same_iff : (a b : Socket) → (same a b ≡ true) ↔ (a ≡ b)
same_iff (made i k) (made j l) = (
  λ h. let p : i ≡ j = ground arith in let q : k ≡ l = ground arith in cc,
  λ e. let (p, q) = made-injective e in ground arith,
)
same_iff (made i k) (accepted l) = (λ h. cc, λ h. cc)
same_iff (accepted k) (made j l) = (λ h. cc, λ h. cc)
same_iff (accepted k) (accepted l) =
    (λ h. ap accepted ((==_iff k l).0 h), λ e. (==_iff k l).1 (accepted-injective e))

instance abbrev pub socket_eq : Eq Socket
socket_eq = record { beq = same; beq_iff = same_iff }

-- `s in sockets`
abbrev pub among : Socket → List Socket → Bool
among s [] = false
among s (x ∷ xs) = same s x || among s xs

-- `if s in sockets: sockets.remove(s)`
abbrev pub without : Socket → List Socket → List Socket
without s [] = []
without s (x ∷ xs) = let rest = without s xs in if same s x then xs else x ∷ rest

-- Where a thread that connects stands: at the head of its loop, behind `socket`, behind `append`,
-- in its `finally` before and behind the access to the list, or at its end.
pub data Place : Type 0 where
  head created entered leaving removed ended : Place

-- The listener: before `accept`, behind it, behind `append`, at its end, or at its end with a
-- connection for which no thread could be started.
pub data Listener : Type 0 where
  waiting taken listed stopped abandoned : Listener

-- The thread of an accepted connection: not started, in its loop, behind `close`, or at its end.
pub data Handler : Type 0 where
  idle receiving hung_up done : Handler

-- `rounds` counts the sockets that a thread has made, and `current` is its variable `s`. `handed`
-- counts the connections that the listener has handed to threads of their own.
pub record Node : Type 0 where
  pub active : List Socket
  pub closed : Socket → Bool
  pub place : ℕ → Place
  pub rounds : ℕ → ℕ
  pub current : ℕ → Option ℕ
  pub listener : Listener
  pub handed : ℕ
  pub handler : ℕ → Handler

abbrev pub start : Node
start = record {
  active = [];
  closed = λ s. false;
  place = λ i. head;
  rounds = λ i. 0;
  current = λ i. none;
  listener = waiting;
  handed = 0;
  handler = λ k. idle;
}

abbrev pub set : {V : Type 0} → ℕ → V → (ℕ → V) → ℕ → V
set i v f j = if j == i then v else f j

abbrev pub close : Socket → (Socket → Bool) → Socket → Bool
close s closed x = same x s || closed x

abbrev pub move : ℕ → Place → Node → Node
move i p t = record t { place = set i p t.place }

-- `s = socket.socket(...)`
abbrev pub create : ℕ → Node → Node
create i t = record t {
  place = set i created t.place;
  rounds = set i (suc (t.rounds i)) t.rounds;
  current = set i (some (t.rounds i)) t.current;
}

-- Where `socket` raises: `finally` meets the socket of the round before, or in the first round no
-- `s` at all, which ends the thread.
abbrev pub unmade : Option ℕ → Place
unmade none = ended
unmade (some k) = leaving

-- `active_sockets.append(s)`
abbrev pub enter : ℕ → ℕ → Node → Node
enter i k t = record t { place = set i entered t.place; active = t.active ++ (made i k ∷ []) }

-- The two parts of `finally`
abbrev pub take_out : ℕ → ℕ → Node → Node
take_out i k t = record t { place = set i removed t.place; active = without (made i k) t.active }

abbrev pub close_own : ℕ → ℕ → Node → Node
close_own i k t = record t { place = set i head t.place; closed = close (made i k) t.closed }

abbrev pub listen : Listener → Node → Node
listen p t = record t { listener = p }

-- `active_sockets.append(conn)`, and the start of its thread
abbrev pub list_accepted : Node → Node
list_accepted t = record t { listener = listed; active = t.active ++ (accepted t.handed ∷ []) }

abbrev pub hand_on : Node → Node
hand_on t = record t {
  listener = waiting;
  handed = suc t.handed;
  handler = set t.handed receiving t.handler;
}

-- The two parts of `finally` in `handle_client_connection`
abbrev pub hang_up : ℕ → Node → Node
hang_up k t = record t { handler = set k hung_up t.handler; closed = close (accepted k) t.closed }

abbrev pub forget : ℕ → Node → Node
forget k t = record t { handler = set k done t.handler; active = without (accepted k) t.active }

-- `close_all_connections`, which keeps the lock
abbrev pub close_all : Node → Node
close_all t = record t { closed = λ s. among s t.active || t.closed s; active = [] }

-- A connection, an acceptance and a transfer may fail at any time, and the time may be over.
pub data Step (t : Node) : Node → Type 0 where
  creating : (i : ℕ) → t.place i ≡ head → Step t (create i t)
  not_creating : (i : ℕ) → t.place i ≡ head → Step t (move i (unmade (t.current i)) t)
  ending : (i : ℕ) → t.place i ≡ head → Step t (move i ended t)
  connecting : (i k : ℕ) → t.place i ≡ created → t.current i ≡ some k → Step t (enter i k t)
  refused : (i : ℕ) → t.place i ≡ created → Step t (move i leaving t)
  sent : (i : ℕ) → t.place i ≡ entered → Step t (move i leaving t)
  removing : (i k : ℕ) → t.place i ≡ leaving → t.current i ≡ some k → Step t (take_out i k t)
  closing : (i k : ℕ) → t.place i ≡ removed → t.current i ≡ some k → Step t (close_own i k t)
  accepting : t.listener ≡ waiting → Step t (listen taken t)
  not_accepting : t.listener ≡ waiting → Step t (listen stopped t)
  listing : t.listener ≡ taken → Step t (list_accepted t)
  handing : t.listener ≡ listed → Step t (hand_on t)
  not_handing : t.listener ≡ listed → Step t (listen abandoned t)
  hanging_up : (k : ℕ) → t.handler k ≡ receiving → Step t (hang_up k t)
  forgetting : (k : ℕ) → t.handler k ≡ hung_up → Step t (forget k t)
  closing_all : Step t (close_all t)

pub data Reach : Node → Type 0 where
  here : Reach start
  later : {t u : Node} → Reach t → Step t u → Reach u

-- `node_ip_list`
abbrev pub node_ip_list : List Text
node_ip_list =
    codes "10.0.0.2"
    ∷ codes "10.0.0.3"
    ∷ codes "10.0.4.2"
    ∷ codes "10.0.1.2"
    ∷ codes "10.0.1.3"
    ∷ []

-- The addresses of all targets but the node itself, from the number `i` on
abbrev pub targets_from : (node_id i : ℕ) → List Text → List Text
targets_from node_id i [] = []
targets_from node_id i (ip ∷ ips) =
    let rest = targets_from node_id (suc i) ips in if i == node_id then rest else ip ∷ rest

-- `main`: the address that the node listens on, and those that its threads connect to. A number that
-- is not one of a node exits.
unfoldable pub main : ℕ → Option (Text × List Text)
main zero = none
main (suc i) = elim (nth i node_ip_list) [
  | none ↦ none
  | some listen_ip ↦ some (listen_ip, targets_from (suc i) 1 node_ip_list)
]
