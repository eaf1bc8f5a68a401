-- ===== src/Zookeeper/Workload/Client.antt =====
-- The workload from a client on another node.
use frugal_leader_election.Base.{ℕ, Bool, ◌&&◌, is_some, if◌then◌else◌, Text}
use frugal_leader_election.Base.Result.{Result, ok, err, unbound_local}
use frugal_leader_election.Base.Dict.{Dict, get}
use frugal_leader_election.Base.Equality.{nat_eq}

module _ (connections zk_ip_addr : Dict ℕ Text) where
  -- The client and the server are both connected.
  abbrev pub both_known : (client server : ℕ) → Bool
  both_known client server = is_some (get client connections) && is_some (get server connections)

  abbrev pub unbound_if : Bool → Result (Unit {0})
  unbound_if known = if known then err unbound_local else ok tt
