-- ===== src/Echo/Multi.antt =====
-- test/star_topology_load_test/echo_sender_multi.py: a sender for each server, one receiver, and
-- tables by server that all of them share.
pub mod Sessions
use frugal_leader_election.Base.{
  ℕ, zero, suc, ◌<◌, ◌^◌, ◌≡◌, Bool, true, false, Option, none, some, List, [], ◌∷◌, ◌++◌, Text,
  codes, map, if◌then◌else◌,
}
use frugal_leader_election.Base.Dict.{Dict, get, get_or, insert, erase, update, contains}
use frugal_leader_election.Base.Equality.{◌=?◌, nat_eq, list_eq}
use frugal_leader_election.Echo.Packet.{Bytes, read_id}
use frugal_leader_election.Echo.Session.{Place, head, noted}

abbrev pub server_ips : List Text
server_ips =
    codes "10.0.4.2"
    ∷ codes "10.0.5.2"
    ∷ codes "10.0.1.2"
    ∷ codes "10.0.2.2"
    ∷ codes "10.0.3.2"
    ∷ []

-- `{ip: [] for ip in ips}`
abbrev pub empty_for : {V : Type 0} → List Text → Dict Text (List V)
empty_for [] = []
empty_for (ip ∷ ips) = (ip, []) ∷ empty_for ips

-- The clock's times and their differences are a parameter.
module _ {F : Type 0} (minus : F → F → F) where
  -- The place and the number of each sender are its own.
  pub record Tables : Type 0 where
    pub place : Text → Place
    pub seq : Text → ℕ
    pub pending : Option (Text × F)
    pub send_times : Dict Text (Dict ℕ F)
    pub rtts : Dict Text (List F)

  abbrev pub start : Tables
  start = record {
    place = λ ip. head;
    seq = λ ip. 0;
    pending = none;
    send_times = empty_for server_ips;
    rtts = empty_for server_ips;
  }

  abbrev pub set : {V : Type 0} → Text → V → (Text → V) → Text → V
  set ip v f j = if j =? ip then v else f j

  -- `send_times[server_ip][seq] = now`, and behind `sendto`
  abbrev pub note : Text → F → Tables → Tables
  note ip now t = record t {
    place = set ip noted t.place;
    send_times = update ip [] (insert (t.seq ip) now) t.send_times;
  }

  abbrev pub sent : Text → Tables → Tables
  sent ip t = record t { place = set ip head t.place; seq = set ip (suc (t.seq ip)) t.seq }

  abbrev pub taken : Text → ℕ → F → Tables → Tables
  taken ip id rtt t = record t {
    send_times = update ip [] (erase id) t.send_times;
    pending = some (ip, rtt);
  }

  abbrev pub take_time : Text → Option ℕ → F → Tables → Tables
  take_time ip none now t = t
  take_time ip (some id) now t = elim (get id (get_or ip [] t.send_times)) [
    | none ↦ t
    | some send_time ↦ taken ip id (minus now send_time) t
  ]

  -- The receiver's first access, for a datagram from an address
  abbrev pub receive : Text → Bytes → F → Tables → Tables
  receive ip datagram now t = take_time ip (read_id datagram) now t

  -- `rtts[server_ip].append(rtt)`
  abbrev pub measured : Text → F → Tables → Tables
  measured ip rtt t = record t {
    rtts = update ip [] (λ rtts. rtts ++ (rtt ∷ [])) t.rtts;
    pending = none;
  }

  -- The senders and the receiver in any order, and a network that does what it likes.
  pub data Step (t : Tables) : Tables → Type 0 where
    noting :
        (ip : Text) (now : F)
        → contains ip t.send_times ≡ true
        → t.place ip ≡ head
        → Step t (note ip now t)
    sending : (ip : Text) → t.place ip ≡ noted → t.seq ip < 2 ^ 32 → Step t (sent ip t)
    receiving :
        (ip : Text) (datagram : Bytes) (now : F)
        → t.pending ≡ none
        → Step t (receive ip datagram now t)
    measuring : (ip : Text) (rtt : F) → t.pending ≡ some (ip, rtt) → Step t (measured ip rtt t)

  pub data Reach : Tables → Type 0 where
    here : Reach start
    later : {t u : Tables} → Reach t → Step t u → Reach u
