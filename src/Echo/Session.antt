-- ===== src/Echo/Session.antt =====
-- test/star_topology_load_test/echo_sender.py, and run_server_test of echo_sender_concurrent_multi.py:
-- a sender and a receiver that share the table of the packets that are under way. Each takes the
-- lock for one access only, so their accesses come in any order.
pub mod Counts
pub mod Once
use frugal_leader_election.Base.{
  ℕ, zero, suc, ◌+◌, ◌≤◌, ◌<◌, ◌^◌, ◌≡◌, refl, sym, ap, ◌∙◌, arith, inl, inr, Bool, true, false,
  Option, none, some, List, [], ◌∷◌, ◌++◌, length, length-append, if◌then◌else◌,
}
use frugal_leader_election.Base.Dict.{Dict, get, insert, erase}
use frugal_leader_election.Base.Equality.{◌=?◌, =?_cases, nat_eq}
use frugal_leader_election.Echo.Packet.{Bytes, read_id}

-- Where the sender stands: at the head of its loop, or with the time of the next packet in the table.
pub data Place : Type 0 where
  head noted : Place

-- The clock's times and their differences are a parameter.
module _ {F : Type 0} (minus : F → F → F) where
  -- `pending` is the measurement that the receiver has at hand, between its two accesses.
  pub record Session : Type 0 where
    pub place : Place
    pub seq : ℕ
    pub pending : Option F
    pub send_times : Dict ℕ F
    pub rtts : List F

  abbrev pub start : Session
  start = record { place = head; seq = 0; pending = none; send_times = []; rtts = [] }

  -- `send_times[seq] = now`
  abbrev pub note : F → Session → Session
  note now s = record s { place = noted; send_times = insert s.seq now s.send_times }

  -- Behind `sendto`, which may raise: `seq += 1`
  abbrev pub sent : Session → Session
  sent s = record s { place = head; seq = suc s.seq }

  abbrev pub take_time : Option ℕ → F → Session → Session
  take_time none now s = s
  take_time (some id) now s = elim (get id s.send_times) [
    | none ↦ s
    | some send_time ↦ record s {
      send_times = erase id s.send_times;
      pending = some (minus now send_time);
    }
  ]

  -- The receiver's first access, for a datagram that comes in at a time
  abbrev pub receive : Bytes → F → Session → Session
  receive datagram now s = take_time (read_id datagram) now s

  -- `rtts.append(rtt)`
  abbrev pub measured : F → Session → Session
  measured rtt s = record s { rtts = s.rtts ++ (rtt ∷ []); pending = none }

  -- What comes in is up to the network: replies in any order, some of them twice or never, and any
  -- other datagram. A number that has no packet ends the sender.
  pub data Step (s : Session) : Session → Type 0 where
    noting : (now : F) → s.place ≡ head → Step s (note now s)
    sending : s.place ≡ noted → s.seq < 2 ^ 32 → Step s (sent s)
    receiving : (datagram : Bytes) (now : F) → s.pending ≡ none → Step s (receive datagram now s)
    measuring : (rtt : F) → s.pending ≡ some rtt → Step s (measured rtt s)

  pub data Reach : Session → Type 0 where
    here : Reach start
    later : {s t : Session} → Reach s → Step s t → Reach t
