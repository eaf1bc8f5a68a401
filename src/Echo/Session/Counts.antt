-- ===== src/Echo/Session/Counts.antt =====
-- What the table of a session and its measurements amount to, whatever the network does.
use frugal_leader_election.Base.{
  ℕ, suc, ◌+◌, ◌≤◌, ◌≡◌, refl, ◌∙◌, arith, inl, inr, Option-cases, true, false, Option, none, some,
  [], ◌∷◌, length, length-append,
}
use frugal_leader_election.Base.Dict.{get, contains, erase}
use frugal_leader_election.Base.Once.{
  Once, Once-insert, Once-erase, contains-insert_of_other, contains-erase_of_absent,
  length-insert_of_absent, length-erase,
}
use frugal_leader_election.Base.Equality.{nat_eq}
use frugal_leader_election.Echo.Packet.{read_id}
use frugal_leader_election.Echo.Session.{
  head, noted, Session, note, sent, take_time, Step, noting, sending, receiving, measuring,
  measured, Reach, here, later,
}

module _ {F : Type 0} (minus : F → F → F) where
  -- How many packets have had their time noted.
  abbrev pub packets : Session minus → ℕ
  packets s = elim s.place [ head ↦ s.seq | noted ↦ suc s.seq ]

  abbrev pub at_hand : Option F → ℕ
  at_hand none = 0
  at_hand (some rtt) = 1

  pub record Inv (s : Session minus) : Type 0 where
    pub once : Once s.send_times
    pub early : (id : ℕ) → packets s ≤ id → contains id s.send_times ≡ false
    pub counted : (length s.rtts + at_hand s.pending) + length s.send_times ≡ packets s

  noting-Inv : (now : F) (s : Session minus) → s.place ≡ head → Inv s → Inv (note minus now s)
  noting-Inv now s p inv =
      let absent : contains s.seq s.send_times ≡ false = inv.early s.seq (rw p (omega arith)) in
      record {
        once = Once-insert s.seq now s.send_times inv.once;
        early = λ id h.
            contains-insert_of_other id s.seq now s.send_times (λ e. omega arith)
            ∙ inv.early id (rw p (omega arith));
        counted =
            omega
              (arith, length-insert_of_absent s.seq now s.send_times absent, rw p at inv.counted);
      }

  sending-Inv : (s : Session minus) → s.place ≡ noted → Inv s → Inv (sent minus s)
  sending-Inv s p inv = record {
    once = inv.once;
    early = λ id h. inv.early id (rw p h);
    counted = rw p at inv.counted;
  }

  -- A reply to a packet that is under way.
  matched-Inv :
      (id : ℕ) (rtt : F) (s : Session minus)
      → s.pending ≡ none
      → contains id s.send_times ≡ true
      → Inv s
      → Inv (record s { send_times = erase id s.send_times; pending = some rtt })
  matched-Inv id rtt s free h inv = record {
    once = Once-erase id s.send_times inv.once;
    early = λ j le. contains-erase_of_absent j id s.send_times (inv.early j le);
    counted = omega (arith, length-erase id s.send_times h, rw free at inv.counted);
  }

  measuring-Inv :
      (rtt : F) (s : Session minus) → s.pending ≡ some rtt → Inv s → Inv (measured minus rtt s)
  measuring-Inv rtt s p inv = record {
    once = inv.once;
    early = inv.early;
    counted = omega (arith, length-append s.rtts (rtt ∷ []), rw p at inv.counted);
  }

  take_time-Inv :
      (o : Option ℕ) (now : F) (s : Session minus)
      → s.pending ≡ none
      → Inv s
      → Inv (take_time minus o now s)
  take_time-Inv none now s free inv = inv
  take_time-Inv (some id) now s free inv = elim (Option-cases (get id s.send_times)) [
    | inl e ↦ rw (e, take_time) inv
    | inr (t, e) ↦ rw (e, take_time) (matched-Inv id (minus now t) s free (rw e refl) inv)
  ]

  Step-Inv : {s t : Session minus} → Step minus s t → Inv s → Inv t
  Step-Inv {s} (noting now p) inv = noting-Inv now s p inv
  Step-Inv {s} (sending p small) inv = sending-Inv s p inv
  Step-Inv {s} (receiving datagram now free) inv = take_time-Inv (read_id datagram) now s free inv
  Step-Inv {s} (measuring rtt p) inv = measuring-Inv rtt s p inv

  pub Reach-Inv : {s : Session minus} → Reach minus s → Inv s
  Reach-Inv here = record { once = tt; early = λ id h. refl; counted = refl }
  Reach-Inv (later r st) = Step-Inv st (Reach-Inv r)
