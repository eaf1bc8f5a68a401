-- ===== src/Echo/Session/Once.antt =====
-- Which packets a run measures, and what it finds for them.
use frugal_leader_election.Base.{
  ℕ, ◌+◌, ◌≡◌, ◌≢◌, refl, sym, ap, ◌∙◌, arith, inl, inr, Option-cases, Bool, true, false, Option,
  none, some, List, [], ◌∷◌, ◌++◌, count, count-append, map, ltb, ◌==◌, if◌then◌else◌,
}
use mathlib.Core.List.{append-nil}
use frugal_leader_election.Base.Dict.{Dict, get, contains, insert, erase, get-insert}
use frugal_leader_election.Base.Once.{contains-erase}
use frugal_leader_election.Base.Equality.{=?_cases, nat_eq}
use frugal_leader_election.Echo.Packet.{read_id}
use frugal_leader_election.Echo.Session.{
  head, Session, note, take_time, noting, sending, receiving, measuring, measured, Reach, here,
  later,
}
use frugal_leader_election.Echo.Session.Counts.{packets, Inv, Reach-Inv}

contains-get :
    {V : Type 0} (id : ℕ) (d : Dict ℕ V) (t : V) → get id d ≡ some t → contains id d ≡ true
contains-get id [] t h = cc
contains-get id ((k, v) ∷ d) t h = ground (arith, contains-get id d t)

not-both : {b : Bool} → b ≡ false → b ≡ true → ⊥
not-both p q = cc

get-erase_of_other : {V : Type 0} (id k : ℕ) (d : Dict ℕ V) → id ≢ k → get id (erase k d) ≡ get id d
get-erase_of_other id k [] ne = refl
get-erase_of_other id k ((j, v) ∷ d) ne =
    ground (arith, =?_cases id j, =?_cases k j, get-erase_of_other id k d ne)

contains-erase_of_other :
    {V : Type 0} (id k : ℕ) (d : Dict ℕ V) → id ≢ k → contains id (erase k d) ≡ contains id d
contains-erase_of_other id k [] ne = refl
contains-erase_of_other id k ((j, v) ∷ d) ne =
    ground (arith, =?_cases id j, =?_cases k j, contains-erase_of_other id k d ne)

contains-insert :
    {V : Type 0} (id k : ℕ) (v : V) (d : Dict ℕ V)
    → contains id (insert k v d) ≡ (if id == k then true else contains id d)
contains-insert id k v [] = ground arith
contains-insert id k v ((j, w) ∷ d) =
    ground (arith, =?_cases id k, =?_cases id j, =?_cases k j, contains-insert id k v d)

abbrev pub one_if : Bool → ℕ
one_if b = if b then 1 else 0

module _ {F : Type 0} (minus : F → F → F) where
  -- When the sender noted the time of a packet.
  unfoldable pub noted_at : {s : Session minus} → Reach minus s → ℕ → Option F
  noted_at here id = none
  noted_at (later {s} r (noting now p)) id = if id == s.seq then some now else noted_at r id
  noted_at (later r (sending p small)) id = noted_at r id
  noted_at (later r (receiving datagram now free)) id = noted_at r id
  noted_at (later r (measuring rtt p)) id = noted_at r id

  -- The number of a packet with the time from its sending to its reply at `now`.
  abbrev pub reading : ℕ → F → Option F → List (ℕ × F)
  reading id now none = []
  reading id now (some t) = (id, minus now t) ∷ []

  -- A datagram finds a packet if its number is one in the table.
  abbrev pub found : Session minus → (ℕ → Option F) → Option ℕ → F → List (ℕ × F)
  found s times none now = []
  found s times (some id) now = if contains id s.send_times then reading id now (times id) else []

  -- The packets for which a run finds a reply, in order.
  unfoldable pub replies : {s : Session minus} → Reach minus s → List (ℕ × F)
  replies here = []
  replies (later r (noting now p)) = replies r
  replies (later r (sending p small)) = replies r
  replies (later {s} r (receiving datagram now free)) =
      replies r ++ found s (noted_at r) (read_id datagram) now
  replies (later r (measuring rtt p)) = replies r

  -- The measurement at hand.
  abbrev pub hand : Option F → List F
  hand none = []
  hand (some rtt) = rtt ∷ []

  abbrev pub differences : List (ℕ × F) → List F
  differences = map (λ (m : ℕ × F). m.1)

  abbrev pub times_of : ℕ → List (ℕ × F) → ℕ
  times_of id = count (λ (m : ℕ × F). m.0 == id)

  record Right (s : Session minus) (times : ℕ → Option F) (rs : List (ℕ × F)) : Type 0 where
    true_times : (id : ℕ) → contains id s.send_times ≡ true → times id ≡ get id s.send_times
    values : differences rs ≡ s.rtts ++ hand s.pending
    once :
        (id : ℕ)
        → times_of id rs + one_if (contains id s.send_times) ≡ one_if (ltb id (packets minus s))

  noting-Right :
      (now : F) (s : Session minus) (times : ℕ → Option F) (rs : List (ℕ × F))
      → s.place ≡ head
      → Inv minus s
      → Right s times rs
      → Right (note minus now s) (λ id. if id == s.seq then some now else times id) rs
  noting-Right now s times rs p inv v = record {
    true_times = λ id h. ground (
      arith,
      get-insert id s.seq now s.send_times,
      =?_cases id s.seq,
      v.true_times id,
      contains-insert id s.seq now s.send_times,
      h,
    );
    values = v.values;
    once = λ id.
        let before : times_of id rs + one_if (contains id s.send_times) ≡ one_if (ltb id s.seq) =
          rw p at v.once id in
        let absent : contains s.seq s.send_times ≡ false = inv.early s.seq (rw p (omega arith)) in
        ground
          (arith, before, absent, contains-insert id s.seq now s.send_times, =?_cases id s.seq);
  }

  differences-append :
      (rs qs : List (ℕ × F)) → differences (rs ++ qs) ≡ differences rs ++ differences qs
  differences-append [] qs = refl
  differences-append (m ∷ rs) qs = ap (λ l. m.1 ∷ l) (differences-append rs qs)

  -- A reply to a packet that is under way.
  matched-Right :
      (id : ℕ) (now t : F) (s : Session minus) (times : ℕ → Option F) (rs : List (ℕ × F))
      → get id s.send_times ≡ some t
      → s.pending ≡ none
      → Inv minus s
      → Right s times rs
      → Right
          (record s { send_times = erase id s.send_times; pending = some (minus now t) })
          times
          (rs ++ ((id, minus now t) ∷ []))
  matched-Right id now t s times rs e free inv v = record {
    true_times = λ j h. elim (=?_cases j id) [
      | inl (b, p) ↦ absurd (not-both (contains-erase id s.send_times inv.once) (rw p at h))
      | inr (b, ne) ↦
          v.true_times j (sym (contains-erase_of_other j id s.send_times ne) ∙ h)
          ∙ sym (get-erase_of_other j id s.send_times ne)
    ];
    values =
        differences-append rs ((id, minus now t) ∷ [])
        ∙ ap (λ l. l ++ (minus now t ∷ [])) (v.values ∙ rw free (append-nil s.rtts));
    once = λ j. elim (=?_cases j id) [
      | inl (b, p) ↦
          let gone : contains id (erase id s.send_times) ≡ false =
            contains-erase id s.send_times inv.once in
          let there : contains id s.send_times ≡ true = contains-get id s.send_times t e in
          let before : times_of id rs + one_if (contains id s.send_times)
              ≡ one_if (ltb id (packets minus s)) =
            v.once id in
          rw p (
            rw gone (
              ground (
                arith,
                count-append (λ (m : ℕ × F). m.0 == id) rs ((id, minus now t) ∷ []),
                rw there at before,
              )))
      | inr (b, ne) ↦
          let other : (id == j) ≡ false = ground (arith, ne) in
          rw (contains-erase_of_other j id s.send_times ne) (
            ground (
              arith,
              other,
              count-append (λ (m : ℕ × F). m.0 == j) rs ((id, minus now t) ∷ []),
              v.once j,
            ))
    ];
  }

  take_time-Right :
      (o : Option ℕ) (now : F) (s : Session minus) (times : ℕ → Option F) (rs : List (ℕ × F))
      → s.pending ≡ none
      → Inv minus s
      → Right s times rs
      → Right (take_time minus o now s) times (rs ++ found s times o now)
  take_time-Right none now s times rs free inv v = rw (append-nil rs) v
  take_time-Right (some id) now s times rs free inv v = elim (Option-cases (get id s.send_times)) [
    | inl e ↦ rw (e, take_time) (rw (append-nil rs) v)
    | inr (t, e) ↦
        let there : contains id s.send_times ≡ true = contains-get id s.send_times t e in
        rw (e, v.true_times id there ∙ e, take_time)
          (matched-Right id now t s times rs e free inv v)
  ]

  measuring-Right :
      (rtt : F) (s : Session minus) (times : ℕ → Option F) (rs : List (ℕ × F))
      → s.pending ≡ some rtt
      → Right s times rs
      → Right (measured minus rtt s) times rs
  measuring-Right rtt s times rs p v = record {
    true_times = v.true_times;
    values = v.values ∙ rw p (sym (append-nil (s.rtts ++ (rtt ∷ []))));
    once = v.once;
  }

  Reach-Right : {s : Session minus} (r : Reach minus s) → Right s (noted_at r) (replies r)
  unfolding noted_at replies
  Reach-Right here = record { true_times = λ id h. cc; values = refl; once = λ id. ground arith }
  Reach-Right (later {s} r (noting now p)) =
      noting-Right now s (noted_at r) (replies r) p (Reach-Inv minus r) (Reach-Right r)
  Reach-Right (later {s} r (sending p small)) =
      let v = Reach-Right r in
      record { true_times = v.true_times; values = v.values; once = λ id. rw p at v.once id }
  Reach-Right (later {s} r (receiving datagram now free)) =
      take_time-Right (read_id datagram) now s (noted_at r) (replies r) free (Reach-Inv minus r)
        (Reach-Right r)
  Reach-Right (later {s} r (measuring rtt p)) =
      measuring-Right rtt s (noted_at r) (replies r) p (Reach-Right r)

  -- Whatever comes in from the network and when, and however the accesses of the two threads mix:
  -- each packet whose time was noted is in the table or has been found by one reply, not both and not
  -- twice, and no other packet is. The measurements, with that which the receiver has at hand, are for
  -- each of these replies in order the time from the noting of its packet to the reply.
  pub measured-once :
      (s : Session minus) (r : Reach minus s)
      → ((id : ℕ)
          → times_of id (replies r) + one_if (contains id s.send_times)
            ≡ one_if (ltb id (packets minus s)))
        × (differences (replies r) ≡ s.rtts ++ hand s.pending)
  measured-once s r = let v = Reach-Right r in (v.once, v.values)
