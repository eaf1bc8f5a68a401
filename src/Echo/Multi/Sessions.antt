-- ===== src/Echo/Multi/Sessions.antt =====
-- The shared tables hold one session for each server.
use frugal_leader_election.Base.{
  ℕ, ◌≡◌, refl, ◌∙◌, arith, inl, inr, false, Option, Option-cases, none, some, List, [], ◌∷◌, ◌++◌,
  Text, if◌then◌else◌,
}
use frugal_leader_election.Base.Dict.{
  Dict, get, get_or, insert, erase, update, get_or-cons, get_or-insert,
}
use frugal_leader_election.Base.Equality.{◌=?◌, =?_cases, =?_refl, nat_eq, list_eq}
use frugal_leader_election.Echo.Packet.{read_id}
use frugal_leader_election.Echo.Session as Session
use frugal_leader_election.Echo.Session.{Place, head, noted}
use frugal_leader_election.Echo.Multi as Multi
use frugal_leader_election.Echo.Multi.{Tables}

module _ {F : Type 0} (minus : F → F → F) where
  -- The measurement at hand, if it is one of this server.
  abbrev pub hand_of : Text → Option (Text × F) → Option F
  hand_of ip none = none
  hand_of ip (some (k, rtt)) = if ip =? k then some rtt else none

  -- What the tables have of one server.
  abbrev pub session_of : Text → Tables minus → Session.Session minus
  session_of ip t = record {
    place = t.place ip;
    seq = t.seq ip;
    pending = hand_of ip t.pending;
    send_times = get_or ip [] t.send_times;
    rtts = get_or ip [] t.rtts;
  }

  -- An update of the table of one server, seen from each server.
  get_or-update :
      {V : Type 0} (j ip : Text) (v : V) (f : V → V) (d : Dict Text V)
      → get_or j v (update ip v f d) ≡ (if j =? ip then f (get_or ip v d) else get_or j v d)
  get_or-update j ip v f d = get_or-insert j ip v (f (get_or ip v d)) d

  note_self :
      (ip : Text) (now : F) (t : Tables minus)
      → session_of ip (Multi.note minus ip now t) ≡ Session.note minus now (session_of ip t)
  note_self ip now t =
      rw (get_or-update ip ip [] (insert (t.seq ip) now) t.send_times, =?_refl ip) refl

  note_other :
      (j ip : Text) (now : F) (t : Tables minus)
      → (j =? ip) ≡ false
      → session_of j (Multi.note minus ip now t) ≡ session_of j t
  note_other j ip now t h = rw (get_or-update j ip [] (insert (t.seq ip) now) t.send_times, h) refl

  sent_self :
      (ip : Text) (t : Tables minus)
      → session_of ip (Multi.sent minus ip t) ≡ Session.sent minus (session_of ip t)
  sent_self ip t = rw (=?_refl ip) refl

  sent_other :
      (j ip : Text) (t : Tables minus)
      → (j =? ip) ≡ false
      → session_of j (Multi.sent minus ip t) ≡ session_of j t
  sent_other j ip t h = rw h refl

  -- A packet that is taken from the table, and what its server's session has after it.
  taken_self :
      (ip : Text) (id : ℕ) (rtt : F) (t : Tables minus)
      → session_of ip (Multi.taken minus ip id rtt t) ≡ record (session_of ip t) {
        send_times = erase id (get_or ip [] t.send_times);
        pending = some rtt;
      }
  taken_self ip id rtt t = rw (get_or-update ip ip [] (erase id) t.send_times, =?_refl ip) refl

  taken_other :
      (j ip : Text) (id : ℕ) (rtt : F) (t : Tables minus)
      → t.pending ≡ none
      → (j =? ip) ≡ false
      → session_of j (Multi.taken minus ip id rtt t) ≡ session_of j t
  taken_other j ip id rtt t free h =
      rw (get_or-update j ip [] (erase id) t.send_times, h, free) refl

  take_time_self :
      (ip : Text) (o : Option ℕ) (now : F) (t : Tables minus)
      → session_of ip (Multi.take_time minus ip o now t)
        ≡ Session.take_time minus o now (session_of ip t)
  take_time_self ip none now t = refl
  take_time_self ip (some id) now t = elim (Option-cases (get id (get_or ip [] t.send_times))) [
    | inl e ↦ rw (e, Multi.take_time, Session.take_time) refl
    | inr (u, e) ↦ rw (e, Multi.take_time, Session.take_time) (taken_self ip id (minus now u) t)
  ]

  take_time_other :
      (j ip : Text) (o : Option ℕ) (now : F) (t : Tables minus)
      → t.pending ≡ none
      → (j =? ip) ≡ false
      → session_of j (Multi.take_time minus ip o now t) ≡ session_of j t
  take_time_other j ip none now t free h = refl
  take_time_other j ip (some id) now t free h =
      elim (Option-cases (get id (get_or ip [] t.send_times))) [
        | inl e ↦ rw (e, Multi.take_time) refl
        | inr (u, e) ↦ rw (e, Multi.take_time) (taken_other j ip id (minus now u) t free h)
      ]

  measured_self :
      (ip : Text) (rtt : F) (t : Tables minus)
      → session_of ip (Multi.measured minus ip rtt t) ≡ Session.measured minus rtt (session_of ip t)
  measured_self ip rtt t =
      rw (get_or-update ip ip [] (λ rtts. rtts ++ (rtt ∷ [])) t.rtts, =?_refl ip) refl

  measured_other :
      (j ip : Text) (rtt : F) (t : Tables minus)
      → t.pending ≡ some (ip, rtt)
      → (j =? ip) ≡ false
      → session_of j (Multi.measured minus ip rtt t) ≡ session_of j t
  measured_other j ip rtt t p h =
      rw (get_or-update j ip [] (λ rtts. rtts ++ (rtt ∷ [])) t.rtts, p, h) refl

  -- A step is one of the session of its server, and none of the others.
  Step-sessions :
      (j : Text) {t u : Tables minus}
      → Multi.Step minus t u
      → Session.Reach minus (session_of j t)
      → Session.Reach minus (session_of j u)
  Step-sessions j {t} (Multi.noting ip now known p) r = elim (=?_cases j ip) [
    | inl (same, e) ↦ rw (e, note_self ip now t) (Session.later (rw e at r) (Session.noting now p))
    | inr (other, e) ↦ rw (note_other j ip now t other) r
  ]
  Step-sessions j {t} (Multi.sending ip p small) r = elim (=?_cases j ip) [
    | inl (same, e) ↦ rw (e, sent_self ip t) (Session.later (rw e at r) (Session.sending p small))
    | inr (other, e) ↦ rw (sent_other j ip t other) r
  ]
  Step-sessions j {t} (Multi.receiving ip datagram now free) r = elim (=?_cases j ip) [
    | inl (same, e) ↦
        rw (e, take_time_self ip (read_id datagram) now t)
          (Session.later (rw e at r) (Session.receiving datagram now (rw free refl)))
    | inr (other, e) ↦ rw (take_time_other j ip (read_id datagram) now t free other) r
  ]
  Step-sessions j {t} (Multi.measuring ip rtt p) r = elim (=?_cases j ip) [
    | inl (same, e) ↦
        rw (e, measured_self ip rtt t)
          (Session.later (rw e at r) (Session.measuring rtt (rw (p, =?_refl ip) refl)))
    | inr (other, e) ↦ rw (measured_other j ip rtt t p other) r
  ]

  get_or-empty_for :
      {V : Type 0} (j : Text) (ips : List Text) → get_or j [] (Multi.empty_for {V = V} ips) ≡ []
  get_or-empty_for {V} j [] = refl
  get_or-empty_for {V} j (ip ∷ ips) =
      get_or-cons j ip [] [] (Multi.empty_for ips)
      ∙ ground (arith, get_or-empty_for {V = V} j ips, =?_cases j ip)

  -- Whatever the order of the threads and the network do, what the shared tables have of one server
  -- is what a sender and receiver of its own could have: no server's packets are taken for another's.
  pub Reach-sessions :
      (ip : Text) (t : Tables minus) → Multi.Reach minus t → Session.Reach minus (session_of ip t)
  Reach-sessions ip t r = go r
    where
      go : {u : Tables minus} → Multi.Reach minus u → Session.Reach minus (session_of ip u)
      go Multi.here =
          rw
            (
              get_or-empty_for {V = ℕ × F} ip Multi.server_ips,
              get_or-empty_for {V = F} ip Multi.server_ips,
            )
            Session.here
      go (Multi.later r st) = Step-sessions ip st (go r)
