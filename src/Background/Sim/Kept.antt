-- ===== src/Background/Sim/Kept.antt =====
-- No socket of the simulation is lost while it is open.
use frugal_leader_election.Base.{
  ℕ, ◌≡◌, refl, arith, inl, inr, Bool, true, false, Option, none, some, ◌==◌, ◌&&◌, ◌||◌, ltb,
  if◌then◌else◌,
}
use frugal_leader_election.Base.Equality.{=?_cases, nat_eq}
use frugal_leader_election.Background.Sim.{
  Socket, made, accepted, Place, head, entered, leaving, removed, ended, Listener, waiting, taken,
  listed, stopped, abandoned, Handler, receiving, hung_up, Node, start, move, unmade, create,
  close_own, listen, hand_on, hang_up, forget, close_all, Step, creating, not_creating, ending,
  connecting, refused, sent, removing, closing, accepting, not_accepting, listing, handing,
  not_handing, hanging_up, forgetting, closing_all, Reach, here, later,
}

abbrev pub is_var : Option ℕ → ℕ → Bool
is_var none k = false
is_var (some j) k = k == j

-- A thread has a socket at hand, which it has yet to close.
abbrev pub in_hand : Place → Bool
in_hand head = false
in_hand ended = false
in_hand _ = true

abbrev pub has_connection : Listener → Bool
has_connection waiting = false
has_connection stopped = false
has_connection _ = true

abbrev pub is_receiving : Handler → Bool
is_receiving receiving = true
is_receiving _ = false

abbrev pub held : Node → Socket → Bool
held t (made i k) = is_var (t.current i) k && in_hand (t.place i)
held t (accepted k) = (k == t.handed && has_connection t.listener) || is_receiving (t.handler k)

-- The socket has been made or accepted.
abbrev pub exists : Node → Socket → Bool
exists t (made i k) = ltb k (t.rounds i)
exists t (accepted k) = ltb k t.handed || (k == t.handed && has_connection t.listener)

abbrev pub Kept : Node → Type 0
Kept t = (s : Socket) → exists t s ≡ true → (t.closed s || held t s) ≡ true

create-Kept : (i : ℕ) (t : Node) → t.place i ≡ head → Kept t → Kept (create i t)
create-Kept i t p kept (accepted k) h = kept (accepted k) h
create-Kept i t p kept (made j k) h = elim (=?_cases j i) [
  | inl (b, e) ↦ rw (b, e) (ground (arith, kept (made i k), p, =?_cases k (t.rounds i), rw b at h))
  | inr (b, e) ↦ rw b (kept (made j k) (rw b at h))
]

-- A thread goes on to a place where it still has its socket at hand, or comes from one where it had
-- none.
move-Kept :
    (i : ℕ) (q : Place) (t : Node)
    → (if in_hand (t.place i) then in_hand q else true) ≡ true
    → Kept t
    → Kept (move i q t)
move-Kept i q t ok kept (accepted k) h = kept (accepted k) h
move-Kept i q t ok kept (made j k) h = elim (=?_cases j i) [
  | inl (b, e) ↦ rw (b, e) (ground (arith, kept (made i k), rw e at h))
  | inr (b, e) ↦ rw b (kept (made j k) h)
]

close_own-Kept : (i l : ℕ) (t : Node) → t.current i ≡ some l → Kept t → Kept (close_own i l t)
close_own-Kept i l t c kept (accepted k) h = kept (accepted k) h
close_own-Kept i l t c kept (made j k) h = elim (=?_cases j i) [
  | inl (b, e) ↦ rw (b, e) (ground (arith, kept (made i k), c, =?_cases k l, rw e at h))
  | inr (b, e) ↦ rw b (kept (made j k) h)
]

listen-Kept :
    (q : Listener) (t : Node)
    → has_connection q ≡ has_connection t.listener
    → Kept t
    → Kept (listen q t)
listen-Kept q t e kept (made j k) h = kept (made j k) h
listen-Kept q t e kept (accepted k) h = rw e (kept (accepted k) (rw e at h))

take-Kept : (t : Node) → t.listener ≡ waiting → Kept t → Kept (listen taken t)
take-Kept t p kept (made j k) h = kept (made j k) h
take-Kept t p kept (accepted k) h = elim (=?_cases k t.handed) [
  | inl (b, e) ↦ rw b (ground arith)
  | inr (b, e) ↦ rw b (ground (arith, kept (accepted k), p))
]

hand_on-Kept : (t : Node) → t.listener ≡ listed → Kept t → Kept (hand_on t)
hand_on-Kept t p kept (made j k) h = kept (made j k) h
hand_on-Kept t p kept (accepted k) h = elim (=?_cases k t.handed) [
  | inl (b, e) ↦ rw b (ground arith)
  | inr (b, e) ↦ rw b (ground (arith, kept (accepted k), p))
]

hang_up-Kept : (l : ℕ) (t : Node) → Kept t → Kept (hang_up l t)
hang_up-Kept l t kept (made j k) h = kept (made j k) h
hang_up-Kept l t kept (accepted k) h = elim (=?_cases k l) [
  | inl (b, e) ↦ rw b refl
  | inr (b, e) ↦ rw b (kept (accepted k) h)
]

forget-Kept : (l : ℕ) (t : Node) → t.handler l ≡ hung_up → Kept t → Kept (forget l t)
forget-Kept l t p kept (made j k) h = kept (made j k) h
forget-Kept l t p kept (accepted k) h = elim (=?_cases k l) [
  | inl (b, e) ↦ rw (b, e) (ground (arith, kept (accepted l), p, rw e at h))
  | inr (b, e) ↦ rw b (kept (accepted k) h)
]

close_all-Kept : (t : Node) → Kept t → Kept (close_all t)
close_all-Kept t kept (made j k) h = ground (arith, kept (made j k) h)
close_all-Kept t kept (accepted k) h = ground (arith, kept (accepted k) h)

Step-Kept : {t u : Node} → Step t u → Kept t → Kept u
Step-Kept {t} (creating i p) kept = create-Kept i t p kept
Step-Kept {t} (not_creating i p) kept = move-Kept i (unmade (t.current i)) t (rw p refl) kept
Step-Kept {t} (ending i p) kept = move-Kept i ended t (rw p refl) kept
Step-Kept {t} (connecting i k p c) kept = move-Kept i entered t (rw p refl) kept
Step-Kept {t} (refused i p) kept = move-Kept i leaving t (rw p refl) kept
Step-Kept {t} (sent i p) kept = move-Kept i leaving t (rw p refl) kept
Step-Kept {t} (removing i k p c) kept = move-Kept i removed t (rw p refl) kept
Step-Kept {t} (closing i k p c) kept = close_own-Kept i k t c kept
Step-Kept {t} (accepting p) kept = take-Kept t p kept
Step-Kept {t} (not_accepting p) kept = listen-Kept stopped t (rw p refl) kept
Step-Kept {t} (listing p) kept = listen-Kept listed t (rw p refl) kept
Step-Kept {t} (handing p) kept = hand_on-Kept t p kept
Step-Kept {t} (not_handing p) kept = listen-Kept abandoned t (rw p refl) kept
Step-Kept {t} (hanging_up k p) kept = hang_up-Kept k t kept
Step-Kept {t} (forgetting k p) kept = forget-Kept k t p kept
Step-Kept closing_all kept = close_all-Kept _ kept

start-Kept : Kept start
start-Kept (made i k) h = ground (arith, h)
start-Kept (accepted k) h = ground (arith, h)

Reach-Kept : {t : Node} → Reach t → Kept t
Reach-Kept here = start-Kept
Reach-Kept (later r st) = Step-Kept st (Reach-Kept r)

-- In whichever order the threads of a node run, whatever fails, and also after
-- `close_all_connections`: a socket that was made or accepted is closed, or its thread is between its
-- making and its `close`, or the listener has it, which keeps the one for which no thread could be
-- started.
pub closed-or-held :
    (t : Node) (s : Socket) → Reach t → exists t s ≡ true → (t.closed s || held t s) ≡ true
closed-or-held t s r h = Reach-Kept r s h
