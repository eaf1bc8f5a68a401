-- ===== src/Background/Sim/Listed.antt =====
-- What the list of the connected sockets holds.
use frugal_leader_election.Base.{
  ℕ, ◌≤◌, ◌≡◌, refl, ap, ◌∙◌, arith, inl, inr, Bool, Bool-cases, true, false, some, [], ◌∷◌, ◌++◌,
  ◌==◌, ◌&&◌, ◌||◌, if◌then◌else◌,
}
use frugal_leader_election.Base.Equality.{=?_cases, nat_eq}
use frugal_leader_election.Background.Sim.{
  Socket, socket_eq, made, accepted, among, without, Place, head, created, entered, leaving,
  removed, ended, Listener, taken, listed, stopped, abandoned, Handler, receiving, hung_up, Node,
  set, move, unmade, create, enter, take_out, close_own, listen, list_accepted, hand_on, hang_up,
  forget, Step, creating, not_creating, ending, connecting, refused, sent, removing, closing,
  accepting, not_accepting, listing, handing, not_handing, hanging_up, forgetting, closing_all,
  Reach, here, later,
}
use frugal_leader_election.Background.Sim.Kept.{is_var}
use frugal_leader_election.Background.Sim.Distinct.{
  Distinct, among-append, Distinct-append, not-both, Distinct-without, was-among,
  among-without_self,
}

-- A thread stands between `append` and the access to the list in `finally`, or has failed before.
abbrev pub may_be_in : Place → Bool
may_be_in entered = true
may_be_in leaving = true
may_be_in _ = false

abbrev pub has_listed : Listener → Bool
has_listed listed = true
has_listed abandoned = true
has_listed _ = false

abbrev pub has_entry : Handler → Bool
has_entry receiving = true
has_entry hung_up = true
has_entry _ = false

-- The thread that takes the socket out of the list has yet to do so.
abbrev pub may_list : Node → Socket → Bool
may_list t (made i k) = is_var (t.current i) k && may_be_in (t.place i)
may_list t (accepted k) = (k == t.handed && has_listed t.listener) || has_entry (t.handler k)

record Inv (t : Node) : Type 0 where
  once : Distinct t.active
  in_use : (s : Socket) → among s t.active ≡ true → may_list t s ≡ true
  unused : (k : ℕ) → t.handed ≤ k → has_entry (t.handler k) ≡ false

not-among : (t : Node) (s : Socket) → Inv t → may_list t s ≡ false → among s t.active ≡ false
not-among t s inv h = ground (arith, Bool-cases (among s t.active), inv.in_use s, h)

create-Inv : (i : ℕ) (t : Node) → t.place i ≡ head → Inv t → Inv (create i t)
create-Inv i t p inv = record { once = inv.once; in_use = go; unused = inv.unused }
  where
    go : (s : Socket) → among s t.active ≡ true → may_list (create i t) s ≡ true
    go (accepted k) h = inv.in_use (accepted k) h
    go (made j k) h = elim (=?_cases j i) [
      | inl (b, e) ↦
          let q : t.place j ≡ head = ap t.place e ∙ p in
          absurd (ground (arith, inv.in_use (made j k) h, q))
      | inr (b, e) ↦ rw b (inv.in_use (made j k) h)
    ]

move-Inv :
    (i : ℕ) (q : Place) (t : Node)
    → (if may_be_in (t.place i) then may_be_in q else true) ≡ true
    → Inv t
    → Inv (move i q t)
move-Inv i q t ok inv = record { once = inv.once; in_use = go; unused = inv.unused }
  where
    go : (s : Socket) → among s t.active ≡ true → may_list (move i q t) s ≡ true
    go (accepted k) h = inv.in_use (accepted k) h
    go (made j k) h = elim (=?_cases j i) [
      | inl (b, e) ↦ rw (b, e) (ground (arith, inv.in_use (made i k), rw e at h))
      | inr (b, e) ↦ rw b (inv.in_use (made j k) h)
    ]

close_own-Inv : (i l : ℕ) (t : Node) → t.place i ≡ removed → Inv t → Inv (close_own i l t)
close_own-Inv i l t p inv =
    let moved : Inv (move i head t) = move-Inv i head t (rw p refl) inv in
    record { once = inv.once; in_use = moved.in_use; unused = inv.unused }

enter-Inv :
    (i l : ℕ) (t : Node) → t.place i ≡ created → t.current i ≡ some l → Inv t → Inv (enter i l t)
enter-Inv i l t p c inv = record {
  once =
      Distinct-append (made i l) t.active (not-among t (made i l) inv (rw p (ground arith)))
        inv.once;
  in_use = go;
  unused = inv.unused;
}
  where
    go :
        (s : Socket)
        → among s (t.active ++ (made i l ∷ [])) ≡ true
        → may_list (enter i l t) s ≡ true
    go (accepted k) h =
        inv.in_use (accepted k) (ground (arith, among-append (accepted k) (made i l) t.active, h))
    go (made j k) h = elim (=?_cases j i) [
      | inl (b, e) ↦
          let q : t.place j ≡ created = ap t.place e ∙ p in
          let r : t.current j ≡ some l = ap t.current e ∙ c in
          rw (b, r)
            (ground
              (arith, inv.in_use (made j k), q, among-append (made j k) (made i l) t.active, h))
      | inr (b, e) ↦ rw b (
          inv.in_use (made j k) (ground (arith, b, among-append (made j k) (made i l) t.active, h)))
    ]

take_out-Inv : (i l : ℕ) (t : Node) → t.current i ≡ some l → Inv t → Inv (take_out i l t)
take_out-Inv i l t c inv = record {
  once = Distinct-without (made i l) t.active inv.once;
  in_use = go;
  unused = inv.unused;
}
  where
    go :
        (s : Socket)
        → among s (without (made i l) t.active) ≡ true
        → may_list (take_out i l t) s ≡ true
    go (accepted k) h = inv.in_use (accepted k) (was-among (accepted k) (made i l) t.active h)
    go (made j k) h = elim (=?_cases j i) [
      | inl (b, e) ↦
          let r : t.current j ≡ some l = ap t.current e ∙ c in
          let own : k ≡ l =
            ground (arith, inv.in_use (made j k) (was-among (made j k) (made i l) t.active h), r) in
          absurd (not-both (among-without_self (made i l) t.active inv.once) (rw (e, own) at h))
      | inr (b, e) ↦ rw b (inv.in_use (made j k) (was-among (made j k) (made i l) t.active h))
    ]

listen-Inv :
    (q : Listener) (t : Node) → has_listed q ≡ has_listed t.listener → Inv t → Inv (listen q t)
listen-Inv q t e inv = record { once = inv.once; in_use = go; unused = inv.unused }
  where
    go : (s : Socket) → among s t.active ≡ true → may_list (listen q t) s ≡ true
    go (made j k) h = inv.in_use (made j k) h
    go (accepted k) h = rw e (inv.in_use (accepted k) h)

list_accepted-Inv : (t : Node) → t.listener ≡ taken → Inv t → Inv (list_accepted t)
list_accepted-Inv t p inv = record {
  once =
      Distinct-append (accepted t.handed) t.active
        (not-among t (accepted t.handed) inv (rw p (ground (arith, inv.unused t.handed)))) inv.once;
  in_use = go;
  unused = inv.unused;
}
  where
    go :
        (s : Socket)
        → among s (t.active ++ (accepted t.handed ∷ [])) ≡ true
        → may_list (list_accepted t) s ≡ true
    go (made j k) h =
        inv.in_use (made j k)
          (ground (arith, among-append (made j k) (accepted t.handed) t.active, h))
    go (accepted k) h = ground (
      arith,
      inv.in_use (accepted k),
      p,
      among-append (accepted k) (accepted t.handed) t.active,
      h,
    )

hand_on-Inv : (t : Node) → Inv t → Inv (hand_on t)
hand_on-Inv t inv = record {
  once = inv.once;
  in_use = go;
  unused = λ k le. ground (arith, inv.unused k);
}
  where
    go : (s : Socket) → among s t.active ≡ true → may_list (hand_on t) s ≡ true
    go (made j k) h = inv.in_use (made j k) h
    go (accepted k) h = elim (=?_cases k t.handed) [
      | inl (b, e) ↦ rw b (ground arith)
      | inr (b, e) ↦ rw b (ground (arith, inv.in_use (accepted k) h))
    ]

-- The thread of a connection closes it, and then takes it out of the list.
hang_up-Inv : (l : ℕ) (t : Node) → t.handler l ≡ receiving → Inv t → Inv (hang_up l t)
hang_up-Inv l t p inv = record { once = inv.once; in_use = go; unused = still }
  where
    go : (s : Socket) → among s t.active ≡ true → may_list (hang_up l t) s ≡ true
    go (made j k) h = inv.in_use (made j k) h
    go (accepted k) h = elim (=?_cases k l) [
      | inl (b, e) ↦ rw b (ground arith)
      | inr (b, e) ↦ rw b (inv.in_use (accepted k) h)
    ]

    still : (k : ℕ) → t.handed ≤ k → has_entry (set l hung_up t.handler k) ≡ false
    still k le = elim (=?_cases k l) [
      | inl (b, e) ↦ absurd (ground (arith, inv.unused k le, ap t.handler e ∙ p))
      | inr (b, e) ↦ rw b (inv.unused k le)
    ]

forget-Inv : (l : ℕ) (t : Node) → t.handler l ≡ hung_up → Inv t → Inv (forget l t)
forget-Inv l t p inv = record {
  once = Distinct-without (accepted l) t.active inv.once;
  in_use = go;
  unused = λ k le. ground (arith, inv.unused k le);
}
  where
    go :
        (s : Socket)
        → among s (without (accepted l) t.active) ≡ true
        → may_list (forget l t) s ≡ true
    go (made j k) h = inv.in_use (made j k) (was-among (made j k) (accepted l) t.active h)
    go (accepted k) h = elim (=?_cases k l) [
      | inl (b, e) ↦
          absurd (not-both (among-without_self (accepted l) t.active inv.once) (rw e at h))
      | inr (b, e) ↦ rw b (inv.in_use (accepted k) (was-among (accepted k) (accepted l) t.active h))
    ]

Step-Inv : {t u : Node} → Step t u → Inv t → Inv u
Step-Inv {t} (creating i p) inv = create-Inv i t p inv
Step-Inv {t} (not_creating i p) inv = move-Inv i (unmade (t.current i)) t (rw p refl) inv
Step-Inv {t} (ending i p) inv = move-Inv i ended t (rw p refl) inv
Step-Inv {t} (connecting i k p c) inv = enter-Inv i k t p c inv
Step-Inv {t} (refused i p) inv = move-Inv i leaving t (rw p refl) inv
Step-Inv {t} (sent i p) inv = move-Inv i leaving t (rw p refl) inv
Step-Inv {t} (removing i k p c) inv = take_out-Inv i k t c inv
Step-Inv {t} (closing i k p c) inv = close_own-Inv i k t p inv
Step-Inv {t} (accepting p) inv = listen-Inv taken t (rw p refl) inv
Step-Inv {t} (not_accepting p) inv = listen-Inv stopped t (rw p refl) inv
Step-Inv {t} (listing p) inv = list_accepted-Inv t p inv
Step-Inv {t} (handing p) inv = hand_on-Inv t inv
Step-Inv {t} (not_handing p) inv = listen-Inv abandoned t (rw p refl) inv
Step-Inv {t} (hanging_up k p) inv = hang_up-Inv k t p inv
Step-Inv {t} (forgetting k p) inv = forget-Inv k t p inv
Step-Inv {t} closing_all inv = record {
  once = tt;
  in_use = λ s h. absurd (not-both refl h);
  unused = inv.unused;
}

Reach-Inv : {t : Node} → Reach t → Inv t
Reach-Inv here = record {
  once = tt;
  in_use = λ s h. absurd (not-both refl h);
  unused = λ k le. refl;
}
Reach-Inv (later r st) = Step-Inv st (Reach-Inv r)

-- In whichever order the threads of a node run and whatever fails: no socket stands in the list
-- twice, and each that stands there is one that a thread has yet to take out, or the one for which
-- no thread could be started.
pub active-Distinct :
    (t : Node)
    → Reach t
    → Distinct t.active × ((s : Socket) → among s t.active ≡ true → may_list t s ≡ true)
active-Distinct t r = let inv = Reach-Inv r in (inv.once, inv.in_use)
