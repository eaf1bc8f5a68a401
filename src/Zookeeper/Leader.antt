-- ===== src/Zookeeper/Leader.antt =====
-- Which leader is found, and that the loop for a designated leader ends.
use frugal_leader_election.Base.{
  ℕ, zero, suc, ◌≤◌, ◌≡◌, refl, ap, sym, ◌∙◌, ◌↔◌, inl, inr, Bool, true, false, Option, none, some,
  List, [], ◌∷◌, ◌++◌, arith, Text, codes, keep, map, Bool-cases, Option-cases, if◌then◌else◌,
}
use frugal_leader_election.Base.Result.{ok, ok-injective}
use frugal_leader_election.Base.Dict.{Dict, get}
use frugal_leader_election.Base.Equality.{nat_eq}
use frugal_leader_election.Text.{has_substring}
use frugal_leader_election.Remote.{Action, History, World, run, sleep, script, each, ◌>>◌}
use mathlib.Core.List.{append-nil, append_assoc}
use frugal_leader_election.Remote.Quiet.{Quiet, Safe, Quiet-then, Quiet-call, Quiet-each}
use frugal_leader_election.Zookeeper.{
  kill_node, start_node, status_command, see, ask_servers, get_leader, remove, restart_others,
  is_leader, until_leader, designate_leader,
}

abbrev pub status_of : ℕ × Text → Action
status_of server = run server.1 status_command

-- The answer to the question for the status names a leader.
abbrev pub leads : (Text → Option Text) → ℕ × Text → Bool
leads answer server = elim (answer server.1) [
  | none ↦ false
  | some stdout ↦ has_substring (codes "leader") stdout
]

abbrev pub last_of : Option (ℕ × Text) → List (ℕ × Text) → Option (ℕ × Text)
last_of found [] = found
last_of found (server ∷ servers) = last_of (some server) servers

see-last :
    (connections : Dict ℕ Text) (answer : Text → Option Text) (found : Option (ℕ × Text))
    (server : ℕ × Text) (rest : List (ℕ × Text))
    → last_of (see connections found server (answer server.1)) rest
      ≡ last_of found (if leads answer server then server ∷ rest else rest)
see-last connections answer found server rest = go (answer server.1)
  where
    go :
        (o : Option Text)
        → last_of (see connections found server o) rest
          ≡ last_of found (
              if elim o [ none ↦ false | some stdout ↦ has_substring (codes "leader") stdout ]
              then server ∷ rest
              else rest)
    go none = refl
    go (some stdout) = elim (Bool-cases (has_substring (codes "leader") stdout)) [
      | inl b ↦ rw b refl
      | inr b ↦ rw b refl
    ]

ask_servers-last :
    (connections servers : Dict ℕ Text) (answer : Text → Option Text) (found : Option (ℕ × Text))
    (w : World) (h : History)
    → ((host : Text) (t : History) → w.respond t (run host status_command) ≡ answer host)
    → ask_servers connections servers found w h
      ≡ (last_of found (keep (leads answer) servers), h ++ map status_of servers)
unfolding ask_servers
ask_servers-last connections [] answer found w h same = ap (λ t. (found, t)) (sym (append-nil h))
ask_servers-last connections (server ∷ servers) answer found w h same =
    ap
      (λ o.
        ask_servers connections servers (see connections found server o) w
          (h ++ (status_of server ∷ [])))
      (same server.1 h)
    ∙ ask_servers-last connections servers answer (see connections found server (answer server.1)) w
        (h ++ (status_of server ∷ [])) same
    ∙ ap (λ found'. (found', (h ++ (status_of server ∷ [])) ++ map status_of servers))
        (see-last connections answer found server (keep (leads answer) servers))
    ∙ ap (λ t. (last_of found (keep (leads answer) (server ∷ servers)), t))
        (append_assoc h (status_of server ∷ []) (map status_of servers))

-- Where the servers answer the same whenever they are asked, `get_leader` asks every server once,
-- in order, and finds the last one whose answer names a leader, or none if no answer does.
pub get_leader-last :
    (connections : Dict ℕ Text) (answer : Text → Option Text) (w : World) (h : History)
    → ((host : Text) (t : History) → w.respond t (run host status_command) ≡ answer host)
    → get_leader connections w h
      ≡ (last_of none (keep (leads answer) connections), h ++ map status_of connections)
unfolding get_leader
get_leader-last connections answer w h same =
    ask_servers-last connections connections answer none w h same

module _ (connections : Dict ℕ Text) where
  -- The state of the loop after a round: the leader, and the calls so far.
  abbrev pub next_round : List ℕ → World → History → Option (ℕ × Text) × History
  next_round others w h = get_leader connections w (restart_others connections others w h).1

  -- The leader that is found after `k` rounds.
  abbrev pub leader_after : ℕ → List ℕ → World → Option (ℕ × Text) → History → Option (ℕ × Text)
  leader_after zero others w leader h = leader
  leader_after (suc k) others w leader h =
      let (next, t) = next_round others w h in leader_after k others w next t

  kill_node-Quiet : (w : World) (id : ℕ) → Quiet w (kill_node connections id)
  unfolding kill_node
  kill_node-Quiet w id h = elim (Option-cases (get id connections)) [
    | inl e ↦ rw (e, kill_node) refl
    | inr (host, e) ↦ rw (e, kill_node) refl
  ]

  start_node-Quiet : (w : World) (id : ℕ) → Quiet w (start_node connections id)
  unfolding start_node
  start_node-Quiet w id h = elim (Option-cases (get id connections)) [
    | inl e ↦ rw (e, start_node) refl
    | inr (host, e) ↦ rw (e, start_node) refl
  ]

  restart_others-Quiet :
      (others : List ℕ) (w : World)
      → Safe w (sleep 25)
      → Quiet w (restart_others connections others)
  unfolding restart_others
  restart_others-Quiet others w safe =
      Quiet-then w (each (kill_node connections) others >> script (sleep 25 ∷ []))
        (each (start_node connections) others)
        (Quiet-then w (each (kill_node connections) others) (script (sleep 25 ∷ []))
          (Quiet-each w (kill_node connections) others (kill_node-Quiet w))
          (Quiet-call w (sleep 25) safe))
        (Quiet-each w (start_node connections) others (start_node-Quiet w))

  until_leader-ends :
      (k fuel node_id : ℕ) (ids others : List ℕ) (leader : Option (ℕ × Text)) (w : World)
      (h : History)
      → Safe w (sleep 25)
      → remove connections node_id ids ≡ some others
      → k ≤ fuel
      → is_leader connections node_id (leader_after k others w leader h) ≡ true
      → (until_leader connections fuel node_id ids leader w h).0 ≡ ok true
  unfolding until_leader
  until_leader-ends zero zero node_id ids others leader w h safe p le l = ap ok l
  until_leader-ends zero (suc fuel) node_id ids others leader w h safe p le l =
      rw (l, until_leader) refl
  until_leader-ends (suc k) zero node_id ids others leader w h safe p le l = absurd (omega arith)
  until_leader-ends (suc k) (suc fuel) node_id ids others leader w h safe p le l =
      elim (Bool-cases (is_leader connections node_id leader)) [
        | inl b ↦ rw (b, until_leader) refl
        | inr b ↦
            rw (b, p, until_leader)
              (let (next, t) = next_round others w h in
                rw (restart_others-Quiet others w safe h)
                  (until_leader-ends k fuel node_id ids others next w t safe p (omega arith) l))
      ]

  until_leader-found :
      (fuel node_id : ℕ) (ids others : List ℕ) (leader : Option (ℕ × Text)) (w : World)
      (h : History)
      → Safe w (sleep 25)
      → remove connections node_id ids ≡ some others
      → (until_leader connections fuel node_id ids leader w h).0 ≡ ok true
      → (k : ℕ) × (k ≤ fuel)
        × (is_leader connections node_id (leader_after k others w leader h) ≡ true)
  unfolding until_leader
  until_leader-found zero node_id ids others leader w h safe p o =
      (zero, omega arith, ok-injective o)
  until_leader-found (suc fuel) node_id ids others leader w h safe p o =
      elim (Bool-cases (is_leader connections node_id leader)) [
        | inl b ↦ (zero, omega arith, b)
        | inr b ↦
            let (next, t) = next_round others w h in
            let (k, le, l) =
              until_leader-found fuel node_id ids others next w t safe p
                (rw (b, p, restart_others-Quiet others w safe h, until_leader) at o) in
            (suc k, omega (arith, le), l)
      ]

  -- Where a pause does not raise and the node is in the list, the loop of `designate_leader` ends
  -- by its test within `fuel` rounds exactly if in one of these rounds, or before the first, the
  -- node is found to be the leader.
  pub designate_leader-ends :
      (fuel node_id : ℕ) (ids others : List ℕ) (w : World) (h : History)
      → Safe w (sleep 25)
      → remove connections node_id ids ≡ some others
      → ((designate_leader connections fuel node_id ids w h).0 ≡ ok true) ↔ (
          (k : ℕ) × (k ≤ fuel)
          × (is_leader connections node_id (
                leader_after k others w
                  (get_leader connections w h).0
                  (get_leader connections w h).1)
              ≡ true))
  unfolding designate_leader
  designate_leader-ends fuel node_id ids others w h safe p =
      let (leader, t) = get_leader connections w h in
      (
        until_leader-found fuel node_id ids others leader w t safe p,
        λ (k, le, l). until_leader-ends k fuel node_id ids others leader w t safe p le l,
      )
