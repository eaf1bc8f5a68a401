-- ===== src/Views/Heartbeats.antt =====
-- The heartbeats of the views: every follower's line is counted once, and a leader's view has
-- at least the largest heartbeat number that was sent in it.
use frugal_leader_election.Base.{
  ℕ, ◌+◌, ◌≡◌, refl, ap, sym, ◌∙◌, inl, inr, Bool, ◌&&◌, Option, none, some, List, [], ◌∷◌, ◌++◌,
  arith, Text, length, count, is_some, if◌then◌else◌, max, Bool-cases, Option-cases,
}
use frugal_leader_election.Base.Result.{ok, for_each, for_each-nil, for_each-cons, ok-injective}
use frugal_leader_election.Views.{
  Role, leader, follower, View, State, start, save, same_term, same_role, enter, set_count,
  on_leader, on_follower, step, finish, parse_log_file, timestamp_of, leader_match, follower_match,
}
use frugal_leader_election.Views.Shape.{
  IsValid, enter-IsValid, on_leader-Succeeds, step-Succeeds, for_each-Succeeds, start-IsValid,
}

-- The heartbeats of the follower views.
abbrev pub of_follower : View → ℕ
of_follower v = elim v.role [ leader ↦ 0 | follower ↦ v.heartbeat_count ]

abbrev pub follower_heartbeats : List View → ℕ
follower_heartbeats [] = 0
follower_heartbeats (v ∷ vs) = of_follower v + follower_heartbeats vs

-- The line has a time stamp and reports a heartbeat that a follower received.
abbrev pub is_received : Text → Bool
is_received line = is_some (timestamp_of line) && is_some (follower_match line)

follower_heartbeats-append :
    (vs : List View) (w : View)
    → follower_heartbeats (vs ++ (w ∷ [])) ≡ follower_heartbeats vs + of_follower w
follower_heartbeats-append [] w = omega arith
follower_heartbeats-append (v ∷ vs) w = omega (arith, follower_heartbeats-append vs w)

abbrev fresh : Role → ℕ → List View → View
fresh role term vs = record {
  view_number = length vs + 1;
  role = role;
  term = term;
  heartbeat_count = 0;
}

of_follower-fresh : (role : Role) (term : ℕ) (vs : List View) → of_follower (fresh role term vs) ≡ 0
of_follower-fresh leader term vs = refl
of_follower-fresh follower term vs = refl

-- The heartbeats counted so far.
abbrev so_far : State → ℕ
so_far s = follower_heartbeats (save s.views s.current_view)

-- A view that begins has no heartbeats yet.
so_far-enter : (role : Role) (term : ℕ) (s : State) → so_far (enter role term s) ≡ so_far s
unfolding enter
so_far-enter role term s =
    elim (Bool-cases (same_term s.current_term term && same_role s.current_role role)) [
      | inl same ↦ rw (same, enter) refl
      | inr other ↦
          rw (other, enter)
            (follower_heartbeats-append (save s.views s.current_view)
                (fresh role term (save s.views s.current_view))
              ∙ omega (arith, of_follower-fresh role term (save s.views s.current_view)))
    ]

abbrev recount : (ℕ → ℕ) → View → View
recount f v = record v { heartbeat_count = f v.heartbeat_count }

-- After a write the count of the current view has changed, and nothing else.
so_far-set_count :
    (f : ℕ → ℕ) (s : State) {v : View} {t : State}
    → s.current_view ≡ some v
    → set_count f s ≡ ok t
    → so_far t + of_follower v ≡ so_far s + of_follower (recount f v)
unfolding set_count
so_far-set_count f s {v} {t} e h =
    let written : ok (record s { current_view = some (recount f v) }) ≡ ok t =
      rw (e, set_count) at h in
    let t_is : record s { current_view = some (recount f v) } ≡ t = cc in
    rw (← t_is, e)
      (omega (
        arith,
        follower_heartbeats-append s.views v,
        follower_heartbeats-append s.views (recount f v),
      ))

of_follower_leader : (v : View) → v.role ≡ leader → of_follower v ≡ 0
of_follower_leader v e = ground arith

of_follower_follower : (v : View) → v.role ≡ follower → of_follower v ≡ v.heartbeat_count
of_follower_follower v e = ground arith

so_far-on_leader :
    (o : Option (ℕ × ℕ)) (s : State) {t : State}
    → IsValid s
    → on_leader o s ≡ ok t
    → so_far t ≡ so_far s
unfolding on_leader
so_far-on_leader none s valid h = ap so_far (sym (ok-injective h))
so_far-on_leader (some (id, term)) s {t} valid h =
    let (v, e, r, q) = (enter-IsValid leader term s valid).1 in
    omega (
      arith,
      so_far-set_count (λ n. max n id) (enter leader term s) e h,
      so_far-enter leader term s,
      of_follower_leader v r,
      of_follower_leader (recount (λ n. max n id) v) r,
    )

so_far-on_follower :
    (o : Option ℕ) (s : State) {t : State}
    → IsValid s
    → on_follower o s ≡ ok t
    → so_far t ≡ so_far s + (if is_some o then 1 else 0)
unfolding on_follower
so_far-on_follower none s valid h = ap so_far (sym (ok-injective h)) ∙ omega arith
so_far-on_follower (some term) s {t} valid h =
    let (v, e, r, q) = (enter-IsValid follower term s valid).1 in
    omega (
      arith,
      so_far-set_count (λ n. n + 1) (enter follower term s) e h,
      so_far-enter follower term s,
      of_follower_follower v r,
      of_follower_follower (recount (λ n. n + 1) v) r,
    )

so_far-step :
    (s : State) (line : Text) {t : State}
    → IsValid s
    → step s line ≡ ok t
    → so_far t ≡ so_far s + (if is_received line then 1 else 0)
unfolding step
so_far-step s line {t} valid h = elim (Option-cases (timestamp_of line)) [
  | inl skipped ↦
      let same : ok s ≡ ok t = rw (skipped, step) at h in
      rw skipped (ap so_far (sym (ok-injective same)) ∙ omega arith)
  | inr (d, stamped) ↦
      let (u, p, w) = on_leader-Succeeds (leader_match line) s valid in
      let next : on_follower (follower_match line) u ≡ ok t = rw (stamped, step, p) at h in
      rw stamped (
        omega (
          arith,
          so_far-on_leader (leader_match line) s valid p,
          so_far-on_follower (follower_match line) u w next,
        ))
]

so_far-for_each :
    (lines : List Text) (s : State) {t : State}
    → IsValid s
    → for_each step s lines ≡ ok t
    → so_far t ≡ so_far s + count is_received lines
so_far-for_each [] s valid h = ap so_far (sym (ok-injective (rw for_each-nil at h))) ∙ omega arith
so_far-for_each (line ∷ lines) s {t} valid h =
    let (u, p, w) = step-Succeeds s line valid in
    let next : for_each step u lines ≡ ok t = rw (for_each-cons, p) at h in
    omega (arith, so_far-step s line valid p, so_far-for_each lines u w next)

-- The heartbeats of all follower views together are the lines with a time stamp that report a
-- received heartbeat: none is lost where a view ends, and none is counted twice.
pub parse_log_file-follower_heartbeats :
    (lines : List Text)
    → (vs : List View) × (parse_log_file lines ≡ ok vs)
      × (follower_heartbeats vs ≡ count is_received lines)
unfolding parse_log_file finish
parse_log_file-follower_heartbeats lines =
    let (s, p, v) = for_each-Succeeds lines start start-IsValid in
    (
      finish s,
      rw (p, parse_log_file) refl,
      so_far-for_each lines start start-IsValid p ∙ omega arith,
    )
