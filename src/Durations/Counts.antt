-- ===== src/Durations/Counts.antt =====
-- The heartbeats of the spans: every heartbeat from the first view on is in one of them.
use frugal_leader_election.Base.{
  ℕ, ◌+◌, ◌≡◌, refl, sym, ◌∙◌, inl, inr, Bool, true, false, Option, none, some, List, [], ◌∷◌, ◌++◌,
  arith, Text, if◌then◌else◌, ltb, Bool-cases, Option-cases, is_some,
}
use frugal_leader_election.Base.Result.{
  ok, for_each, for_each-nil, for_each-cons, ok-injective, >>=-eq-ok, err-ne-ok,
}
use mathlib.Core.Bool.{false≢true}
use frugal_leader_election.Time.{Datetime}
use frugal_leader_election.Views.{Role, role_eq}
use frugal_leader_election.Durations.{
  Span, Loop, start, close, change_to, role_shown, role_change, count_heartbeat, has_heartbeat,
  body, at_time, finish, stamp_at_start, view_step, view_durations,
}

-- The heartbeats of the spans.
abbrev pub heartbeats : List Span → ℕ
heartbeats [] = 0
heartbeats (v ∷ vs) = v.heartbeat_count + heartbeats vs

-- The heartbeats that a line with this time stamp and those behind it report. `open_view` says
-- whether some line has shown a role, and `rest` is the number behind the line.
abbrev pub reported_at : Datetime → Text → Option Datetime → Bool → (Bool → ℕ) → ℕ
reported_at cutoff line none open_view rest = rest open_view
reported_at cutoff line (some t) open_view rest =
    let in_view = (if open_view then true else is_some (role_shown line)) in
    if ltb t cutoff
    then rest open_view
    else (if in_view then (if has_heartbeat line then 1 else 0) else 0) + rest in_view

-- The heartbeats that the lines behind the cutoff report, from the first of them on that shows
-- a role.
abbrev pub reported : Datetime → List Text → Bool → ℕ
reported cutoff [] open_view = 0
reported cutoff (line ∷ lines) open_view =
    reported_at cutoff line (stamp_at_start line) open_view (reported cutoff lines)

heartbeats-append :
    (vs : List Span) (w : Span) → heartbeats (vs ++ (w ∷ [])) ≡ heartbeats vs + w.heartbeat_count
heartbeats-append [] w = omega arith
heartbeats-append (v ∷ vs) w = omega (arith, heartbeats-append vs w)

-- The heartbeats in the variables of the loop. None are counted before a view begins.
abbrev so_far : Loop → ℕ
so_far s = heartbeats s.views + s.heartbeat_count

so_far-role_change :
    (o : Option Role) (t : Datetime) (s : Loop)
    → (so_far (role_change o t s) ≡ so_far s)
      × (is_some (role_change o t s).current_view
          ≡ (if is_some s.current_view then true else is_some o))
unfolding change_to
so_far-role_change none t s = ground arith
so_far-role_change (some role) t s = elim (Option-cases s.current_view) [
  | inl e ↦ rw (e, change_to) (refl, refl)
  | inr ((r, since), e) ↦ elim (Bool-cases (role_eq r role)) [
    | inl same ↦ rw (e, change_to, same) (refl, rw e refl)
    | inr other ↦
        rw (e, change_to, other)
          (omega (arith, heartbeats-append s.views (close (r, since) t s.heartbeat_count)), refl)
  ]
]

so_far-count_heartbeat :
    (b : Bool) (s : Loop)
    → (so_far (count_heartbeat b s)
        ≡ so_far s + (if is_some s.current_view then (if b then 1 else 0) else 0))
      × (is_some (count_heartbeat b s).current_view ≡ is_some s.current_view)
unfolding count_heartbeat
so_far-count_heartbeat b s = elim (Option-cases s.current_view) [
  | inl e ↦ rw (e, count_heartbeat) (omega arith, rw e refl)
  | inr (o, e) ↦ elim (Bool-cases b) [
    | inl beat ↦ rw (e, count_heartbeat, beat) (omega arith, rw e refl)
    | inr still ↦ rw (e, count_heartbeat, still) (omega arith, rw e refl)
  ]
]

-- Without a view there is no heartbeat in the counter.
abbrev Quiet : Loop → Type 0
Quiet s = is_some s.current_view ≡ false → s.heartbeat_count ≡ 0

Quiet-change_to :
    (role : Role) (t : Datetime) (s : Loop) → is_some (change_to role t s).current_view ≡ true
unfolding change_to
Quiet-change_to role t s = ground arith

Quiet-role_change :
    (o : Option Role) (t : Datetime) (s : Loop) → Quiet s → Quiet (role_change o t s)
Quiet-role_change none t s q = q
Quiet-role_change (some role) t s q = λ h. absurd (false≢true (sym h ∙ Quiet-change_to role t s))

Quiet-count_heartbeat : (b : Bool) (s : Loop) → Quiet s → Quiet (count_heartbeat b s)
unfolding count_heartbeat
Quiet-count_heartbeat b s q = ground arith

Quiet-at_time :
    (cutoff t : Datetime) (line : Text) (s : Loop) → Quiet s → Quiet (at_time cutoff t line s)
unfolding at_time body
Quiet-at_time cutoff t line s q = elim (Bool-cases (ltb t cutoff)) [
  | inl early ↦ rw (early, at_time) q
  | inr late ↦
      rw (late, at_time)
        (Quiet-count_heartbeat (has_heartbeat line) _
          (Quiet-role_change (role_shown line) t (record s { timestamp = some t }) q))
]

-- What one line behind the cutoff adds.
so_far-body :
    (t : Datetime) (line : Text) (s : Loop)
    → let in_view = (if is_some s.current_view then true else is_some (role_shown line)) in
      (so_far (body t line s)
        ≡ so_far s + (if in_view then (if has_heartbeat line then 1 else 0) else 0))
      × (is_some (body t line s).current_view ≡ in_view)
unfolding body
so_far-body t line s =
    let (sum, shown) = so_far-role_change (role_shown line) t s in
    let (sum', shown') =
      so_far-count_heartbeat (has_heartbeat line) (role_change (role_shown line) t s) in
    (sum' ∙ (rw (sum, shown) refl), shown' ∙ shown)

reported_at_lem :
    (cutoff t : Datetime) (line : Text) (s : Loop) (rest : Bool → ℕ)
    → so_far (at_time cutoff t line s) + rest (is_some (at_time cutoff t line s).current_view)
      ≡ so_far s + reported_at cutoff line (some t) (is_some s.current_view) rest
unfolding at_time
reported_at_lem cutoff t line s rest =
    let (sum, shown) = so_far-body t line (record s { timestamp = some t }) in
    elim (Bool-cases (ltb t cutoff)) [
      | inl early ↦ rw (early, at_time) refl
      | inr late ↦ rw (late, at_time, sum, shown) (omega arith)
    ]

view_loop :
    (cutoff : Datetime) (lines : List Text) (s : Loop) {u : Loop}
    → for_each (view_step cutoff) s lines ≡ ok u
    → Quiet s
    → (so_far u ≡ so_far s + reported cutoff lines (is_some s.current_view)) × Quiet u
unfolding view_step
view_loop cutoff [] s h q = rw (← ok-injective (rw for_each-nil at h)) (omega arith, q)
view_loop cutoff (line ∷ lines) s {u} h q = elim (Option-cases (stamp_at_start line)) [
  | inl skipped ↦
      rw (skipped, reported)
        (view_loop cutoff lines s (rw (for_each-cons, view_step, skipped) at h) q)
  | inr (t, stamped) ↦
      let (sum, quiet) =
        view_loop cutoff lines (at_time cutoff t line s)
          (rw (for_each-cons, view_step, stamped) at h) (Quiet-at_time cutoff t line s q) in
      rw (stamped, reported) (sum ∙ reported_at_lem cutoff t line s (reported cutoff lines), quiet)
]

heartbeats-finish :
    (s : Loop) (vs : List Span) → Quiet s → finish s ≡ ok vs → heartbeats vs ≡ so_far s
unfolding finish
heartbeats-finish s vs q h = elim (Option-cases s.current_view) [
  | inl e ↦ rw (← ok-injective (rw (e, finish) at h)) (omega (arith, q (rw e refl)))
  | inr (o, e) ↦ elim (Option-cases s.timestamp) [
    | inl missing ↦ absurd (err-ne-ok (rw (e, missing, finish) at h))
    | inr (t, stamped) ↦
        rw (← ok-injective (rw (e, stamped, finish) at h))
          (heartbeats-append s.views (close o t s.heartbeat_count))
  ]
]

-- The heartbeats of all the views that scripts/extract_failure.py plots are those that the lines
-- behind the cutoff report, from the first of these lines on that shows a role.
pub view_durations-heartbeats :
    (cutoff_time : Datetime) (lines : List Text) {vs : List Span}
    → view_durations cutoff_time lines ≡ ok vs
    → heartbeats vs ≡ reported cutoff_time lines false
unfolding view_durations
view_durations-heartbeats cutoff lines {vs} h =
    let (s, p, f) = >>=-eq-ok (for_each (view_step cutoff) start lines) finish h in
    let (sum, quiet) = view_loop cutoff lines start p (λ _. refl) in
    heartbeats-finish s vs quiet f ∙ sum ∙ omega arith
