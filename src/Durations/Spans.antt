-- ===== src/Durations/Spans.antt =====
-- The spans that come out follow each other without a gap, in turns of the two roles.
use frugal_leader_election.Base.{
  ◌≡◌, ◌≢◌, refl, sym, ◌∙◌, inl, inr, Bool, true, false, Option, none, some, List, [], ◌∷◌, ◌++◌,
  Text, ltb, Bool-cases, Option-cases, is_some,
}
use frugal_leader_election.Base.Int.{pos}
use frugal_leader_election.Base.Result.{
  ok, for_each, for_each-nil, for_each-cons, ok-injective, >>=-eq-ok,
}
use mathlib.Core.Bool.{false≢true}
use frugal_leader_election.Time.{Datetime, minus, plus, seconds}
use frugal_leader_election.Views.{Role, leader, follower, role_eq, timestamp_of}
use frugal_leader_election.Durations.{
  Span, Loop, start, close, change_to, role_shown, role_change, count_heartbeat, has_heartbeat,
  body, at_time, finish, stamp_at_start, view_step, view_durations, plot_step, parse_plot_log,
}

-- The next span begins where the one before ends, and is in the other role.
abbrev pub Follows : Option Span → Role → Datetime → Type 0
Follows none role t = Unit
Follows (some v) role t = (v.end_time ≡ t) × (v.role ≢ role)

-- A chain of spans, each with its true duration.
abbrev pub Chain : Option Span → List Span → Type 0
Chain prev [] = Unit
Chain prev (v ∷ vs) =
    Follows prev v.role v.start_time
    × (v.duration ≡ minus v.end_time v.start_time)
    × Chain (some v) vs

abbrev pub last_span : Option Span → List Span → Option Span
last_span prev [] = prev
last_span prev (v ∷ vs) = last_span (some v) vs

Chain-append :
    (prev : Option Span) (vs : List Span) (w : Span)
    → Chain prev vs
    → Follows (last_span prev vs) w.role w.start_time
    → w.duration ≡ minus w.end_time w.start_time
    → Chain prev (vs ++ (w ∷ []))
Chain-append prev [] w c f d = (f, d, tt)
Chain-append prev (v ∷ vs) w c f d = (c.0, c.1, Chain-append (some v) vs w c.2 f d)

last_span-append :
    (prev : Option Span) (vs : List Span) (w : Span) → last_span prev (vs ++ (w ∷ [])) ≡ some w
last_span-append prev [] w = refl
last_span-append prev (v ∷ vs) w = last_span-append (some v) vs w

abbrev pub OpenFits : List Span → Option Datetime → Option (Role × Datetime) → Type 0
OpenFits vs t none = vs ≡ []
OpenFits vs t (some (role, since)) = Follows (last_span none vs) role since × (is_some t ≡ true)

pub record IsValid (s : Loop) : Type 0 where
  pub chain : Chain none s.views
  pub open_fits : OpenFits s.views s.timestamp s.current_view

role_eq-false : (r q : Role) → role_eq r q ≡ false → r ≢ q
role_eq-false leader leader h e = cc
role_eq-false leader follower h e = cc
role_eq-false follower leader h e = cc
role_eq-false follower follower h e = cc

change_to-IsValid :
    (role : Role) (t : Datetime) (s : Loop)
    → is_some s.timestamp ≡ true
    → IsValid s
    → IsValid (change_to role t s)
unfolding change_to
change_to-IsValid role t s k v = elim (Option-cases s.current_view) [
  | inl e ↦
      let empty : s.views ≡ [] = rw e at v.open_fits in
      rw (e, change_to) (record { chain = v.chain; open_fits = (rw empty tt, k) })
  | inr ((r, since), e) ↦
      let fits : OpenFits s.views s.timestamp (some (r, since)) = rw e at v.open_fits in
      elim (Bool-cases (role_eq r role)) [
        | inl same ↦ rw (e, change_to, same) v
        | inr other ↦
            rw (e, change_to, other)
              (record {
                chain = Chain-append none s.views _ v.chain fits.0 refl;
                open_fits = (rw last_span-append (refl, role_eq-false r role other), k);
              })
      ]
]

role_change-IsValid :
    (o : Option Role) (t : Datetime) (s : Loop)
    → is_some s.timestamp ≡ true
    → IsValid s
    → IsValid (role_change o t s)
role_change-IsValid none t s k v = v
role_change-IsValid (some role) t s k v = change_to-IsValid role t s k v

count_heartbeat-IsValid : (b : Bool) (s : Loop) → IsValid s → IsValid (count_heartbeat b s)
unfolding count_heartbeat
count_heartbeat-IsValid b s v = elim (Option-cases s.current_view) [
  | inl e ↦ rw (e, count_heartbeat) v
  | inr (o, e) ↦ rw (e, count_heartbeat) (record { chain = v.chain; open_fits = v.open_fits })
]

-- A new time stamp does not touch the views.
stamped-IsValid : (t : Datetime) (s : Loop) → IsValid s → IsValid (record s { timestamp = some t })
stamped-IsValid t s v = record { chain = v.chain; open_fits = go s.current_view v.open_fits }
  where
    go :
        (o : Option (Role × Datetime))
        → OpenFits s.views s.timestamp o
        → OpenFits s.views (some t) o
    go none f = f
    go (some (r, since)) f = (f.0, refl)

at_time-IsValid :
    (cutoff t : Datetime) (line : Text) (s : Loop) → IsValid s → IsValid (at_time cutoff t line s)
unfolding at_time body
at_time-IsValid cutoff t line s v =
    let seen : Loop = record s { timestamp = some t } in
    let w : IsValid seen = stamped-IsValid t s v in
    elim (Bool-cases (ltb t cutoff)) [
      | inl early ↦ rw (early, at_time) w
      | inr late ↦
          rw (late, at_time)
            (count_heartbeat-IsValid (has_heartbeat line) _
              (role_change-IsValid (role_shown line) t seen refl w))
    ]

view_loop :
    (cutoff : Datetime) (lines : List Text) (s : Loop)
    → IsValid s
    → (u : Loop) × (for_each (view_step cutoff) s lines ≡ ok u) × IsValid u
unfolding view_step
view_loop cutoff [] s v = (s, rw for_each-nil refl, v)
view_loop cutoff (line ∷ lines) s v = elim (Option-cases (stamp_at_start line)) [
  | inl skipped ↦
      let (u, p, w) = view_loop cutoff lines s v in (u, rw (for_each-cons, view_step, skipped) p, w)
  | inr (t, stamped) ↦
      let (u, p, w) =
        view_loop cutoff lines (at_time cutoff t line s) (at_time-IsValid cutoff t line s v) in
      (u, rw (for_each-cons, view_step, stamped) p, w)
]

moved : {a r : Option Datetime × Loop} → ok a ≡ ok r → IsValid a.1 → IsValid r.1
moved h v = rw (← ok-injective h) v

plot_step-IsValid :
    (line : Text) (c : Option Datetime) (s : Loop) {r : Option Datetime × Loop}
    → IsValid s
    → plot_step (c, s) line ≡ ok r
    → IsValid r.1
unfolding plot_step
plot_step-IsValid line none s {r} v h = elim (Option-cases (timestamp_of line)) [
  | inl skipped ↦ moved (rw (plot_step, skipped) at h) v
  | inr (t, stamped) ↦
      let (cutoff, p, q) =
        >>=-eq-ok (plus t (seconds (pos 30)))
          (λ (cutoff : Datetime). ok (some cutoff, record s { timestamp = some t }))
          (rw (plot_step, stamped) at h) in
      moved q (stamped-IsValid t s v)
]
plot_step-IsValid line (some cutoff) s {r} v h = elim (Option-cases (timestamp_of line)) [
  | inl skipped ↦ moved (rw (plot_step, skipped) at h) v
  | inr (t, stamped) ↦ moved (rw (plot_step, stamped) at h) (at_time-IsValid cutoff t line s v)
]

plot_loop :
    (lines : List Text) (c : Option Datetime) (s : Loop) {r : Option Datetime × Loop}
    → IsValid s
    → for_each plot_step (c, s) lines ≡ ok r
    → IsValid r.1
plot_loop [] c s {r} v h = rw (← ok-injective (rw for_each-nil at h)) v
plot_loop (line ∷ lines) c s {r} v h =
    let ((c', s'), p, q) = >>=-eq-ok (plot_step (c, s) line) _ (rw for_each-cons at h) in
    plot_loop lines c' s' (plot_step-IsValid line c s v p) q

start-IsValid : IsValid start
start-IsValid = record { chain = tt; open_fits = refl }

finish-Chain : (s : Loop) → IsValid s → (vs : List Span) × (finish s ≡ ok vs) × Chain none vs
unfolding finish
finish-Chain s v = elim (Option-cases s.current_view) [
  | inl e ↦ (s.views, rw (e, finish) refl, v.chain)
  | inr ((r, since), e) ↦
      let fits : OpenFits s.views s.timestamp (some (r, since)) = rw e at v.open_fits in
      elim (Option-cases s.timestamp) [
        | inl missing ↦ absurd (false≢true (rw missing at fits.1))
        | inr (t, q) ↦ (
          s.views ++ (close (r, since) t s.heartbeat_count ∷ []),
          rw (e, q, finish) refl,
          Chain-append none s.views _ v.chain fits.0 refl,
        )
      ]
]

-- scripts/extract_failure.py finds its views for every log and cutoff without an exception. Each
-- view is in another role than the one before and begins where that one ends, and its duration is
-- the time between its ends.
pub view_durations-Chain :
    (cutoff_time : Datetime) (lines : List Text)
    → (vs : List Span) × (view_durations cutoff_time lines ≡ ok vs) × Chain none vs
unfolding view_durations
view_durations-Chain cutoff lines =
    let (s, p, v) = view_loop cutoff lines start start-IsValid in
    let (vs, q, c) = finish-Chain s v in (vs, rw (p, view_durations) q, c)

-- The same holds of the views that scripts/parse_plot_log.py returns.
parse_plot_log-Chain :
    (lines : List Text) {vs : List Span} → parse_plot_log lines ≡ ok vs → Chain none vs
unfolding parse_plot_log
parse_plot_log-Chain lines {vs} h =
    let ((c, s), p, q) = >>=-eq-ok (for_each plot_step (none, start) lines) _ h in
    let (ws, r, chain) = finish-Chain s (plot_loop lines none start start-IsValid p) in
    rw (ok-injective (sym r ∙ q)) at chain
