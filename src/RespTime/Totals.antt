-- ===== src/RespTime/Totals.antt =====
-- The numbers of the report fit together.
use frugal_leader_election.Base.{
  ℕ, ◌+◌, ◌≤◌, ◌≡◌, refl, ap, ◌∙◌, inl, inr, false, Option, none, some, List, [], ◌∷◌, arith, Text,
  length, length-append, Option-cases, Bool-cases, is_some, if◌then◌else◌,
}
use frugal_leader_election.Base.Dict.{Dict, total, total-update}
use frugal_leader_election.Base.Equality.{nat_eq, list_eq}
use frugal_leader_election.Base.Result.{
  Result, ok, err, ◌>>=◌, or_raise, value_error, for_each, for_each-nil, for_each-cons,
  ok-injective, err-ne-ok, >>=-eq-ok,
}
use frugal_leader_election.Regex.{find, group_of}
use frugal_leader_election.Time.{Datetime, minus}
use frugal_leader_election.RespTime.{
  parse_timestamp, rcv_re, begin_leader_re, end_leader_re, Section, no_section, State, start,
  add_section, close_section, note_time, begin_section, end_section, push_latency, commit, is_one,
  on_response, on_end, on_line, step, Report, close_last, report, guarded, analyze,
}

-- The commits of all sections.
abbrev pub section_total : Dict Text Section → ℕ
section_total = total (λ (s : Section). s.commits)

module _ {F : Type 0} where
  -- The samples of all leaders.
  abbrev pub samples : Dict Text (List F) → ℕ
  samples = total (λ (xs : List F). length xs)

  -- Each commit gave one latency, in all and for one leader; a section has only commits of its own.
  pub record IsValid (s : State F) : Type 0 where
    pub overall : length s.overall_latencies ≡ s.successful_commits
    pub split : samples s.per_leader_latencies ≡ s.successful_commits
    pub sectioned : section_total s.leader_throughput + s.section_commits ≤ s.successful_commits
    pub outside : is_some s.active ≡ false → s.section_commits ≡ 0

  start-IsValid : IsValid (start {F = F})
  start-IsValid = record {
    overall = refl;
    split = refl;
    sectioned = omega arith;
    outside = λ _. refl;
  }

  -- Closing a section moves its commits into the table.
  section_total-close_section :
      (t : Datetime) (s : State F)
      → IsValid s
      → section_total (close_section t s) ≡ section_total s.leader_throughput + s.section_commits
  unfolding close_section
  section_total-close_section t s v = elim (Option-cases s.active) [
    | inl e ↦ rw (e, close_section) (omega (arith, v.outside (rw e refl)))
    | inr (a, e) ↦
        rw (e, close_section)
          (total-update (λ (x : Section). x.commits) a.0 no_section
            (add_section s.section_commits (minus t a.1)) s.section_commits s.leader_throughput refl
            (λ w. refl))
  ]

  note_time-IsValid : (o : Option Datetime) (s : State F) → IsValid s → IsValid (note_time o s)
  unfolding note_time
  note_time-IsValid none s v = v
  note_time-IsValid (some t) s v = record {
    overall = v.overall;
    split = v.split;
    sectioned = v.sectioned;
    outside = v.outside;
  }

  begin_section-IsValid :
      (l : Text) (t : Datetime) (s : State F) → IsValid s → IsValid (begin_section l t s)
  unfolding begin_section
  begin_section-IsValid l t s v = record {
    overall = v.overall;
    split = v.split;
    sectioned = omega (arith, section_total-close_section t s v, v.sectioned);
    outside = λ _. refl;
  }

  end_section-IsValid : (t : Datetime) (s : State F) → IsValid s → IsValid (end_section t s)
  unfolding end_section
  end_section-IsValid t s v = record {
    overall = v.overall;
    split = v.split;
    sectioned = omega (arith, section_total-close_section t s v, v.sectioned);
    outside = λ _. refl;
  }

  commit-IsValid : (l : Text) (x : F) (s : State F) → IsValid s → IsValid (commit l x s)
  unfolding commit
  commit-IsValid l x s v = record {
    overall = omega (arith, length-append s.overall_latencies (x ∷ []), v.overall);
    split =
        total-update (λ (xs : List F). length xs) l [] (push_latency x) 1 s.per_leader_latencies
          refl (λ w. length-append w (x ∷ []))
        ∙ ap (λ (n : ℕ). n + 1) v.split;
    sectioned = ground (arith, v.sectioned);
    outside = λ h. rw h (v.outside h);
  }

module _ {F : Type 0} (float : Text → Option F) where
  on_response-IsValid :
      (line : Text) (s : State F) {t : State F}
      → IsValid s
      → on_response float line s ≡ ok t
      → IsValid t
  unfolding on_response
  on_response-IsValid line s v h = elim (Option-cases (find rcv_re line)) [
    | inl e ↦ rw (← ok-injective (rw (e, on_response) at h)) v
    | inr (m, e) ↦ go m (rw (e, on_response) at h)
  ]
    where
      go :
          (m : _) {t : State F}
          → (or_raise (float (group_of 1 m)) value_error >>= (λ latency_ms.
              ok (if is_one (group_of 2 m) then commit (group_of 3 m) latency_ms s else s)))
            ≡ ok t
          → IsValid t
      go m h =
          let (x, e, g) = (>>=-eq-ok (or_raise (float (group_of 1 m)) value_error) _ h) in
          elim (Bool-cases (is_one (group_of 2 m))) [
            | inl b ↦ rw (← ok-injective (rw b at g)) (commit-IsValid (group_of 3 m) x s v)
            | inr b ↦ rw (← ok-injective (rw b at g)) v
          ]

  on_end-IsValid :
      (o : Option Datetime) (line : Text) (s : State F) {t : State F}
      → IsValid s
      → on_end float o line s ≡ ok t
      → IsValid t
  unfolding on_end
  on_end-IsValid none line s v h = on_response-IsValid line s v h
  on_end-IsValid (some d) line s v h = elim (Option-cases (find end_leader_re line)) [
    | inl e ↦ on_response-IsValid line s v (rw (e, on_end) at h)
    | inr (m, e) ↦ elim (Option-cases s.active) [
      | inl a ↦ on_response-IsValid line s v (rw (e, a, on_end) at h)
      | inr (_, a) ↦ rw (← ok-injective (rw (e, a, on_end) at h)) (end_section-IsValid d s v)
    ]
  ]

  on_line-IsValid :
      (o : Option Datetime) (line : Text) (s : State F) {t : State F}
      → IsValid s
      → on_line float o line s ≡ ok t
      → IsValid t
  unfolding on_line
  on_line-IsValid none line s v h = on_end-IsValid none line s v h
  on_line-IsValid (some d) line s v h = elim (Option-cases (find begin_leader_re line)) [
    | inl e ↦ on_end-IsValid (some d) line s v (rw (e, on_line) at h)
    | inr (m, e) ↦
        rw (← ok-injective (rw (e, on_line) at h)) (begin_section-IsValid (group_of 1 m) d s v)
  ]

  step-IsValid :
      (line : Text) (s : State F) {t : State F} → IsValid s → step float s line ≡ ok t → IsValid t
  unfolding step
  step-IsValid line s v h =
      let (o, _, g) = (>>=-eq-ok (parse_timestamp line) _ h) in
      on_line-IsValid o line (note_time o s) (note_time-IsValid o s v) g

  loop-IsValid :
      (lines : List Text) (s : State F) {t : State F}
      → IsValid s
      → for_each (step float) s lines ≡ ok t
      → IsValid t
  loop-IsValid [] s v h = rw (← ok-injective (rw for_each-nil at h)) v
  loop-IsValid (line ∷ lines) s v h =
      let (u, e, g) = (>>=-eq-ok (step float s line) _ (rw for_each-cons at h)) in
      loop-IsValid lines u (step-IsValid line s v e) g

  section_total-close_last :
      (s : State F) → IsValid s → section_total (close_last float s) ≤ s.successful_commits
  unfolding close_last
  section_total-close_last s v = elim (Option-cases s.end_ts) [
    | inl e ↦ rw (e, close_last) (omega (arith, v.sectioned))
    | inr (t, e) ↦
        rw (e, close_last) (omega (arith, section_total-close_section t s v, v.sectioned))
  ]

  report_lem :
      (s : State F) {r : Report F}
      → IsValid s
      → report float s ≡ ok r
      → (length r.latencies ≡ r.committed)
        × (samples r.by_leader ≡ r.committed)
        × (section_total r.sections ≤ r.committed)
  unfolding report
  report_lem s {r} v h = go s.overall_latencies refl
    where
      go :
          (xs : List F)
          → s.overall_latencies ≡ xs
          → (length r.latencies ≡ r.committed)
            × (samples r.by_leader ≡ r.committed)
            × (section_total r.sections ≤ r.committed)
      go [] e = absurd (err-ne-ok (rw (e, report) at h))
      go (x ∷ xs) e =
          rw (← ok-injective (rw (e, report) at h))
            (v.overall, v.split, section_total-close_last s v)

  guarded-eq-ok : (m : Result (State F)) {s : State F} → guarded float m ≡ ok s → m ≡ ok s
  guarded-eq-ok (ok s) h = h
  guarded-eq-ok (err e) h = cc

  -- When `analyze` gives a report, the number of latencies is the number of committed requests,
  -- the latencies of the leaders add up to that number too, and the commits counted in the
  -- leaders' sections of the log add up to at most that number.
  pub analyze-totals :
      (lines : List Text) {r : Report F}
      → analyze float lines ≡ ok r
      → (length r.latencies ≡ r.committed)
        × (samples r.by_leader ≡ r.committed)
        × (section_total r.sections ≤ r.committed)
  unfolding analyze
  analyze-totals lines h =
      let (s, e, g) =
        (>>=-eq-ok (guarded float (for_each (step float) start lines)) (report float) h) in
      report_lem s (loop-IsValid lines start start-IsValid (guarded-eq-ok _ e)) g
