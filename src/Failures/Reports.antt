-- ===== src/Failures/Reports.antt =====
-- What the two loops find.
use frugal_leader_election.Base.{
  ℕ, ◌≡◌, refl, ap, sym, ◌∙◌, inl, inr, Option, none, some, List, [], ◌∷◌, ◌++◌, Text, ltb,
  Option-cases, Bool-cases, if◌then◌else◌,
}
use mathlib.Core.List.{foldl}
use mathlib.Core.Option.{or_else}
use frugal_leader_election.Time.{Datetime}
use frugal_leader_election.Durations.{stamp_at_start}
use frugal_leader_election.Failures.{
  failures_match, note_last, last_heartbeat_failure, occurrence_match, note_occurrence,
  failure_occurrences,
}

-- The report of a line that has a time stamp from the cutoff time on.
abbrev pub report_of : Datetime → Text → Option (ℕ × ℕ)
report_of cutoff_time line = elim (stamp_at_start line) [
  | none ↦ none
  | some t ↦ if ltb t cutoff_time then none else failures_match line
]

abbrev pub last_report : Datetime → List Text → Option (ℕ × ℕ)
last_report cutoff_time [] = none
last_report cutoff_time (line ∷ lines) =
    or_else (last_report cutoff_time lines) (report_of cutoff_time line)

-- The occurrences that the lines report from the cutoff time on, in their order.
abbrev pub occurrences : Datetime → List Text → List (Datetime × ℕ)
occurrences cutoff_time [] = []
occurrences cutoff_time (line ∷ lines) = elim (occurrence_match line) [
  | none ↦ occurrences cutoff_time lines
  | some o ↦
      if ltb o.0 cutoff_time
      then occurrences cutoff_time lines
      else o ∷ occurrences cutoff_time lines
]

append_assoc :
    (xs : List (Datetime × ℕ)) (o : Datetime × ℕ) (ys : List (Datetime × ℕ))
    → (xs ++ (o ∷ [])) ++ ys ≡ xs ++ (o ∷ ys)
append_assoc [] o ys = refl
append_assoc (x ∷ xs) o ys = ap (λ zs. x ∷ zs) (append_assoc xs o ys)

append_nil : (xs : List (Datetime × ℕ)) → xs ≡ xs ++ []
append_nil [] = refl
append_nil (x ∷ xs) = ap (λ zs. x ∷ zs) (append_nil xs)

or_else_assoc : (a b c : Option (ℕ × ℕ)) → or_else (or_else a b) c ≡ or_else a (or_else b c)
unfolding or_else
or_else_assoc none b c = refl
or_else_assoc (some x) b c = refl

note_last-report_of :
    (cutoff_time : Datetime) (line : Text) (last : Option (ℕ × ℕ))
    → note_last cutoff_time (stamp_at_start line) line last
      ≡ or_else (report_of cutoff_time line) last
unfolding note_last or_else
note_last-report_of cutoff line last = elim (Option-cases (stamp_at_start line)) [
  | inl e ↦ rw (e, note_last, report_of) refl
  | inr (t, e) ↦
      rw (e, note_last, report_of)
        (elim (Bool-cases (ltb t cutoff)) [
          | inl early ↦ rw early refl
          | inr late ↦ rw late (elim (Option-cases (failures_match line)) [
            | inl f ↦ rw f refl
            | inr (r, f) ↦ rw f refl
          ])
        ])
]

last_heartbeat_failure-loop :
    (cutoff_time : Datetime) (lines : List Text) (last : Option (ℕ × ℕ))
    → foldl (λ l line. note_last cutoff_time (stamp_at_start line) line l) last lines
      ≡ or_else (last_report cutoff_time lines) last
unfolding or_else
last_heartbeat_failure-loop cutoff [] last = refl
last_heartbeat_failure-loop cutoff (line ∷ lines) last =
    last_heartbeat_failure-loop cutoff lines _
    ∙ ap (or_else (last_report cutoff lines)) (note_last-report_of cutoff line last)
    ∙ sym (or_else_assoc (last_report cutoff lines) (report_of cutoff line) last)

or_none : (o : Option (ℕ × ℕ)) → or_else o none ≡ o
unfolding or_else
or_none none = refl
or_none (some x) = refl

-- `extract_last_heartbeat_failure` finds the report of the last line that has one, among the lines
-- with a time stamp from the cutoff time on.
pub last_heartbeat_failure-report :
    (cutoff_time : Datetime) (lines : List Text)
    → last_heartbeat_failure cutoff_time lines ≡ last_report cutoff_time lines
unfolding last_heartbeat_failure
last_heartbeat_failure-report cutoff lines =
    last_heartbeat_failure-loop cutoff lines none ∙ or_none (last_report cutoff lines)

failure_occurrences-loop :
    (cutoff_time : Datetime) (lines : List Text) (found : List (Datetime × ℕ))
    → foldl (note_occurrence cutoff_time) found lines ≡ found ++ occurrences cutoff_time lines
unfolding note_occurrence
failure_occurrences-loop cutoff [] found = append_nil found
failure_occurrences-loop cutoff (line ∷ lines) found = elim (Option-cases (occurrence_match line)) [
  | inl e ↦ rw (e, note_occurrence, occurrences) (failure_occurrences-loop cutoff lines found)
  | inr (o, e) ↦ elim (Bool-cases (ltb o.0 cutoff)) [
    | inl early ↦
        rw (e, note_occurrence, occurrences)
          (rw early (failure_occurrences-loop cutoff lines found))
    | inr late ↦
        rw (e, note_occurrence, occurrences)
          (rw late (
            failure_occurrences-loop cutoff lines (found ++ (o ∷ []))
            ∙ append_assoc found o (occurrences cutoff lines)))
  ]
]

-- `plot_failure_occurrences` finds the time and failures of every line that reports them from the
-- cutoff time on, in the order of the lines.
failure_occurrences-reports :
    (cutoff_time : Datetime) (lines : List Text)
    → failure_occurrences cutoff_time lines ≡ occurrences cutoff_time lines
unfolding failure_occurrences
failure_occurrences-reports cutoff lines = failure_occurrences-loop cutoff lines []
