-- ===== src/Views/Shape.antt =====
-- The views that come out: the parse never raises, they are numbered from 1, and neighbours
-- differ in term or role.
use frugal_leader_election.Base.{
  ℕ, suc, ◌+◌, ◌≡◌, ◌≢◌, refl, inl, inr, true, false, ◌&&◌, Option, none, some, List, [], ◌∷◌, ◌++◌,
  arith, Text, length, ◌==◌, max, Bool-cases, Option-cases,
}
use frugal_leader_election.Base.Result.{Result, ok, for_each, for_each-nil, for_each-cons}
use frugal_leader_election.Views.{
  Role, leader, follower, View, State, start, role_eq, save, enter, set_count, on_leader,
  on_follower, step, finish, parse_log_file, timestamp_of, leader_match, follower_match,
}

-- Numbered from `k` on.
abbrev pub NumberedFrom : ℕ → List View → Type 0
NumberedFrom k [] = Unit
NumberedFrom k (v ∷ vs) = (v.view_number ≡ k) × NumberedFrom (suc k) vs

abbrev pub Differs : View → View → Type 0
Differs v w = ¬ ((v.term ≡ w.term) × (v.role ≡ w.role))

abbrev pub DiffersFromLast : Option View → View → Type 0
DiffersFromLast none w = Unit
DiffersFromLast (some v) w = Differs v w

-- Each view differs from the one before; `prev` stands before the first.
abbrev pub Changing : Option View → List View → Type 0
Changing prev [] = Unit
Changing prev (v ∷ vs) = DiffersFromLast prev v × Changing (some v) vs

abbrev pub last_view : Option View → List View → Option View
last_view prev [] = prev
last_view prev (v ∷ vs) = last_view (some v) vs

NumberedFrom-append :
    (k : ℕ) (vs : List View) (w : View)
    → NumberedFrom k vs
    → w.view_number ≡ k + length vs
    → NumberedFrom k (vs ++ (w ∷ []))
NumberedFrom-append k [] w n h = (omega arith, tt)
NumberedFrom-append k (v ∷ vs) w n h = (n.0, NumberedFrom-append (suc k) vs w n.1 (omega arith))

Changing-append :
    (prev : Option View) (vs : List View) (w : View)
    → Changing prev vs
    → DiffersFromLast (last_view prev vs) w
    → Changing prev (vs ++ (w ∷ []))
Changing-append prev [] w c d = (d, tt)
Changing-append prev (v ∷ vs) w c d = (c.0, Changing-append (some v) vs w c.1 d)

last_view-append :
    (prev : Option View) (vs : List View) (w : View) → last_view prev (vs ++ (w ∷ [])) ≡ some w
last_view-append prev [] w = refl
last_view-append prev (v ∷ vs) w = last_view-append (some v) vs w

-- The current view against the views saved and the two variables beside it.
abbrev pub CurrentFits : List View → Option ℕ → Option Role → Option View → Type 0
CurrentFits views term role none = (term ≡ none) × (role ≡ none) × (views ≡ [])
CurrentFits views term role (some v) =
    (term ≡ some v.term)
    × (role ≡ some v.role)
    × (v.view_number ≡ length views + 1)
    × DiffersFromLast (last_view none views) v

pub record IsValid (s : State) : Type 0 where
  pub numbered : NumberedFrom 1 s.views
  pub changing : Changing none s.views
  pub current : CurrentFits s.views s.current_term s.current_role s.current_view

role_eq_lem : (r q : Role) → r ≢ q → role_eq r q ≡ false
role_eq_lem leader leader h = absurd (h refl)
role_eq_lem leader follower h = refl
role_eq_lem follower leader h = refl
role_eq_lem follower follower h = absurd (h refl)

role_eq→eq : (r q : Role) → role_eq r q ≡ true → r ≡ q
role_eq→eq leader leader h = refl
role_eq→eq leader follower h = cc
role_eq→eq follower leader h = cc
role_eq→eq follower follower h = refl

-- The state in which a view of this role and term is current.
abbrev pub IsIn : Role → ℕ → State → Type 0
IsIn role term s = (v : View) × (s.current_view ≡ some v) × (v.role ≡ role) × (v.term ≡ term)

-- A fresh view behind the saved ones.
abbrev fresh : Role → ℕ → List View → View
fresh role term vs = record {
  view_number = length vs + 1;
  role = role;
  term = term;
  heartbeat_count = 0;
}

abbrev anew : Role → ℕ → List View → State
anew role term vs = record {
  views = vs;
  current_view = some (fresh role term vs);
  current_term = some term;
  current_role = some role;
}

anew-IsValid :
    (role : Role) (term : ℕ) (vs : List View)
    → NumberedFrom 1 vs
    → Changing none vs
    → DiffersFromLast (last_view none vs) (fresh role term vs)
    → IsValid (anew role term vs) × IsIn role term (anew role term vs)
anew-IsValid role term vs n c d = (
  record { numbered = n; changing = c; current = (refl, refl, refl, d) },
  (fresh role term vs, refl, refl, refl),
)

-- The test of `enter` on a view that is current.
Differs-of_test :
    (v : View) (role : Role) (term : ℕ) (vs : List View)
    → (v.term == term && role_eq v.role role) ≡ false
    → Differs v (fresh role term vs)
Differs-of_test v role term vs h (p, q) = go v.role role q (rw p at h)
  where
    go : (r q : Role) → r ≡ q → (term == term && role_eq r q) ≡ false → ⊥
    go leader leader e h = ground arith
    go leader follower e h = cc
    go follower leader e h = cc
    go follower follower e h = ground arith

abbrev assemble : List View → Option View → Option ℕ → Option Role → State
assemble vs cv ct cr = record {
  views = vs;
  current_view = cv;
  current_term = ct;
  current_role = cr;
}

enter_parts :
    (role : Role) (term : ℕ) (vs : List View) (cv : Option View) (ct : Option ℕ) (cr : Option Role)
    → NumberedFrom 1 vs
    → Changing none vs
    → CurrentFits vs ct cr cv
    → IsValid (enter role term (assemble vs cv ct cr))
      × IsIn role term (enter role term (assemble vs cv ct cr))
unfolding enter
enter_parts role term vs none ct cr n c (p, q, e) =
    rw (p, enter) (anew-IsValid role term vs n c (rw e tt))
enter_parts role term vs (some v) ct cr n c (p, q, m, d) =
    rw (p, q)
      (elim (Bool-cases (v.term == term && role_eq v.role role)) [
        | inl same ↦ rw same (
          record { numbered = n; changing = c; current = (refl, refl, m, d) },
          (v, refl, role_eq→eq v.role role (ground arith), ground arith),
        )
        | inr other ↦ rw other (
            anew-IsValid role term (vs ++ (v ∷ [])) (NumberedFrom-append 1 vs v n (omega arith))
              (Changing-append none vs v c d)
              (rw (last_view-append none vs v) (Differs-of_test v role term vs other)))
      ])

pub enter-IsValid :
    (role : Role) (term : ℕ) (s : State)
    → IsValid s
    → IsValid (enter role term s) × IsIn role term (enter role term s)
enter-IsValid role term s v =
    enter_parts role term s.views s.current_view s.current_term s.current_role v.numbered v.changing
      v.current

-- The computation returns a valid state.
abbrev pub Succeeds : Result State → Type 0
Succeeds r = (s : State) × (r ≡ ok s) × IsValid s

set_count-Succeeds :
    (f : ℕ → ℕ) (s : State) {v : View}
    → s.current_view ≡ some v
    → IsValid s
    → Succeeds (set_count f s)
unfolding set_count
set_count-Succeeds f s {v} e valid = (
  record s { current_view = some (record v { heartbeat_count = f v.heartbeat_count }) },
  rw (e, set_count) refl,
  record {
    numbered = valid.numbered;
    changing = valid.changing;
    current =
        let fits : CurrentFits s.views s.current_term s.current_role (some v) =
          rw e at valid.current in
        (fits.0, fits.1, fits.2, same_key (last_view none s.views) fits.3);
  },
)
  where
    same_key :
        (o : Option View)
        → DiffersFromLast o v
        → DiffersFromLast o (record v { heartbeat_count = f v.heartbeat_count })
    same_key none d = tt
    same_key (some u) d = d

pub on_leader-Succeeds : (o : Option (ℕ × ℕ)) (s : State) → IsValid s → Succeeds (on_leader o s)
unfolding on_leader
on_leader-Succeeds none s v = (s, refl, v)
on_leader-Succeeds (some (id, term)) s v =
    let (valid, inside) = enter-IsValid leader term s v in
    set_count-Succeeds (λ n. max n id) (enter leader term s) inside.1 valid

pub on_follower-Succeeds : (o : Option ℕ) (s : State) → IsValid s → Succeeds (on_follower o s)
unfolding on_follower
on_follower-Succeeds none s v = (s, refl, v)
on_follower-Succeeds (some term) s v =
    let (valid, inside) = enter-IsValid follower term s v in
    set_count-Succeeds (λ n. n + 1) (enter follower term s) inside.1 valid

pub step-Succeeds : (s : State) (line : Text) → IsValid s → Succeeds (step s line)
unfolding step
step-Succeeds s line v = elim (Option-cases (timestamp_of line)) [
  | inl skipped ↦ (s, rw (skipped, step) refl, v)
  | inr (t, stamped) ↦
      let (u, p, w) = on_leader-Succeeds (leader_match line) s v in
      let (x, q, y) = on_follower-Succeeds (follower_match line) u w in
      (x, rw (stamped, step, p) q, y)
]

pub for_each-Succeeds :
    (lines : List Text) (s : State) → IsValid s → Succeeds (for_each step s lines)
for_each-Succeeds [] s v = (s, rw for_each-nil refl, v)
for_each-Succeeds (line ∷ lines) s v =
    let (t, p, w) = step-Succeeds s line v in
    let (u, q, x) = for_each-Succeeds lines t w in (u, rw (for_each-cons, p) q, x)

pub start-IsValid : IsValid start
start-IsValid = record { numbered = tt; changing = tt; current = (refl, refl, refl) }

finish-shape : (s : State) → IsValid s → NumberedFrom 1 (finish s) × Changing none (finish s)
unfolding finish
finish-shape s v = go s.current_view v.current
  where
    go :
        (cv : Option View)
        → CurrentFits s.views s.current_term s.current_role cv
        → NumberedFrom 1 (save s.views cv) × Changing none (save s.views cv)
    go none f = (v.numbered, v.changing)
    go (some w) (p, q, m, d) = (
      NumberedFrom-append 1 s.views w v.numbered (omega arith),
      Changing-append none s.views w v.changing d,
    )

-- The parse returns for every log, without an exception. Its views are numbered 1, 2, 3 and so
-- on, and no two neighbours have both the same term and the same role.
pub parse_log_file-shape :
    (lines : List Text)
    → (vs : List View) × (parse_log_file lines ≡ ok vs) × NumberedFrom 1 vs × Changing none vs
unfolding parse_log_file
parse_log_file-shape lines =
    let (s, p, v) = for_each-Succeeds lines start start-IsValid in
    let (numbered, changing) = finish-shape s v in
    (finish s, rw (p, parse_log_file) refl, numbered, changing)
