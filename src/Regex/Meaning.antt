-- ===== src/Regex/Meaning.antt =====
-- What a pattern means, without an order of search: which places of a text it leads to. And the
-- matcher's agreement with it: a pattern is found exactly in the texts that have a match.
use frugal_leader_election.Base.{
  ℕ, ◌≡◌, refl, ◌⊎◌, inl, inr, ◌↔◌, Bool, true, Option, none, some, [], ◌∷◌, arith, Text, is_some,
  Option-cases, Bool-cases,
}
use frugal_leader_election.Base.Dict.{Dict}
use frugal_leader_election.Regex.{
  Regex, lit, one, many, many_lazy, seq, alt, group, line_start, line_end, boundary, Place, place,
  eat, eat_one, at_boundary, at_line_end, at_line_start, capture, greedy, lazy, then_at, run,
  search_from, find,
}

-- A run of characters of the class `p`, from one place to another.
pub data Run (p : ℕ → Bool) : Option ℕ → Text → Dict ℕ Text → Place → Type 0 where
  stop : (b : Option ℕ) (s : Text) (g : Dict ℕ Text) → Run p b s g (place b s g)
  more :
      (b : Option ℕ) (c : ℕ) (s : Text) (g : Dict ℕ Text) {e : Place}
      → p c ≡ true
      → Run p (some c) s g e
      → Run p b (c ∷ s) g e

abbrev pub Matches : Regex → Place → Place → Type 0
Matches (lit cs) a b = eat cs a.before a.rest a.groups ≡ some b
Matches (one p) a b = eat_one p a.before a.rest a.groups ≡ some b
Matches (many p) a b = Run p a.before a.rest a.groups b
Matches (many_lazy p) a b = Run p a.before a.rest a.groups b
Matches (seq r s) a c = (b : Place) × Matches r a b × Matches s b c
Matches (alt r s) a b = Matches r a b ⊎ Matches s a b
Matches (group n r) a b = (c : Place) × Matches r a c × (b ≡ capture n a c)
Matches line_start a b = (at_line_start a.before ≡ true) × (b ≡ a)
Matches line_end a b = (at_line_end a.rest ≡ true) × (b ≡ a)
Matches boundary a b = (at_boundary a ≡ true) × (b ≡ a)

-- A match somewhere in the text.
pub data Occurs (r : Regex) : Option ℕ → Text → Type 0 where
  here : (b : Option ℕ) (s : Text) (e : Place) → Matches r (place b s []) e → Occurs r b s
  later : (b : Option ℕ) (c : ℕ) (s : Text) → Occurs r (some c) s → Occurs r b (c ∷ s)

module _ {ℓ} {B : Type ℓ} where
  -- The matcher went on from a place that the pattern leads to.
  abbrev pub Came : Regex → Place → (Place → Option B) → B → Type ℓ
  Came r a k v = (b : Place) × Matches r a b × (k b ≡ some v)

  greedy_sound :
      (p : ℕ → Bool) (b : Option ℕ) (s : Text) (g : Dict ℕ Text) (k : Place → Option B) (v : B)
      → greedy p b s g k ≡ some v
      → (e : Place) × Run p b s g e × (k e ≡ some v)
  unfolding greedy
  greedy_sound p b [] g k v h = (place b [] g, Run.stop b [] g, h)
  greedy_sound p b (c ∷ s) g k v h = elim (Bool-cases (p c)) [
    | inr off ↦ (place b (c ∷ s) g, Run.stop b (c ∷ s) g, rw (off, greedy) at h)
    | inl on ↦ elim (Option-cases (greedy p (some c) s g k)) [
      | inl failed ↦ (place b (c ∷ s) g, Run.stop b (c ∷ s) g, ground arith)
      | inr (w, found) ↦
          let (e, r, q) = greedy_sound p (some c) s g k w found in
          (e, Run.more b c s g on r, ground arith)
    ]
  ]

  greedy_complete :
      (p : ℕ → Bool) {b : Option ℕ} {s : Text} {g : Dict ℕ Text} {e : Place} (k : Place → Option B)
      → Run p b s g e
      → is_some (k e) ≡ true
      → is_some (greedy p b s g k) ≡ true
  unfolding greedy
  greedy_complete p k (Run.stop b [] g) h = h
  greedy_complete p k (Run.stop b (c ∷ s) g) h = ground arith
  greedy_complete p k (Run.more b c s g on r) h =
      ground (arith, greedy_complete p {b = some c} {s = s} {g = g} k r h)

  lazy_sound :
      (p : ℕ → Bool) (b : Option ℕ) (s : Text) (g : Dict ℕ Text) (k : Place → Option B) (v : B)
      → lazy p b s g k ≡ some v
      → (e : Place) × Run p b s g e × (k e ≡ some v)
  unfolding lazy
  lazy_sound p b [] g k v h = (place b [] g, Run.stop b [] g, h)
  lazy_sound p b (c ∷ s) g k v h = elim (Option-cases (k (place b (c ∷ s) g))) [
    | inr (w, found) ↦ (place b (c ∷ s) g, Run.stop b (c ∷ s) g, ground arith)
    | inl failed ↦ elim (Bool-cases (p c)) [
      | inr off ↦ (place b (c ∷ s) g, Run.stop b (c ∷ s) g, ground arith)
      | inl on ↦
          let (e, r, q) = lazy_sound p (some c) s g k v (ground arith) in
          (e, Run.more b c s g on r, q)
    ]
  ]

  lazy_complete :
      (p : ℕ → Bool) {b : Option ℕ} {s : Text} {g : Dict ℕ Text} {e : Place} (k : Place → Option B)
      → Run p b s g e
      → is_some (k e) ≡ true
      → is_some (lazy p b s g k) ≡ true
  unfolding lazy
  lazy_complete p k (Run.stop b [] g) h = h
  lazy_complete p k (Run.stop b (c ∷ s) g) h = ground arith
  lazy_complete p k (Run.more b c s g on r) h =
      ground (arith, lazy_complete p {b = some c} {s = s} {g = g} k r h)

  then_at_sound :
      (o : Option Place) (k : Place → Option B) (v : B)
      → then_at o k ≡ some v
      → (b : Place) × (o ≡ some b) × (k b ≡ some v)
  then_at_sound none k v h = cc
  then_at_sound (some a) k v h = (a, refl, h)

  pub run_sound :
      (r : Regex) (a : Place) (k : Place → Option B) (v : B) → run r a k ≡ some v → Came r a k v
  unfolding run
  run_sound (lit cs) a k v h = then_at_sound (eat cs a.before a.rest a.groups) k v h
  run_sound (one p) a k v h = then_at_sound (eat_one p a.before a.rest a.groups) k v h
  run_sound (many p) a k v h = greedy_sound p a.before a.rest a.groups k v h
  run_sound (many_lazy p) a k v h = lazy_sound p a.before a.rest a.groups k v h
  run_sound (seq r s) a k v h =
      let (b, m, q) = run_sound r a (λ b. run s b k) v h in
      let (c, n, u) = run_sound s b k v q in (c, (b, m, n), u)
  run_sound (alt r s) a k v h = elim (Option-cases (run r a k)) [
    | inl failed ↦ let (b, m, q) = run_sound s a k v (ground arith) in (b, inr m, q)
    | inr (w, found) ↦ let (b, m, q) = run_sound r a k w found in (b, inl m, ground arith)
  ]
  run_sound (group n r) a k v h =
      let (b, m, q) = run_sound r a (λ b. k (capture n a b)) v h in (capture n a b, (b, m, refl), q)
  run_sound line_start a k v h = (a, ground arith, ground arith)
  run_sound line_end a k v h = (a, ground arith, ground arith)
  run_sound boundary a k v h = (a, ground arith, ground arith)

  pub run_complete :
      (r : Regex) (a : Place) (k : Place → Option B) (b : Place)
      → Matches r a b
      → is_some (k b) ≡ true
      → is_some (run r a k) ≡ true
  unfolding run
  run_complete (lit cs) a k b m h = rw m h
  run_complete (one p) a k b m h = rw m h
  run_complete (many p) a k b m h = greedy_complete p k m h
  run_complete (many_lazy p) a k b m h = lazy_complete p k m h
  run_complete (seq r s) a k c (b, m, n) h =
      run_complete r a (λ b. run s b k) b m (run_complete s b k c n h)
  run_complete (alt r s) a k b (inl m) h = ground (arith, run_complete r a k b m h)
  run_complete (alt r s) a k b (inr m) h = ground (arith, run_complete s a k b m h)
  run_complete (group n r) a k b (c, m, e) h =
      run_complete r a (λ b. k (capture n a b)) c m (rw e at h)
  run_complete line_start a k b m h = ground arith
  run_complete line_end a k b m h = ground arith
  run_complete boundary a k b m h = ground arith

search_from_sound :
    (r : Regex) (b : Option ℕ) (s : Text) (g : Dict ℕ Text)
    → search_from r b s ≡ some g
    → Occurs r b s
unfolding search_from
search_from_sound r b [] g h =
    let (e, m, q) = run_sound r (place b [] []) (λ e. some e.groups) g h in Occurs.here b [] e m
search_from_sound r b (c ∷ s) g h =
    elim (Option-cases (run r (place b (c ∷ s) []) (λ e. some e.groups))) [
      | inl failed ↦
          Occurs.later b c s (search_from_sound r (some c) s g (rw (failed, search_from) at h))
      | inr (w, found) ↦
          let (e, m, q) = run_sound r (place b (c ∷ s) []) (λ e. some e.groups) w found in
          Occurs.here b (c ∷ s) e m
    ]

search_from_complete :
    (r : Regex) {b : Option ℕ} {s : Text} → Occurs r b s → is_some (search_from r b s) ≡ true
unfolding search_from
search_from_complete r (Occurs.here b [] e m) =
    run_complete r (place b [] []) (λ e. some e.groups) e m refl
search_from_complete r (Occurs.here b (c ∷ s) e m) =
    ground (arith, run_complete r (place b (c ∷ s) []) (λ e. some e.groups) e m refl)
search_from_complete r (Occurs.later b c s o) = ground (arith, search_from_complete r o)

-- `re.search` finds a pattern exactly in the texts where it occurs.
pub find_iff : (r : Regex) (s : Text) → (is_some (find r s) ≡ true) ↔ Occurs r none s
unfolding find
find_iff r s = (
  λ h. elim (Option-cases (search_from r none s)) [
    | inl failed ↦ absurd (cc)
    | inr (g, found) ↦ search_from_sound r none s g found
  ],
  search_from_complete r,
)
