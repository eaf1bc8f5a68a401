-- ===== src/Ycsb/Groups/Members.antt =====
-- What the groups of files hold.
use frugal_leader_election.Base.{
  ℕ, ◌≡◌, refl, sym, ◌∙◌, ap, inl, inr, Bool, true, false, Option, none, some, List, [], ◌∷◌, ◌++◌,
  Text, map, if◌then◌else◌,
}
use mathlib.Core.List.{foldl, append-nil, append_assoc}
use frugal_leader_election.Base.Dict.{Dict, get_or, get_or-cons, get_or-insert}
use frugal_leader_election.Base.Equality.{Eq, ◌=?◌, =?_cases, nat_eq, list_eq, pair_eq}
use frugal_leader_election.Ycsb.Groups.{
  add_member, group_all, classify_auto, sort_by_leader, sort_group, automated_groups,
}

module _ {A K V : Type 0} ⦃e : Eq K⦄ (classify : A → Option (K × V)) where
  -- The value of a file, if its key is `k`.
  abbrev pub value_with : K → Option (K × V) → List V
  value_with k none = []
  value_with k (some (j, v)) = if k =? j then v ∷ [] else []

  -- The values of the files with the key `k`, in the order of the files.
  abbrev pub values_with : K → List A → List V
  values_with k [] = []
  values_with k (x ∷ xs) = value_with k (classify x) ++ values_with k xs

  get_or-add_member :
      (k : K) (groups : Dict K (List V)) (o : Option (K × V))
      → get_or k [] (add_member classify groups o) ≡ get_or k [] groups ++ value_with k o
  get_or-add_member k groups none = sym (append-nil (get_or k [] groups))
  get_or-add_member k groups (some (j, v)) = elim (=?_cases k j) [
    | inl (same, p) ↦
        rw (get_or-insert k j [] (get_or j [] groups ++ (v ∷ [])) groups, same, p) refl
    | inr (other, p) ↦
        rw (get_or-insert k j [] (get_or j [] groups ++ (v ∷ [])) groups, other)
          (sym (append-nil (get_or k [] groups)))
  ]

  get_or-from :
      (k : K) (groups : Dict K (List V)) (xs : List A)
      → get_or k [] (foldl (λ groups x. add_member classify groups (classify x)) groups xs)
        ≡ get_or k [] groups ++ values_with k xs
  get_or-from k groups [] = sym (append-nil (get_or k [] groups))
  get_or-from k groups (x ∷ xs) =
      get_or-from k (add_member classify groups (classify x)) xs
      ∙ ap (λ vs. vs ++ values_with k xs) (get_or-add_member k groups (classify x))
      ∙ append_assoc (get_or k [] groups) (value_with k (classify x)) (values_with k xs)

  pub get_or-group_all :
      (k : K) (xs : List A) → get_or k [] (group_all classify xs) ≡ values_with k xs
  unfolding group_all
  get_or-group_all k xs = get_or-from k [] xs

get_or-sort_group :
    (key : Text × (Text × (Text × Text)))
    (groups : Dict (Text × (Text × (Text × Text))) (List (ℕ × Text)))
    → get_or key [] (map sort_group groups)
      ≡ map (λ (f : ℕ × Text). f.1) (sort_by_leader (get_or key [] groups))
get_or-sort_group key [] = refl
get_or-sort_group key ((j, files) ∷ groups) =
    get_or-cons key j [] (names files) (map sort_group groups)
    ∙ choose (get_or-sort_group key groups) (key =? j)
    ∙ ap names (sym (get_or-cons key j [] files groups))
  where
    names : List (ℕ × Text) → List Text
    names fs = map (λ (f : ℕ × Text). f.1) (sort_by_leader fs)

    choose :
        get_or key [] (map sort_group groups) ≡ names (get_or key [] groups)
        → (b : Bool)
        → (if b then names files else get_or key [] (map sort_group groups))
          ≡ names (if b then files else get_or key [] groups)
    choose e true = refl
    choose e false = e

-- The files that `automated_plot_experiments` puts into one plot are those whose names have the
-- same mean, deviation and ratios, sorted by their leaders. Files of one leader keep their order.
automated_groups-members :
    (key : Text × (Text × (Text × Text))) (files : List Text)
    → get_or key [] (automated_groups files)
      ≡ map (λ (f : ℕ × Text). f.1) (sort_by_leader (values_with classify_auto key files))
unfolding automated_groups
automated_groups-members key files =
    get_or-sort_group key (group_all classify_auto files)
    ∙ ap (λ fs. map (λ (f : ℕ × Text). f.1) (sort_by_leader fs))
        (get_or-group_all classify_auto key files)
