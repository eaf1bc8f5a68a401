-- ===== src/Consistency/Opinions.antt =====
-- The texts that are counted as opinions stand for the entries: equal texts, equal entries.
use frugal_leader_election.Base.{
  ℕ, ◌≡◌, ◌≢◌, ◌↔◌, refl, ap, sym, ◌∙◌, true, Option, none, some, [], ◌∷◌, ◌++◌, arith, Text, All,
  if◌then◌else◌, ◌==◌,
}
use frugal_leader_election.Base.Dict.{get}
use frugal_leader_election.Base.Equality.{nat_eq}
use frugal_leader_election.Text.{int, is_digit, before_first}
use frugal_leader_election.Text.Decimal.{decimal, int-decimal, decimal-digits}
use frugal_leader_election.Consistency.{Entry, RaftLog, missing, present, opinion}

-- The text behind the first bar.
abbrev behind_bar : Text → Text
behind_bar [] = []
behind_bar (c ∷ s) = let rest = behind_bar s in if c == b'|' then s else rest

behind_bar-digits : (w s : Text) → All (λ c. is_digit c ≡ true) w → behind_bar (w ++ (b'|' ∷ s)) ≡ s
behind_bar-digits [] s a = refl
behind_bar-digits (c ∷ w) s a = ground (arith, behind_bar-digits w s a.1)

before_bar-digits :
    (w s : Text) → All (λ c. is_digit c ≡ true) w → before_first b'|' (w ++ (b'|' ∷ s)) ≡ w
before_bar-digits [] s a = refl
before_bar-digits (c ∷ w) s a = ground (arith, before_bar-digits w s a.1)

-- The texts of two entries are equal only for equal entries.
pub present_injective : (e f : Entry) → present e ≡ present f → e ≡ f
unfolding present
present_injective (t, c) (u, d) h =
    let term : t ≡ u =
      sym (int-decimal t)
      ∙ ap int (
          sym (before_bar-digits (decimal t) c (decimal-digits t))
          ∙ ap (before_first b'|') h
          ∙ before_bar-digits (decimal u) d (decimal-digits u))
      ∙ int-decimal u in
    let cmd : c ≡ d =
      sym (behind_bar-digits (decimal t) c (decimal-digits t))
      ∙ ap behind_bar h
      ∙ behind_bar-digits (decimal u) d (decimal-digits u) in
    cc

-- The text of an entry is never the one for a missing entry.
pub present-ne-missing : (e : Entry) → present e ≢ missing
unfolding present
present-ne-missing (t, c) h = no_digit (decimal t) (decimal-digits t) h
  where
    no_digit : (w : Text) → All (λ c. is_digit c ≡ true) w → w ++ (b'|' ∷ c) ≢ missing
    no_digit [] a p = ground arith
    no_digit (x ∷ w) a p = ground arith

-- Two logs are counted for the same opinion on an index exactly when they have the same entry
-- there or both have none.
opinion_iff : (idx : ℕ) (a b : RaftLog) → (opinion idx a ≡ opinion idx b) ↔ (get idx a ≡ get idx b)
unfolding opinion
opinion_iff idx a b = (go (get idx a) (get idx b), λ h. rw (h, opinion) refl)
  where
    text : Option Entry → Text
    text none = missing
    text (some e) = present e

    go : (x y : Option Entry) → text x ≡ text y → x ≡ y
    go none none h = refl
    go none (some f) h = absurd (present-ne-missing f (sym h))
    go (some e) none h = absurd (present-ne-missing e h)
    go (some e) (some f) h = ap some (present_injective e f h)
