-- ===== src/Throughput/Buckets.antt =====
-- How many answers a row of the summary counts.
use frugal_leader_election.Base.{
  ℕ, zero, suc, ◌≡◌, refl, ap, sym, ◌∙◌, arith, Bool, ◌&&◌, List, [], ◌∷◌, Text, ◌==◌, leb, keep,
  length, length-keep, count, map, if◌then◌else◌,
}
use frugal_leader_election.Base.Dict.{Dict, get_or}
use frugal_leader_election.Base.Equality.{◌=?◌, =?_cases, nat_eq}
use frugal_leader_election.Base.Counter.{tally, get_or-tally}
use frugal_leader_election.Base.Sort.{sorted, count-sorted}
use frugal_leader_election.Base.Int.{ℤ}
use frugal_leader_election.Base.Result.{Result, ok, err, exit}
use frugal_leader_election.Time.{Datetime, plus, less, seconds, whole_second}
use frugal_leader_election.Throughput.{
  parse_success_timestamps, last_of, in_window, insert_item, sorted_items, buckets, summarise,
  throughput,
}

get_or-insert_item :
    (s k n : ℕ) (d : Dict ℕ ℕ)
    → get_or s 0 (insert_item (k, n) d) ≡ (if s =? k then n else get_or s 0 d)
get_or-insert_item s k n [] = ground (arith, =?_cases s k)
get_or-insert_item s k n ((j, m) ∷ d) =
    ground (arith, =?_cases s k, =?_cases s j, get_or-insert_item s k n d)

pub get_or-sorted_items : (s : ℕ) (d : Dict ℕ ℕ) → get_or s 0 (sorted_items d) ≡ get_or s 0 d
get_or-sorted_items s [] = refl
get_or-sorted_items s ((k, n) ∷ d) =
    ground (arith, get_or-insert_item s k n (sorted_items d), get_or-sorted_items s d, =?_cases s k)

count-keep :
    {A : Type 0} (p q : A → Bool) (xs : List A) → count p (keep q xs) ≡ count (λ x. q x && p x) xs
count-keep p q [] = refl
count-keep p q (x ∷ xs) = ground (arith, count-keep p q xs)

count-map :
    {A B : Type 0} (p : B → Bool) (f : A → B) (xs : List A)
    → count p (map f xs) ≡ count (λ x. p (f x)) xs
count-map p f [] = refl
count-map p f (x ∷ xs) = omega (arith, count-map p f xs)

-- The samples that fall into a second.
abbrev pub in_second : Datetime → Datetime → Bool
in_second s t = whole_second t == s

get_or-rows :
    (s : Datetime) (ts : List Datetime)
    → get_or s 0 (sorted_items (tally (map whole_second ts))) ≡ count (in_second s) ts
get_or-rows s ts =
    get_or-sorted_items s (tally (map whole_second ts))
    ∙ get_or-tally s (map whole_second ts)
    ∙ count-map (λ k. k =? s) whole_second ts

-- What the script gives, from how many samples pass a test: an exit, or rows that count those that
-- pass it in each second.
abbrev pub Given : ℕ → (Datetime → Bool) → List Datetime → Result (Dict Datetime ℕ) → Type 0
Given zero p ts r = r ≡ err (exit "All samples trimmed away.")
Given (suc n) p ts r =
    (rows : Dict Datetime ℕ) × (r ≡ ok rows)
    × ((s : Datetime) → get_or s 0 rows ≡ count (λ t. p t && in_second s t) ts)

abbrev pub Outcome : (Datetime → Bool) → List Datetime → Result (Dict Datetime ℕ) → Type 0
Outcome p ts r = Given (count p ts) p ts r

buckets-Outcome :
    (p : Datetime → Bool) (ts sample : List Datetime) (kept : List Datetime)
    → kept ≡ keep p sample
    → ((q : Datetime → Bool) → count q sample ≡ count q ts)
    → Outcome p ts (buckets kept)
buckets-Outcome p ts sample [] e same =
    let empty : count p ts ≡ 0 = omega (arith, length-keep p sample, ap length e, same p) in
    rw empty refl
buckets-Outcome p ts sample (t ∷ kept) e same =
    let filled : count p ts ≡ suc (length kept) =
      omega (arith, length-keep p sample, ap length e, same p) in
    rw filled (
      sorted_items (tally (map whole_second (t ∷ kept))),
      refl,
      λ s.
          get_or-rows s (t ∷ kept)
          ∙ ap (count (in_second s)) e
          ∙ count-keep (in_second s) p sample
          ∙ same (λ u. p u && in_second s u),
    )

-- The samples are the lines that report a success, and the window goes from `trim` seconds behind
-- the first to `trim` seconds before the last. Where a sample lies in the window, rows are written,
-- and the row of a second counts the samples in the window that fall into it; a second without
-- a row has none. Where no sample does, the script exits with a message.
pub throughput-Outcome :
    (trim : ℤ) (lines : List Text) {ts : List Datetime} {first : Datetime} {rest : List Datetime}
    {start_ok end_ok : Datetime}
    → parse_success_timestamps lines ≡ ok ts
    → sorted ts ≡ first ∷ rest
    → plus first (seconds trim) ≡ ok start_ok
    → less (last_of first rest) (seconds trim) ≡ ok end_ok
    → Outcome (λ t. leb start_ok t && leb t end_ok) ts (throughput trim lines)
unfolding throughput summarise
throughput-Outcome trim lines {ts} {first} {rest} {start_ok} {end_ok} p q a b =
    rw (p, q, a, b, throughput, summarise)
      (buckets-Outcome (in_window start_ok end_ok) ts (first ∷ rest)
        (keep (in_window start_ok end_ok) (first ∷ rest)) refl
        (λ r. ap (count r) (sym q) ∙ count-sorted r ts))
