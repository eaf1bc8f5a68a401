-- ===== src/Throughput/Merge.antt =====
-- scripts/merge_thp_summaries.py: the sum of the summaries of the clients.
use frugal_leader_election.Base.{
  ℕ, ◌≡◌, ◌+◌, refl, ap, sym, ◌∙◌, arith, inl, inr, Bool-cases, false, List, [], ◌∷◌, ltb, ◌==◌,
  length, map, sum, if◌then◌else◌,
}
use mathlib.Core.List.{foldl}
use frugal_leader_election.Base.Dict.{Dict, get_or, get_or-insert, insert, update, contains}
use frugal_leader_election.Base.Once.{Once, Once-insert}
use frugal_leader_election.Base.Equality.{=?_cases, nat_eq}
use frugal_leader_election.Base.Result.{Result, ok, err, exit, ok-injective, err-ne-ok}
use frugal_leader_election.Time.{Datetime}
use frugal_leader_election.Throughput.{sorted_items}
use frugal_leader_election.Throughput.Buckets.{get_or-sorted_items}

-- The rows of a file.
abbrev pub Rows : Type 0
Rows = List (Datetime × ℕ)

abbrev insert_row : Dict Datetime ℕ → Datetime × ℕ → Dict Datetime ℕ
insert_row d (ts, thp) = insert ts thp d

unfoldable pub read_summary : Rows → Dict Datetime ℕ
read_summary rows = foldl insert_row [] rows

-- `merged[ts] += thp`
abbrev add_row : Dict Datetime ℕ → Datetime × ℕ → Dict Datetime ℕ
add_row merged (ts, thp) = update ts 0 (λ n. n + thp) merged

abbrev add_data : Dict Datetime ℕ → Dict Datetime ℕ → Dict Datetime ℕ
add_data merged [] = merged
add_data merged (row ∷ data_rows) = add_data (add_row merged row) data_rows

abbrev add_file : Dict Datetime ℕ → Rows → Dict Datetime ℕ
add_file merged rows = add_data merged (read_summary rows)

abbrev sorted_rows : Dict Datetime ℕ → Result (Dict Datetime ℕ)
sorted_rows [] = err (exit "No data to merge.")
sorted_rows (row ∷ merged) = ok (sorted_items (row ∷ merged))

unfoldable pub merge : List Rows → Result (Dict Datetime ℕ)
merge files =
    if ltb (length files) 2
    then err (exit "Need at least two CSV files to merge.")
    else sorted_rows (foldl add_file [] files)

Once-foldl : (rows : Rows) (d : Dict Datetime ℕ) → Once d → Once (foldl insert_row d rows)
Once-foldl [] d o = o
Once-foldl ((k, n) ∷ rows) d o = Once-foldl rows (insert k n d) (Once-insert k n d o)

Once-read_summary : (rows : Rows) → Once (read_summary rows)
unfolding read_summary
Once-read_summary rows = Once-foldl rows [] tt

get_or-absent : (s : Datetime) (d : Dict Datetime ℕ) → contains s d ≡ false → get_or s 0 d ≡ 0
get_or-absent s [] h = refl
get_or-absent s ((k, n) ∷ d) h = ground (arith, =?_cases s k, get_or-absent s d)

get_or-add_data :
    (s : Datetime) (merged d : Dict Datetime ℕ)
    → Once d
    → get_or s 0 (add_data merged d) ≡ get_or s 0 merged + get_or s 0 d
get_or-add_data s merged [] o = omega arith
get_or-add_data s merged ((k, n) ∷ d) o = ground (
  arith,
  get_or-add_data s (add_row merged (k, n)) d o.1,
  get_or-insert s k 0 (get_or k 0 merged + n) merged,
  get_or-absent s d,
  =?_cases s k,
  o.0,
)

-- The number in the last row of a second, or the one from before where no row has it.
abbrev pub last_row : Datetime → ℕ → Rows → ℕ
last_row s before [] = before
last_row s before ((ts, thp) ∷ rows) = last_row s (if s == ts then thp else before) rows

get_or-rows :
    (s : Datetime) (d : Dict Datetime ℕ) (rows : Rows)
    → get_or s 0 (foldl insert_row d rows) ≡ last_row s (get_or s 0 d) rows
get_or-rows s d [] = refl
get_or-rows s d ((k, n) ∷ rows) =
    get_or-rows s (insert k n d) rows ∙ ap (λ m. last_row s m rows) (get_or-insert s k 0 n d)

-- What the last rows of the files say of a second, together.
abbrev pub all_files : Datetime → List Rows → ℕ
all_files s files = sum (map (last_row s 0) files)

get_or-files :
    (s : Datetime) (files : List Rows) (merged : Dict Datetime ℕ)
    → get_or s 0 (foldl add_file merged files) ≡ get_or s 0 merged + all_files s files
unfolding read_summary
get_or-files s [] merged = omega arith
get_or-files s (rows ∷ files) merged = omega (
  arith,
  get_or-files s files (add_file merged rows),
  get_or-add_data s merged (read_summary rows) (Once-read_summary rows),
  get_or-rows s [] rows,
)

get_or-sorted_rows :
    (s : Datetime) (d : Dict Datetime ℕ) {merged : Dict Datetime ℕ}
    → sorted_rows d ≡ ok merged
    → get_or s 0 merged ≡ get_or s 0 d
get_or-sorted_rows s [] h = cc
get_or-sorted_rows s (row ∷ d) h =
    ap (get_or s 0) (sym (ok-injective h)) ∙ get_or-sorted_items s (row ∷ d)

-- Where the files are merged, the merged number of a second is the sum of the numbers in the last
-- row that each file has of it, where a file without such a row counts for 0.
pub merge-sum :
    (files : List Rows) (merged : Dict Datetime ℕ) (s : Datetime)
    → merge files ≡ ok merged
    → get_or s 0 merged ≡ all_files s files
unfolding merge
merge-sum files merged s h = elim (Bool-cases (ltb (length files) 2)) [
  | inl few ↦ absurd (err-ne-ok (rw few at h))
  | inr enough ↦ omega (
    arith,
    get_or-sorted_rows s (foldl add_file [] files) (rw enough at h),
    get_or-files s files [],
  )
]
