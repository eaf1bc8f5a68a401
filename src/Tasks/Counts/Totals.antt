-- ===== src/Tasks/Counts/Totals.antt =====
-- What the counting tasks add up.
use frugal_leader_election.Base.{ℕ, ◌+◌, ◌≡◌, refl, List, [], ◌∷◌, ◌++◌, Text}
use frugal_leader_election.Base.Int.{ℤ, pos, ◌+ℤ◌, int_laws}
use frugal_leader_election.Base.Result.{Result, ok, err}
use frugal_leader_election.Remote.{History, World}
use frugal_leader_election.Tasks.Counts.{fetch_count, add_total, fetch_counts, total}

-- What the attempt at a node adds.
abbrev pub added : Result ℤ → ℤ
added (ok val) = val
added (err e) = pos 0

-- What the attempts add together, each made behind the calls of those before, whether they raised
-- or not.
abbrev pub all_added : World → ℕ → List Text → History → ℤ
all_added w i [] h = pos 0
all_added w i (host ∷ hosts) h =
    let (r, t) = fetch_count i host w h in added r +ℤ all_added w (i + 1) hosts t

total-append : (xs ys : List ℤ) → total (xs ++ ys) ≡ total xs +ℤ total ys
total-append [] ys = omega int_laws
total-append (x ∷ xs) ys = rw (total-append xs ys) (omega int_laws)

total-add_total :
    (r : Result ℤ) (totals : List ℤ) → total (add_total r totals) ≡ total totals +ℤ added r
total-add_total (ok val) totals = rw (total-append totals (val ∷ [])) (omega int_laws)
total-add_total (err e) totals = omega int_laws

-- In every world, the loop over the nodes does not raise, and its counts add up to what was there
-- before and what the attempts at the nodes give: each attempt its count, or 0 where it raises.
pub fetch_counts-sum :
    (w : World) (i : ℕ) (hosts : List Text) (totals : List ℤ) (h : History)
    → (xs : List ℤ) × ((fetch_counts i hosts totals w h).0 ≡ ok xs)
      × (total xs ≡ total totals +ℤ all_added w i hosts h)
unfolding fetch_counts
fetch_counts-sum w i [] totals h = (totals, refl, omega int_laws)
fetch_counts-sum w i (host ∷ hosts) totals h =
    let (r, t) = fetch_count i host w h in
    let (xs, p, q) = fetch_counts-sum w (i + 1) hosts (add_total r totals) t in
    (xs, p, rw (q, total-add_total r totals) (omega int_laws))
