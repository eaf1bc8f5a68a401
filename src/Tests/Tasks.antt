-- ===== src/Tests/Tasks.antt =====
-- Runs of the tasks in small worlds, and their theorems there.
use frugal_leader_election.Base.{
  ◌≡◌, refl, true, false, Option, none, some, List, [], ◌++◌, Text, codes, if◌then◌else◌,
}
use frugal_leader_election.Base.Result.{ok, err, remote_error}
use frugal_leader_election.Remote.{Action, World, sudo, put, read_file}
use frugal_leader_election.Remote.Laws.{comes_through, made}
use frugal_leader_election.Tasks.{nodes}
use frugal_leader_election.Tasks.Servers.{start_remote_default}
use frugal_leader_election.Tasks.Servers.Order.{
  configure, make_ready, start_all, start_remote_default-order,
}
use frugal_leader_election.Tasks.Clients.{start_clients_remote_collect}
use frugal_leader_election.Tasks.Clients.Robust.{start_clients_remote_collect-ok}
use frugal_leader_election.Tasks.Counts.{fetch_count, fetch_counts, to_int, total}
use frugal_leader_election.Tasks.Counts.Totals.{all_added, fetch_counts-sum}
use frugal_leader_election.Text.Decimal.{decimal}
use frugal_leader_election.Base.Int.{ℤ, pos, negsuc, ◌+ℤ◌}
use frugal_leader_election.Base.Equality.{◌=?◌, list_eq, nat_eq}

-- All calls print a 7.
abbrev calm : World
calm = record { respond = λ h a. some (codes " 7\n"); glob = λ h pattern. [] }

-- No host takes a file, and every `sudo` raises.
abbrev respond_stormy : Action → Option Text
respond_stormy (sudo host cmd) = none
respond_stormy (put host from to) = none
respond_stormy _ = some []

abbrev stormy : World
stormy = record { respond = λ h a. respond_stormy a; glob = λ h pattern. [] }

start_remote_default-order_example : start_remote_default stormy [] ≡ (
    if comes_through stormy configure make_ready
    then (ok tt, (configure ++ make_ready) ++ start_all)
    else (err remote_error, configure ++ made stormy configure make_ready))
start_remote_default-order_example = start_remote_default-order stormy []

-- In that world no replica starts.
stormy_test : comes_through stormy configure make_ready ≡ false
stormy_test = refl

start_clients_remote_collect-ok_example :
    (start_clients_remote_collect true
      (λ names. names)
      2
      (codes "10083")
      (codes "5")
      (λ i. i)
      (codes "run")
      60
      stormy
      []).0
    ≡ ok tt
start_clients_remote_collect-ok_example =
    start_clients_remote_collect-ok stormy true (λ names. names) 2 (codes "10083") (codes "5")
      (λ i. i) (codes "run") 60 [] refl refl (λ h. refl) (λ h. refl)

-- A node that writes "seven" is passed over.
abbrev respond_count : Action → Option Text
respond_count (read_file path) =
    some (if path =? codes "timeout_1.txt" then codes "seven" else codes " 7\n")
respond_count _ = some []

abbrev counting : World
counting = record { respond = λ h a. respond_count a; glob = λ h pattern. [] }

to_int_test :
    (to_int (codes " 42\n") ≡ some (pos 42))
    × (to_int (codes "-1_0") ≡ some (negsuc 9))
    × (to_int (codes "1__0") ≡ none)
    × (to_int (codes "+") ≡ none)
unfolding to_int
to_int_test = (refl, refl, refl, refl)

all_added_test : all_added counting 0 nodes [] ≡ pos 28
unfolding fetch_count to_int ◌+ℤ◌ decimal
all_added_test = refl

fetch_counts-sum_example :
    (xs : List ℤ) × ((fetch_counts 0 nodes [] counting []).0 ≡ ok xs)
    × (total xs ≡ total [] +ℤ all_added counting 0 nodes [])
fetch_counts-sum_example = fetch_counts-sum counting 0 nodes [] []
