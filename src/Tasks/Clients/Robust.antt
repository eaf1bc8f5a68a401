-- ===== src/Tasks/Clients/Robust.antt =====
-- A task that collects measurements goes through whatever fails on the other machines.
use frugal_leader_election.Base.{
  ℕ, ◌≡◌, refl, Bool, true, [], ◌∷◌, ◌++◌, List, some, Text, codes, take,
}
use frugal_leader_election.Base.Result.{Result, ok}
use frugal_leader_election.Remote.{
  History, World, sleep, make_dirs, move, Prog, script, attempt, each, try_each, ◌>>◌,
}
use frugal_leader_election.Remote.Quiet.{
  Quiet, Safe, Quiet-then, Quiet-call, Quiet-each, Quiet-enumerate,
}
use frugal_leader_election.Tasks.{nodes, bind_ips, nth, remote_base}
use frugal_leader_election.Tasks.Clients.{
  launch_client, kill_programs, move_into, summarise, download_summary, merge_summaries,
  merge_files, archive_existing, merged_files, archive_outputs, collect_summaries,
  start_clients_remote_collect,
}

-- `>>` is read to the left: the parts of a task, from the last one on.
module _ (w : World) (has_python : Bool) (sorted : List Text → List Text) where
  archive_existing-Quiet : (folder fname : Text) → Quiet w (archive_existing folder fname)
  unfolding archive_existing
  archive_existing-Quiet folder fname h = go (w.glob h fname)
    where
      after : List Text → Result (Unit {0}) × History
      after found = elim found [
        | [] ↦ (ok tt, h)
        | _ ∷ _ ↦ attempt (script (move fname (folder ++ (codes "/" ++ fname)) ∷ [])) w h
      ]

      go : (found : List Text) → (after found).0 ≡ ok tt
      go [] = refl
      go (f ∷ fs) = refl

  archive_outputs-Quiet : (folder : Text) → Quiet w (archive_outputs folder)
  unfolding archive_outputs
  archive_outputs-Quiet folder h =
      Quiet-then w (try_each (move_into folder) 0 _) (each (archive_existing folder) merged_files)
        (Quiet-enumerate w _ 0 _ (λ i x t. refl))
        (Quiet-each w (archive_existing folder) merged_files (archive_existing-Quiet folder)) h

  merge_summaries-Quiet : has_python ≡ true → Quiet w (merge_summaries has_python sorted)
  unfolding merge_summaries merge_files
  merge_summaries-Quiet e h = rw e (go (sorted (w.glob h (codes "thp_*.csv"))))
    where
      go : (fs : List Text) → (merge_files true fs w h).0 ≡ ok tt
      go [] = refl
      go (f ∷ fs) = refl

  collect_summaries-Quiet :
      (folder : Text)
      → has_python ≡ true
      → Safe w (make_dirs folder)
      → Quiet w (collect_summaries has_python sorted folder)
  unfolding collect_summaries
  collect_summaries-Quiet folder python made =
      let a : Prog (Unit {0}) = try_each summarise 0 (take 5 nodes) in
      let b : Prog (Unit {0}) = try_each download_summary 0 (take 5 nodes) in
      let d : Prog (Unit {0}) = script (make_dirs folder ∷ []) in
      Quiet-then w (a >> b >> merge_summaries has_python sorted >> d) (archive_outputs folder)
        (Quiet-then w (a >> b >> merge_summaries has_python sorted) d
          (Quiet-then w (a >> b) (merge_summaries has_python sorted)
            (Quiet-then w a b (Quiet-enumerate w _ 0 (take 5 nodes) (λ i x t. refl))
              (Quiet-enumerate w _ 0 (take 5 nodes) (λ i x t. refl)))
            (merge_summaries-Quiet python))
          (Quiet-call w (make_dirs folder) made))
        (archive_outputs-Quiet folder)

  -- Where pauses do not raise, the folder of the archive can be made, python3 can be started on this
  -- machine, and `leader_id` is the number of an address, `start_clients_remote_collect` does not
  -- raise, whether the calls on the other machines, the merge script and the moves of files fail or
  -- not.
  pub start_clients_remote_collect-ok :
      (leader_id : ℕ) {server_ip : Text} (server_port value : Text) (client_ids : ℕ → ℕ)
      (ts_folder : Text) (run_seconds : ℕ) (h : History)
      → has_python ≡ true
      → nth leader_id bind_ips ≡ some server_ip
      → Safe w (sleep run_seconds)
      → Safe w (make_dirs ts_folder)
      → (start_clients_remote_collect has_python sorted leader_id server_port value client_ids
          ts_folder run_seconds w h).0
        ≡ ok tt
  unfolding start_clients_remote_collect
  start_clients_remote_collect-ok leader_id {server_ip} server_port value client_ids folder n h
        python e pause made =
      let a : Prog (Unit {0}) =
        try_each (launch_client remote_base server_ip server_port value client_ids) 0
          (take 5 nodes) in
      let b : Prog (Unit {0}) = script (sleep n ∷ []) in
      let d : Prog (Unit {0}) = try_each (kill_programs (codes "client")) 0 (take 5 nodes) in
      rw (e, start_clients_remote_collect)
        (Quiet-then w (a >> b >> d) (collect_summaries has_python sorted folder)
          (Quiet-then w (a >> b) d
            (Quiet-then w a b (Quiet-enumerate w _ 0 (take 5 nodes) (λ i x t. refl))
              (Quiet-call w (sleep n) pause))
            (Quiet-enumerate w _ 0 (take 5 nodes) (λ i x t. refl)))
          (collect_summaries-Quiet folder python made) h)
