-- ===== src/Tests/Local.antt =====
-- Runs of the tasks of one machine, and the theorem at one of them.
use frugal_leader_election.Base.{ℕ, ◌≡◌, refl, true, none, some, [], ◌∷◌, length}
use frugal_leader_election.Base.Sort.{member}
use frugal_leader_election.Tasks.Local.{Local, fresh, Machine, start, stop, restart, start_replicas}
use frugal_leader_election.Tasks.Local.Tracked.{Tracked, restart-Tracked}

-- Two replicas; the processes are numbered as they start.
abbrev two : Machine
two = record {
  is_file = λ s. true;
  n_replicas = λ s. some 2;
  popen = λ s words. some (length s.started);
  poll = λ s pid. none;
}

abbrev once : Local
once = (start two fresh).1

-- After a second `start`, `stop` asks the second pair alone.
twice_test : (stop two (start two once).1).1.asked ≡ 2 ∷ 3 ∷ []
unfolding start start_replicas stop
twice_test = refl

once-Tracked : Tracked once
unfolding start start_replicas
once-Tracked p h = h

restart-Tracked_example :
    ((p : ℕ) → member p once.started ≡ true → member p (restart two once).1.asked ≡ true)
    × Tracked (restart two once).1
restart-Tracked_example = restart-Tracked two once once-Tracked
