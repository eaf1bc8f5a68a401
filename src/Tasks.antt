-- ===== src/Tasks.antt =====
-- scripts/tasks.py: the tasks that start, stop and measure the nodes of an experiment.
pub mod Servers
pub mod Logs
pub mod Clients
pub mod Counts
pub mod Local
use frugal_leader_election.Base.{
  ℕ, zero, suc, ◌-◌, Bool, true, false, Option, none, some, List, [], ◌∷◌, ◌++◌, Text, codes,
  length,
}
use frugal_leader_election.Text.{starts_with}
use frugal_leader_election.Text.Decimal.{decimal}

-- A node by its host. All nodes have the port 22.
abbrev pub nodes : List Text
nodes =
    codes "amd128.utah.cloudlab.us"
    ∷ codes "amd141.utah.cloudlab.us"
    ∷ codes "amd147.utah.cloudlab.us"
    ∷ codes "amd139.utah.cloudlab.us"
    ∷ codes "amd158.utah.cloudlab.us"
    ∷ []

abbrev pub binary_path : Text
binary_path = codes "bazel-bin/leader_election"

abbrev pub bind_ips : List Text
bind_ips =
    codes "10.0.0.2"
    ∷ codes "10.0.0.3"
    ∷ codes "10.0.4.2"
    ∷ codes "10.0.1.2"
    ∷ codes "10.0.1.3"
    ∷ []

abbrev pub nth : {A : Type 0} → ℕ → List A → Option A
nth n [] = none
nth zero (x ∷ xs) = some x
nth (suc n) (x ∷ xs) = nth n xs

-- The address that a client on the node binds to; the loops stay below the length of the list.
abbrev pub bind_ip : ℕ → Text
bind_ip i = elim (nth i bind_ips) [ none ↦ [] | some ip ↦ ip ]

-- `s.replace(p, "")` behind `skip` characters of a text that is taken out
abbrev without_from : ℕ → Text → Text → Text
without_from skip p [] = []
without_from (suc skip) p (c ∷ s) = without_from skip p s
without_from zero p (c ∷ s) = elim (starts_with (c ∷ s) p) [
  | true ↦ without_from (length p - 1) p s
  | false ↦ c ∷ without_from zero p s
]

unfoldable pub without : Text → Text → Text
without p s = without_from zero p s

-- The constants of the module, with the values that they have when a task runs: `REMOTE_BASE` and
-- `SCRIPT_DIR` are set more than once, `REMOTE_THP` only before the last time.
abbrev pub remote_base : Text
remote_base = codes "/users/PeterYao/frugal-leader-election"

abbrev pub script_dir : Text
script_dir = codes "/users/PeterYao/frugal-leader-election/scripts"

abbrev pub remote_thp : Text
remote_thp = codes "~/frugal-leader-election/scripts/remote_thp_summary.py"

abbrev pub remote_detect : Text
remote_detect = codes "/users/PeterYao/frugal-leader-election/scripts/remote_detect_stats.py"

-- `node_{i + 1}`
abbrev pub node_name : ℕ → Text
node_name i = codes "node_" ++ decimal (suc i)
