-- ===== src/Tasks/Servers/Order.antt =====
-- In which order the replicas are cleaned and started.
use frugal_leader_election.Base.{
  ℕ, ◌≡◌, ap, ◌∙◌, inl, inr, Bool-cases, if◌then◌else◌, List, [], ◌∷◌, ◌++◌, Text, codes, map,
}
use frugal_leader_election.Base.Result.{Result, ok, err, remote_error}
use frugal_leader_election.Remote.{
  Action, History, World, put, load_yaml, try_each, script, run_each, run, sudo,
}
use frugal_leader_election.Remote.Laws.{
  comes_through, made, ends, concat, rows_of, seq, try_each-singles, script-run_each, seq-ends,
}
use frugal_leader_election.Tasks.{nodes, node_name}
use frugal_leader_election.Tasks.Servers.{
  put_config, remote_config_path, start_command, clean_default, start_default, start_remote_default,
  killall_remote,
}

-- The calls of `start_remote_default`: the new configuration for every node, then what makes all
-- nodes ready, then the start of every replica.
abbrev pub configure : List Action
configure = concat (rows_of put_config 0 nodes)

abbrev pub make_ready : List Action
make_ready = load_yaml (codes "../configs/remote.yaml") ∷ concat (rows_of clean_default 0 nodes)

abbrev pub start_all : List Action
start_all = concat (rows_of (start_default (codes " --minloglevel=0")) 0 nodes)

configured : (w : World) (h : History) → try_each put_config 0 nodes w h ≡ (ok tt, h ++ configure)
configured =
    try_each-singles
      (λ i host.
        put host (codes "/home/peter/frugal-leader-election/configs/remote.yaml")
          remote_config_path)
      0 nodes

abbrev starts : ℕ → Text → List Action
starts = start_default (codes " --minloglevel=0")

started : (w : World) (h : History) → try_each starts 0 nodes w h ≡ (ok tt, h ++ start_all)
started =
    try_each-singles
      (λ i host. run host (
        start_command remote_config_path (codes " --minloglevel=0")
          (codes "logs/" ++ (node_name i ++ codes ".log")) i))
      0 nodes

to_ends :
    (w : World) (h : History)
    → start_remote_default w h
      ≡ seq (ends w (h ++ configure) make_ready) (try_each starts 0 nodes w)
unfolding start_remote_default
to_ends w h =
    ap
      (λ (r : Result (Unit {0}) × History).
        seq
          (seq (seq r (script (load_yaml (codes "../configs/remote.yaml") ∷ []) w))
            (run_each clean_default 0 nodes w))
          (try_each starts 0 nodes w))
      (configured w h)
    ∙ ap (λ r. seq r (try_each starts 0 nodes w))
        (script-run_each (load_yaml (codes "../configs/remote.yaml") ∷ []) clean_default 0 nodes w
          (h ++ configure))

-- `start_remote_default` starts no replica unless every node is ready: where all calls that make
-- the nodes ready come through, every replica is started behind them and the task succeeds,
-- whatever else raises; where one raises, the task raises there and starts none.
pub start_remote_default-order :
    (w : World) (h : History)
    → start_remote_default w h ≡ (
        if comes_through w (h ++ configure) make_ready
        then (ok tt, ((h ++ configure) ++ make_ready) ++ start_all)
        else (err remote_error, (h ++ configure) ++ made w (h ++ configure) make_ready))
start_remote_default-order w h =
    let (good, bad) = seq-ends make_ready w (h ++ configure) (try_each starts 0 nodes w) in
    elim (Bool-cases (comes_through w (h ++ configure) make_ready)) [
      | inl t ↦ rw t (to_ends w h ∙ good t ∙ started w ((h ++ configure) ++ make_ready))
      | inr t ↦ rw t (to_ends w h ∙ bad t)
    ]

-- `killall_remote` asks every node to stop its replica, whatever raises, and does not raise.
killall_remote-all :
    (w : World) (h : History)
    → killall_remote w h
      ≡ (ok tt, h ++ map (λ host. sudo host (codes "killall leader_election")) nodes)
unfolding killall_remote
killall_remote-all w h =
    try_each-singles (λ i host. sudo host (codes "killall " ++ codes "leader_election")) 0 nodes w h
