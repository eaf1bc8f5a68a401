-- ===== src/Background/Deploy.antt =====
-- scripts/background_tcp_simulation/auto_sim.py and auto_run_leader_election.py: a thread for each
-- node.
pub mod Nodes
use frugal_leader_election.Base.{
  ℕ, suc, Bool, true, false, List, [], ◌∷◌, ◌++◌, Text, codes, if◌then◌else◌,
}
use frugal_leader_election.Text.Decimal.{decimal}
use frugal_leader_election.Remote.{Action, Prog, run, pure, script, attempt, ◌>>◌}
use frugal_leader_election.Remote.Threads.{thread_of}

-- `nodes` of both scripts
abbrev pub nodes : List Text
nodes =
    codes "amd128.utah.cloudlab.us"
    ∷ codes "amd141.utah.cloudlab.us"
    ∷ codes "amd147.utah.cloudlab.us"
    ∷ codes "amd139.utah.cloudlab.us"
    ∷ codes "amd158.utah.cloudlab.us"
    ∷ []

abbrev pub target_script : Text
target_script = codes "~/frugal-leader-election/scripts/background_tcp_simulation/tcp_sim.py"

-- `execute_on_node` of auto_sim.py, for the node at `i`
abbrev pub simulation_calls : ℕ → Text → List Action
simulation_calls i host =
    run host (codes "sudo killall python3")
    ∷ run host (
        codes "nohup python3 "
        ++ (target_script ++ (codes " " ++ (decimal (suc i) ++ codes " 7899 &"))))
    ∷ []

-- The threads of auto_sim.py
unfoldable pub auto_sim : ℕ → List Action
auto_sim j = thread_of simulation_calls nodes 0 j

unfoldable pub build_install_bazel : Text → Prog (Unit {0})
build_install_bazel host = attempt (
    script (
      run host (codes "sudo apt install apt-transport-https curl gnupg -y")
      ∷ run host (
          codes
            "curl -fsSL https://bazel.build/bazel-release.pub.gpg | gpg --dearmor > bazel-archive-keyring.gpg")
      ∷ run host
          (codes "sudo mv bazel-archive-keyring.gpg /usr/share/keyrings/bazel-archive-keyring.gpg")
      ∷ run host (
          codes
            "echo 'deb [signed-by=/usr/share/keyrings/bazel-archive-keyring.gpg] https://storage.googleapis.com/bazel-apt stable jdk1.8' | sudo tee /etc/apt/sources.list.d/bazel.list")
      ∷ run host (codes "sudo apt update && sudo apt install -y bazel-7.5.0")
      ∷ run host (codes "sudo apt install libboost-all-dev -y")
      ∷ []))

abbrev pub update_calls : ℕ → Text → List Action
update_calls i host =
    run host (
      codes
        "cd frugal-leader-election && git stash save && git checkout main && git pull && bazel-7.5.0 build //:leader_election && bazel-7.5.0 build //:client")
    ∷ []

-- `execute_on_node` of auto_run_leader_election.py
unfoldable pub execute_on_node :
    (build_bazel build_invoke build_fabric : Bool) → ℕ → Text → Prog (Unit {0})
execute_on_node build_bazel build_invoke build_fabric i host = attempt (
    (if build_bazel then build_install_bazel host else pure tt)
    >> script
        (if build_invoke then run host (codes "sudo apt install python3-invoke -y") ∷ [] else [])
    >> script (
        if build_fabric
        then run host (codes "sudo apt install python3-pip -y")
          ∷ run host (codes "pip install fabric")
          ∷ []
        else [])
    >> script (
        if build_bazel
        then run host (codes "git clone https://github.com/PeterYaoNYU/frugal-leader-election.git")
          ∷ []
        else [])
    >> script (update_calls i host))

-- The threads of auto_run_leader_election.py, which installs nothing unless the code is changed
unfoldable pub auto_run : ℕ → List Action
auto_run j = thread_of update_calls nodes 0 j
