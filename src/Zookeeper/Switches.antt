-- ===== src/Zookeeper/Switches.antt =====
-- The delays on the switches, and on one link.
use frugal_leader_election.Base.{
  ℕ, none, some, List, [], ◌∷◌, ◌++◌, Text, codes, ◌==◌, if◌then◌else◌,
}
use frugal_leader_election.Base.Dict.{Dict, get}
use frugal_leader_election.Base.Equality.{nat_eq}
use frugal_leader_election.Remote.{run, Prog, pure, script, attempt, each}
use frugal_leader_election.Delays.{delete_command, replace_delay, concat_map}

-- An entry of `switch_info`: the interfaces are the keys of its table.
pub record Switch : Type 0 where
  pub id : ℕ
  pub connection : Text
  pub interfaces : List Text

-- Python's floats are a parameter: three times one, and how one is printed.
module _ {F : Type 0} (triple : F → F) (str : F → Text) (switch_info : List Switch) where
  -- Switch 4 has three times the latency.
  abbrev pub latency : F → Switch → Text
  latency lat s = str (if s.id == 4 then triple lat else lat) ++ codes "ms"

  unfoldable pub setup_delay_fat_tree : F → Prog (Unit {0})
  setup_delay_fat_tree lat =
      each (λ s. script (concat_map (replace_delay s.connection (latency lat s)) s.interfaces))
        switch_info

  unfoldable pub setup_delay_fat_tree_normal : F → Text → Prog (Unit {0})
  setup_delay_fat_tree_normal lat stddev =
      each
        (λ s. script (
          concat_map
            (replace_delay s.connection
              (latency lat s ++ (codes " " ++ (stddev ++ codes "ms distribution normal"))))
            s.interfaces))
        switch_info

unfoldable pub clear_all_switch_weights : List Switch → Prog (Unit {0})
clear_all_switch_weights switch_info =
    each
      (λ s.
        script
          (concat_map (λ interface. run s.connection (delete_command interface) ∷ []) s.interfaces))
      switch_info

-- `vary_link_latency`
unfoldable pub vary_link_latency :
    Dict ℕ Text → ℕ → (interface_name mean_delay std_dev dist_name : Text) → Prog (Unit {0})
vary_link_latency connections node_id interface_name mean_delay std_dev dist_name =
    elim (get node_id connections) [
      | none ↦ pure tt
      | some host ↦ attempt (
          script (
            replace_delay host
              (mean_delay ++ (codes "ms " ++ (std_dev ++ (codes "ms distribution " ++ dist_name))))
              interface_name))
    ]
