-- ===== src/Delays.antt =====
-- scripts/delay_setup/delay_setup_asymmetric_topo.py: the delays on the network cards of the
-- nodes, set with `tc`.
use frugal_leader_election.Base.{
  ℕ, Bool, true, false, Option, none, some, List, [], ◌∷◌, ◌++◌, Text, codes, map, if◌then◌else◌,
}
use frugal_leader_election.Base.Dict.{Dict, get}
use frugal_leader_election.Base.Equality.{◌=?◌, nat_eq, list_eq}
use frugal_leader_election.Text.Decimal.{decimal}
use frugal_leader_election.Remote.{Action, run, Prog, pure, script, attempt, each, enumerate, ◌>>◌}

-- The module's own `connections`
abbrev pub hosts : List Text
hosts =
    codes "c220g1-031111.wisc.cloudlab.us"
    ∷ codes "c220g1-031130.wisc.cloudlab.us"
    ∷ codes "c220g1-031117.wisc.cloudlab.us"
    ∷ codes "c220g1-031119.wisc.cloudlab.us"
    ∷ codes "c220g1-031105.wisc.cloudlab.us"
    ∷ []

abbrev pub node_interfaces : Dict Text (List Text)
node_interfaces =
    (codes "node0", codes "enp129s0f0" ∷ codes "enp129s0f1" ∷ [])
    ∷ (codes "node1", codes "enp6s0f0" ∷ codes "enp6s0f1" ∷ [])
    ∷ (codes "node2", codes "enp6s0f0" ∷ codes "enp6s0f1" ∷ [])
    ∷ (codes "node3", codes "enp6s0f0" ∷ codes "enp6s0f1" ∷ [])
    ∷ (codes "node4", codes "enp129s0f0" ∷ [])
    ∷ []

abbrev pub delete_command : Text → Text
delete_command interface = codes "sudo tc qdisc del dev " ++ (interface ++ codes " root || true")

abbrev pub add_command : (interface delay : Text) → Text
add_command interface delay =
    codes "sudo tc qdisc add dev " ++ (interface ++ (codes " root netem delay " ++ delay))

abbrev pub concat_map : {A B : Type 0} → (A → List B) → List A → List B
concat_map f [] = []
concat_map f (x ∷ xs) = f x ++ concat_map f xs

abbrev pub replace_delay : (host delay interface : Text) → List Action
replace_delay host delay interface =
    run host (delete_command interface) ∷ run host (add_command interface delay) ∷ []

-- `add_delay`
abbrev pub add_delay_calls : (host : Text) → Bool → Text → List Action
add_delay_calls host no_delay interface =
    run host (delete_command interface)
    ∷ (if no_delay then [] else run host (add_command interface (codes "2ms")) ∷ [])

unfoldable pub add_delay : Text → List Text → Bool → Prog (Unit {0})
add_delay host interfaces no_delay =
    attempt (script (concat_map (add_delay_calls host no_delay) interfaces))

abbrev pub hostname : ℕ → Text
hostname node_id = codes "node" ++ decimal node_id

abbrev pub contains_text : Text → List Text → Bool
contains_text x [] = false
contains_text x (y ∷ ys) = if x =? y then true else contains_text x ys

-- `if interface_list and interface not in interface_list: continue`
abbrev pub is_chosen : List Text → Text → Bool
is_chosen [] interface = true
is_chosen (x ∷ xs) interface = contains_text interface (x ∷ xs)

-- The delay as the command has it.
abbrev pub delay_text : (delay_mean delay_std_dev delay_distribution : Text) → Text
delay_text delay_mean delay_std_dev delay_distribution =
    delay_mean
    ++ (codes "ms"
        ++ (if delay_distribution =? codes "constant"
            then []
            else codes " " ++ (delay_std_dev ++ (codes "ms distribution " ++ delay_distribution))))

-- `add_delay_to_node`. A node that is not known raises before the first call, and the exception is
-- caught.
abbrev pub node_calls : Option Text → Option (List Text) → Text → List Text → List Action
node_calls none interfaces delay interface_list = []
node_calls (some host) none delay interface_list = []
node_calls (some host) (some interfaces) delay interface_list =
    concat_map
      (λ interface.
        if is_chosen interface_list interface then replace_delay host delay interface else [])
      interfaces

unfoldable pub add_delay_to_node :
    (node_id : ℕ) (delay_mean delay_std_dev delay_distribution : Text) (connections : Dict ℕ Text)
    (interface_list : List Text)
    → Prog (Unit {0})
add_delay_to_node node_id delay_mean delay_std_dev delay_distribution connections interface_list =
    attempt (
      script (
        node_calls (get node_id connections) (get (hostname node_id) node_interfaces)
          (delay_text delay_mean delay_std_dev delay_distribution) interface_list))

abbrev pub check_calls : ℕ × Text → List Action
check_calls (node_id, host) = elim (get (hostname node_id) node_interfaces) [
  | none ↦ []
  | some interfaces ↦
      map (λ interface. run host (codes "sudo tc qdisc show dev " ++ interface)) interfaces
]

abbrev pub add_if_known :
    (delay_mean delay_std_dev delay_distribution : Text) → Dict ℕ Text → ℕ × Text → Prog (Unit {0})
add_if_known delay_mean delay_std_dev delay_distribution connections (node_id, host) =
    elim (get (hostname node_id) node_interfaces) [
      | none ↦ pure tt
      | some interfaces ↦
          add_delay_to_node node_id delay_mean delay_std_dev delay_distribution connections []
    ]

unfoldable pub add_delay_to_all_nodes :
    (delay_mean delay_std_dev delay_distribution : Text) → Dict ℕ Text → Prog (Unit {0})
add_delay_to_all_nodes delay_mean delay_std_dev delay_distribution connections =
    each (add_if_known delay_mean delay_std_dev delay_distribution connections) connections
    >> each (λ server. script (check_calls server)) connections

unfoldable pub clear_all_weights : Prog (Unit {0})
clear_all_weights =
    enumerate
      (λ idx host. elim (get (hostname idx) node_interfaces) [
        | none ↦ pure tt
        | some interfaces ↦ add_delay host interfaces true
      ])
      0 hosts
