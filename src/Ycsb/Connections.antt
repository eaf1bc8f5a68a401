-- ===== src/Ycsb/Connections.antt =====
-- `load_connections`, of scripts/ycsb_analysis.py and scripts/ycsb_analysis_auto.py, and of
-- scripts/zookeeper_setup.py, which reads the switches too.
use frugal_leader_election.Base.{
  ℕ, ◌≡◌, refl, false, Option, none, some, List, [], ◌∷◌, ◌++◌, Text, All, ◌==◌, if◌then◌else◌,
}
use mathlib.Core.List.{foldl}
use frugal_leader_election.Base.Dict.{Dict, insert}
use frugal_leader_election.Base.Equality.{nat_eq}

-- An entry of `nodes` in the YAML file.
pub record NodeEntry : Type 0 where
  pub id : ℕ
  pub connection : Text
  pub port : Option ℕ

-- `Connection(host, user, port)`
pub record Endpoint : Type 0 where
  pub user : Option Text
  pub host : Text
  pub port : ℕ

-- `conn_str.split("@", 1)`, if there is an `@`
abbrev pub split_at : Text → Option (Text × Text)
split_at [] = none
split_at (c ∷ s) =
    let rest = split_at s in
    if c == b'@' then some ([], s) else elim rest [ none ↦ none | some (u, h) ↦ some (c ∷ u, h) ]

-- An empty user counts for none.
abbrev pub user_of : Text → Option Text
user_of [] = none
user_of (c ∷ s) = some (c ∷ s)

abbrev port_of : Option ℕ → ℕ
port_of none = 22
port_of (some p) = p

unfoldable pub endpoint : NodeEntry → Endpoint
endpoint node = elim (split_at node.connection) [
  | none ↦ record { user = none; host = node.connection; port = port_of node.port }
  | some (u, h) ↦ record { user = user_of u; host = h; port = port_of node.port }
]

unfoldable pub load_connections : List NodeEntry → Dict ℕ Endpoint
load_connections nodes =
    foldl (λ connections node. insert node.id (endpoint node) connections) [] nodes

split_at-append :
    (u h : Text) → All (λ c. (c == b'@') ≡ false) u → split_at (u ++ (b'@' ∷ h)) ≡ some (u, h)
split_at-append [] h a = refl
split_at-append (c ∷ u) h a = rw (a.0, split_at-append u h a.1) refl

-- A connection that is written as a user, which is not empty and has no `@`, an `@` and a host is
-- read back as this user and this host, with the port of the entry.
endpoint-user_host :
    (id c : ℕ) (u h : Text) (p : ℕ)
    → All (λ d. (d == b'@') ≡ false) (c ∷ u)
    → endpoint (record { id = id; connection = (c ∷ u) ++ (b'@' ∷ h); port = some p })
      ≡ record { user = some (c ∷ u); host = h; port = p }
unfolding endpoint
endpoint-user_host id c u h p a = rw (split_at-append (c ∷ u) h a, endpoint) refl
