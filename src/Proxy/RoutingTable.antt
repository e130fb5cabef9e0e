-- ===== src/Proxy/RoutingTable.antt =====
-- `RoutingTable` of aws_light/proxy/routing_table.py. Each method holds the lock, so it is one step.
pub mod Health
use mathlib.Core.Option
use aws_light.Prelude.{
  ℕ, String, Bool, false, Option, none, some, List, [], ◌∷◌, map, str_eq, if◌then◌else◌,
}
use aws_light.Dict
use aws_light.Dict.{Dict}

pub record ReplicaEndpoint : Type 0 where
  pub replica_id : String
  pub host : String
  pub port : ℕ
  pub healthy : Bool

abbrev pub Table : Type 0
Table = Dict (List ReplicaEndpoint)

unfoldable pub get_endpoints : Table → String → List ReplicaEndpoint
get_endpoints table service_name = Option.get_or (Dict.get table service_name) []

-- the dictionary comprehension: of two endpoints with one id the later counts
unfoldable pub add_health : Dict Bool → List ReplicaEndpoint → Dict Bool
add_health known [] = known
add_health known (e ∷ endpoints) = add_health (Dict.put known e.replica_id e.healthy) endpoints

unfoldable pub existing_health : List ReplicaEndpoint → Dict Bool
unfolding add_health
existing_health = add_health []

unfoldable pub carry_health : Dict Bool → ReplicaEndpoint → ReplicaEndpoint
carry_health known e = record e { healthy = Option.get_or (Dict.get known e.replica_id) e.healthy }

unfoldable pub update_service : Table → String → List ReplicaEndpoint → Table
unfolding get_endpoints existing_health carry_health
update_service table service_name endpoints =
    let known = existing_health (get_endpoints table service_name) in
    Dict.put table service_name (map (carry_health known) endpoints)

-- the inner loop of `set_healthy`: the first endpoint of the replica, if there is one
unfoldable pub set_first : String → Bool → List ReplicaEndpoint → Option (List ReplicaEndpoint)
set_first replica_id healthy [] = none
set_first replica_id healthy (e ∷ endpoints) =
    let rest = set_first replica_id healthy endpoints in
    if str_eq e.replica_id replica_id
    then some (record e { healthy = healthy } ∷ endpoints)
    else Option.map (λ found. e ∷ found) rest

-- the outer loop: over the services, up to the first that has the replica
unfoldable pub set_healthy : Table → String → Bool → Table
unfolding set_first
set_healthy [] replica_id healthy = []
set_healthy ((name, endpoints) ∷ table) replica_id healthy =
    let rest = set_healthy table replica_id healthy in
    elim (set_first replica_id healthy endpoints) [
      | none ↦ (name, endpoints) ∷ rest
      | some found ↦ (name, found) ∷ table
    ]

unfoldable pub remove_service : Table → String → Table
remove_service table service_name = Dict.pop table service_name

unfoldable pub all_service_names : Table → List String
all_service_names table = Dict.keys table
