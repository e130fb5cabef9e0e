-- ===== src/Proxy/LoadBalancer.antt =====
-- `RoundRobinBalancer` of aws_light/proxy/load_balancer.py. The endpoints are those that
-- `get_endpoints` of the routing table has answered. The counter is read and written under the lock.
pub mod Rotation
use mathlib.Core.Option
use aws_light.Prelude.{
  ℕ, ◌+◌, ◌%◌, String, Option, none, some, List, [], ◌∷◌, ◌++◌, length, take, drop, if◌then◌else◌,
}
use aws_light.Dict
use aws_light.Dict.{Dict}
use aws_light.Proxy.RoutingTable.{ReplicaEndpoint}

pub record RoundRobinBalancer : Type 0 where
  pub counters : Dict ℕ

-- [endpoint for endpoint in endpoints if endpoint.healthy]
unfoldable pub healthy_endpoints : List ReplicaEndpoint → List ReplicaEndpoint
healthy_endpoints [] = []
healthy_endpoints (e ∷ endpoints) =
    let rest = healthy_endpoints endpoints in if e.healthy then e ∷ rest else rest

unfoldable pub rotate {ℓ} : {A : Type ℓ} → ℕ → List A → List A
rotate offset xs = drop offset xs ++ take offset xs

-- `none` is `NoHealthyReplicaError`
unfoldable pub choose :
    RoundRobinBalancer
    → String
    → List ReplicaEndpoint
    → Option (List ReplicaEndpoint) × RoundRobinBalancer
unfolding rotate
choose b service_name [] = (none, b)
choose b service_name (e ∷ healthy) =
    let current_index = Option.get_or (Dict.get b.counters service_name) 0 in
    (
      some (rotate (current_index % length (e ∷ healthy)) (e ∷ healthy)),
      record b { counters = Dict.put b.counters service_name (current_index + 1) },
    )

unfoldable pub healthy_replicas_for_request :
    RoundRobinBalancer
    → String
    → List ReplicaEndpoint
    → Option (List ReplicaEndpoint) × RoundRobinBalancer
unfolding healthy_endpoints choose
healthy_replicas_for_request b service_name endpoints =
    choose b service_name (healthy_endpoints endpoints)

abbrev pub first : Option (List ReplicaEndpoint) → Option ReplicaEndpoint
first (some (e ∷ _)) = some e
first _ = none

unfoldable pub next_healthy_replica :
    RoundRobinBalancer → String → List ReplicaEndpoint → Option ReplicaEndpoint × RoundRobinBalancer
unfolding healthy_replicas_for_request
next_healthy_replica b service_name endpoints =
    let (replicas, b') = healthy_replicas_for_request b service_name endpoints in
    (first replicas, b')
