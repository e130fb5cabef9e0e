-- ===== src/Proxy/RedisTable.antt =====
-- `RedisRoutingTable` of aws_light/proxy/redis_routing_table.py. Redis is a parameter only in what it
-- keeps: texts by key, with `GET`, `SET`, `DEL` and `KEYS`; JSON is a parameter. The Lua script runs as
-- one step.
pub mod Refinement
use aws_light.Prelude.{
  String, ◌≡◌, Bool, Option, none, some, List, [], ◌∷◌, map, str_eq, false, ◌||◌, if◌then◌else◌,
}
use aws_light.Dict
use aws_light.Dict.{Dict}
use aws_light.Text.{concat, strip_prefix}
use aws_light.Proxy.RoutingTable.{ReplicaEndpoint, existing_health, carry_health}

unfoldable pub key : String → String
key service_name = concat "routing:" service_name

-- JSON texts of lists of endpoints, by the two libraries that read and write them
pub record EndpointJson : Type 1 where
  pub Raw : Type 0
  pub dumps : List ReplicaEndpoint → Raw
  pub loads : Raw → List ReplicaEndpoint

pub record IsJson (json : EndpointJson) : Type 0 where
  pub loads-dumps :
      (endpoints : List ReplicaEndpoint) → json.loads (json.dumps endpoints) ≡ endpoints

module _ (json : EndpointJson) where
  abbrev pub Redis : Type 0
  Redis = Dict json.Raw

  unfoldable pub loaded : Option json.Raw → List ReplicaEndpoint
  loaded none = []
  loaded (some raw) = json.loads raw

  unfoldable pub get_endpoints : Redis → String → List ReplicaEndpoint
  unfolding key loaded
  get_endpoints redis service_name = loaded (Dict.get redis (key service_name))

  unfoldable pub update_service : Redis → String → List ReplicaEndpoint → Redis
  unfolding get_endpoints key
  update_service redis service_name endpoints =
      let known = existing_health (get_endpoints redis service_name) in
      Dict.put redis (key service_name) (json.dumps (map (carry_health known) endpoints))

  unfoldable pub remove_service : Redis → String → Redis
  unfolding key
  remove_service redis service_name = Dict.pop redis (key service_name)

  -- the names of the keys of the form `routing:*`, in the order in which Redis lists them
  unfoldable pub names_of : List String → List String
  names_of [] = []
  names_of (k ∷ keys) =
      let rest = names_of keys in
      elim (strip_prefix "routing:" k) [ none ↦ rest | some name ↦ name ∷ rest ]

  unfoldable pub all_service_names : Redis → List String
  unfolding names_of
  all_service_names redis = names_of (Dict.keys redis)

  -- the loop of the script: every endpoint of the replica
  unfoldable pub mark_endpoints : String → Bool → List ReplicaEndpoint → List ReplicaEndpoint
  mark_endpoints replica_id healthy [] = []
  mark_endpoints replica_id healthy (ep ∷ endpoints) =
      (if str_eq ep.replica_id replica_id then record ep { healthy = healthy } else ep)
      ∷ mark_endpoints replica_id healthy endpoints

  unfoldable pub has_endpoint : String → List ReplicaEndpoint → Bool
  has_endpoint replica_id [] = false
  has_endpoint replica_id (ep ∷ endpoints) =
      str_eq ep.replica_id replica_id || has_endpoint replica_id endpoints

  -- `_SET_HEALTHY_LUA` at the key of a service; `none` is its answer 0
  unfoldable pub run_script : Redis → String → String → Bool → Option Redis
  unfolding mark_endpoints has_endpoint get_endpoints key
  run_script redis service_name replica_id healthy =
      let endpoints = get_endpoints redis service_name in
      if has_endpoint replica_id endpoints
      then some (
          Dict.put redis (key service_name)
            (json.dumps (mark_endpoints replica_id healthy endpoints)))
      else none

  -- the loop of `set_healthy`
  unfoldable pub set_first : List String → Redis → String → Bool → Redis
  unfolding run_script
  set_first [] redis replica_id healthy = redis
  set_first (service_name ∷ names) redis replica_id healthy =
      elim (run_script redis service_name replica_id healthy) [
        | some changed ↦ changed
        | none ↦ set_first names redis replica_id healthy
      ]

  unfoldable pub set_healthy : Redis → String → Bool → Redis
  unfolding set_first all_service_names
  set_healthy redis replica_id healthy =
      set_first (all_service_names redis) redis replica_id healthy
