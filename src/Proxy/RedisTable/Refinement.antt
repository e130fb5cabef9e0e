-- ===== src/Proxy/RedisTable/Refinement.antt =====
-- aws_light/proxy/redis_routing_table.py answers as the table in memory does.
use aws_light.Prelude.{String, ◌≡◌, sym, ap, ◌∙◌, List, map, arith, str_eq, eq_iff}
use mathlib.Core.Option.{some-injective}
use aws_light.Dict.{get-put, get-pop}
use aws_light.Text.{strip_prefix, strip_prefix_of_concat}
use aws_light.Proxy.RoutingTable
use aws_light.Proxy.RoutingTable.{ReplicaEndpoint, Table, existing_health, carry_health}
use aws_light.Proxy.RedisTable
use aws_light.Proxy.RedisTable.{EndpointJson, IsJson, key}

key-injective : (s t : String) → key s ≡ key t → s ≡ t
unfolding key
key-injective s t h = some-injective _ _ (
    sym (strip_prefix_of_concat "routing:" s)
    ∙ (ap (strip_prefix "routing:") h ∙ strip_prefix_of_concat "routing:" t))

key-eq : (s t : String) → str_eq (key s) (key t) ≡ str_eq s t
unfolding key
key-eq s t = ground (arith, eq_iff (key s) (key t), eq_iff s t, key-injective s t, ap key)

-- The two tables list the same endpoints for every service.
pub record Agree (json : EndpointJson) (redis : RedisTable.Redis json) (table : Table)
    : Type 0 where
  pub same :
      (s : String) → RedisTable.get_endpoints json redis s ≡ RoutingTable.get_endpoints table s

module _ (json : EndpointJson) (law : IsJson json) where
  -- A table in Redis and one in memory that list the same endpoints for every service still do
  -- after the same update of a service.
  pub update_service-Agree :
      (redis : RedisTable.Redis json) (table : Table) (s : String)
      (endpoints : List ReplicaEndpoint)
      → Agree json redis table
      → Agree json
          (RedisTable.update_service json redis s endpoints)
          (RoutingTable.update_service table s endpoints)
  unfolding RedisTable.update_service RedisTable.get_endpoints RedisTable.loaded
      RoutingTable.update_service RoutingTable.get_endpoints
  update_service-Agree redis table s endpoints agree = record {
    same = λ t.
        let mine =
          map (carry_health (existing_health (RedisTable.get_endpoints json redis s))) endpoints in
        let theirs =
          map (carry_health (existing_health (RoutingTable.get_endpoints table s))) endpoints in
        let same : mine ≡ theirs =
          ap (λ l. map (carry_health (existing_health l)) endpoints) (agree.same s) in
        ground (
          arith,
          key-eq s t,
          get-put redis (key s) (key t) (json.dumps mine),
          get-put table s t theirs,
          agree.same t,
          law.loads-dumps mine,
          same,
        );
  }

  -- And after a removal.
  pub remove_service-Agree :
      (redis : RedisTable.Redis json) (table : Table) (s : String)
      → Agree json redis table
      → Agree json (RedisTable.remove_service json redis s) (RoutingTable.remove_service table s)
  unfolding RedisTable.remove_service RedisTable.get_endpoints RedisTable.loaded
      RoutingTable.remove_service RoutingTable.get_endpoints
  remove_service-Agree redis table s agree = record {
    same = λ t.
        ground (arith, key-eq s t, get-pop redis (key s) (key t), get-pop table s t, agree.same t);
  }
