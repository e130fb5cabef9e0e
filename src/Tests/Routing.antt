-- ===== src/Tests/Routing.antt =====
-- Examples of the routing table, the balancer, the health checker and the event bus.
use aws_light.Prelude.{
  eq_iff, ◌≤◌, String, ◌≡◌, refl, ℕ, ◌<◌, List, [], ◌∷◌, true, false, arith, map, length, get_elem?,
  if◌then◌else◌, str_eq,
}
use mathlib.Core.Option
use aws_light.Config.{Settings, default_settings}
use aws_light.Dict
use aws_light.Proxy.RoutingTable.{
  ReplicaEndpoint, Table, get_endpoints, update_service, set_healthy,
}
use aws_light.Proxy.RoutingTable.Health.{
  health_of, health-update_service, get_endpoints-set_healthy, mark, Distinct, routes_to,
  table_occurrences, occurrences,
}
use aws_light.Proxy.LoadBalancer.{
  RoundRobinBalancer, healthy_endpoints, next_healthy_replica, healthy_replicas_for_request,
}
use aws_light.Proxy.LoadBalancer.Rotation.{fair, after, Offered, healthy_replicas-Offered}
use aws_light.Proxy.HealthChecker.{HealthChecker, Probe, response}
use aws_light.Proxy.HealthChecker.Run.{
  run, consecutive, failures, flaps, run-consecutive, run-flaps,
}
use aws_light.Events.Bus.{EventBus, publish}
use aws_light.Events.Bus.Delivery.{queue_of, delivered, queue_of-publish}

abbrev endpoint : String → ReplicaEndpoint
endpoint replica_id = record {
  replica_id = replica_id;
  host = "10.0.0.1";
  port = 80;
  healthy = true;
}

abbrev table : Table
table = ("api", endpoint "r1" ∷ endpoint "r2" ∷ []) ∷ []

table-Distinct : Distinct (get_endpoints table "api")
unfolding get_endpoints Dict.get routes_to
table-Distinct = (refl, (refl, tt))

table-Once : table_occurrences "r1" table ≤ 1
unfolding table_occurrences occurrences
table-Once = omega arith

two_healthy : 1 < length (healthy_endpoints (endpoint "r1" ∷ endpoint "r2" ∷ []))
unfolding healthy_endpoints
two_healthy = omega arith

health-update_service_example :
    (health_of "r1" (get_endpoints (update_service table "api" (endpoint "r1" ∷ [])) "api") ≡ (
      if str_eq "api" "api"
      then Option.map
          (λ h. Option.get_or (health_of "r1" (get_endpoints table "api")) h)
          (health_of "r1" (endpoint "r1" ∷ []))
      else health_of "r1" (get_endpoints table "api")))
    × (get_endpoints (update_service table "api" (endpoint "r1" ∷ [])) "api" ≡ (
        if str_eq "api" "api"
        then get_endpoints (update_service table "api" (endpoint "r1" ∷ [])) "api"
        else get_endpoints table "api"))
health-update_service_example =
    health-update_service table "api" "api" "r1" (endpoint "r1" ∷ []) table-Distinct

get_endpoints-set_healthy_example :
    get_endpoints (set_healthy table "r1" false) "api"
    ≡ map (mark "r1" false) (get_endpoints table "api")
get_endpoints-set_healthy_example = get_endpoints-set_healthy table "r1" false "api" table-Once

abbrev balancer : RoundRobinBalancer
balancer = record { counters = ("api", 3) ∷ [] }

fair_example :
    (i : ℕ) × (i < length (healthy_endpoints (endpoint "r1" ∷ endpoint "r2" ∷ [])))
    × ((next_healthy_replica
          (after i balancer "api" (endpoint "r1" ∷ endpoint "r2" ∷ []))
          "api"
          (endpoint "r1" ∷ endpoint "r2" ∷ [])).0
        ≡ get_elem? (healthy_endpoints (endpoint "r1" ∷ endpoint "r2" ∷ [])) 1)
fair_example = fair balancer "api" (endpoint "r1" ∷ endpoint "r2" ∷ []) 1 two_healthy

healthy_replicas-Offered_example :
    Offered
      (endpoint "r1" ∷ [])
      (healthy_replicas_for_request balancer "api" (endpoint "r1" ∷ [])).0
healthy_replicas-Offered_example = healthy_replicas-Offered balancer "api" (endpoint "r1" ∷ [])

abbrev checker : HealthChecker
checker = record {
  routing_table = table;
  consecutive_failures = [];
  consecutive_successes = [];
  routeable_replicas = [];
  events = [];
}

abbrev probes : List Probe
probes = response 500 ∷ Probe.exception ∷ response 503 ∷ response 200 ∷ []

run-consecutive_example :
    (run default_settings "r1" "api" "http://10.0.0.1:80/" checker "10.0.0.1" probes).routing_table
    ≡ consecutive default_settings "r1" "api" "http://10.0.0.1:80/"
        (failures checker "r1")
        table
        probes
run-consecutive_example =
    run-consecutive default_settings "r1" "api" "http://10.0.0.1:80/" probes checker "10.0.0.1" refl
      (ground (arith, eq_iff "10.0.0.1" ""))

abbrev slow_settings : Settings
slow_settings = record default_settings { health_check_success_threshold = 2 }

run-flaps_example :
    (run slow_settings "r1" "api" "http://10.0.0.1:80/" checker "10.0.0.1"
      (flaps slow_settings "r1" "api" "http://10.0.0.1:80/" 2)).routing_table
    ≡ set_healthy table "r1" false
unfolding Dict.get
run-flaps_example =
    run-flaps slow_settings "r1" "api" "http://10.0.0.1:80/" 2 checker "10.0.0.1"
      (ground (arith, eq_iff "10.0.0.1" "")) (omega arith) refl

abbrev bus : EventBus ℕ
bus = record {
  subscribers = record { queue_id = 0; queue = 4 ∷ [] } ∷ [];
  recent_events = 4 ∷ [];
  next_queue_id = 1;
}

queue_of-publish_example :
    queue_of 0 (publish bus 5).subscribers ≡ delivered 5 (queue_of 0 bus.subscribers)
queue_of-publish_example = queue_of-publish bus 5 0 (tt, tt)
