-- ===== src/Compute/Orchestrator/Replicas.antt =====
-- aws_light/compute/orchestrator.py: the routes of a service, the account of its replicas, and how one is removed.
use aws_light.Prelude.{
  String, Bool, false, Option, none, some, List, [], ◌∷◌, ◌&&◌, str_eq, if◌then◌else◌, not, length,
}
use aws_light.Prelude.Int.{pos}
use aws_light.Prelude.Outcome.{raised, returned}
use aws_light.Prelude.Action.{◌>>=◌, ◌>>◌, pure}
use aws_light.Dict.{Dict}
use aws_light.Json.{Json}
use aws_light.Events.{EventKind}
use aws_light.Models.{ServiceState, ServiceSpec, ReplicaState, NodeState}
use aws_light.Models.Status.{ResourceStatus, is_status}
use aws_light.Proxy.RoutingTable.{ReplicaEndpoint, update_service}
use aws_light.Compute.NodeManager
use aws_light.Compute.Orchestrator.World.{
  Env, Step, key_error, call, publish, get_service, put_service,
}

unfoldable pub is_running : ReplicaState → Bool
is_running replica = is_status replica.status ResourceStatus.running

-- the comprehension of `_sync_routing_table`, with the port of the service
unfoldable pub endpoints_of : ServiceSpec → List ReplicaState → List ReplicaEndpoint
unfolding is_running
endpoints_of spec [] = []
endpoints_of spec (replica ∷ replicas) =
    let rest = endpoints_of spec replicas in
    if is_running replica && not (str_eq replica.container_ip "")
    then record {
      replica_id = replica.replica_id;
      host = replica.container_ip;
      port = spec.port;
      healthy = false;
    }
      ∷ rest
    else rest

-- the comprehension of `_remove_replica`
unfoldable pub without : String → List ReplicaState → List ReplicaState
without replica_id [] = []
without replica_id (r ∷ replicas) =
    let rest = without replica_id replicas in
    if str_eq r.replica_id replica_id then rest else r ∷ rest

module _ (env : Env) where
  unfoldable pub sync_routing_table : ServiceState → Step env (Unit {0})
  unfolding endpoints_of
  sync_routing_table service_state w = (
    returned tt,
    record w {
      routing_table =
          update_service w.routing_table service_state.spec.name
            (endpoints_of service_state.spec service_state.replicas);
    },
  )

  unfoldable pub node_updated_payload : String → NodeState → Dict Json
  node_updated_payload node_id node =
      ("node_id", Json.text node_id)
      ∷ ("cpu_used", Json.number node.usage.cpu_used)
      ∷ ("actual_cpu_used", Json.number node.actual_usage.cpu_used)
      ∷ ("memory_used_mb", Json.number node.usage.memory_used_mb)
      ∷ ("actual_memory_used_mb", Json.number node.actual_usage.memory_used_mb)
      ∷ ("replica_count", Json.number (pos (length node.replica_ids)))
      ∷ []

  unfoldable pub emit_found : String → Option NodeState → Step env (Unit {0})
  unfolding node_updated_payload
  emit_found node_id none = pure tt
  emit_found node_id (some node) =
      publish env EventKind.node_updated (node_updated_payload node_id node)

  unfoldable pub emit_node_updated : String → Step env (Unit {0})
  unfolding emit_found
  emit_node_updated node_id w = emit_found node_id (NodeManager.get_node w.node_manager node_id) w

  unfoldable pub allocated : Option NodeManager.NodeManager → Step env (Unit {0})
  allocated none w = (raised key_error, w)
  allocated (some node_manager) w = (returned tt, record w { node_manager = node_manager })

  unfoldable pub allocate : String → String → ServiceSpec → Step env (Unit {0})
  unfolding allocated
  allocate node_id replica_id spec w =
      allocated
        (NodeManager.allocate w.node_manager node_id replica_id spec.cpu_request
          spec.memory_request_mb)
        w

  unfoldable pub deallocate : String → String → ServiceSpec → Step env (Unit {0})
  deallocate node_id replica_id spec w = (
    returned tt,
    record w {
      node_manager =
          NodeManager.deallocate w.node_manager node_id replica_id spec.cpu_request
            spec.memory_request_mb;
    },
  )

  -- what the two methods do with the state that `get` answered: put it with other replicas, and route
  unfoldable pub put_replicas :
      String → (List ReplicaState → List ReplicaState) → Option ServiceState → Step env (Unit {0})
  unfolding sync_routing_table
  put_replicas name change none = pure tt
  put_replicas name change (some current_service) =
      let changed = record current_service { replicas = change current_service.replicas } in
      do put_service env name changed; sync_routing_table changed

  unfoldable pub replica_payload : ServiceSpec → String → String → Dict Json
  replica_payload spec replica_id node_id =
      ("replica_id", Json.text replica_id)
      ∷ ("service_name", Json.text spec.name)
      ∷ ("node_id", Json.text node_id)
      ∷ []

  unfoldable pub remove_replica : ServiceState → ReplicaState → Step env (Unit {0})
  unfolding put_replicas deallocate emit_node_updated replica_payload without
  remove_replica service_state replica =
      let spec = service_state.spec in
      do
        call env (env.docker.remove_container replica.container_id)
        deallocate replica.node_id replica.replica_id spec
        emit_node_updated replica.node_id
        current_service ← get_service env spec.name
        put_replicas spec.name (without replica.replica_id) current_service
        publish env EventKind.replica_stopped
            (replica_payload spec replica.replica_id replica.node_id)
