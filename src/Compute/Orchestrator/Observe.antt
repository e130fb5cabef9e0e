-- ===== src/Compute/Orchestrator/Observe.antt =====
-- aws_light/compute/orchestrator.py: the replicas of a service, as Docker shows them.
use aws_light.Prelude.{
  String, Bool, true, false, List, [], ◌∷◌, ◌++◌, ◌&&◌, ◌||◌, str_eq, if◌then◌else◌, not,
}
use aws_light.Prelude.Action.{◌>>=◌, ◌>>◌, pure, fold}
use aws_light.Json.{Json}
use aws_light.Events.{EventKind}
use aws_light.Models.{ServiceState, ServiceSpec, ReplicaState}
use aws_light.Compute.Orchestrator.Names.{service_network_name}
use aws_light.Compute.Orchestrator.World.{Env, Step, call, publish, put_service}
use aws_light.Compute.Orchestrator.Replicas.{
  is_running, sync_routing_table, emit_node_updated, allocate, deallocate, replica_payload,
}

-- the variables of the loop of `_refresh_observed_replicas`
pub record Observed : Type 0 where
  pub changed : Bool
  pub observed_replicas : List ReplicaState

unfoldable pub moved : ReplicaState → String → Bool
moved replica ip = not (str_eq ip "") && not (str_eq replica.container_ip ip)

unfoldable pub at_ip : ReplicaState → String → ReplicaState
unfolding moved
at_ip replica ip = if moved replica ip then record replica { container_ip = ip } else replica

module _ (env : Env) where
  unfoldable pub lose_replica : ServiceSpec → Observed → ReplicaState → Step env Observed
  unfolding deallocate emit_node_updated replica_payload
  lose_replica spec seen replica = do
    call env (env.docker.remove_container replica.container_id)
    deallocate env replica.node_id replica.replica_id spec
    emit_node_updated env replica.node_id
    publish env EventKind.replica_failed (
        replica_payload env spec replica.replica_id replica.node_id
        ++ ("error", Json.text "container missing or stopped") ∷ [])
    pure (record { changed = true; observed_replicas = seen.observed_replicas })

  unfoldable pub keep_replica : ServiceSpec → Observed → ReplicaState → Step env Observed
  unfolding allocate moved at_ip
  keep_replica spec seen replica = do
    call env (
        env.docker.connect_container_to_network replica.container_id
          (service_network_name spec.name) [])
    ip ←
        call env (env.docker.get_container_ip replica.container_id (service_network_name spec.name))
    allocate env replica.node_id replica.replica_id spec
    pure (record {
      changed = seen.changed || moved replica ip;
      observed_replicas = seen.observed_replicas ++ at_ip replica ip ∷ [];
    })

  unfoldable pub observe_container :
      ServiceSpec → Observed → ReplicaState → Bool → Step env Observed
  unfolding lose_replica keep_replica
  observe_container spec seen replica true = keep_replica spec seen replica
  observe_container spec seen replica false = lose_replica spec seen replica

  unfoldable pub observe_running : ServiceSpec → Observed → ReplicaState → Step env Observed
  unfolding observe_container
  observe_running spec seen replica = do
    up ← call env (env.docker.container_is_running replica.container_id)
    observe_container spec seen replica up

  -- one turn of the loop
  unfoldable pub observe : ServiceSpec → Observed → ReplicaState → Step env Observed
  unfolding observe_running is_running
  observe spec seen replica =
      if is_running replica
      then observe_running spec seen replica
      else pure (record seen { observed_replicas = seen.observed_replicas ++ replica ∷ [] })

  unfoldable pub store_observed : ServiceState → Observed → Step env ServiceState
  unfolding sync_routing_table
  store_observed service_state seen =
      let observed = record service_state { replicas = seen.observed_replicas } in
      if seen.changed
      then (do
        put_service env service_state.spec.name observed
        sync_routing_table env observed
        pure observed)
      else (do sync_routing_table env service_state; pure service_state)

  unfoldable pub refresh_observed_replicas : ServiceState → Step env ServiceState
  unfolding observe store_observed
  refresh_observed_replicas service_state = do
    seen ←
        fold (observe service_state.spec) (record { changed = false; observed_replicas = [] })
          service_state.replicas
    store_observed service_state seen
