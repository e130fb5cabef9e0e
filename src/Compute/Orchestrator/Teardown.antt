-- ===== src/Compute/Orchestrator/Teardown.antt =====
-- aws_light/compute/orchestrator.py: the end of a service, and the containers that no service has.
use aws_light.Prelude.{String, Option, none, some, List, [], ◌∷◌, ◌++◌, if◌then◌else◌}
use aws_light.Prelude.Outcome.{returned}
use aws_light.Prelude.Action.{◌>>=◌, ◌>>◌, pure, next, each}
use aws_light.Models.{ServiceState, ServiceSpec, ReplicaState}
use aws_light.Proxy.RoutingTable.{remove_service}
use aws_light.Compute.NodeManager.{member}
use aws_light.Compute.Orchestrator.Names.{docker_label_managed, service_network_name}
use aws_light.Compute.Orchestrator.World.{Env, Step, ContainerInfo, call, get_service}
use aws_light.Compute.Orchestrator.Replicas.{deallocate, remove_replica}

module _ (env : Env) where
  unfoldable pub delete_service_state : String → Step env (Unit {0})
  delete_service_state name w =
      (returned tt, record w { services = env.service_store.delete w.services name })

  unfoldable pub remove_route : String → Step env (Unit {0})
  remove_route name w =
      (returned tt, record w { routing_table = remove_service w.routing_table name })

  unfoldable pub teardown_service : ServiceState → Step env (Unit {0})
  unfolding delete_service_state remove_route
  teardown_service service_state =
      let name = service_state.spec.name in
      do
        each (remove_replica env service_state) service_state.replicas
        delete_service_state name
        remove_route name
        call env (env.docker.remove_network (service_network_name name))

  -- `delete_service`, at the state that `get` answered
  unfoldable pub discard_replica : ServiceSpec → ReplicaState → Step env (Unit {0})
  unfolding deallocate
  discard_replica spec replica = do
    call env (env.docker.remove_container replica.container_id)
    deallocate env replica.node_id replica.replica_id spec

  unfoldable pub delete_found : String → Option ServiceState → Step env (Unit {0})
  unfolding discard_replica delete_service_state remove_route
  delete_found name none = pure tt
  delete_found name (some service_state) = do
    each (discard_replica service_state.spec) service_state.replicas
    delete_service_state name
    remove_route name
    call env (env.docker.remove_network (service_network_name name))

  unfoldable pub delete_service : String → Step env (Unit {0})
  unfolding delete_found
  delete_service service_name = do
    service_state ← get_service env service_name
    delete_found service_name service_state

  unfoldable pub container_ids : List ReplicaState → List String
  container_ids [] = []
  container_ids (replica ∷ replicas) = replica.container_id ∷ container_ids replicas

  unfoldable pub known_container_ids : List ServiceState → List String
  unfolding container_ids
  known_container_ids [] = []
  known_container_ids (service_state ∷ states) =
      container_ids service_state.replicas ++ known_container_ids states

  unfoldable pub remove_orphan : List String → ContainerInfo → Step env (Unit {0})
  remove_orphan known orphan =
      if member orphan.container_id known
      then pure tt
      else call env (env.docker.remove_container orphan.container_id)

  unfoldable pub remove_orphan_containers : Step env (Unit {0})
  unfolding remove_orphan known_container_ids
  remove_orphan_containers w =
      next (each (remove_orphan (known_container_ids (env.service_store.list w.services))))
        (call env (env.docker.list_containers_by_label docker_label_managed "true") w)
