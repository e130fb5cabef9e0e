-- ===== src/Compute/Orchestrator/Removal.antt =====
-- aws_light/compute/orchestrator.py: a service that is torn down or deleted is gone from the store and the
-- routes.
use aws_light.Prelude.{String, ◌≡◌, refl, Option, none, some, [], arith, eq_iff}
use aws_light.Prelude.Action.{next}
use aws_light.Prelude.Hoare.{
  After, Runs, Keeps, After-next, Keeps-then, Runs-then, After-map, each-Keeps,
}
use aws_light.Dict.{get-pop}
use aws_light.Models.{ServiceState, ServiceSpec, ReplicaState}
use aws_light.Store.{IsStore}
use aws_light.Proxy.RoutingTable.{Table, get_endpoints, remove_service}
use aws_light.Compute.Orchestrator.World.{Env, get_service, call}
use aws_light.Compute.Orchestrator.Names.{service_network_name}
use aws_light.Compute.Orchestrator.Teardown.{
  teardown_service, delete_service_state, remove_route, discard_replica, delete_found,
  delete_service,
}
use aws_light.Compute.Orchestrator.Frame.{call-Keeps, deallocate-Keeps}
use aws_light.Compute.Orchestrator.Steps.{Both}
use aws_light.Compute.Orchestrator.Routes.{
  Mirrored, RoutesMirror, delete-Mirrored, remove_replica-Mirrored,
}

-- No state and no route is left of the service, and the other routes are those of the store.
pub record Gone (env : Env) (name : String) (s : env.service_store.State) (t : Table) : Type 0 where
  pub mirrored : Mirrored env s t
  pub unstored : env.service_store.get s name ≡ none
  pub unrouted : get_endpoints t name ≡ []

get_endpoints-remove_service :
    (t : Table) (name : String) → get_endpoints (remove_service t name) name ≡ []
unfolding get_endpoints remove_service
get_endpoints-remove_service t name = ground (arith, get-pop t name name, eq_iff name name)

module _ (env : Env) (law : IsStore env.service_store) where
  gone :
      (name : String) (s : env.service_store.State) (t : Table)
      → Mirrored env s t
      → Gone env name (env.service_store.delete s name) (remove_service t name)
  gone name s t h = record {
    mirrored = delete-Mirrored env law s t name h;
    unstored = ground (arith, law.get-delete s name name, eq_iff name name);
    unrouted = get_endpoints-remove_service t name;
  }

  -- the end of both methods
  forget-Runs :
      (name : String)
      → Runs
          (RoutesMirror env)
          (λ w.
            next
              (λ _ w'.
                next
                  (λ _. call env (env.docker.remove_network (service_network_name name)))
                  (remove_route env name w'))
              (delete_service_state env name w))
          (λ _. Both env (Gone env name))
          (RoutesMirror env)
  unfolding delete_service_state remove_route next
  forget-Runs name w p =
      After-map (λ _. Both env (Gone env name)) (λ _. Both env (Gone env name))
        (Both env (Gone env name)) (RoutesMirror env) _ (λ _ _ h. h) (λ _ h. h.mirrored)
        (call-Keeps env (λ s t _. Gone env name s t) _ _ (gone name w.services w.routing_table p))

  -- After the teardown of a service neither the store nor the routing table has it, and the other
  -- routes are still the addresses of the stored running replicas; the latter holds also where an
  -- exception ends the teardown.
  pub teardown_service-Gone :
      (service_state : ServiceState)
      → Runs
          (RoutesMirror env)
          (teardown_service env service_state)
          (λ _. Both env (Gone env service_state.spec.name))
          (RoutesMirror env)
  unfolding teardown_service
  teardown_service-Gone service_state =
      Runs-then (RoutesMirror env) (λ _. RoutesMirror env) (RoutesMirror env)
        (λ _. Both env (Gone env service_state.spec.name)) _ _
        (each-Keeps (RoutesMirror env) _ (remove_replica-Mirrored env law service_state)
          service_state.replicas)
        (λ _. forget-Runs service_state.spec.name)

  discard_replica-Keeps :
      (spec : ServiceSpec) (replica : ReplicaState)
      → Keeps (RoutesMirror env) (discard_replica env spec replica)
  unfolding discard_replica
  discard_replica-Keeps spec replica =
      Keeps-then (RoutesMirror env) _ _ (call-Keeps env (λ s t _. Mirrored env s t) _)
        (λ _. deallocate-Keeps env (Mirrored env) _ _ spec)

  delete_found-Runs :
      (name : String) (found : Option ServiceState)
      → Runs
          (λ w. RoutesMirror env w × (env.service_store.get w.services name ≡ found))
          (delete_found env name found)
          (λ _ w. RoutesMirror env w × (env.service_store.get w.services name ≡ none))
          (RoutesMirror env)
  unfolding delete_found After
  delete_found-Runs name none w p = p
  delete_found-Runs name (some state) w p =
      After-next (λ _. RoutesMirror env) (RoutesMirror env)
        (λ _ w. RoutesMirror env w × (env.service_store.get w.services name ≡ none)) _ _
        (each-Keeps (RoutesMirror env) _ (discard_replica-Keeps state.spec) state.replicas w p.0)
        (λ _ w' h.
          After-map (λ _. Both env (Gone env name))
            (λ _ w. RoutesMirror env w × (env.service_store.get w.services name ≡ none))
            (RoutesMirror env) (RoutesMirror env) _ (λ _ _ g. (g.mirrored, g.unstored)) (λ _ g. g)
            (forget-Runs name w' h))

  -- After delete_service the store does not have the service, whether or not it had it before, and
  -- the routes are still the addresses of the stored running replicas; the latter holds also where
  -- an exception ends it.
  pub delete_service-Gone :
      (name : String)
      → Runs
          (RoutesMirror env)
          (delete_service env name)
          (λ _ w. RoutesMirror env w × (env.service_store.get w.services name ≡ none))
          (RoutesMirror env)
  unfolding delete_service get_service next
  delete_service-Gone name w p =
      delete_found-Runs name (env.service_store.get w.services name) w (p, refl)
