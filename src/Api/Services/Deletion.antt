-- ===== src/Api/Services/Deletion.antt =====
-- aws_light/api/services.py and aws_light/compute/orchestrator.py together: what becomes of a service that
-- is deleted or changed.
use mathlib.Core.Path.{subst}
use aws_light.Prelude.{String, ◌≡◌, ◌↔◌, refl, ◌∙◌, Option, none, some, List, inl, inr, arith}
use aws_light.Prelude.Outcome.{returned}
use aws_light.Prelude.Hoare.{After}
use aws_light.Models.{ServiceState, ServiceSpec}
use aws_light.Models.Status.{ResourceStatus}
use aws_light.Store.{AnyStore, IsStore}
use aws_light.Store.Laws.{get-put_self, get-put_cases}
use aws_light.Compute.Orchestrator.World.{Env, World, ComposeContainerInfo}
use aws_light.Compute.Orchestrator.Pass.{reconcile_or_teardown}
use aws_light.Compute.Orchestrator.Steps.{Both}
use aws_light.Compute.Orchestrator.Routes.{RoutesMirror, put_status-Mirrored}
use aws_light.Compute.Orchestrator.Removal.{Gone, teardown_service-Gone}
use aws_light.Api.Services as Handlers

-- The state of a name is there, and the turn of the orchestrator for it leaves nothing of the service.
pub record Doomed (env : Env) (platform_containers : List ComposeContainerInfo) (name : String)
    (w : World env) : Type 0 where
  pub state : ServiceState
  pub stored : env.service_store.get w.services name ≡ some state
  pub gone :
      After
        (λ _. Both env (Gone env name))
        (RoutesMirror env)
        (reconcile_or_teardown env platform_containers state w)

module _ (env : Env) (law : IsStore env.service_store) where
  deleted-Doomed :
      (platform_containers : List ComposeContainerInfo) (name : String) (existing : ServiceState)
      (w : World env)
      → env.service_store.get w.services name ≡ some existing
      → RoutesMirror env w
      → Doomed env platform_containers name (record w {
        services =
            env.service_store.put w.services name
              (record existing { status = ResourceStatus.deleting });
      })
  unfolding reconcile_or_teardown
  deleted-Doomed platform_containers name existing w found h =
      let marked = record existing { status = ResourceStatus.deleting } in
      let w' : World env = record w { services = env.service_store.put w.services name marked } in
      record {
        state = marked;
        stored = get-put_self env.service_store law w.services name marked;
        gone =
            subst
              (λ n.
                After (λ _. Both env (Gone env n)) (RoutesMirror env)
                  (reconcile_or_teardown env platform_containers marked w'))
              (h.keyed name existing found)
              (teardown_service-Gone env law marked w' (
                put_status-Mirrored env law w.services w.routing_table name existing
                  ResourceStatus.deleting found h));
      }

  found-Doomed :
      (platform_containers : List ComposeContainerInfo) (name : String)
      (found : Option ServiceState) (w : World env) (services : env.service_store.State)
      → env.service_store.get w.services name ≡ found
      → RoutesMirror env w
      → Handlers.delete_found env.service_store w.services name found ≡ returned services
      → Doomed env platform_containers name (record w { services = services })
  unfolding Handlers.delete_found
  found-Doomed platform_containers name none w services at h done = cc
  found-Doomed platform_containers name (some existing) w services at h done =
      subst (λ s. Doomed env platform_containers name (record w { services = s }))
        (ground (arith, done)) (deleted-Doomed platform_containers name existing w at h)

  -- A service that the API deletes is still stored, and the next turn of the orchestrator for it
  -- leaves it neither in the store nor in the routing table, while the routes of each other
  -- service are still the addresses, in order, of its replicas that run and have one, if that was
  -- so before; the latter holds also where an exception ends the turn.
  pub delete_service-Doomed :
      (platform_containers : List ComposeContainerInfo) (name : String) (w : World env)
      (services : env.service_store.State)
      → RoutesMirror env w
      → Handlers.delete_service env.service_store w.services name ≡ returned services
      → Doomed env platform_containers name (record w { services = services })
  unfolding Handlers.delete_service
  delete_service-Doomed platform_containers name w services h done =
      found-Doomed platform_containers name _ w services refl h done

-- Each service is stored under its own name.
pub record Keyed (store : AnyStore ServiceState) (services : store.State) : Type 0 where
  pub keyed :
      (name : String) (state : ServiceState)
      → store.get services name ≡ some state
      → state.spec.name ≡ name

module _ (store : AnyStore ServiceState) (law : IsStore store) where
  update_found-Keyed :
      (services services' : store.State) (name : String) (spec : ServiceSpec)
      (found : Option ServiceState) (state : ServiceState)
      → Handlers.update_found store services name spec found ≡ returned (services', state)
      → Keyed store services
      → Keyed store services' ↔ (spec.name ≡ name)
  unfolding Handlers.update_found
  update_found-Keyed services services' name spec none state done h = cc
  update_found-Keyed services services' name spec (some existing) state done h =
      let updated = record existing { spec = spec; status = ResourceStatus.updating } in
      let after : store.put services name updated ≡ services' = ground (arith, done) in
      subst (λ s. Keyed store s ↔ (spec.name ≡ name)) after
        (
          (λ k. k.keyed name updated (get-put_self store law services name updated)),
          (λ same. record {
            keyed = λ other stored found.
                elim (get-put_cases store law services name other updated stored found) [
                  | inl (at_name, is) ↦ subst (λ st. st.spec.name ≡ other) is (same ∙ at_name)
                  | inr (e, before) ↦ h.keyed other stored before
                ];
          }),
        )

  -- Where each service is stored under its own name, this is so after an update of a service
  -- through the API exactly where the new specification has the name of the path.
  pub update_service-Keyed :
      (services services' : store.State) (name : String) (spec : ServiceSpec) (state : ServiceState)
      → Handlers.update_service store services name spec ≡ returned (services', state)
      → Keyed store services
      → Keyed store services' ↔ (spec.name ≡ name)
  unfolding Handlers.update_service
  update_service-Keyed services services' name spec state =
      update_found-Keyed services services' name spec _ state
