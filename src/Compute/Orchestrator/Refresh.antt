-- ===== src/Compute/Orchestrator/Refresh.antt =====
-- aws_light/compute/orchestrator.py: what `_refresh_observed_replicas` leaves in the store and the routes.
use mathlib.Core.Option.{some-injective}
use mathlib.Core.Path.{subst}
use aws_light.Prelude.{
  String, ◌≡◌, refl, sym, ◌∙◌, ap, Bool, true, false, some, [], Bool-cases, inl, inr, str_eq,
  eq_iff,
}
use aws_light.Prelude.Action.{next}
use aws_light.Prelude.Hoare.{
  After, Runs, Keeps, After-next, Keeps-then, Runs-then, After-map, After-any, fold-Runs,
}
use aws_light.Models.{ServiceState, ServiceSpec, ReplicaState}
use aws_light.Store.{IsStore}
use aws_light.Store.Laws.{get-put_self}
use aws_light.Proxy.RoutingTable.{Table, update_service}
use aws_light.Compute.Orchestrator.World.{Env, World, put_service}
use aws_light.Compute.Orchestrator.Replicas.{endpoints_of, sync_routing_table, is_running}
use aws_light.Compute.Orchestrator.Observe.{
  Observed, lose_replica, keep_replica, observe_container, observe_running, observe, store_observed,
  refresh_observed_replicas,
}
use aws_light.Compute.Orchestrator.Frame.{
  call-Keeps, publish-Keeps, allocate-Keeps, deallocate-Keeps, emit_node_updated-Keeps,
}
use aws_light.Compute.Orchestrator.Steps.{Both}
use aws_light.Compute.Orchestrator.Routes.{
  Mirrored, RoutesMirror, Shows, addresses, addresses-update_service, put-Mirrored, routed_here,
}

module _ (env : Env) (P : env.service_store.State → Table → Type 0) where
  abbrev Kept : World env → Type 0
  Kept = Both env P

  lose_replica-Keeps :
      (spec : ServiceSpec) (seen : Observed) (replica : ReplicaState)
      → Keeps Kept (lose_replica env spec seen replica)
  unfolding lose_replica
  lose_replica-Keeps spec seen replica =
      Keeps-then Kept _ _ (call-Keeps env (λ s t _. P s t) _) (λ _.
        Keeps-then Kept _ _ (deallocate-Keeps env P _ _ spec) (λ _.
          Keeps-then Kept _ _ (emit_node_updated-Keeps env (λ s t _. P s t) _) (λ _.
            Keeps-then Kept _ _ (publish-Keeps env (λ s t _. P s t) _ _)
              (λ _ w. After-any Kept _ w))))

  keep_replica-Keeps :
      (spec : ServiceSpec) (seen : Observed) (replica : ReplicaState)
      → Keeps Kept (keep_replica env spec seen replica)
  unfolding keep_replica
  keep_replica-Keeps spec seen replica =
      Keeps-then Kept _ _ (call-Keeps env (λ s t _. P s t) _) (λ _.
        Keeps-then Kept _ _ (call-Keeps env (λ s t _. P s t) _)
          (λ ip. Keeps-then Kept _ _ (allocate-Keeps env P _ _ spec) (λ _ w. After-any Kept _ w)))

  observe_container-Keeps :
      (spec : ServiceSpec) (seen : Observed) (replica : ReplicaState) (up : Bool)
      → Keeps Kept (observe_container env spec seen replica up)
  unfolding observe_container
  observe_container-Keeps spec seen replica true = keep_replica-Keeps spec seen replica
  observe_container-Keeps spec seen replica false = lose_replica-Keeps spec seen replica

  pub observe-Keeps :
      (spec : ServiceSpec) (seen : Observed) (replica : ReplicaState)
      → Keeps Kept (observe env spec seen replica)
  unfolding observe observe_running
  observe-Keeps spec seen replica w p = elim (Bool-cases (is_running replica)) [
    | inl e ↦ rw e (
        After-next (λ _. Kept) Kept (λ _. Kept) _ _ (call-Keeps env (λ s t _. P s t) _ w p)
          (λ up. observe_container-Keeps spec seen replica up))
    | inr e ↦ rw e (After-any Kept _ w p)
  ]

module _ (env : Env) where
  -- the state that is stored under a name, with the routes of all services
  abbrev pub Have : String → ServiceState → env.service_store.State → Table → Type 0
  Have name state s t = Mirrored env s t × (env.service_store.get s name ≡ some state)

  -- the state that the refresh of another leaves and returns
  abbrev pub Refreshed : ServiceState → ServiceState → World env → Type 0
  Refreshed old state = Both env (λ s t. Have old.spec.name state s t × (state.spec ≡ old.spec))

module _ (env : Env) (law : IsStore env.service_store) where
  -- the routes of a service written again
  pub sync-Mirrored :
      (s : env.service_store.State) (t : Table) (state : ServiceState)
      → Have env state.spec.name state s t
      → Mirrored env s (update_service t state.spec.name (endpoints_of state.spec state.replicas))
  sync-Mirrored s t state h = record {
    keyed = h.0.keyed;
    routed = λ other stored found.
        let routes =
          addresses-update_service t state.spec.name other
            (endpoints_of state.spec state.replicas) in
        elim (Bool-cases (str_eq state.spec.name other)) [
          | inl e ↦
              let at_name : state.spec.name ≡ other = (eq_iff state.spec.name other).0 e in
              let same : state ≡ stored =
                some-injective _ _ (sym h.1 ∙ ap (env.service_store.get s) at_name ∙ found) in
              routed_here stored
                (routes ∙ rw e (ap (λ st. addresses (endpoints_of st.spec st.replicas)) same))
          | inr e ↦
              subst (Shows stored.spec.port stored.replicas) (sym (routes ∙ rw e refl))
                (h.0.routed other stored found)
        ];
  }

  store_observed-Runs :
      (state : ServiceState) (seen : Observed)
      → Runs
          (Both env (Have env state.spec.name state))
          (store_observed env state seen)
          (Refreshed env state)
          (RoutesMirror env)
  unfolding store_observed put_service sync_routing_table After next
  store_observed-Runs state seen w p =
      let observed = record state { replicas = seen.observed_replicas } in
      elim (Bool-cases seen.changed) [
        | inl e ↦ rw e (
          (
            put-Mirrored env law w.services w.routing_table state.spec.name observed refl p.0,
            get-put_self env.service_store law w.services state.spec.name observed,
          ),
          refl,
        )
        | inr e ↦ rw e ((sync-Mirrored w.services w.routing_table state p, p.1), refl)
      ]

  pub refresh_observed_replicas-Runs :
      (state : ServiceState)
      → Runs
          (Both env (Have env state.spec.name state))
          (refresh_observed_replicas env state)
          (Refreshed env state)
          (RoutesMirror env)
  unfolding refresh_observed_replicas
  refresh_observed_replicas-Runs state =
      let here = Both env (Have env state.spec.name state) in
      Runs-then here (λ _. here) (RoutesMirror env) (Refreshed env state) _ _
        (λ w p.
          After-map (λ _. here) (λ _. here) here (RoutesMirror env) _ (λ _ _ h. h) (λ _ h. h.0)
            (fold-Runs here (λ _. here) _
              (λ seen replica.
                observe-Keeps env (Have env state.spec.name state) state.spec seen replica)
              (record { changed = false; observed_replicas = [] }) state.replicas w p))
        (λ seen. store_observed-Runs state seen)
