-- ===== src/Compute/Orchestrator/ServiceTurns.antt =====
-- aws_light/compute/orchestrator.py: the whole turn of one service keeps what its writes keep.
use mathlib.Core.Path.{subst}
use aws_light.Prelude.{
  ◌≡◌, refl, sym, ap, Bool, false, Option, some, List, [], Bool-cases, inl, inr,
}
use aws_light.Prelude.Action.{next}
use aws_light.Prelude.Hoare.{
  After, Runs, Keeps, Keeps-then, Runs-then, After-map, each-Keeps, fold-Runs,
}
use aws_light.Models.{ServiceState, ServiceSpec}
use aws_light.Models.Status.{ResourceStatus, is_status}
use aws_light.Proxy.RoutingTable.{Table}
use aws_light.Compute.Orchestrator.World.{Env, World, Step, ComposeContainerInfo, put_service}
use aws_light.Compute.Orchestrator.Replicas.{sync_routing_table}
use aws_light.Compute.Orchestrator.Observe.{Observed, store_observed, refresh_observed_replicas}
use aws_light.Compute.Orchestrator.Reconcile.{scale_and_settle, converge, reconcile_service}
use aws_light.Compute.Orchestrator.Teardown.{teardown_service, delete_service_state, remove_route}
use aws_light.Compute.Orchestrator.Pass.{reconcile_or_teardown}
use aws_light.Compute.Orchestrator.Frame.{call-Keeps, ensure_service_network-Keeps}
use aws_light.Compute.Orchestrator.Refresh.{observe-Keeps}
use aws_light.Compute.Orchestrator.Steps.{Both}
use aws_light.Compute.Orchestrator.Turns.{
  Closed, remove-Kept, read_again-Kept, settle-Kept, scale-Kept, get_service-Kept,
}

module _ (env : Env) (P : env.service_store.State → Table → Type 0) where
  abbrev Kept : World env → Type 0
  Kept = Both env P

  scale_and_settle-Kept :
      (spec : ServiceSpec) (replaced : Bool) (current : ServiceState)
      → Closed env spec.name P
      → current.spec.name ≡ spec.name
      → Keeps Kept (scale_and_settle env spec replaced current)
  unfolding scale_and_settle
  scale_and_settle-Kept spec replaced current c named =
      Keeps-then Kept _ _
        (scale-Kept env P current spec.replicas _ (subst (λ n. Closed env n P) (sym named) c))
        (λ scaled.
          Runs-then Kept (λ found w. Kept w × (env.service_store.get w.services spec.name ≡ found))
            Kept (λ _. Kept) _ _ (get_service-Kept env P spec.name)
            (λ found. settle-Kept env P spec.name _ found c))

  converge-Kept :
      (spec : ServiceSpec) (seen : ServiceState)
      → Closed env spec.name P
      → seen.spec.name ≡ spec.name
      → Keeps Kept (converge env spec seen)
  unfolding converge
  converge-Kept spec seen c named =
      Keeps-then Kept _ _
        (each-Keeps Kept _
          (λ r. remove-Kept env P seen r (subst (λ n. Closed env n P) (sym named) c)) _)
        (λ _.
          Runs-then Kept (λ current w. Kept w × (current.spec.name ≡ spec.name)) Kept (λ _. Kept) _
            _ (read_again-Kept env P _ spec.name seen c named)
            (λ current w p. scale_and_settle-Kept spec _ current c p.1 w p.0))

  abbrev Here : ServiceState → env.service_store.State → Table → Type 0
  Here state s t = P s t × (env.service_store.get s state.spec.name ≡ some state)

  store_observed-Kept :
      (state : ServiceState) (seen : Observed)
      → Closed env state.spec.name P
      → Runs
          (Both env (Here state))
          (store_observed env state seen)
          (λ now w. Kept w × (now.spec ≡ state.spec))
          Kept
  unfolding store_observed put_service sync_routing_table After next
  store_observed-Kept state seen c w p = elim (Bool-cases seen.changed) [
    | inl e ↦ rw e (c.put w.services w.routing_table _ refl p.0, refl)
    | inr e ↦ rw e (c.sync w.services w.routing_table state refl p.1 p.0, refl)
  ]

  weaker :
      {A : Type 0} (state : ServiceState) (m : Step env A)
      → Keeps (Both env (Here state)) m
      → Runs (Both env (Here state)) m (λ _. Both env (Here state)) Kept
  weaker state m h w p =
      let here = Both env (Here state) in
      After-map (λ _. here) (λ _. here) here Kept (m w) (λ _ _ q. q) (λ _ q. q.0) (h w p)

  refresh-Kept :
      (state : ServiceState)
      → Closed env state.spec.name P
      → Runs
          (Both env (Here state))
          (refresh_observed_replicas env state)
          (λ now w. Kept w × (now.spec ≡ state.spec))
          Kept
  unfolding refresh_observed_replicas
  refresh-Kept state c =
      let here = Both env (Here state) in
      Runs-then here (λ _. here) Kept (λ now w. Kept w × (now.spec ≡ state.spec)) _ _
        (weaker state _ (
          fold-Runs here (λ _. here) _ (λ seen r. observe-Keeps env (Here state) state.spec seen r)
            (record { changed = false; observed_replicas = [] }) state.replicas))
        (λ seen. store_observed-Kept state seen c)

  reconcile_service-Kept :
      (state : ServiceState) (platform_containers : Option (List ComposeContainerInfo))
      → Closed env state.spec.name P
      → Runs
          (Both env (Here state))
          (reconcile_service env state platform_containers)
          (λ _. Kept)
          Kept
  unfolding reconcile_service
  reconcile_service-Kept state platform_containers c =
      let here = Both env (Here state) in
      Runs-then here (λ _. here) Kept (λ _. Kept) _ _
        (weaker state _
          (ensure_service_network-Keeps env (λ s t _. Here state s t) _ platform_containers))
        (λ _.
          Runs-then here (λ now w. Kept w × (now.spec ≡ state.spec)) Kept (λ _. Kept) _ _
            (refresh-Kept state c)
            (λ seen w p. converge-Kept state.spec seen c (ap (λ spec. spec.name) p.1) w p.0))

  teardown_service-Kept :
      (state : ServiceState)
      → Closed env state.spec.name P
      → Keeps Kept (teardown_service env state)
  unfolding teardown_service delete_service_state remove_route next
  teardown_service-Kept state c =
      Keeps-then Kept _ _ (each-Keeps Kept _ (λ r. remove-Kept env P state r c) state.replicas)
        (λ _ w p. call-Keeps env (λ s t _. P s t) _ _ (c.forget w.services w.routing_table p))

  pub reconcile_or_teardown-Kept :
      (platform_containers : List ComposeContainerInfo) (state : ServiceState)
      → Closed env state.spec.name P
      → Runs
          (Both env (Here state))
          (reconcile_or_teardown env platform_containers state)
          (λ _. Kept)
          Kept
  unfolding reconcile_or_teardown
  reconcile_or_teardown-Kept platform_containers state c w p =
      elim (Bool-cases (is_status state.status ResourceStatus.deleting)) [
        | inl e ↦ rw e (teardown_service-Kept state c w p.0)
        | inr e ↦ rw e (reconcile_service-Kept state (some platform_containers) c w p)
      ]
