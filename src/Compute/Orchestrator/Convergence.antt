-- ===== src/Compute/Orchestrator/Convergence.antt =====
-- aws_light/compute/orchestrator.py: what one pass over a service brings about.
use mathlib.Core.Option
use mathlib.Core.Option.{some-injective}
use mathlib.Core.Path.{subst}
use aws_light.Prelude.{ℕ, String, ◌≡◌, refl, sym, ◌∙◌, ap, Bool, Option, some, List, [], ◌∷◌, ◌||◌}
use aws_light.Prelude.Int.{pos}
use aws_light.Prelude.Hoare.{After, Runs, Runs-then, After-map}
use aws_light.Models.{ServiceState, ReplicaState}
use aws_light.Store.{IsStore}
use aws_light.Compute.Orchestrator.World.{Env, ComposeContainerInfo}
use aws_light.Compute.Orchestrator.Reconcile.{
  scale_and_settle, converge, running_replicas, stale_replicas, nonempty, read_again, scale,
  reconcile_service,
}
use aws_light.Compute.Orchestrator.Frame.{ensure_service_network-Keeps}
use aws_light.Compute.Orchestrator.Steps.{Both, Found}
use aws_light.Compute.Orchestrator.Routes.{RoutesMirror}
use aws_light.Compute.Orchestrator.Refresh.{Have, Refreshed, refresh_observed_replicas-Runs}
use aws_light.Compute.Orchestrator.Settling.{Settled, settle-Runs, get_service-Fits}
use aws_light.Compute.Orchestrator.Scaling.{Fits, leaving, remove_all-Runs, scale-Runs}
use aws_light.Compute.Orchestrator.Counting.{
  without_all, running-without_all, stale-without_all, without_all_self,
}

module _ (env : Env) (law : IsStore env.service_store) where
  read_again-Runs :
      (stale : List ReplicaState) (name : String) (state : ServiceState)
      → Runs
          (Both env (Have env name (leaving stale state)))
          (read_again env (nonempty stale) name state)
          (λ current w. Both env (Have env name current) w × (current ≡ leaving stale state))
          (RoutesMirror env)
  unfolding read_again After without_all nonempty
  read_again-Runs [] name state w p = (p, refl)
  read_again-Runs (x ∷ xs) name state w p =
      let found : Option.get_or (env.service_store.get w.services name) state
          ≡ leaving (x ∷ xs) state =
        ap (λ o. Option.get_or o state) p.1 in
      ((p.0, p.1 ∙ ap some (sym found)), found)

  stale_gone :
      (seen : ServiceState)
      → stale_replicas seen.spec.image (
          running_replicas
            (leaving
              (stale_replicas seen.spec.image (running_replicas seen.replicas))
              seen).replicas)
        ≡ []
  stale_gone seen =
      let running = running_replicas seen.replicas in
      let stale = stale_replicas seen.spec.image running in
      ap (stale_replicas seen.spec.image) (running-without_all stale seen.replicas)
      ∙ stale-without_all seen.spec.image stale running
      ∙ without_all_self stale

  scale_and_settle-Runs :
      (current : ServiceState) (wanted : ℕ) (replaced : Bool)
      → current.spec.replicas ≡ pos wanted
      → stale_replicas current.spec.image (running_replicas current.replicas) ≡ []
      → Runs
          (Both env (Have env current.spec.name current))
          (scale_and_settle env current.spec replaced current)
          (λ _. Both env (Settled env current.spec wanted))
          (RoutesMirror env)
  unfolding scale_and_settle
  scale_and_settle-Runs current wanted replaced count fresh =
      let here = Both env (Have env current.spec.name current) in
      let fits = Fits env current.spec wanted 0 in
      let done = Both env (Settled env current.spec wanted) in
      Runs-then here (λ _. Both env fits) (RoutesMirror env) (λ _. done) _ _
        (subst
          (λ n.
            Runs here (scale env current n (running_replicas current.replicas)) (λ _. Both env fits)
              (RoutesMirror env))
          (sym count) (scale-Runs env law current wanted fresh))
        (λ scaled.
          Runs-then (Both env fits) (Found env fits fits current.spec.name) (RoutesMirror env)
            (λ _. done) _ _ (λ w p. get_service-Fits env law current.spec wanted w p)
            (λ found. settle-Runs env law current.spec wanted (replaced || scaled) found))

  converge-Runs :
      (seen : ServiceState) (wanted : ℕ)
      → seen.spec.replicas ≡ pos wanted
      → Runs
          (Both env (Have env seen.spec.name seen))
          (converge env seen.spec seen)
          (λ _. Both env (Settled env seen.spec wanted))
          (RoutesMirror env)
  unfolding converge
  converge-Runs seen wanted count =
      let stale = stale_replicas seen.spec.image (running_replicas seen.replicas) in
      let name = seen.spec.name in
      let left = leaving stale seen in
      let done = Both env (Settled env seen.spec wanted) in
      Runs-then (Both env (Have env name seen)) (λ _. Both env (Have env name left))
        (RoutesMirror env) (λ _. done) _ _ (remove_all-Runs env law seen stale seen)
        (λ _.
          Runs-then (Both env (Have env name left))
            (λ current w. Both env (Have env name current) w × (current ≡ left)) (RoutesMirror env)
            (λ _. done) _ _ (read_again-Runs stale name seen)
            (λ current w p.
              subst
                (λ c.
                  After (λ _. done) (RoutesMirror env)
                    (scale_and_settle env seen.spec (nonempty stale) c w))
                (sym p.1)
                (scale_and_settle-Runs left wanted (nonempty stale) count (stale_gone seen) w
                  (p.0.0, p.0.1 ∙ ap some p.1))))

  -- If each service is stored under its name and its routes are the addresses, in order, of its
  -- replicas that run and have one, a pass over a stored service that wants a number of replicas
  -- that is not negative keeps this, also where an exception ends the pass; where the pass
  -- returns, no more replicas of the service run than wanted, none runs another known image, and
  -- its status is RUNNING if one runs and DEGRADED if none does.
  pub reconcile_service-Settled :
      (state : ServiceState) (platform_containers : Option (List ComposeContainerInfo)) (wanted : ℕ)
      → state.spec.replicas ≡ pos wanted
      → Runs
          (Both env (Have env state.spec.name state))
          (reconcile_service env state platform_containers)
          (λ _. Both env (Settled env state.spec wanted))
          (RoutesMirror env)
  unfolding reconcile_service
  reconcile_service-Settled state platform_containers wanted count =
      let here = Both env (Have env state.spec.name state) in
      let done = Both env (Settled env state.spec wanted) in
      Runs-then here (λ _. here) (RoutesMirror env) (λ _. done) _ _
        (λ w p.
          After-map (λ _. here) (λ _. here) here (RoutesMirror env) _ (λ _ _ h. h) (λ _ h. h.0)
            (ensure_service_network-Keeps env (λ s t _. Have env state.spec.name state s t) _
              platform_containers w p))
        (λ _.
          Runs-then here (Refreshed env state) (RoutesMirror env) (λ _. done) _ _
            (refresh_observed_replicas-Runs env law state)
            (λ seen w p.
              subst
                (λ spec.
                  spec.replicas ≡ pos wanted
                  → Both env (Have env spec.name seen) w
                  → After (λ _. Both env (Settled env spec wanted)) (RoutesMirror env)
                      (converge env spec seen w))
                p.1 (λ count' p'. converge-Runs seen wanted count' w p') count p.0))
