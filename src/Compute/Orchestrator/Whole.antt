-- ===== src/Compute/Orchestrator/Whole.antt =====
-- aws_light/compute/orchestrator.py: `_reconcile_all` keeps the routes.
use aws_light.Prelude.{String, ◌≡◌, ◌∙◌, ap, false, Option, none, some, List, [], ◌∷◌, All, str_eq}
use aws_light.Prelude.Action.{each}
use aws_light.Prelude.Hoare.{
  After-last, After, Runs, Keeps, After-next, Runs-then, After-map, After-any, each-Runs,
  each-Keeps,
}
use aws_light.Models.{ServiceState}
use aws_light.Store.{IsStore}
use aws_light.Store.Laws.{get-put_other, get-delete_other}
use aws_light.Proxy.RoutingTable.{Table}
use aws_light.Compute.Orchestrator.World.{Env, World, Step, ComposeContainerInfo}
use aws_light.Compute.Orchestrator.Pass.{
  reconcile_or_teardown, reconcile_stored, reconcile_databases, list_services, sync_nodes_to_store,
  reconcile_all,
}
use aws_light.Compute.Orchestrator.Frame.{platform_compose_containers-Keeps}
use aws_light.Compute.Orchestrator.DatabaseFrame.{reconcile_database-Keeps}
use aws_light.Compute.Orchestrator.Steps.{Both}
use aws_light.Compute.Orchestrator.Routes.{
  Mirrored, RoutesMirror, put-Mirrored, put_status-Mirrored, delete-Mirrored,
}
use aws_light.Compute.Orchestrator.Refresh.{sync-Mirrored}
use aws_light.Compute.Orchestrator.Turns.{Closed}
use aws_light.Compute.Orchestrator.ServiceTurns.{reconcile_or_teardown-Kept}

-- The states are stored under their names, which differ.
unfoldable pub Listed : (env : Env) → env.service_store.State → List ServiceState → Type 0
Listed env s states = All (λ state. env.service_store.get s state.spec.name ≡ some state) states

unfoldable pub Apart : List ServiceState → Type 0
Apart [] = Unit
Apart (state ∷ states) =
    All (λ other. str_eq state.spec.name other.spec.name ≡ false) states × Apart states

module _ (env : Env) (law : IsStore env.service_store) where
  -- the routes mirror the store, which has the states whose turn is still to come
  abbrev Coming : List ServiceState → env.service_store.State → Table → Type 0
  Coming states s t = Mirrored env s t × Listed env s states

  put-Listed :
      (name : String) (s : env.service_store.State) (state : ServiceState)
      (states : List ServiceState)
      → All (λ other. str_eq name other.spec.name ≡ false) states
      → Listed env s states
      → Listed env (env.service_store.put s name state) states
  unfolding Listed
  put-Listed name s state [] apart h = tt
  put-Listed name s state (other ∷ states) apart h = (
    get-put_other env.service_store law s name other.spec.name state apart.0 ∙ h.0,
    put-Listed name s state states apart.1 h.1,
  )

  delete-Listed :
      (name : String) (s : env.service_store.State) (states : List ServiceState)
      → All (λ other. str_eq name other.spec.name ≡ false) states
      → Listed env s states
      → Listed env (env.service_store.delete s name) states
  unfolding Listed
  delete-Listed name s [] apart h = tt
  delete-Listed name s (other ∷ states) apart h = (
    get-delete_other env.service_store law s name other.spec.name apart.0 ∙ h.0,
    delete-Listed name s states apart.1 h.1,
  )

  Coming-Closed :
      (name : String) (states : List ServiceState)
      → All (λ other. str_eq name other.spec.name ≡ false) states
      → Closed env name (Coming states)
  Coming-Closed name states apart = record {
    keyed = λ s t state p found. p.0.keyed name state found;
    put = λ s t state named p.
        (put-Mirrored env law s t name state named p.0, put-Listed name s state states apart p.1);
    status = λ s t state status found p. (
      put_status-Mirrored env law s t name state status found p.0,
      put-Listed name s _ states apart p.1,
    );
    sync = λ s t state named found p.
        (sync-Mirrored env law s t state (p.0, ap (env.service_store.get s) named ∙ found), p.1);
    forget = λ s t p. (delete-Mirrored env law s t name p.0, delete-Listed name s states apart p.1);
  }

  -- while the turns of these states go on, others are still to come
  abbrev Going : List ServiceState → env.service_store.State → Table → Type 0
  Going states s t = Mirrored env s t × Listed env s states × Apart states

  turn-Runs :
      (platform_containers : List ComposeContainerInfo) (state : ServiceState)
      (states : List ServiceState)
      → Runs
          (Both env (Going (state ∷ states)))
          (reconcile_or_teardown env platform_containers state)
          (λ _. Both env (Going states))
          (RoutesMirror env)
  unfolding Listed Apart
  turn-Runs platform_containers state states w p =
      let apart = p.2.0 in
      let later = p.2.1 in
      After-map (λ _. Both env (Coming states)) (λ _. Both env (Going states))
        (Both env (Coming states)) (RoutesMirror env) _ (λ _ w' h. (h.0, h.1, later)) (λ _ h. h.0)
        (reconcile_or_teardown-Kept env (Coming states) platform_containers state
          (Coming-Closed state.spec.name states apart) w ((p.0, p.1.1), p.1.0))

  turns-Runs :
      (platform_containers : List ComposeContainerInfo) (states : List ServiceState)
      → Runs
          (Both env (Going states))
          (each (reconcile_or_teardown env platform_containers) states)
          (λ _. RoutesMirror env)
          (RoutesMirror env)
  turns-Runs platform_containers states w p =
      After-map (λ _. Both env (Going [])) (λ _. RoutesMirror env) (RoutesMirror env)
        (RoutesMirror env) _ (λ _ _ h. h.0) (λ _ h. h)
        (each-Runs (RoutesMirror env) (λ rest. Both env (Going rest)) _
          (turn-Runs platform_containers) states w p)

  -- what the store lists is what it has, each service once
  abbrev pub Ready : env.service_store.State → Table → Type 0
  Ready s t = Going (env.service_store.list s) s t

  reconcile_stored-Keeps :
      (databases : Option env.database_store.State)
      → Keeps (Both env Ready) (reconcile_stored env databases)
  unfolding reconcile_stored
  reconcile_stored-Keeps none w p = After-any (Both env Ready) _ w p
  reconcile_stored-Keeps (some databases) w p =
      each-Keeps (Both env Ready) _ (λ d. reconcile_database-Keeps env (λ s t _. Ready s t) d) _ w p

  reconcile_databases-Keeps : Keeps (Both env Ready) (reconcile_databases env)
  unfolding reconcile_databases
  reconcile_databases-Keeps w p = reconcile_stored-Keeps w.databases w p

  lowered :
      {A : Type 0} (states : List ServiceState) (m : Step env A)
      → Keeps (Both env (Going states)) m
      → Runs (Both env (Going states)) m (λ _. Both env (Going states)) (RoutesMirror env)
  lowered states m h w p =
      let going = Both env (Going states) in
      After-map (λ _. going) (λ _. going) going (RoutesMirror env) (m w) (λ _ _ q. q) (λ _ q. q.0)
        (h w p)

  list_services-Runs :
      Runs
        (Both env Ready)
        (list_services env)
        (λ states. Both env (Going states))
        (RoutesMirror env)
  unfolding list_services After
  list_services-Runs w p = p

  sync_nodes-Runs :
      Runs (RoutesMirror env) (sync_nodes_to_store env) (λ _. RoutesMirror env) (RoutesMirror env)
  unfolding sync_nodes_to_store After
  sync_nodes-Runs w p = p

  databases-Runs :
      Runs (Both env Ready) (reconcile_databases env) (λ _. Both env Ready) (RoutesMirror env)
  databases-Runs w p =
      After-map (λ _. Both env Ready) (λ _. Both env Ready) (Both env Ready) (RoutesMirror env) _
        (λ _ _ q. q) (λ _ q. q.0) (reconcile_databases-Keeps w p)

  -- A whole pass over the databases and services, whether it returns or an exception ends it,
  -- leaves each service stored under its name with routes that are the addresses, in order, of its
  -- replicas that run and have one, if that was so before and the store lists what it has, each
  -- service once.
  pub reconcile_all-RoutesMirror :
      (w : World env)
      → RoutesMirror env w
      → Listed env w.services (env.service_store.list w.services)
      → Apart (env.service_store.list w.services)
      → RoutesMirror env ((reconcile_all env w).1)
  unfolding reconcile_all
  reconcile_all-RoutesMirror w mirror listed apart =
      let ready = Both env Ready in
      let mirrors = RoutesMirror env in
      After-last mirrors (reconcile_all env w) (
        After-next (λ _. ready) mirrors (λ _. mirrors) _ _
          (databases-Runs w (mirror, listed, apart))
          (λ _.
            Runs-then ready (λ states. Both env (Going states)) mirrors (λ _. mirrors) _ _
              list_services-Runs
              (λ states.
                Runs-then (Both env (Going states)) (λ _. Both env (Going states)) mirrors
                  (λ _. mirrors) _ _
                  (lowered states _
                    (platform_compose_containers-Keeps env (λ s t _. Going states s t)))
                  (λ containers.
                    Runs-then (Both env (Going states)) (λ _. mirrors) mirrors (λ _. mirrors) _ _
                      (turns-Runs containers states) (λ _. sync_nodes-Runs)))))
