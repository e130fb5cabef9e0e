-- ===== src/Compute/Orchestrator/Frame.antt =====
-- aws_light/compute/orchestrator.py: the steps that write neither the store of services nor
-- the routes; those of the first section do not change the accounts of the nodes either.
use aws_light.Prelude.{ℕ, String, Option, none, some, List, [], Bool-cases, inl, inr, str_eq}
use aws_light.Prelude.Outcome.{Outcome, raised, returned}
use aws_light.Prelude.Action.{Action, next}
use aws_light.Prelude.Hoare.{After, Keeps, Keeps-then, After-any, each-Keeps, fold-Runs}
use aws_light.Dict.{Dict}
use aws_light.Json.{Json}
use aws_light.Events.{EventKind}
use aws_light.Models.{ServiceState, ServiceSpec, DatabaseState, NodeState}
use aws_light.Compute.NodeManager
use aws_light.Secrets.{InvalidToken}
use aws_light.Proxy.RoutingTable.{Table}
use aws_light.Compute.Orchestrator.World.{
  Env, World, Failure, ContainerRequest, ComposeContainerInfo, call, publish,
}
use aws_light.Compute.Orchestrator.Environment.{
  outcome_of, token_urlsafe, create_secret, get_secret, kept_or_new, keep_secret, service_token,
  platform_env, database_password, database_binding_env, add_database_env, database_env_turn,
  database_env, platform_compose_containers, given_or_listed, connect_platform,
  ensure_service_network, attach_database, stored_database, attach_named,
  attach_service_replica_networks,
}
use aws_light.Compute.Orchestrator.Replicas.{
  allocated, allocate, emit_node_updated, emit_found, deallocate,
}
use aws_light.Compute.Orchestrator.Placement.{caught, uuid4, inject_into_env, try_create}

module _ (env : Env) (P : env.service_store.State → Table → NodeManager.NodeManager → Type 0) where
  abbrev pub On : World env → Type 0
  On w = P w.services w.routing_table w.node_manager

  pub call-Keeps : {A : Type 0} (m : Action env.docker.State Failure A) → Keeps On (call env m)
  unfolding call
  call-Keeps m w p = After-any On _ _ p

  pub publish-Keeps : (kind : EventKind) (payload : Dict Json) → Keeps On (publish env kind payload)
  unfolding publish After
  publish-Keeps kind payload w p = p

  pub platform_compose_containers-Keeps : Keeps On (platform_compose_containers env)
  unfolding platform_compose_containers
  platform_compose_containers-Keeps = Keeps-then On _ _ (call-Keeps _) (λ _ w. After-any On _ w)

  given_or_listed-Keeps :
      (containers : Option (List ComposeContainerInfo)) → Keeps On (given_or_listed env containers)
  unfolding given_or_listed
  given_or_listed-Keeps none w p = platform_compose_containers-Keeps w p
  given_or_listed-Keeps (some containers) w p = After-any On _ w p

  pub ensure_service_network-Keeps :
      (name : String) (containers : Option (List ComposeContainerInfo))
      → Keeps On (ensure_service_network env name containers)
  unfolding ensure_service_network connect_platform
  ensure_service_network-Keeps name containers = Keeps-then On _ _ (call-Keeps _) (λ _.
      Keeps-then On _ _ (given_or_listed-Keeps containers) (λ cs.
        Keeps-then On _ _ (each-Keeps On _ (λ c. call-Keeps _) cs) (λ _ w. After-any On _ w)))

  outcome_of-Keeps : {A : Type 0} (o : Outcome InvalidToken A) → Keeps On (outcome_of env o)
  unfolding outcome_of After
  outcome_of-Keeps (raised e) w p = p
  outcome_of-Keeps (returned a) w p = p

  kept_or_new-Keeps :
      (name : String) (n : ℕ) (existing : Option String)
      → Keeps On (kept_or_new env name n existing)
  unfolding kept_or_new token_urlsafe create_secret After next
  kept_or_new-Keeps name n (some existing) w p = p
  kept_or_new-Keeps name n none w p = p

  keep_secret-Keeps : (name : String) (n : ℕ) → Keeps On (keep_secret env name n)
  unfolding keep_secret get_secret
  keep_secret-Keeps name n =
      Keeps-then On _ _ (λ w. outcome_of-Keeps _ w) (λ existing. kept_or_new-Keeps name n _)

  pub platform_env-Keeps : (name : String) → Keeps On (platform_env env name)
  unfolding platform_env service_token
  platform_env-Keeps name = Keeps-then On _ _ (keep_secret-Keeps _ 32) (λ token w. After-any On _ w)

  pub database_password-Keeps : (name : String) → Keeps On (database_password env name)
  unfolding database_password
  database_password-Keeps name = keep_secret-Keeps _ 24

  add_database_env-Keeps :
      (variables : Dict String) (database : Option DatabaseState)
      → Keeps On (add_database_env env variables database)
  unfolding add_database_env database_binding_env
  add_database_env-Keeps variables none w p = After-any On _ w p
  add_database_env-Keeps variables (some database) w p =
      Keeps-then On _ _
        (Keeps-then On _ _ (database_password-Keeps _) (λ password w. After-any On _ w))
        (λ more w. After-any On _ w) w p

  pub database_env-Keeps :
      (service_state : ServiceState) → Keeps On (database_env env service_state)
  unfolding database_env database_env_turn
  database_env-Keeps service_state =
      fold-Runs On (λ _. On) _ (λ variables name w. add_database_env-Keeps variables _ w) [] _

  attach_database-Keeps :
      (network_name : String) (database : Option DatabaseState)
      → Keeps On (attach_database env network_name database)
  unfolding attach_database
  attach_database-Keeps network_name none w p = After-any On _ w p
  attach_database-Keeps network_name (some database) w p =
      elim (Bool-cases (str_eq database.container_id "")) [
        | inl e ↦ rw e (After-any On _ w p)
        | inr e ↦ rw e (call-Keeps _ w p)
      ]

  pub attach_service_replica_networks-Keeps :
      (service_state : ServiceState) → Keeps On (attach_service_replica_networks env service_state)
  unfolding attach_service_replica_networks attach_named
  attach_service_replica_networks-Keeps service_state =
      Keeps-then On _ _ (ensure_service_network-Keeps _ none) (λ network.
        each-Keeps On _
          (λ name w. attach_database-Keeps network (stored_database env w.databases name) w) _)

  emit_found-Keeps :
      (node_id : String) (node : Option NodeState) → Keeps On (emit_found env node_id node)
  unfolding emit_found
  emit_found-Keeps node_id none w p = After-any On _ w p
  emit_found-Keeps node_id (some node) w p = publish-Keeps _ _ w p

  pub emit_node_updated-Keeps : (node_id : String) → Keeps On (emit_node_updated env node_id)
  unfolding emit_node_updated
  emit_node_updated-Keeps node_id w p = emit_found-Keeps node_id _ w p

  pub inject_into_env-Keeps :
      (secret_refs : List String) → Keeps On (inject_into_env env secret_refs)
  unfolding inject_into_env
  inject_into_env-Keeps secret_refs w = outcome_of-Keeps _ w

  pub caught-Keeps :
      {A : Type 0} (done : Outcome Failure A × World env)
      → On (done.1)
      → After (λ _. On) On (caught env done)
  unfolding caught After
  caught-Keeps (raised e, w) p = p
  caught-Keeps (returned a, w) p = p

  pub try_create-Keeps : (request : ContainerRequest) → Keeps On (try_create env request)
  unfolding try_create call
  try_create-Keeps request w p = caught-Keeps _ p

  pub uuid4-Keeps : Keeps On (uuid4 env)
  unfolding uuid4 After
  uuid4-Keeps w p = p

module _ (env : Env) (P : env.service_store.State → Table → Type 0) where
  allocated-Keeps :
      (node_manager : Option NodeManager.NodeManager)
      → Keeps (On env (λ s t _. P s t)) (allocated env node_manager)
  unfolding allocated After
  allocated-Keeps none w p = p
  allocated-Keeps (some node_manager) w p = p

  pub allocate-Keeps :
      (node_id replica_id : String) (spec : ServiceSpec)
      → Keeps (On env (λ s t _. P s t)) (allocate env node_id replica_id spec)
  unfolding allocate
  allocate-Keeps node_id replica_id spec w = allocated-Keeps _ w

  pub deallocate-Keeps :
      (node_id replica_id : String) (spec : ServiceSpec)
      → Keeps (On env (λ s t _. P s t)) (deallocate env node_id replica_id spec)
  unfolding deallocate After
  deallocate-Keeps node_id replica_id spec w p = p
