-- ===== src/Compute/Orchestrator/Placement.antt =====
-- aws_light/compute/orchestrator.py: how a replica is placed on a node and created.
use aws_light.Prelude.{String, Option, none, some, List, [], ◌∷◌, ◌++◌}
use aws_light.Prelude.Outcome.{Outcome, raised, returned}
use aws_light.Prelude.Action.{◌>>=◌, ◌>>◌, pure}
use aws_light.Dict.{Dict}
use aws_light.Json.{Json}
use aws_light.Text.{join, first_characters}
use aws_light.Events.{EventKind}
use aws_light.Models.{ServiceState, ServiceSpec, ReplicaState, NodeState}
use aws_light.Models.Status.{ResourceStatus}
use aws_light.Iac.Results.{merged}
use aws_light.Secrets
use aws_light.Compute.NodeManager
use aws_light.Compute.Scheduler.{select_node}
use aws_light.Compute.Orchestrator.Names.{
  docker_label_managed, docker_label_service, docker_label_replica, docker_label_node,
  candidate_nodes,
}
use aws_light.Compute.Orchestrator.World.{
  Env, World, Step, Failure, ContainerRequest, call, publish, get_service,
}
use aws_light.Compute.Orchestrator.Replicas.{
  allocate, emit_node_updated, put_replicas, replica_payload,
}
use aws_light.Compute.Orchestrator.Environment.{
  ensure_service_network, outcome_of, platform_env, database_env, attach_service_replica_networks,
}

module _ (env : Env) where
  unfoldable pub placement_payload : ServiceSpec → List NodeState → Dict Json → Dict Json
  placement_payload spec nodes chosen =
      ("service_name", Json.text spec.name) ∷ chosen
      ++ ("cpu_request", Json.number spec.cpu_request)
        ∷ ("memory_request_mb", Json.number spec.memory_request_mb)
        ∷ ("scheduler_policy", Json.text env.scheduler_policy)
        ∷ ("candidate_nodes", candidate_nodes nodes)
        ∷ []

  unfoldable pub uuid4 : Step env String
  uuid4 w =
      let drawn = env.randomness.uuid4 w.random in
      (returned (drawn.0), record w { random = drawn.1 })

  -- `inject_into_env` of the secrets
  unfoldable pub inject_into_env : List String → Step env (Dict String)
  inject_into_env secret_refs w =
      outcome_of env
        (Secrets.inject_into_env env.secret_store env.fernet w.secrets_manager secret_refs) w

  -- a call in a `try` that catches every exception
  unfoldable pub caught :
      {A : Type 0} → Outcome Failure A × World env → Outcome Failure (Option A) × World env
  caught (raised e, w) = (returned none, w)
  caught (returned a, w) = (returned (some a), w)

  unfoldable pub try_create : ContainerRequest → Step env (Option (String × String))
  unfolding caught
  try_create request w = caught (call env (env.docker.create_container request) w)

  unfoldable pub no_capacity : ServiceSpec → List NodeState → Step env (Unit {0})
  unfolding placement_payload
  no_capacity spec nodes =
      publish env EventKind.scheduler_no_capacity (placement_payload spec nodes [])

  abbrev pub new_replica : ServiceSpec → String → String → String × String → ReplicaState
  new_replica spec replica_id node_id (container_id, container_ip) = record {
    replica_id = replica_id;
    container_id = container_id;
    node_id = node_id;
    status = ResourceStatus.running;
    container_ip = container_ip;
    image = spec.image;
  }

  abbrev pub append_replica : ReplicaState → List ReplicaState → List ReplicaState
  append_replica replica replicas = replicas ++ replica ∷ []

  -- the end of `_create_replica`, at the container that was made
  unfoldable pub started :
      ServiceState → String → String → Option (String × String) → Step env (Unit {0})
  unfolding put_replicas allocate emit_node_updated replica_payload
  started service_state replica_id node_id none = pure tt
  started service_state replica_id node_id (some container) =
      let spec = service_state.spec in
      do
        attach_service_replica_networks env service_state
        allocate env node_id replica_id spec
        emit_node_updated env node_id
        current_service ← get_service env spec.name
        put_replicas env spec.name (append_replica (new_replica spec replica_id node_id container))
            current_service
        publish env EventKind.replica_started (
            replica_payload env spec replica_id node_id
            ++ ("container_ip", Json.text (container.1)) ∷ [])

  unfoldable pub container_request :
      ServiceSpec → String → String → Dict String → String → ContainerRequest
  container_request spec replica_id node_id variables network = record {
    image = spec.image;
    name = join ("aws-light-" ∷ spec.name ∷ "-" ∷ first_characters 8 replica_id ∷ []);
    env = variables;
    cpu_quota = spec.cpu_request;
    memory_mb = spec.memory_request_mb;
    network = network;
    labels =
        (docker_label_managed, "true")
        ∷ (docker_label_service, spec.name)
        ∷ (docker_label_replica, replica_id)
        ∷ (docker_label_node, node_id)
        ∷ [];
    container_port = spec.port;
    volumes = [];
  }

  -- `_create_replica`, at what `select_node` answered
  unfoldable pub create_replica_on :
      ServiceState → List NodeState → Option NodeState → Step env (Unit {0})
  unfolding no_capacity placement_payload uuid4 inject_into_env try_create started container_request
  create_replica_on service_state nodes none = no_capacity service_state.spec nodes
  create_replica_on service_state nodes (some target_node) =
      let spec = service_state.spec in
      let node_id = target_node.spec.node_id in
      do
        publish env EventKind.scheduler_selected
            (placement_payload spec nodes (("node_id", Json.text node_id) ∷ []))
        replica_id ← uuid4
        secret_env ← inject_into_env spec.secret_refs
        platform ← platform_env env spec.name
        database ← database_env env service_state
        network ← ensure_service_network env spec.name none
        container ← try_create (
            container_request spec replica_id node_id
              (merged (merged (merged spec.env secret_env) platform) database) network)
        started service_state replica_id node_id container

  unfoldable pub create_replica : ServiceState → Step env (Unit {0})
  unfolding create_replica_on
  create_replica service_state w =
      let nodes = NodeManager.get_all_nodes w.node_manager in
      create_replica_on service_state nodes
        (select_node env.scheduler nodes service_state.spec.cpu_request
          service_state.spec.memory_request_mb)
        w
