-- ===== src/Tests/Orchestration.antt =====
-- Examples of the orchestrator.
use aws_light.Prelude.{ℕ, ◌+◌, ◌≡◌, refl, arith, [], ◌∷◌, true, none, some}
use aws_light.Prelude.Int.{pos}
use aws_light.Prelude.Outcome.{returned}
use aws_light.Prelude.Hoare.{After}
use aws_light.Dict
use aws_light.Prelude.Action.{next}
use aws_light.Prelude.{◌≢◌, eq_iff}
use aws_light.Secrets
use aws_light.Secrets.{SecretSpec}
use aws_light.Compute.Orchestrator.Environment.{
  keep_secret, get_secret, outcome_of, kept_or_new, create_secret, token_urlsafe, truthy,
}
use aws_light.Compute.Orchestrator.Pass.{reconcile_all}
use aws_light.Compute.Orchestrator.Whole.{Listed, Apart, reconcile_all-RoutesMirror}
use aws_light.Compute.Orchestrator.Tokens.{keep_secret_again}
use aws_light.Json.{Json}
use aws_light.Text.{decimal}
use aws_light.Models.{ServiceState, ReplicaState, NodeState}
use aws_light.Models.Status.{ResourceStatus}
use aws_light.Proxy.RoutingTable.{update_service}
use aws_light.Compute.Scheduler.{bin_pack_scheduler}
use aws_light.Compute.NodeManager.Accounting.{WithinCapacity}
use aws_light.Compute.Orchestrator.World.{Env, World, Docker, Randomness, RolloutState}
use aws_light.Compute.Orchestrator.Replicas.{endpoints_of}
use aws_light.Compute.Orchestrator.Placement.{create_replica}
use aws_light.Compute.Orchestrator.Reconcile.{reconcile_service}
use aws_light.Compute.Orchestrator.Rollout.{run_rollout, roll_batches, batch_size_of}
use aws_light.Compute.Orchestrator.Steps.{Both}
use aws_light.Compute.Orchestrator.Routes.{Mirrored, RoutesMirror, put-Mirrored}
use aws_light.Compute.Orchestrator.Settling.{Settled}
use aws_light.Compute.Orchestrator.Convergence.{reconcile_service-Settled}
use aws_light.Compute.Orchestrator.Batches.{
  Finished, Rolls, run_rollout-Finished, roll_batches-Ends,
}
use aws_light.Compute.Orchestrator.Capacity.{SoundAccounts, create_replica-Accounts}
use aws_light.Compute.Orchestrator.Dispatch.{StartsOnce, dispatch-StartsOnce}
use aws_light.Tests.Samples.{
  state_of, memory, memory-IsStore, services, databases, secrets, fernet, fernet-IsFernet,
}

-- A Docker that counts its containers; all of them run.
abbrev docker : Docker
docker = record {
  State = ℕ;
  ensure_network = λ name n. (returned tt, n);
  connect_container_to_network = λ id name aliases n. (returned tt, n);
  remove_network = λ name n. (returned tt, n);
  create_container = λ request n. (returned (request.name, "10.0.0.1"), n + 1);
  get_container_ip = λ id name n. (returned "10.0.0.1", n);
  remove_container = λ id n. (returned tt, n);
  list_containers_by_label = λ label value n. (returned [], n);
  get_container_by_name = λ name n. (returned none, n);
  container_is_running = λ id n. (returned true, n);
  list_compose_containers = λ n. (returned [], n);
}

abbrev randomness : Randomness
randomness = record {
  State = ℕ;
  uuid4 = λ n. (decimal n, n + 1);
  token_urlsafe = λ length n. (decimal n, n + 1);
}

abbrev pub env : Env
env = record {
  service_store = services;
  deployment_store = memory RolloutState;
  database_store = databases;
  secret_store = secrets;
  fernet = fernet;
  docker = docker;
  randomness = randomness;
  scheduler = bin_pack_scheduler;
  scheduler_policy = "binpack";
  model_dump = λ state. Json.text state.spec.name;
}

abbrev node : NodeState
node = record {
  spec = record { node_id = "n1"; cpu_capacity = pos 100; memory_capacity_mb = pos 512 };
  usage = record { cpu_used = pos 25; memory_used_mb = pos 128 };
  actual_usage = record { cpu_used = pos 0; memory_used_mb = pos 0 };
  status = ResourceStatus.running;
  replica_ids = "r1" ∷ [];
}

abbrev replica : ReplicaState
replica = record {
  replica_id = "r1";
  container_id = "c1";
  node_id = "n1";
  status = ResourceStatus.running;
  container_ip = "10.0.0.1";
  image = "app:0";
}

-- a service that wants two replicas, and has one of an old image
abbrev pub web : ServiceState
web = record (state_of "web") { replicas = replica ∷ [] }

abbrev pub world : World env
world = record {
  services = Dict.put [] "web" web;
  deployments = [];
  databases = some [];
  node_store = none;
  containers = 1;
  node_manager = ("n1", node) ∷ [];
  routing_table = update_service [] "web" (endpoints_of web.spec web.replicas);
  secrets_manager = record { secret_store = []; random = 0 };
  random = 0;
  events = [];
  executing_rollouts = [];
}

nothing-Mirrored : Mirrored env [] []
unfolding Dict.get
nothing-Mirrored = record { keyed = λ name state found. cc; routed = λ name state found. cc }

pub world-RoutesMirror : RoutesMirror env world
world-RoutesMirror =
    put-Mirrored env (memory-IsStore ServiceState) [] [] "web" web refl nothing-Mirrored

web-stored : Dict.get (Dict.put [] "web" web) "web" ≡ some web
unfolding Dict.get Dict.put
web-stored = refl

reconcile_service-Settled_example :
    After
      (λ _. Both env (Settled env web.spec 2))
      (RoutesMirror env)
      (reconcile_service env web none world)
reconcile_service-Settled_example =
    reconcile_service-Settled env (memory-IsStore ServiceState) web none 2 refl world
      (world-RoutesMirror, web-stored)

node-within : WithinCapacity node
node-within = record { cpu = ground arith; memory = ground arith }

world-SoundAccounts : SoundAccounts env world
unfolding Dict.get
world-SoundAccounts = record { unique = (refl, tt); keyed = (refl, tt); within = (node-within, tt) }

create_replica-Accounts_example :
    After (λ _. SoundAccounts env) (SoundAccounts env) (create_replica env web world)
create_replica-Accounts_example = create_replica-Accounts env web world world-SoundAccounts

abbrev rollout : RolloutState
rollout = record {
  deployment_id = "d1";
  spec = record {
    service_name = "web";
    new_image = "app:2";
    strategy = record { max_surge = pos 1; max_unavailable = pos 0 };
  };
  status = ResourceStatus.pending;
}

run_rollout-Finished_example :
    After
      (λ _. Finished env rollout (env.service_store.get world.services "web"))
      (λ _. Unit)
      (run_rollout env (λ n m w. w) rollout world)
run_rollout-Finished_example =
    run_rollout-Finished env (λ n m w. w) (memory-IsStore RolloutState) rollout world

roll_batches-Ends_example :
    Rolls env
      (λ n m w. w)
      rollout
      1
      1
      0
      (replica ∷ [])
      world
      (roll_batches env (λ n m w. w) 1 rollout 1 0 1 (replica ∷ []) world)
unfolding batch_size_of
roll_batches-Ends_example = roll_batches-Ends env (λ n m w. w) rollout (replica ∷ []) world

dispatch-StartsOnce_example : StartsOnce [] (rollout ∷ rollout ∷ [])
dispatch-StartsOnce_example = dispatch-StartsOnce [] (rollout ∷ rollout ∷ [])

abbrev with_token : World env
with_token = record world {
  random = 1;
  secrets_manager = Secrets.create_secret secrets fernet world.secrets_manager "s" (decimal 0);
}

token_drawn : keep_secret env "s" 32 world ≡ (returned (decimal 0), with_token)
unfolding keep_secret get_secret outcome_of kept_or_new next create_secret token_urlsafe truthy
    Secrets.get_secret Secrets.open_spec Dict.get
token_drawn = refl

token_nonempty : decimal 0 ≢ ""
unfolding decimal
token_nonempty h = ground (arith, eq_iff "0" "", h)

keep_secret_again_example : keep_secret env "s" 32 with_token ≡ (returned (decimal 0), with_token)
keep_secret_again_example =
    keep_secret_again env (memory-IsStore SecretSpec) fernet-IsFernet "s" 32 world with_token
      (decimal 0) token_nonempty token_drawn

world-Listed : Listed env world.services (Dict.values world.services)
unfolding Listed Dict.get Dict.put
world-Listed = (refl, tt)

world-Apart : Apart (Dict.values world.services)
unfolding Apart Dict.put
world-Apart = (tt, tt)

reconcile_all-RoutesMirror_example : RoutesMirror env ((reconcile_all env world).1)
reconcile_all-RoutesMirror_example =
    reconcile_all-RoutesMirror env (memory-IsStore ServiceState) world world-RoutesMirror
      world-Listed world-Apart
