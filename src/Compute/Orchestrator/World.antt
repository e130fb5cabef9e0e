-- ===== src/Compute/Orchestrator/World.antt =====
-- aws_light/compute/orchestrator.py: the state of the orchestrator and what it calls. The Docker
-- client (aws_light/compute/docker_client.py), the random sources and pydantic are parameters; a
-- store gives out its own copy of a state, so that a change is seen by others only once it is put.
use aws_light.Prelude.{ℕ, String, Bool, Option, List, [], ◌∷◌, ◌++◌}
use aws_light.Prelude.Int.{ℤ}
use aws_light.Prelude.Outcome.{returned}
use aws_light.Prelude.Action.{Action}
use aws_light.Dict.{Dict}
use aws_light.Json.{Json}
use aws_light.Events.{EventKind, WebSocketEvent}
use aws_light.Models.{Amount, ServiceState, DatabaseState, NodeState}
use aws_light.Models.Status.{ResourceStatus}
use aws_light.Store.{AnyStore}
use aws_light.Secrets.{SecretSpec, Fernet, SecretsManager}
use aws_light.Proxy.RoutingTable.{Table}
use aws_light.Compute.NodeManager.{NodeManager}
use aws_light.Compute.Scheduler.{Scheduler}

-- aws_light/models/deployment.py
pub record RolloutStrategy : Type 0 where
  pub max_surge : ℤ
  pub max_unavailable : ℤ

pub record DeploymentSpec : Type 0 where
  pub service_name : String
  pub new_image : String
  pub strategy : RolloutStrategy

pub record RolloutState : Type 0 where
  pub deployment_id : String
  pub spec : DeploymentSpec
  pub status : ResourceStatus

-- The exceptions that can leave the methods: `KeyError` of an unknown node, what a Docker call raises,
-- and the token of a secret that cannot be decrypted.
pub data Failure : Type 0 where
  key_error docker_error invalid_token : Failure

pub record ContainerInfo : Type 0 where
  pub container_id : String
  pub name : String

pub record ComposeContainerInfo : Type 0 where
  pub service : String
  pub container_id : String

pub record ContainerRequest : Type 0 where
  pub image : String
  pub name : String
  pub env : Dict String
  pub cpu_quota : Amount
  pub memory_mb : Amount
  pub network : String
  pub labels : Dict String
  pub container_port : ℕ
  pub volumes : Dict String

-- The methods of `DockerClient` that the orchestrator calls; each may raise.
pub record Docker : Type 1 where
  pub State : Type 0
  pub ensure_network : String → Action State Failure (Unit {0})
  pub connect_container_to_network : String → String → List String → Action State Failure (Unit {0})
  pub remove_network : String → Action State Failure (Unit {0})
  pub create_container : ContainerRequest → Action State Failure (String × String)
  pub get_container_ip : String → String → Action State Failure String
  pub remove_container : String → Action State Failure (Unit {0})
  pub list_containers_by_label : String → String → Action State Failure (List ContainerInfo)
  pub get_container_by_name : String → Action State Failure (Option ContainerInfo)
  pub container_is_running : String → Action State Failure Bool
  pub list_compose_containers : Action State Failure (List ComposeContainerInfo)

-- `uuid.uuid4` and `secrets.token_urlsafe`
pub record Randomness : Type 1 where
  pub State : Type 0
  pub uuid4 : State → String × State
  pub token_urlsafe : ℕ → State → String × State

pub record Env : Type 1 where
  pub service_store : AnyStore ServiceState
  pub deployment_store : AnyStore RolloutState
  pub database_store : AnyStore DatabaseState
  pub secret_store : AnyStore SecretSpec
  pub fernet : Fernet
  pub docker : Docker
  pub randomness : Randomness
  pub scheduler : Scheduler
  pub scheduler_policy : String
  pub model_dump : ServiceState → Json

module _ (env : Env) where
  -- `databases` and `node_store` are there where the orchestrator has these stores
  pub record World : Type 0 where
    pub services : env.service_store.State
    pub deployments : env.deployment_store.State
    pub databases : Option env.database_store.State
    pub node_store : Option (Dict NodeState)
    pub containers : env.docker.State
    pub node_manager : NodeManager
    pub routing_table : Table
    pub secrets_manager : SecretsManager env.secret_store env.fernet
    pub random : env.randomness.State
    pub events : List WebSocketEvent
    pub executing_rollouts : List String

  abbrev pub Step : Type 0 → Type 0
  Step A = Action World Failure A

  unfoldable pub publish : EventKind → Dict Json → Step (Unit {0})
  publish kind payload w = (
    returned tt,
    record w { events = w.events ++ record { kind = kind; payload = payload } ∷ [] },
  )

  -- a call of the Docker client
  unfoldable pub call : {A : Type 0} → Action env.docker.State Failure A → Step A
  call m w = let done = m w.containers in (done.0, record w { containers = done.1 })

  unfoldable pub get_service : String → Step (Option ServiceState)
  get_service name w = (returned (env.service_store.get w.services name), w)

  unfoldable pub put_service : String → ServiceState → Step (Unit {0})
  put_service name state w =
      (returned tt, record w { services = env.service_store.put w.services name state })
