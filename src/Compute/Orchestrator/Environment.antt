-- ===== src/Compute/Orchestrator/Environment.antt =====
-- aws_light/compute/orchestrator.py: the networks and the environment of the container of a replica.
use aws_light.Prelude.{
  ℕ, String, Bool, true, false, Option, none, some, List, [], ◌∷◌, ◌||◌, str_eq, if◌then◌else◌,
}
use aws_light.Prelude.Outcome.{Outcome, raised, returned}
use aws_light.Prelude.Action.{◌>>=◌, ◌>>◌, pure, fold, each}
use aws_light.Dict.{Dict}
use aws_light.Text.{concat, join}
use aws_light.Models.{ServiceState, DatabaseState, DatabaseAccess, DatabaseBinding}
use aws_light.Iac.Results.{merged}
use aws_light.Proxy.Ingress.{service_token_secret_prefix}
use aws_light.Secrets
use aws_light.Secrets.{InvalidToken}
use aws_light.Compute.Orchestrator.Names.{
  service_network_name, env_resource_name, database_identifier, proxy_workload_url,
  database_password_secret_prefix,
}
use aws_light.Compute.Orchestrator.World.{Env, Step, invalid_token, ComposeContainerInfo, call}

-- `container.service in _SERVICE_NETWORK_PLATFORM_SERVICES`
unfoldable pub is_platform : ComposeContainerInfo → Bool
is_platform container =
    str_eq container.service "proxy" || str_eq container.service "health-checker"

unfoldable pub platform_only : List ComposeContainerInfo → List ComposeContainerInfo
platform_only [] = []
platform_only (container ∷ containers) =
    let rest = platform_only containers in if is_platform container then container ∷ rest else rest

-- `"connect" in binding.access`
unfoldable pub can_connect : List DatabaseAccess → Bool
can_connect [] = false
can_connect (DatabaseAccess.connect ∷ access) = true

-- `if existing` of a text that may be missing
unfoldable pub truthy : Option String → Option String
truthy none = none
truthy (some value) = if str_eq value "" then none else some value

unfoldable pub connected_names : List DatabaseBinding → List String
connected_names [] = []
connected_names (binding ∷ bindings) =
    let rest = connected_names bindings in
    if can_connect binding.access then binding.name ∷ rest else rest

module _ (env : Env) where
  unfoldable pub platform_compose_containers : Step env (List ComposeContainerInfo)
  unfolding platform_only
  platform_compose_containers = do
    containers ← call env env.docker.list_compose_containers
    pure (platform_only containers)

  unfoldable pub connect_platform : String → ComposeContainerInfo → Step env (Unit {0})
  connect_platform network_name container = call env (
      env.docker.connect_container_to_network container.container_id network_name
        (container.service ∷ []))

  -- the list, or that of Docker where it is missing
  unfoldable pub given_or_listed :
      Option (List ComposeContainerInfo) → Step env (List ComposeContainerInfo)
  unfolding platform_compose_containers
  given_or_listed none = platform_compose_containers
  given_or_listed (some containers) = pure containers

  unfoldable pub ensure_service_network :
      String → Option (List ComposeContainerInfo) → Step env String
  unfolding given_or_listed connect_platform
  ensure_service_network service_name platform_containers =
      let network_name = service_network_name service_name in
      do
        call env (env.docker.ensure_network network_name)
        containers ← given_or_listed platform_containers
        each (connect_platform network_name) containers
        pure network_name

  unfoldable pub outcome_of : {A : Type 0} → Outcome InvalidToken A → Step env A
  outcome_of (raised e) w = (raised invalid_token, w)
  outcome_of (returned a) w = (returned a, w)

  unfoldable pub get_secret : String → Step env (Option String)
  unfolding outcome_of
  get_secret name w =
      outcome_of (Secrets.get_secret env.secret_store env.fernet w.secrets_manager name) w

  unfoldable pub create_secret : String → String → Step env (Unit {0})
  create_secret name value w = (
    returned tt,
    record w {
      secrets_manager =
          Secrets.create_secret env.secret_store env.fernet w.secrets_manager name value;
    },
  )

  unfoldable pub token_urlsafe : ℕ → Step env String
  token_urlsafe n w =
      let drawn = env.randomness.token_urlsafe n w.random in
      (returned (drawn.0), record w { random = drawn.1 })

  -- the two methods that keep a random secret: `existing` is what `get_secret` answered
  unfoldable pub kept_or_new : String → ℕ → Option String → Step env String
  kept_or_new secret_name n (some existing) = pure existing
  kept_or_new secret_name n none = do
    token ← token_urlsafe n
    create_secret secret_name token
    pure token

  unfoldable pub keep_secret : String → ℕ → Step env String
  unfolding kept_or_new
  keep_secret secret_name n = do
    existing ← get_secret secret_name
    kept_or_new secret_name n (truthy existing)

  unfoldable pub service_token : String → Step env String
  unfolding keep_secret
  service_token service_name = keep_secret (concat service_token_secret_prefix service_name) 32

  unfoldable pub database_password : String → Step env String
  unfolding keep_secret
  database_password database_name =
      keep_secret (join (database_password_secret_prefix ∷ database_name ∷ "-password" ∷ [])) 24

  unfoldable pub platform_env : String → Step env (Dict String)
  unfolding service_token
  platform_env service_name = do
    token ← service_token service_name
    pure (
        ("AWS_LIGHT_SERVICE_NAME", service_name)
        ∷ ("AWS_LIGHT_SERVICE_TOKEN", token)
        ∷ ("AWS_LIGHT_PROXY_URL", proxy_workload_url)
        ∷ ("AWS_LIGHT_STORAGE_URL", concat proxy_workload_url "/_aws-light/storage")
        ∷ [])

  unfoldable pub database_binding_env : DatabaseState → Step env (Dict String)
  unfolding database_password
  database_binding_env database =
      let database_name = database.spec.name in
      let env_prefix = concat "AWS_LIGHT_DATABASE_" (env_resource_name database_name) in
      let db_name = database_identifier database_name in
      let db_user = concat db_name "_user" in
      let db_host = concat "aws-light-db-" database_name in
      let db_port : String = "5432" in
      do
        db_password ← database_password database_name
        pure (
            (
              concat env_prefix "_URL",
              join (
                  "postgresql://" ∷ db_user ∷ ":" ∷ db_password ∷ "@" ∷ db_host ∷ ":" ∷ db_port
                  ∷ "/" ∷ db_name ∷ []),
            )
            ∷ (concat env_prefix "_HOST", db_host)
            ∷ (concat env_prefix "_PORT", db_port)
            ∷ (concat env_prefix "_NAME", db_name)
            ∷ (concat env_prefix "_USER", db_user)
            ∷ (concat env_prefix "_PASSWORD", db_password)
            ∷ [])

  unfoldable pub stored_database : Option env.database_store.State → String → Option DatabaseState
  stored_database none name = none
  stored_database (some databases) name = env.database_store.get databases name

  -- one turn of the loop of `_database_env`, at what `get` answered
  unfoldable pub add_database_env : Dict String → Option DatabaseState → Step env (Dict String)
  unfolding database_binding_env
  add_database_env variables none = pure variables
  add_database_env variables (some database) = do
    more ← database_binding_env database
    pure (merged variables more)

  unfoldable pub database_env_turn : Dict String → String → Step env (Dict String)
  unfolding add_database_env
  database_env_turn variables name w =
      add_database_env variables (stored_database w.databases name) w

  -- `{}` where there is no store of databases, since then none is found
  unfoldable pub database_env : ServiceState → Step env (Dict String)
  unfolding database_env_turn connected_names
  database_env service_state =
      fold database_env_turn [] (connected_names service_state.spec.resources.databases)

  unfoldable pub attach_database : String → Option DatabaseState → Step env (Unit {0})
  attach_database network_name none = pure tt
  attach_database network_name (some database) =
      if str_eq database.container_id ""
      then pure tt
      else call env (env.docker.connect_container_to_network database.container_id network_name [])

  unfoldable pub attach_named : String → String → Step env (Unit {0})
  unfolding attach_database
  attach_named network_name name w =
      attach_database network_name (stored_database w.databases name) w

  unfoldable pub attach_service_replica_networks : ServiceState → Step env (Unit {0})
  unfolding ensure_service_network attach_named connected_names
  attach_service_replica_networks service_state = do
    network_name ← ensure_service_network service_state.spec.name none
    each (attach_named network_name) (connected_names service_state.spec.resources.databases)
