-- ===== src/Compute/Orchestrator/Databases.antt =====
-- aws_light/compute/orchestrator.py: one pass over a database.
use aws_light.Prelude.{
  String, Bool, true, false, Option, none, some, List, [], ◌∷◌, ◌&&◌, ◌||◌, str_eq, if◌then◌else◌,
  not,
}
use aws_light.Prelude.Int.{pos}
use aws_light.Prelude.Outcome.{returned}
use aws_light.Prelude.Action.{◌>>=◌, ◌>>◌, pure, each}
use mathlib.Core.Option
use aws_light.Text.{concat}
use aws_light.Models.{ServiceState, DatabaseState, DatabaseSpec, DatabaseBinding}
use aws_light.Models.Status.{ResourceStatus, is_status}
use aws_light.Compute.Orchestrator.Names.{
  docker_label_managed, docker_label_database, service_network_name, database_network_name,
  database_volume_name, database_identifier,
}
use aws_light.Compute.Orchestrator.World.{Env, Step, ContainerRequest, ContainerInfo, call}
use aws_light.Compute.Orchestrator.Environment.{can_connect, database_password}
use aws_light.Compute.Orchestrator.Placement.{caught}

-- `any(…)` over the bindings
unfoldable pub bound : String → List DatabaseBinding → Bool
unfolding can_connect
bound name [] = false
bound name (binding ∷ bindings) =
    (str_eq binding.name name && can_connect binding.access) || bound name bindings

module _ (env : Env) where
  unfoldable pub put_database : String → DatabaseState → Step env (Unit {0})
  put_database name state w = (
    returned tt,
    record w { databases = Option.map (λ s. env.database_store.put s name state) w.databases },
  )

  unfoldable pub delete_database : String → Step env (Unit {0})
  delete_database name w = (
    returned tt,
    record w { databases = Option.map (λ s. env.database_store.delete s name) w.databases },
  )

  unfoldable pub attach_to_service : DatabaseState → ServiceState → Step env (Unit {0})
  attach_to_service database_state service_state =
      let network_name = service_network_name service_state.spec.name in
      if bound database_state.spec.name service_state.spec.resources.databases
      then (do
        call env (env.docker.ensure_network network_name)
        call env
            (env.docker.connect_container_to_network database_state.container_id network_name []))
      else pure tt

  unfoldable pub attach_database_to_bound_service_networks : DatabaseState → Step env (Unit {0})
  unfolding attach_to_service bound
  attach_database_to_bound_service_networks database_state w =
      each (attach_to_service database_state) (env.service_store.list w.services) w

  abbrev pub at_container : DatabaseState → String → String → String → DatabaseState
  at_container database_state container_id container_name container_ip = record database_state {
    status = ResourceStatus.running;
    container_id = container_id;
    container_name = container_name;
    container_ip = container_ip;
  }

  abbrev pub container_name_of : DatabaseSpec → String
  container_name_of spec = concat "aws-light-db-" spec.name

  -- at the container that `create_container` made
  unfoldable pub database_created : DatabaseState → Option (String × String) → Step env (Unit {0})
  unfolding put_database attach_database_to_bound_service_networks
  database_created database_state none = pure tt
  database_created database_state (some (container_id, container_ip)) =
      let state =
        at_container database_state container_id (container_name_of database_state.spec)
          container_ip in
      do
        put_database database_state.spec.name state
        attach_database_to_bound_service_networks state

  -- A quarter of a processor is `pos 25`.
  unfoldable pub database_request : DatabaseSpec → String → ContainerRequest
  database_request spec db_password =
      let db_name = database_identifier spec.name in
      record {
        image = concat "postgres:" spec.version;
        name = container_name_of spec;
        env =
            ("POSTGRES_DB", db_name)
            ∷ ("POSTGRES_USER", concat db_name "_user")
            ∷ ("POSTGRES_PASSWORD", db_password)
            ∷ [];
        cpu_quota = pos 25;
        memory_mb = pos 25600;
        network = database_network_name spec.name;
        labels = (docker_label_managed, "true") ∷ (docker_label_database, spec.name) ∷ [];
        container_port = 5432;
        volumes = (database_volume_name spec.name, "/var/lib/postgresql/data") ∷ [];
      }

  unfoldable pub create_database_container : DatabaseState → Step env (Unit {0})
  unfolding database_created database_request
  create_database_container database_state =
      let spec = database_state.spec in
      do
        db_password ← database_password env spec.name
        call env (env.docker.ensure_network (database_network_name spec.name))
        container ← (λ w.
            caught env
              (call env (env.docker.create_container (database_request spec db_password)) w))
        database_created database_state container

  unfoldable pub remove_if_there : String → Step env (Unit {0})
  remove_if_there container_id =
      if str_eq container_id ""
      then pure tt
      else call env (env.docker.remove_container container_id)

  unfoldable pub teardown_database : DatabaseState → Step env (Unit {0})
  unfolding remove_if_there delete_database
  teardown_database database_state = do
    remove_if_there database_state.container_id
    call env (env.docker.remove_network (database_network_name database_state.spec.name))
    delete_database database_state.spec.name

  -- the branch with a known container, at whether it runs
  unfoldable pub check_container : DatabaseState → Bool → Step env (Unit {0})
  unfolding put_database
  check_container database_state true =
      if not (is_status database_state.status ResourceStatus.running)
      then put_database database_state.spec.name
          (record database_state { status = ResourceStatus.running })
      else pure tt
  check_container database_state false =
      put_database database_state.spec.name (record database_state {
        status = ResourceStatus.pending;
        container_id = "";
        container_name = "";
        container_ip = "";
      })

  -- a container with the expected name, at whether it runs
  unfoldable pub adopt_container : DatabaseState → ContainerInfo → Bool → Step env (Unit {0})
  unfolding put_database attach_database_to_bound_service_networks create_database_container
  adopt_container database_state existing true = do
    ip ← call env (
        env.docker.get_container_ip existing.container_id
          (database_network_name database_state.spec.name))
    let state =
        at_container database_state existing.container_id (container_name_of database_state.spec) ip
    put_database database_state.spec.name state
    attach_database_to_bound_service_networks state
  adopt_container database_state existing false = do
    call env (env.docker.remove_container existing.container_id)
    create_database_container database_state

  unfoldable pub find_container : DatabaseState → Option ContainerInfo → Step env (Unit {0})
  unfolding adopt_container create_database_container
  find_container database_state none = create_database_container database_state
  find_container database_state (some existing) = do
    up ← call env (env.docker.container_is_running existing.container_id)
    adopt_container database_state existing up

  unfoldable pub reconcile_database : DatabaseState → Step env (Unit {0})
  unfolding teardown_database check_container find_container
  reconcile_database database_state =
      let container_id = database_state.container_id in
      if is_status database_state.status ResourceStatus.deleting
      then teardown_database database_state
      else if not (str_eq container_id "")
      then (do
        up ← call env (env.docker.container_is_running container_id)
        check_container database_state up)
      else (do
        existing ←
            call env (env.docker.get_container_by_name (container_name_of database_state.spec))
        find_container database_state existing)
