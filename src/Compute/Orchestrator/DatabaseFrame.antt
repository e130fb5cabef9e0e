-- ===== src/Compute/Orchestrator/DatabaseFrame.antt =====
-- aws_light/compute/orchestrator.py: a pass over the databases writes neither the services nor the routes.
use aws_light.Prelude.{String, Bool, true, false, Option, none, some, Bool-cases, inl, inr, str_eq}
use aws_light.Prelude.Hoare.{After, Keeps, After-next, Keeps-then, After-any, each-Keeps}
use aws_light.Models.{ServiceState, DatabaseState}
use aws_light.Models.Status.{ResourceStatus, is_status}
use aws_light.Compute.NodeManager
use aws_light.Proxy.RoutingTable.{Table}
use aws_light.Compute.Orchestrator.World.{Env, World, ContainerInfo, call}
use aws_light.Compute.Orchestrator.Databases.{
  put_database, delete_database, attach_to_service, attach_database_to_bound_service_networks,
  database_created, create_database_container, remove_if_there, teardown_database, check_container,
  adopt_container, find_container, at_container, container_name_of, reconcile_database, bound,
}
use aws_light.Compute.Orchestrator.Frame.{On, call-Keeps, database_password-Keeps, caught-Keeps}

module _ (env : Env) (P : env.service_store.State → Table → NodeManager.NodeManager → Type 0) where
  abbrev Kept : World env → Type 0
  Kept = On env P

  put_database-Keeps :
      (name : String) (state : DatabaseState) → Keeps Kept (put_database env name state)
  unfolding put_database After
  put_database-Keeps name state w p = p

  attach_to_service-Keeps :
      (database : DatabaseState) (service : ServiceState)
      → Keeps Kept (attach_to_service env database service)
  unfolding attach_to_service
  attach_to_service-Keeps database service w p =
      elim (Bool-cases (bound database.spec.name service.spec.resources.databases)) [
        | inl e ↦ rw e (
            After-next (λ _. Kept) Kept (λ _. Kept) _ _ (call-Keeps env P _ w p)
              (λ _. call-Keeps env P _))
        | inr e ↦ rw e (After-any Kept _ w p)
      ]

  attach-Keeps :
      (database : DatabaseState)
      → Keeps Kept (attach_database_to_bound_service_networks env database)
  unfolding attach_database_to_bound_service_networks
  attach-Keeps database w p =
      each-Keeps Kept _ (λ service. attach_to_service-Keeps database service) _ w p

  database_created-Keeps :
      (database : DatabaseState) (container : Option (String × String))
      → Keeps Kept (database_created env database container)
  unfolding database_created
  database_created-Keeps database none w p = After-any Kept _ w p
  database_created-Keeps database (some container) w p =
      After-next (λ _. Kept) Kept (λ _. Kept) _ _ (put_database-Keeps database.spec.name _ w p)
        (λ _.
          attach-Keeps (
            at_container env database container.0 (container_name_of env database.spec)
              container.1))

  create_database_container-Keeps :
      (database : DatabaseState) → Keeps Kept (create_database_container env database)
  unfolding create_database_container call
  create_database_container-Keeps database =
      Keeps-then Kept _ _ (database_password-Keeps env P database.spec.name) (λ password.
        Keeps-then Kept _ _ (λ w p. After-any Kept _ _ p)
          (λ _.
            Keeps-then Kept _ _ (λ w p. caught-Keeps env P _ p)
              (λ container. database_created-Keeps database container)))

  remove_if_there-Keeps : (id : String) → Keeps Kept (remove_if_there env id)
  unfolding remove_if_there
  remove_if_there-Keeps id w p = elim (Bool-cases (str_eq id "")) [
    | inl e ↦ rw e (After-any Kept _ w p)
    | inr e ↦ rw e (call-Keeps env P _ w p)
  ]

  teardown_database-Keeps : (database : DatabaseState) → Keeps Kept (teardown_database env database)
  unfolding teardown_database delete_database
  teardown_database-Keeps database =
      Keeps-then Kept _ _ (remove_if_there-Keeps _)
        (λ _. Keeps-then Kept _ _ (call-Keeps env P _) (λ _ w p. After-any Kept _ _ p))

  check_container-Keeps :
      (database : DatabaseState) (up : Bool) → Keeps Kept (check_container env database up)
  unfolding check_container put_database After
  check_container-Keeps database false w p = p
  check_container-Keeps database true w p =
      elim (Bool-cases (is_status database.status ResourceStatus.running)) [
        | inl e ↦ rw e p
        | inr e ↦ rw e p
      ]

  adopt_container-Keeps :
      (database : DatabaseState) (existing : ContainerInfo) (up : Bool)
      → Keeps Kept (adopt_container env database existing up)
  unfolding adopt_container
  adopt_container-Keeps database existing true w p =
      After-next (λ _. Kept) Kept (λ _. Kept) _ _ (call-Keeps env P _ w p)
        (λ ip.
          Keeps-then Kept _ _
            (put_database-Keeps database.spec.name (
              at_container env database existing.container_id (container_name_of env database.spec)
                ip))
            (λ _. attach-Keeps (
              at_container env database existing.container_id (container_name_of env database.spec)
                ip)))
  adopt_container-Keeps database existing false w p =
      After-next (λ _. Kept) Kept (λ _. Kept) _ _ (call-Keeps env P _ w p)
        (λ _. create_database_container-Keeps database)

  find_container-Keeps :
      (database : DatabaseState) (existing : Option ContainerInfo)
      → Keeps Kept (find_container env database existing)
  unfolding find_container
  find_container-Keeps database none w p = create_database_container-Keeps database w p
  find_container-Keeps database (some existing) w p =
      After-next (λ _. Kept) Kept (λ _. Kept) _ _ (call-Keeps env P _ w p)
        (λ up. adopt_container-Keeps database existing up)

  pub reconcile_database-Keeps :
      (database : DatabaseState) → Keeps Kept (reconcile_database env database)
  unfolding reconcile_database
  reconcile_database-Keeps database w p =
      elim (Bool-cases (is_status database.status ResourceStatus.deleting)) [
        | inl e ↦ rw e (teardown_database-Keeps database w p)
        | inr e ↦ rw e (elim (Bool-cases (str_eq database.container_id "")) [
          | inl f ↦ rw f (
              After-next (λ _. Kept) Kept (λ _. Kept) _ _ (call-Keeps env P _ w p)
                (λ existing. find_container-Keeps database existing))
          | inr f ↦ rw f (
              After-next (λ _. Kept) Kept (λ _. Kept) _ _ (call-Keeps env P _ w p)
                (λ up. check_container-Keeps database up))
        ])
      ]
