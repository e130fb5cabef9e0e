-- ===== src/Api/Services.antt =====
-- aws_light/api/services.py: the handlers that read and write services, which run after the dependency that
-- checks the user. The logs and the diagnostics, which are for people, are not here.
pub mod Deletion
use aws_light.Prelude.{String, Bool, Option, none, some, List, [], ◌∷◌, if◌then◌else◌}
use aws_light.Prelude.Outcome.{Outcome, raised, returned}
use aws_light.Text.{join}
use aws_light.Models.{ServiceSpec, ServiceState}
use aws_light.Models.Status.{ResourceStatus}
use aws_light.Store.{AnyStore}
use aws_light.Api.Errors.{HttpException, http_exception}

module _ (service_store : AnyStore ServiceState) where
  unfoldable pub list_services : service_store.State → List ServiceState
  list_services services = service_store.list services

  unfoldable pub create_service :
      service_store.State → ServiceSpec → Outcome HttpException (service_store.State × ServiceState)
  create_service services spec =
      let service_state : ServiceState = record {
        spec = spec;
        status = ResourceStatus.pending;
        replicas = [];
      } in
      if service_store.exists services spec.name
      then raised (http_exception 409 (join ("Service '" ∷ spec.name ∷ "' already exists" ∷ [])))
      else returned (service_store.put services spec.name service_state, service_state)

  unfoldable pub found_or_404 : Option ServiceState → Outcome HttpException ServiceState
  found_or_404 none = raised (http_exception 404 "Service not found")
  found_or_404 (some service_state) = returned service_state

  unfoldable pub get_service : service_store.State → String → Outcome HttpException ServiceState
  unfolding found_or_404
  get_service services name = found_or_404 (service_store.get services name)

  -- `update_service`, at what `get` answered
  unfoldable pub update_found :
      service_store.State
      → String
      → ServiceSpec
      → Option ServiceState
      → Outcome HttpException (service_store.State × ServiceState)
  update_found services name spec none = raised (http_exception 404 "Service not found")
  update_found services name spec (some existing) =
      let updated = record existing { spec = spec; status = ResourceStatus.updating } in
      returned (service_store.put services name updated, updated)

  unfoldable pub update_service :
      service_store.State
      → String
      → ServiceSpec
      → Outcome HttpException (service_store.State × ServiceState)
  unfolding update_found
  update_service services name spec =
      update_found services name spec (service_store.get services name)

  -- `delete_service`, which marks the service for the orchestrator, at what `get` answered
  unfoldable pub delete_found :
      service_store.State → String → Option ServiceState → Outcome HttpException service_store.State
  delete_found services name none = raised (http_exception 404 "Service not found")
  delete_found services name (some existing) =
      returned
        (service_store.put services name (record existing { status = ResourceStatus.deleting }))

  unfoldable pub delete_service :
      service_store.State → String → Outcome HttpException service_store.State
  unfolding delete_found
  delete_service services name = delete_found services name (service_store.get services name)
