-- ===== src/Iac/Applier.antt =====
-- `Applier` of aws_light/iac/applier.py, over any stores of services and databases: its
-- state and the validation of bindings. An exception is its text.
pub mod Apply
pub mod Answers
pub mod Bindings
pub mod Calls
pub mod Keeps
pub mod Destroy
use aws_light.Prelude.{
  String, Bool, true, false, not, Option, none, some, List, [], ◌∷◌, ◌++◌, ◌&&◌, if◌then◌else◌,
  str_eq,
}
use aws_light.Prelude.Outcome.{Outcome, raised, returned, and_then}
use aws_light.Dict
use aws_light.Dict.{Dict}
use aws_light.Text.{concat}
use aws_light.Json.{Json}
use aws_light.Events.{EventKind, WebSocketEvent}
use aws_light.Models.Status.{ResourceStatus}
use aws_light.Models.{
  BucketBinding, DatabaseBinding, ServiceSpec, ServiceState, DatabaseSpec, DatabaseState,
}
use aws_light.Store.{AnyStore}
use aws_light.Secrets
use aws_light.Secrets.{SecretSpec, Fernet, SecretsManager}
use aws_light.Storage
use aws_light.Storage.{Storage, StorageError}
use aws_light.Iac.Manifest.{
  AnyManifest, service, secret, secrets, bucket, database, ServiceManifest, BucketManifest,
  DatabaseManifest, kind, result_name,
}
use aws_light.Iac.Results.{
  Action, created, updated, unchanged, error, ApplyResult, result, member, Desired, desired_names,
  error_result, service_spec_of, database_spec_of,
}

module _ (service_store : AnyStore ServiceState) (database_store : AnyStore DatabaseState)
    (secret_store : AnyStore SecretSpec) (fernet : Fernet) where
  -- `event_bus` holds the events published, where there is a bus
  pub record Applier : Type 0 where
    pub services : service_store.State
    pub databases : database_store.State
    pub secrets_manager : SecretsManager secret_store fernet
    pub storage : Storage
    pub event_bus : Option (List WebSocketEvent)

  unfoldable pub published :
      Option (List WebSocketEvent) → WebSocketEvent → Option (List WebSocketEvent)
  published none event = none
  published (some events) event = some (events ++ event ∷ [])

  unfoldable pub check_buckets : Applier → Desired → List BucketBinding → Outcome String (Unit {0})
  check_buckets a desired [] = returned tt
  check_buckets a desired (binding ∷ bindings) =
      let rest = check_buckets a desired bindings in
      if not (member binding.name desired.buckets)
        && not (Storage.bucket_exists a.storage binding.name)
      then raised (concat "Missing bucket resource: " binding.name)
      else rest

  unfoldable pub check_databases :
      Applier → Desired → List DatabaseBinding → Outcome String (Unit {0})
  check_databases a desired [] = returned tt
  check_databases a desired (binding ∷ bindings) =
      let rest = check_databases a desired bindings in
      if not (member binding.name desired.databases)
        && not (database_store.exists a.databases binding.name)
      then raised (concat "Missing database resource: " binding.name)
      else rest

  unfoldable pub check_callers : Applier → Desired → List String → Outcome String (Unit {0})
  check_callers a desired [] = returned tt
  check_callers a desired (caller ∷ callers) =
      let rest = check_callers a desired callers in
      if not (member caller desired.services) && not (service_store.exists a.services caller)
      then raised (concat "Unknown internal ingress caller: " caller)
      else rest

  unfoldable pub validate_service_bindings :
      Applier → ServiceManifest → Desired → Outcome String (Unit {0})
  validate_service_bindings a manifest desired =
      and_then (check_buckets a desired manifest.spec.resources.buckets) (λ _.
        and_then (check_databases a desired manifest.spec.resources.databases)
          (λ _. check_callers a desired manifest.spec.ingress.internal.allow_from))
