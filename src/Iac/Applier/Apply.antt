-- ===== src/Iac/Applier/Apply.antt =====
-- `Applier.apply` of aws_light/iac/applier.py. Which calls of the stores, the secrets, the buckets and the
-- bus raise is a parameter, which may depend on the state; a call that raises changes nothing
-- itself, and what was done before it stays done. An exception is its text.
use aws_light.Prelude.{String, Bool, true, false, Option, none, some, List, [], ◌∷◌, ◌++◌}
use aws_light.Prelude.Action.{Action as Coroutine, ◌>>=◌, ◌>>◌, pure, gets}
use aws_light.Prelude.Outcome.{Outcome, raised, returned}
use aws_light.Dict.{Dict}
use aws_light.Json.{Json}
use aws_light.Events.{EventKind}
use aws_light.Models.Status.{ResourceStatus}
use aws_light.Models.{ServiceState, DatabaseState}
use aws_light.Store.{AnyStore}
use aws_light.Secrets
use aws_light.Secrets.{SecretSpec, Fernet, SecretsManager}
use aws_light.Storage
use aws_light.Storage.{Storage, StorageError}
use aws_light.Iac.Manifest.{
  AnyManifest, service, secret, secrets, bucket, database, ServiceManifest, BucketManifest,
  DatabaseManifest, kind,
}
use aws_light.Iac.Results.{
  created, updated, unchanged, ApplyResult, result, Desired, desired_names, error_result,
  service_spec_of, database_spec_of,
}
use aws_light.Iac.Applier.{Applier, published, validate_service_bindings}

-- a call that `_apply_one` leads to, by the name it is about
pub data Call : Type 0 where
  look_up drop_secret store_secret make_bucket store_service store_database publish : String → Call

module _ (service_store : AnyStore ServiceState) (database_store : AnyStore DatabaseState)
    (secret_store : AnyStore SecretSpec) (fernet : Fernet)
    (raises : Applier service_store database_store secret_store fernet → Call → Option String) where
  abbrev State : Type 0
  State = Applier service_store database_store secret_store fernet

  abbrev pub Step : Type 0 → Type 0
  Step = Coroutine State String

  -- what a call leaves, where it raises and where not
  unfoldable pub attempted : State → State → Option String → Outcome String (Unit {0}) × State
  attempted before after none = (returned tt, after)
  attempted before after (some text) = (raised text, before)

  unfoldable pub attempt : Call → (State → State) → Step (Unit {0})
  unfolding attempted
  attempt call change a = attempted a (change a) (raises a call)

  unfoldable pub read : {A : Type 0} → String → (State → A) → Step A
  unfolding attempt
  read name f = do attempt (look_up name) (λ a. a); gets f

  unfoldable pub emit : EventKind → String → Dict Json → Step (Unit {0})
  unfolding attempt published
  emit kind name payload = attempt (publish name) (λ a. record a {
    event_bus =
        published service_store database_store secret_store fernet a.event_bus
          (record { kind = kind; payload = payload });
  })

  unfoldable pub put_service : String → ServiceState → Step (Unit {0})
  unfolding attempt
  put_service name state =
      attempt (store_service name)
        (λ a. record a { services = service_store.put a.services name state })

  -- `_apply_service`, at what `get` answered
  unfoldable pub apply_service_at : ServiceManifest → Option ServiceState → Step ApplyResult
  unfolding put_service
  apply_service_at manifest none =
      let name = manifest.metadata.name in
      let service_state : ServiceState = record {
        spec = service_spec_of manifest;
        status = ResourceStatus.pending;
        replicas = [];
      } in
      do put_service name service_state; pure (result "Service" name created)
  apply_service_at manifest (some existing) =
      let name = manifest.metadata.name in
      do
        put_service name (record existing { spec = service_spec_of manifest })
        pure (result "Service" name updated)

  unfoldable pub apply_service : ServiceManifest → Step ApplyResult
  unfolding apply_service_at read
  apply_service manifest = do
    existing ←
        read manifest.metadata.name (λ a. service_store.get a.services manifest.metadata.name)
    apply_service_at manifest existing

  unfoldable pub delete_secret : String → Step (Unit {0})
  unfolding attempt
  delete_secret name = attempt (drop_secret name) (λ a. record a {
    secrets_manager = Secrets.delete_secret secret_store fernet a.secrets_manager name;
  })

  unfoldable pub create_secret : String → String → Step (Unit {0})
  unfolding attempt
  create_secret name value = attempt (store_secret name) (λ a. record a {
    secrets_manager = Secrets.create_secret secret_store fernet a.secrets_manager name value;
  })

  -- `_apply_secret`, at what `exists` answered
  unfoldable pub apply_secret_at : String → String → Bool → Step ApplyResult
  unfolding delete_secret create_secret emit
  apply_secret_at name value true = do
    delete_secret name
    create_secret name value
    pure (result "Secret" name updated)
  apply_secret_at name value false = do
    create_secret name value
    emit EventKind.secret_created name (("secret_name", Json.text name) ∷ [])
    pure (result "Secret" name created)

  unfoldable pub apply_secret : String → String → Step ApplyResult
  unfolding apply_secret_at read
  apply_secret name value = do
    there ← read name (λ a. Secrets.exists secret_store fernet a.secrets_manager name)
    apply_secret_at name value there

  unfoldable pub apply_secrets : Dict String → Step (List ApplyResult)
  unfolding apply_secret
  apply_secrets [] = pure []
  apply_secrets ((name, value) ∷ more) = do
    first ← apply_secret name value
    rest ← apply_secrets more
    pure (first ∷ rest)

  unfoldable pub create_bucket : String → Step (Unit {0})
  unfolding attempt
  create_bucket name =
      attempt (make_bucket name) (λ a. record a { storage = Storage.create_bucket a.storage name })

  -- `_apply_bucket`, at what `bucket_exists` answered
  unfoldable pub apply_bucket_at : String → Bool → Step ApplyResult
  unfolding create_bucket emit
  apply_bucket_at name true = pure (result "Bucket" name unchanged)
  apply_bucket_at name false = do
    create_bucket name
    emit EventKind.bucket_created name (("bucket_name", Json.text name) ∷ [])
    pure (result "Bucket" name created)

  unfoldable pub apply_bucket : BucketManifest → Step ApplyResult
  unfolding apply_bucket_at read
  apply_bucket manifest = do
    there ←
        read manifest.metadata.name (λ a. Storage.bucket_exists a.storage manifest.metadata.name)
    apply_bucket_at manifest.metadata.name there

  unfoldable pub put_database : String → DatabaseState → Step (Unit {0})
  unfolding attempt
  put_database name state =
      attempt (store_database name)
        (λ a. record a { databases = database_store.put a.databases name state })

  -- `_apply_database`, at what `get` answered
  unfoldable pub apply_database_at : DatabaseManifest → Option DatabaseState → Step ApplyResult
  unfolding put_database
  apply_database_at manifest none =
      let name = manifest.metadata.name in
      let database_state : DatabaseState = record {
        spec = database_spec_of manifest;
        status = ResourceStatus.pending;
        container_id = "";
        container_name = "";
        container_ip = "";
      } in
      do put_database name database_state; pure (result "Database" name created)
  apply_database_at manifest (some existing) =
      let name = manifest.metadata.name in
      do
        put_database name (record existing { spec = database_spec_of manifest })
        pure (result "Database" name updated)

  unfoldable pub apply_database : DatabaseManifest → Step ApplyResult
  unfolding apply_database_at read
  apply_database manifest = do
    existing ←
        read manifest.metadata.name (λ a. database_store.get a.databases manifest.metadata.name)
    apply_database_at manifest existing

  unfoldable pub answered : Step ApplyResult → Step (List ApplyResult)
  answered step = do one ← step; pure (one ∷ [])

  -- `_validate_service_bindings`: what it looks up may not be readable
  unfoldable pub validated : ServiceManifest → Desired → Step (Unit {0})
  unfolding attempt
  validated manifest desired = do
    attempt (look_up manifest.metadata.name) (λ a. a)
    λ a. (
      validate_service_bindings service_store database_store secret_store fernet a manifest desired,
      a,
    )

  -- the `match` of `_apply_one`
  unfoldable pub apply_kind : Desired → AnyManifest → Step (List ApplyResult)
  unfolding validated apply_service apply_secret apply_secrets apply_bucket apply_database answered
  apply_kind desired (service m) = do validated m desired; answered (apply_service m)
  apply_kind desired (secret m) = answered (apply_secret m.metadata.name m.spec.value)
  apply_kind desired (secrets m) = apply_secrets m.secrets
  apply_kind desired (bucket m) = answered (apply_bucket m)
  apply_kind desired (database m) = answered (apply_database m)

  -- `except Exception`: what was done before the exception stays done
  unfoldable pub caught :
      AnyManifest → Outcome String (List ApplyResult) × State → State × List ApplyResult
  caught manifest (raised text, a) = (a, error_result manifest text ∷ [])
  caught manifest (returned results, a) = (a, results)

  unfoldable pub apply_one : State → Desired → AnyManifest → State × List ApplyResult
  unfolding apply_kind caught
  apply_one a desired manifest = caught manifest (apply_kind desired manifest a)

  -- the loop of `apply`
  unfoldable pub apply_all : State → Desired → List AnyManifest → State × List ApplyResult
  apply_all a desired [] = (a, [])
  apply_all a desired (manifest ∷ manifests) =
      let first = apply_one a desired manifest in
      let rest = apply_all (first.0) desired manifests in (rest.0, first.1 ++ rest.1)

  unfoldable pub apply : State → List AnyManifest → State × List ApplyResult
  apply a manifests = apply_all a (desired_names manifests) manifests
