-- ===== src/Iac/Applier/Destroy.antt =====
-- `Applier.destroy` of aws_light/iac/applier.py.
use aws_light.Prelude.{String, List, [], ◌∷◌, ◌++◌, if◌then◌else◌}
use aws_light.Prelude.Outcome.{Outcome, raised, returned}
use aws_light.Dict.{Dict}
use aws_light.Models.{ServiceState, DatabaseState}
use aws_light.Store.{AnyStore}
use aws_light.Secrets
use aws_light.Secrets.{SecretSpec, Fernet}
use aws_light.Storage
use aws_light.Storage.{Storage, StorageError}
use aws_light.Iac.Manifest.{
  AnyManifest, service, secret, secrets, bucket, database, kind, result_name,
}
use aws_light.Iac.Results.{updated, unchanged, ApplyResult, error_result}
use aws_light.Iac.Applier.{Applier}

unfoldable pub removed : String → String → ApplyResult
removed kind name = record { kind = kind; name = name; action = updated; detail = "deleted" }

unfoldable pub not_found : String → String → ApplyResult
not_found kind name = record { kind = kind; name = name; action = unchanged; detail = "not found" }

module _ (service_store : AnyStore ServiceState) (database_store : AnyStore DatabaseState)
    (secret_store : AnyStore SecretSpec) (fernet : Fernet) where
  abbrev State : Type 0
  State = Applier service_store database_store secret_store fernet

  -- the loop of `case SecretsManifest()`
  unfoldable pub destroy_secrets : State → Dict String → State × List ApplyResult
  unfolding removed not_found
  destroy_secrets a [] = (a, [])
  destroy_secrets a ((name, value) ∷ more) =
      let there = Secrets.exists secret_store fernet a.secrets_manager name in
      let left = Secrets.delete_secret secret_store fernet a.secrets_manager name in
      let rest = destroy_secrets (if there then record a { secrets_manager = left } else a) more in
      (rest.0, (if there then removed "Secret" name else not_found "Secret" name) ∷ rest.1)

  -- the `case BucketManifest()` after `delete_bucket`
  unfoldable pub bucket_destroyed :
      State → AnyManifest → Outcome StorageError Storage → State × List ApplyResult
  unfolding removed
  bucket_destroyed a manifest (raised e) = (a, error_result manifest (Storage.message e) ∷ [])
  bucket_destroyed a manifest (returned storage) =
      (record a { storage = storage }, removed (kind manifest) (result_name manifest) ∷ [])

  -- `case _`
  unfoldable pub untouched : State → AnyManifest → State × List ApplyResult
  unfolding not_found
  untouched a manifest = (a, not_found (kind manifest) (result_name manifest) ∷ [])

  unfoldable pub destroy_one : State → AnyManifest → State × List ApplyResult
  unfolding removed
  destroy_one a (service m) =
      let name = m.metadata.name in
      if service_store.exists a.services name
      then (
        record a { services = service_store.delete a.services name },
        removed (kind (service m)) name ∷ [],
      )
      else untouched a (service m)
  destroy_one a (secret m) =
      let name = m.metadata.name in
      if Secrets.exists secret_store fernet a.secrets_manager name
      then (
        record a {
          secrets_manager = Secrets.delete_secret secret_store fernet a.secrets_manager name;
        },
        removed (kind (secret m)) name ∷ [],
      )
      else untouched a (secret m)
  destroy_one a (secrets m) = destroy_secrets a m.secrets
  destroy_one a (bucket m) =
      let name = m.metadata.name in
      if Storage.bucket_exists a.storage name
      then bucket_destroyed a (bucket m) (Storage.delete_bucket a.storage name)
      else untouched a (bucket m)
  destroy_one a (database m) =
      let name = m.metadata.name in
      if database_store.exists a.databases name
      then (
        record a { databases = database_store.delete a.databases name },
        removed (kind (database m)) name ∷ [],
      )
      else untouched a (database m)

  unfoldable pub destroy : State → List AnyManifest → State × List ApplyResult
  destroy a [] = (a, [])
  destroy a (manifest ∷ manifests) =
      let first = destroy_one a manifest in
      let rest = destroy (first.0) manifests in (rest.0, first.1 ++ rest.1)
