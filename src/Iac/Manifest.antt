-- ===== src/Iac/Manifest.antt =====
-- aws_light/models/manifest.py: a manifest as the parser returns it, its defaults filled in.
use aws_light.Prelude.{ℕ, String, Bool, List}
use aws_light.Prelude.Int.{ℤ}
use aws_light.Dict.{Dict}
use aws_light.Models.{Amount, ServiceResourceBindings, ServiceIngressSpec}

pub record ManifestMetadata : Type 0 where
  pub name : String
  pub labels : Dict String

pub record ServiceManifestSpec : Type 0 where
  pub image : String
  pub replicas : ℤ
  pub min_replicas : ℤ
  pub max_replicas : ℤ
  pub cpu_request : Amount
  pub memory_request_mb : Amount
  pub port : ℕ
  pub health_check_path : String
  pub env : Dict String
  pub secret_refs : List String
  pub labels : Dict String
  pub resources : ServiceResourceBindings
  pub ingress : ServiceIngressSpec

pub record SecretManifestSpec : Type 0 where
  pub value : String

pub record BucketManifestSpec : Type 0 where
  pub versioning : Bool

pub record DatabaseManifestSpec : Type 0 where
  pub engine : String
  pub version : String
  pub storage_mb : ℕ

pub record ServiceManifest : Type 0 where
  pub metadata : ManifestMetadata
  pub spec : ServiceManifestSpec

pub record SecretManifest : Type 0 where
  pub metadata : ManifestMetadata
  pub spec : SecretManifestSpec

pub record SecretsManifest : Type 0 where
  pub secrets : Dict String

pub record BucketManifest : Type 0 where
  pub metadata : ManifestMetadata
  pub spec : BucketManifestSpec

pub record DatabaseManifest : Type 0 where
  pub metadata : ManifestMetadata
  pub spec : DatabaseManifestSpec

pub data AnyManifest : Type 0 where
  service : ServiceManifest → AnyManifest
  secret : SecretManifest → AnyManifest
  secrets : SecretsManifest → AnyManifest
  bucket : BucketManifest → AnyManifest
  database : DatabaseManifest → AnyManifest

-- `manifest.kind.value`
unfoldable pub kind : AnyManifest → String
kind (service _) = "Service"
kind (secret _) = "Secret"
kind (secrets _) = "Secrets"
kind (bucket _) = "Bucket"
kind (database _) = "Database"

-- `manifest.metadata.name`, and "bundle" where the manifest has no metadata
unfoldable pub result_name : AnyManifest → String
result_name (service m) = m.metadata.name
result_name (secret m) = m.metadata.name
result_name (secrets m) = "bundle"
result_name (bucket m) = m.metadata.name
result_name (database m) = m.metadata.name
