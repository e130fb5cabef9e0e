-- ===== src/Iac/Results.antt =====
-- aws_light/iac/applier.py: the results of the applier, the names that `apply` collects from the
-- manifests, and the specs it makes of them.
use aws_light.Prelude.{String, Bool, true, false, List, [], ◌∷◌, if◌then◌else◌, str_eq}
use aws_light.Dict
use aws_light.Dict.{Dict}
use aws_light.Models.{ServiceSpec, DatabaseSpec}
use aws_light.Iac.Manifest.{
  AnyManifest, service, bucket, database, ServiceManifest, DatabaseManifest, kind, result_name,
}

pub data Action : Type 0 where
  created updated unchanged error : Action

pub record ApplyResult : Type 0 where
  pub kind : String
  pub name : String
  pub action : Action
  pub detail : String

unfoldable pub result : String → String → Action → ApplyResult
result kind name action = record { kind = kind; name = name; action = action; detail = "" }

unfoldable pub error_result : AnyManifest → String → ApplyResult
error_result manifest text = record {
  kind = kind manifest;
  name = result_name manifest;
  action = error;
  detail = text;
}

-- `name in names`, of the sets of desired names
unfoldable pub member : String → List String → Bool
member name [] = false
member name (other ∷ names) =
    let rest = member name names in if str_eq name other then true else rest

unfoldable pub bucket_names : List AnyManifest → List String
bucket_names [] = []
bucket_names (bucket m ∷ manifests) = m.metadata.name ∷ bucket_names manifests
bucket_names (_ ∷ manifests) = bucket_names manifests

unfoldable pub database_names : List AnyManifest → List String
database_names [] = []
database_names (database m ∷ manifests) = m.metadata.name ∷ database_names manifests
database_names (_ ∷ manifests) = database_names manifests

unfoldable pub service_names : List AnyManifest → List String
service_names [] = []
service_names (service m ∷ manifests) = m.metadata.name ∷ service_names manifests
service_names (_ ∷ manifests) = service_names manifests

-- the three sets that `apply` collects
pub record Desired : Type 0 where
  pub buckets : List String
  pub databases : List String
  pub services : List String

unfoldable pub desired_names : List AnyManifest → Desired
desired_names manifests = record {
  buckets = bucket_names manifests;
  databases = database_names manifests;
  services = service_names manifests;
}

-- `{**a, **b}`
unfoldable pub merged : Dict String → Dict String → Dict String
merged a [] = a
merged a ((key, value) ∷ b) = merged (Dict.put a key value) b

unfoldable pub service_spec_of : ServiceManifest → ServiceSpec
service_spec_of manifest =
    let spec_data = manifest.spec in
    record {
      name = manifest.metadata.name;
      image = spec_data.image;
      replicas = spec_data.replicas;
      min_replicas = spec_data.min_replicas;
      max_replicas = spec_data.max_replicas;
      cpu_request = spec_data.cpu_request;
      memory_request_mb = spec_data.memory_request_mb;
      port = spec_data.port;
      health_check_path = spec_data.health_check_path;
      env = spec_data.env;
      secret_refs = spec_data.secret_refs;
      labels = merged manifest.metadata.labels spec_data.labels;
      resources = spec_data.resources;
      ingress = spec_data.ingress;
    }

unfoldable pub database_spec_of : DatabaseManifest → DatabaseSpec
database_spec_of manifest = record {
  name = manifest.metadata.name;
  engine = manifest.spec.engine;
  version = manifest.spec.version;
  storage_mb = manifest.spec.storage_mb;
}
