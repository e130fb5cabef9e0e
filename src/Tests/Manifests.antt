-- ===== src/Tests/Manifests.antt =====
-- Examples of the applier.
use aws_light.Prelude.{◌≡◌, refl, List, [], ◌∷◌, false, some, none, Option, String, if◌then◌else◌}
use aws_light.Prelude.Int.{pos}
use aws_light.Models.{no_ingress, ServiceState}
use aws_light.Models.Status.{ResourceStatus}
use aws_light.Dict
use aws_light.Iac.Manifest.{
  kind, result_name, AnyManifest, service, secrets, bucket, ServiceManifest,
}
use aws_light.Iac.Results.{Action, Desired, desired_names, service_names, member, error_result}
use aws_light.Iac.Applier
use aws_light.Iac.Applier.Apply
use aws_light.Prelude.Action.{next}
use aws_light.Iac.Applier.Bindings.{passes, resolved, passes-validate_service_bindings}
use aws_light.Iac.Applier.Calls.{running_part}
use aws_light.Iac.Applier.Keeps.{applied, destroyed, running_part-apply, get-destroy}
use aws_light.Secrets
use aws_light.Tests.Samples
use aws_light.Tests.Samples.{services, databases, fernet, memory-IsStore, state_of}

abbrev manifest : ServiceManifest
manifest = record {
  metadata = record { name = "api"; labels = [] };
  spec = record {
    image = "app:2";
    replicas = pos 3;
    min_replicas = pos 1;
    max_replicas = pos 4;
    cpu_request = pos 25;
    memory_request_mb = pos 128;
    port = 8080;
    health_check_path = "/health";
    env = [];
    secret_refs = [];
    labels = [];
    resources = record { buckets = record { name = "files"; access = [] } ∷ []; databases = [] };
    ingress = no_ingress;
  };
}

abbrev batch : List AnyManifest
batch =
    secrets (record { secrets = ("k", "v") ∷ [] })
    ∷ bucket (record {
      metadata = record { name = "files"; labels = [] };
      spec = record { versioning = false };
    })
    ∷ service manifest
    ∷ []

abbrev applier : Applier.Applier services databases Samples.secrets fernet
applier = record {
  services = ("api", state_of "api") ∷ [];
  databases = [];
  secrets_manager = record { secret_store = []; random = 0 };
  storage = [];
  event_bus = some [];
}

abbrev nothing_desired : Desired
nothing_desired = record { buckets = []; databases = []; services = [] }

-- the bus is out of order
abbrev raises :
    Applier.Applier services databases Samples.secrets fernet → Apply.Call → Option String
raises a (Apply.publish name) = some "no bus"
raises a call = none

bundle_refused :
    (Apply.apply_one services databases Samples.secrets fernet raises applier nothing_desired
      (secrets (record { secrets = ("k", "v") ∷ [] }))).1
    ≡ record { kind = "Secrets"; name = "bundle"; action = Action.error; detail = "no bus" } ∷ []
unfolding Apply.apply_one Apply.caught Apply.apply_kind Apply.apply_secrets Apply.apply_secret
    Apply.apply_secret_at Apply.create_secret Apply.emit Apply.read Apply.attempt Apply.attempted
    error_result next Secrets.exists Dict.get kind result_name Dict.contains
bundle_refused = refl

passes-validate_service_bindings_example :
    passes (
      Applier.validate_service_bindings services databases Samples.secrets fernet applier manifest
        (desired_names batch))
    ≡ resolved services databases Samples.secrets fernet applier (desired_names batch) manifest
passes-validate_service_bindings_example =
    passes-validate_service_bindings services databases Samples.secrets fernet applier
      (desired_names batch) manifest

api_there : Dict.get applier.services "api" ≡ some (state_of "api")
unfolding Dict.get
api_there = refl

running_part-apply_example :
    running_part (
      Dict.get
        (applied services databases Samples.secrets fernet raises
          (memory-IsStore ServiceState)
          applier
          batch)
        "api")
    ≡ some (ResourceStatus.running, [])
running_part-apply_example =
    running_part-apply services databases Samples.secrets fernet raises
      (memory-IsStore ServiceState) applier batch "api" (state_of "api") api_there

get-destroy_example :
    Dict.get
      (destroyed services databases Samples.secrets fernet
        (memory-IsStore ServiceState)
        applier
        batch)
      "api"
    ≡ (if member "api" (service_names batch) then none else Dict.get applier.services "api")
get-destroy_example =
    get-destroy services databases Samples.secrets fernet (memory-IsStore ServiceState) applier
      batch "api"
