-- ===== src/Tests/Workloads.antt =====
-- Examples of the requests of workloads.
use aws_light.Prelude.{[], ◌∷◌, some, false}
use aws_light.Dict
use aws_light.Models.{ServiceState, BucketAccess}
use aws_light.Secrets
use aws_light.Storage
use aws_light.Storage.{Storage}
use aws_light.Api.Storage as Handlers
use aws_light.Api.Storage.Workloads.{Request}
use aws_light.Tests.Samples.{services, secrets, fernet, state_of}

-- a service that may write the bucket "b"
abbrev web : ServiceState
web =
    let state = state_of "web" in
    record state {
      spec = record state.spec {
        resources = record {
          buckets = record { name = "b"; access = BucketAccess.write ∷ [] } ∷ [];
          databases = [];
        };
      };
    }

abbrev deps : Handlers.Services services secrets fernet
deps = record {
  services = ("web", web) ∷ [];
  secrets_manager = record {
    secret_store =
        (
          "aws-light-service-token-web",
          record { name = "aws-light-service-token-web"; value = "t" },
        )
        ∷ [];
    random = 0;
  };
}

abbrev empty_bucket : Storage
empty_bucket =
    (
      "b",
      record {
        bucket_json = some (record { name = "b"; versioning = false });
        objects = [];
        meta = [];
      },
    )
    ∷ []

abbrev with_object : Storage
with_object =
    (
      "b",
      record {
        bucket_json = some (record { name = "b"; versioning = false });
        objects = ("k", 1 ∷ []) ∷ [];
        meta =
            ("k", record { bucket = "b"; key = "k"; size_bytes = 1; content_type = "text/plain" })
            ∷ [];
      },
    )
    ∷ []

abbrev request : Request
request = Request.putting "k" (1 ∷ []) "text/plain"
