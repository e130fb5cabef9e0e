-- ===== src/Api/Storage/Workloads.antt =====
-- aws_light/api/storage.py: what a workload may do with its token.
use aws_light.Prelude.{ℕ, String, ◌≡◌, Bool, true, false, some, List, str_eq}
use aws_light.Prelude.Outcome.{Outcome, returned}
use aws_light.Dict
use aws_light.Dict.{get-put}
use aws_light.Text.{concat}
use aws_light.Models.{ServiceState, BucketAccess}
use aws_light.Store.{AnyStore}
use aws_light.Secrets
use aws_light.Secrets.{SecretSpec, Fernet}
use aws_light.Proxy.Ingress.{service_token_secret_prefix}
use aws_light.Storage.{Storage}
use aws_light.Storage.Keys.{plain_key}
use aws_light.Api.Storage as Handlers
use aws_light.Api.Errors.{HttpException}
use aws_light.Api.Storage.{grants}
use aws_light.Api.Storage.Effects.{left_by}

-- the four requests of the second router
pub data Request : Type 0 where
  listing : String → Request
  putting : String → List ℕ → String → Request
  getting deleting : String → Request

abbrev pub access_of : Request → BucketAccess
access_of (Request.listing prefix) = BucketAccess.read
access_of (Request.putting object_key data_bytes content_type) = BucketAccess.write
access_of (Request.getting object_key) = BucketAccess.read
access_of (Request.deleting object_key) = BucketAccess.write

-- the path of the object that a request is about is a plain one
abbrev pub plain_request : Request → Bool
plain_request (Request.listing prefix) = true
plain_request (Request.putting object_key data_bytes content_type) = plain_key object_key
plain_request (Request.getting object_key) = plain_key object_key
plain_request (Request.deleting object_key) = plain_key object_key

module _ (service_store : AnyStore ServiceState) (secret_store : AnyStore SecretSpec)
    (fernet : Fernet) where
  abbrev Deps : Type 0
  Deps = Handlers.Services service_store secret_store fernet

  -- The token is that of a stored service with a binding that grants the access.
  pub record Granted (deps : Deps) (token bucket_name : String) (access : BucketAccess)
      : Type 0 where
    pub service_name : String
    pub state : ServiceState
    pub token_of :
        Secrets.get_secret secret_store fernet deps.secrets_manager
          (concat service_token_secret_prefix service_name)
        ≡ returned (some token)
    pub stored : service_store.get deps.services service_name ≡ some state
    pub bound : grants bucket_name access state.spec.resources.buckets ≡ true

  Known : Deps → String → ServiceState → Type 0
  Known deps token state =
      (service_name : String) × (Secrets.get_secret secret_store fernet deps.secrets_manager
          (concat service_token_secret_prefix service_name)
        ≡ returned (some token))
      × (service_store.get deps.services service_name ≡ some state)

  -- the objects that a request leaves, where it is answered with success
  unfoldable pub serve : Deps → Storage → String → String → Request → Outcome HttpException Storage
  unfolding left_by
  serve deps s token bucket_name (Request.listing prefix) =
      left_by (λ _. s)
        (Handlers.workload_list_objects service_store secret_store fernet deps s token bucket_name
          prefix)
  serve deps s token bucket_name (Request.putting object_key data_bytes content_type) =
      left_by (λ answer. answer.0)
        (Handlers.workload_put_object service_store secret_store fernet deps s token bucket_name
          object_key data_bytes content_type)
  serve deps s token bucket_name (Request.getting object_key) =
      left_by (λ _. s)
        (Handlers.workload_get_object service_store secret_store fernet deps s token bucket_name
          object_key)
  serve deps s token bucket_name (Request.deleting object_key) =
      left_by (λ s'. s')
        (Handlers.workload_delete_object service_store secret_store fernet deps s token bucket_name
          object_key)

  -- Only who may reach a bucket is served, and only this bucket changes, by a write.
  pub record Guarded (deps : Deps) (s s' : Storage) (token bucket_name : String) (request : Request)
      : Type 0 where
    pub granted : Granted deps token bucket_name (access_of request)
    pub others :
        (other : String) → str_eq bucket_name other ≡ false → Dict.get s' other ≡ Dict.get s other
    pub reading : access_of request ≡ BucketAccess.read → s' ≡ s
