-- ===== src/Api/Storage.antt =====
-- aws_light/api/storage.py. The handlers of the first router run after the dependency that checks
-- the user (aws_light/iam/middleware.py), those for workloads after the check of the bucket.
pub mod Effects
pub mod Workloads
use aws_light.Prelude.{
  ℕ, String, Bool, true, false, Option, none, some, List, [], ◌∷◌, ◌&&◌, str_eq, if◌then◌else◌,
}
use aws_light.Prelude.Outcome.{Outcome, raised, returned}
use aws_light.Dict
use aws_light.Text.{concat, join, strip_prefix}
use aws_light.Models.{ServiceState, BucketAccess, BucketBinding}
use aws_light.Store.{AnyStore}
use aws_light.Secrets
use aws_light.Secrets.{SecretSpec, Fernet, SecretsManager, InvalidToken}
use aws_light.Proxy.Ingress.{service_token_secret_prefix}
use aws_light.Api.Errors.{HttpException, http_exception, unhandled}
use aws_light.Storage
use aws_light.Storage.{
  Bucket, ObjectMeta, Storage, StorageError, bucket_not_found, object_not_found,
}

unfoldable pub create_bucket : Storage → String → Outcome HttpException Storage
create_bucket s name =
    if Storage.bucket_exists s name
    then raised (http_exception 409 (join ("Bucket '" ∷ name ∷ "' already exists" ∷ [])))
    else returned (Storage.create_bucket s name)

-- `except BucketNotFoundError`, and `except ObjectNotFoundError`, each with its own detail
unfoldable pub not_found : {A : Type 0} → Outcome StorageError A → Outcome HttpException A
not_found (raised (bucket_not_found name)) = raised (http_exception 404 "Bucket not found")
not_found (raised (object_not_found key)) = raised (http_exception 404 "Object not found")
not_found (returned a) = returned a

-- `except (BucketNotFoundError, ObjectNotFoundError)`
unfoldable pub object_missing : {A : Type 0} → Outcome StorageError A → Outcome HttpException A
object_missing (raised e) = raised (http_exception 404 "Object not found")
object_missing (returned a) = returned a

unfoldable pub delete_bucket : Storage → String → Outcome HttpException Storage
unfolding not_found
delete_bucket s bucket_name = not_found (Storage.delete_bucket s bucket_name)

unfoldable pub list_objects : Storage → String → String → Outcome HttpException (List ObjectMeta)
unfolding not_found
list_objects s bucket_name prefix = not_found (Storage.list_objects s bucket_name prefix)

unfoldable pub put_object :
    Storage → String → String → List ℕ → String → Outcome HttpException (Storage × ObjectMeta)
unfolding not_found
put_object s bucket_name object_key data_bytes content_type =
    not_found (Storage.put_object s bucket_name object_key data_bytes content_type)

unfoldable pub get_object : Storage → String → String → Outcome HttpException (List ℕ)
unfolding not_found
get_object s bucket_name object_key = not_found (Storage.get_object s bucket_name object_key)

unfoldable pub delete_object : Storage → String → String → Outcome HttpException Storage
unfolding object_missing
delete_object s bucket_name object_key =
    object_missing (Storage.delete_object s bucket_name object_key)

-- `access in binding.access`
unfoldable pub same_access : BucketAccess → BucketAccess → Bool
same_access BucketAccess.read BucketAccess.read = true
same_access BucketAccess.write BucketAccess.write = true
same_access _ _ = false

unfoldable pub has_access : BucketAccess → List BucketAccess → Bool
unfolding same_access
has_access access [] = false
has_access access (a ∷ granted) = if same_access access a then true else has_access access granted

-- the loop of `_require_bucket_access`: does a binding grant the access?
unfoldable pub grants : String → BucketAccess → List BucketBinding → Bool
unfolding has_access
grants bucket_name access [] = false
grants bucket_name access (binding ∷ bindings) =
    if str_eq binding.name bucket_name && has_access access binding.access
    then true
    else grants bucket_name access bindings

unfoldable pub access_name : BucketAccess → String
access_name BucketAccess.read = "read"
access_name BucketAccess.write = "write"

module _ (service_store : AnyStore ServiceState) (secret_store : AnyStore SecretSpec)
    (fernet : Fernet) where
  -- what the handlers reach through aws_light/dependencies.py
  pub record Services : Type 0 where
    pub services : service_store.State
    pub secrets_manager : SecretsManager secret_store fernet

  unfoldable pub is_token : String → Option String → Bool
  is_token token none = false
  is_token token (some stored_token) = str_eq stored_token token

  unfoldable pub or_later :
      Option ServiceState → Outcome HttpException ServiceState → Outcome HttpException ServiceState
  or_later none rest = rest
  or_later (some service_state) rest = returned service_state

  -- one turn of the loop of `_service_state_for_token`: `rest` is what the later turns answer
  unfoldable pub token_turn :
      String
      → Option ServiceState
      → Outcome InvalidToken (Option String)
      → Outcome HttpException ServiceState
      → Outcome HttpException ServiceState
  unfolding is_token or_later
  token_turn token service_state (raised e) rest = raised unhandled
  token_turn token service_state (returned stored_token) rest =
      if is_token token stored_token then or_later service_state rest else rest

  unfoldable pub find_service : Services → String → List String → Outcome HttpException ServiceState
  unfolding token_turn
  find_service deps token [] = raised (http_exception 403 "Invalid service token")
  find_service deps token (secret_name ∷ names) =
      let rest = find_service deps token names in
      elim (strip_prefix service_token_secret_prefix secret_name) [
        | none ↦ rest
        | some service_name ↦
            token_turn token (service_store.get deps.services service_name)
              (Secrets.get_secret secret_store fernet deps.secrets_manager secret_name) rest
      ]

  unfoldable pub service_state_for_token : Services → String → Outcome HttpException ServiceState
  unfolding find_service
  service_state_for_token deps token =
      find_service deps token (Secrets.list_secret_names secret_store fernet deps.secrets_manager)

  unfoldable pub check_binding :
      String
      → BucketAccess
      → Outcome HttpException ServiceState
      → Outcome HttpException ServiceState
  unfolding grants access_name
  check_binding bucket_name access (raised e) = raised e
  check_binding bucket_name access (returned service_state) =
      if grants bucket_name access service_state.spec.resources.buckets
      then returned service_state
      else raised
          (http_exception 403 (join ("Bucket " ∷ access_name access ∷ " access denied" ∷ [])))

  unfoldable pub require_bucket_access :
      Services → String → BucketAccess → String → Outcome HttpException ServiceState
  unfolding check_binding service_state_for_token
  require_bucket_access deps bucket_name access token =
      check_binding bucket_name access (service_state_for_token deps token)

  -- a handler behind the check
  unfoldable pub after_check :
      {A : Type 0}
      → Outcome HttpException ServiceState
      → Outcome HttpException A
      → Outcome HttpException A
  after_check (raised e) answer = raised e
  after_check (returned service_state) answer = answer

  unfoldable pub workload_list_objects :
      Services → Storage → String → String → String → Outcome HttpException (List ObjectMeta)
  unfolding after_check require_bucket_access list_objects
  workload_list_objects deps s token bucket_name prefix =
      after_check (require_bucket_access deps bucket_name BucketAccess.read token)
        (list_objects s bucket_name prefix)

  unfoldable pub workload_put_object :
      Services
      → Storage
      → String
      → String
      → String
      → List ℕ
      → String
      → Outcome HttpException (Storage × ObjectMeta)
  unfolding after_check require_bucket_access put_object
  workload_put_object deps s token bucket_name object_key data_bytes content_type =
      after_check (require_bucket_access deps bucket_name BucketAccess.write token)
        (put_object s bucket_name object_key data_bytes content_type)

  unfoldable pub workload_get_object :
      Services → Storage → String → String → String → Outcome HttpException (List ℕ)
  unfolding after_check require_bucket_access get_object
  workload_get_object deps s token bucket_name object_key =
      after_check (require_bucket_access deps bucket_name BucketAccess.read token)
        (get_object s bucket_name object_key)

  unfoldable pub workload_delete_object :
      Services → Storage → String → String → String → Outcome HttpException Storage
  unfolding after_check require_bucket_access delete_object
  workload_delete_object deps s token bucket_name object_key =
      after_check (require_bucket_access deps bucket_name BucketAccess.write token)
        (delete_object s bucket_name object_key)
