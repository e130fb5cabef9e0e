-- ===== src/Tests/Stores.antt =====
-- Examples of the stores, the cache, the secrets and the objects.
use aws_light.Prelude.{
  String, ◌≡◌, refl, ℕ, ◌+◌, List, [], ◌∷◌, false, some, none, Option, arith, if◌then◌else◌, ltb,
  str_eq,
}
use aws_light.Prelude.Outcome.{returned}
use aws_light.Dict
use aws_light.Dict.{Dict}
use aws_light.Store.{IsStore}
use aws_light.Store.JsonStore.{json_store, json_store-IsStore}
use aws_light.Store.Cache
use aws_light.Store.Cache.{TtlStoreCache, CacheEntry}
use aws_light.Store.Cache.Calls.{Call, get_call, put_call, delete_call, run_cached}
use aws_light.Store.Cache.Transparency.{replies_cached, replies_direct, create_transparent}
use aws_light.Store.Cache.Bounds.{IsBounded, run_cached-IsBounded}
use aws_light.Store.Cache.Expiry.{get-put_after}
use aws_light.Secrets
use aws_light.Secrets.{SecretsManager, SecretSpec}
use aws_light.Secrets.Environment.{last_value, inject_into_env-Injects}
use aws_light.Storage.{Storage, ObjectMeta, Directory}
use aws_light.Storage.Keys.{plain_key}
use aws_light.Tests.Samples.{memory, memory-IsStore, secrets, fernet}

json_store-IsStore_example : IsStore (json_store {T = ℕ} {Raw = ℕ} (λ x. x) (λ x. x))
json_store-IsStore_example = json_store-IsStore (λ x. x) (λ x. x) (λ x. refl)

abbrev full_cache : TtlStoreCache (memory ℕ)
full_cache = record {
  state = ("a", 1) ∷ [];
  ttl_seconds = 5;
  max_entries = 1;
  entries = ("a", record { value = 1; expires_at = 9 }) ∷ [];
}

abbrev empty_cache : TtlStoreCache (memory ℕ)
empty_cache = record { state = []; ttl_seconds = 5; max_entries = 1; entries = [] }

abbrev calls : List (Call ℕ)
calls = put_call "a" 1 0 ∷ get_call "a" 3 3 ∷ delete_call "a" ∷ get_call "a" 4 4 ∷ []

created_cache : Cache.create (memory ℕ) [] 5 1 ≡ Cache.Created.created empty_cache
unfolding Cache.create
created_cache = refl

create_transparent_example :
    replies_cached (memory ℕ) empty_cache calls ≡ replies_direct (memory ℕ) [] calls
create_transparent_example =
    create_transparent (memory-IsStore ℕ) [] 5 1 empty_cache calls created_cache

run_cached-IsBounded_example : IsBounded (memory ℕ) (run_cached (memory ℕ) full_cache calls)
run_cached-IsBounded_example = run_cached-IsBounded (memory ℕ) full_cache calls (omega arith)

get-put_after_example :
    (Cache.get
      (memory ℕ)
      (record (Cache.put (memory ℕ) full_cache "b" 2 3) { state = [] })
      "b"
      4
      4).0
    ≡ (if ltb 4 (3 + 5) then some 2 else Dict.get [] "b")
get-put_after_example = get-put_after (memory ℕ) full_cache "b" 2 3 4 4 [] (omega arith)

abbrev manager : SecretsManager secrets fernet
manager = record {
  secret_store = ("db-url", record { name = "db-url"; value = "v" }) ∷ [];
  random = 0;
}

abbrev no_secrets : SecretsManager secrets fernet
no_secrets = record { secret_store = []; random = 0 }

abbrev values : String → Option String
values name = if str_eq "db-url" name then some "v" else none

reads_values :
    (name : String) → Secrets.get_secret secrets fernet manager name ≡ returned (values name)
unfolding Secrets.get_secret Secrets.open_spec Secrets.opened Dict.get
reads_values name = ground arith

inject_into_env-Injects_example :
    (env : Dict String) × (Secrets.inject_into_env secrets fernet manager ("db-url" ∷ "gone" ∷ [])
      ≡ returned env)
    × ((key : String) → Dict.get env key ≡ last_value values ("db-url" ∷ "gone" ∷ []) key)
inject_into_env-Injects_example =
    inject_into_env-Injects secrets fernet manager values reads_values ("db-url" ∷ "gone" ∷ [])

abbrev directory : Directory
directory = record {
  bucket_json = some (record { name = "b"; versioning = false });
  objects = [];
  meta = [];
}

abbrev storage : Storage
storage = ("b", directory) ∷ []

abbrev meta_of : ObjectMeta
meta_of = record { bucket = "b"; key = "k"; size_bytes = 2; content_type = "text/plain" }

abbrev filled : Storage
filled =
    ("b", record directory { objects = ("k", 1 ∷ 2 ∷ []) ∷ []; meta = ("k", meta_of) ∷ [] }) ∷ []

up_and_over : plain_key "../../other/objects/k" ≡ false
unfolding plain_key
up_and_over = refl
