-- ===== src/Storage.antt =====
-- `StorageService` of aws_light/storage/storage_service.py, over the directory of each bucket. The
-- files of a bucket are its `bucket.json`, those under `objects` and those under `meta`, by key. This is
-- the file system for the names and keys of Storage/Keys alone: others, which the source accepts, may
-- lead to the file of another object, of another bucket or outside of all, and are not modelled.
pub mod Keys
pub mod Objects
use aws_light.Prelude.{
  ℕ, String, Bool, false, not, Option, none, some, List, [], ◌∷◌, ◌||◌, length, if◌then◌else◌,
  str_eq,
}
use aws_light.Prelude.Outcome.{Outcome, raised, returned}
use aws_light.Dict
use aws_light.Dict.{Dict}
use aws_light.Text.{strip_prefix}

pub record Bucket : Type 0 where
  pub name : String
  pub versioning : Bool

pub record ObjectMeta : Type 0 where
  pub bucket : String
  pub key : String
  pub size_bytes : ℕ
  pub content_type : String

pub data StorageError : Type 0 where
  bucket_not_found object_not_found : String → StorageError

-- str(error)
unfoldable pub message : StorageError → String
message (bucket_not_found name) = name
message (object_not_found key) = key

pub record Directory : Type 0 where
  pub bucket_json : Option Bucket
  pub objects : Dict (List ℕ)
  pub meta : Dict ObjectMeta

abbrev pub Storage : Type 0
Storage = Dict Directory

-- the directory that `mkdir(exist_ok=True)` leaves
unfoldable pub made : Option Directory → Directory
made none = record { bucket_json = none; objects = []; meta = [] }
made (some directory) = directory

unfoldable pub create_bucket : Storage → String → Storage
unfolding made
create_bucket s name = Dict.put s name (record (made (Dict.get s name)) {
  bucket_json = some (record { name = name; versioning = false });
})

unfoldable pub delete_bucket : Storage → String → Outcome StorageError Storage
delete_bucket s name =
    if Dict.contains s name then returned (Dict.pop s name) else raised (bucket_not_found name)

unfoldable pub has_bucket_json : Option Directory → Bool
has_bucket_json none = false
has_bucket_json (some directory) = Dict.is_some directory.bucket_json

unfoldable pub bucket_exists : Storage → String → Bool
unfolding has_bucket_json
bucket_exists s name = has_bucket_json (Dict.get s name)

-- `list_buckets`, whose order the file system decides: the directories with a `bucket.json`
unfoldable pub list_buckets : Storage → List Bucket
list_buckets [] = []
list_buckets ((name, directory) ∷ s) =
    let rest = list_buckets s in
    elim directory.bucket_json [ none ↦ rest | some bucket ↦ bucket ∷ rest ]

unfoldable pub put_object :
    Storage → String → String → List ℕ → String → Outcome StorageError (Storage × ObjectMeta)
unfolding made
put_object s bucket_name object_key data_bytes content_type =
    let directory = made (Dict.get s bucket_name) in
    let meta : ObjectMeta = record {
      bucket = bucket_name;
      key = object_key;
      size_bytes = length data_bytes;
      content_type = content_type;
    } in
    if not (bucket_exists s bucket_name)
    then raised (bucket_not_found bucket_name)
    else returned (
      Dict.put s bucket_name (record directory {
        objects = Dict.put directory.objects object_key data_bytes;
        meta = Dict.put directory.meta object_key meta;
      }),
      meta,
    )

-- the answer of `get_object` at the file of the object
unfoldable pub read_bytes : String → Option (List ℕ) → Outcome StorageError (List ℕ)
read_bytes object_key none = raised (object_not_found object_key)
read_bytes object_key (some data_bytes) = returned data_bytes

unfoldable pub get_object : Storage → String → String → Outcome StorageError (List ℕ)
unfolding made read_bytes
get_object s bucket_name object_key =
    if not (bucket_exists s bucket_name)
    then raised (bucket_not_found bucket_name)
    else read_bytes object_key (Dict.get (made (Dict.get s bucket_name)).objects object_key)

unfoldable pub delete_object : Storage → String → String → Outcome StorageError Storage
unfolding made
delete_object s bucket_name object_key =
    let directory = made (Dict.get s bucket_name) in
    if not (bucket_exists s bucket_name)
    then raised (bucket_not_found bucket_name)
    else if not (Dict.contains directory.objects object_key)
    then raised (object_not_found object_key)
    else returned (
        Dict.put s bucket_name (record directory {
          objects = Dict.pop directory.objects object_key;
          meta = Dict.pop directory.meta object_key;
        }))

unfoldable pub with_prefix : String → Dict ObjectMeta → List ObjectMeta
with_prefix prefix [] = []
with_prefix prefix ((key, meta) ∷ rest) =
    let others = with_prefix prefix rest in
    if str_eq prefix "" || Dict.is_some (strip_prefix prefix meta.key)
    then meta ∷ others
    else others

unfoldable pub list_objects : Storage → String → String → Outcome StorageError (List ObjectMeta)
unfolding made with_prefix
list_objects s bucket_name prefix =
    if not (bucket_exists s bucket_name)
    then raised (bucket_not_found bucket_name)
    else returned (with_prefix prefix (made (Dict.get s bucket_name)).meta)

unfoldable pub object_exists : Storage → String → String → Bool
unfolding made
object_exists s bucket_name object_key =
    Dict.contains (made (Dict.get s bucket_name)).objects object_key
