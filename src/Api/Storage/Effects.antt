-- ===== src/Api/Storage/Effects.antt =====
-- aws_light/api/storage.py: what the handlers leave of the buckets.
use aws_light.Prelude.{
  ℕ, String, ◌≡◌, refl, ap, false, List, arith, str_eq, Bool-cases, inl, inr, length,
}
use aws_light.Prelude.Outcome.{Outcome, raised, returned}
use aws_light.Dict
use aws_light.Dict.{get-put}
use aws_light.Storage
use aws_light.Storage.{
  Storage, Directory, ObjectMeta, StorageError, bucket_not_found, object_not_found,
}
use aws_light.Api.Storage as Handlers
use aws_light.Api.Errors.{HttpException}
use aws_light.Api.Storage.{grants}

unfoldable pub left_by :
    {A : Type 0} → (A → Storage) → Outcome HttpException A → Outcome HttpException Storage
left_by f (raised e) = raised e
left_by f (returned a) = returned (f a)

pub left_by-cases :
    {A : Type 0} (f : A → Storage) (o : Outcome HttpException A) (s : Storage)
    → left_by f o ≡ returned s
    → (a : A) × (o ≡ returned a) × (f a ≡ s)
unfolding left_by
left_by-cases f (raised e) s h = cc
left_by-cases f (returned a) s h = (a, refl, ground (arith, h))

not_found-cases :
    {A : Type 0} (o : Outcome StorageError A) (a : A)
    → Handlers.not_found o ≡ returned a
    → o ≡ returned a
unfolding Handlers.not_found
not_found-cases (raised (bucket_not_found name)) a h = cc
not_found-cases (raised (object_not_found key)) a h = cc
not_found-cases (returned b) a h = ap returned (ground (arith, h))

object_missing-cases :
    {A : Type 0} (o : Outcome StorageError A) (a : A)
    → Handlers.object_missing o ≡ returned a
    → o ≡ returned a
unfolding Handlers.object_missing
object_missing-cases (raised e) a h = cc
object_missing-cases (returned b) a h = ap returned (ground (arith, h))

pub put_object-others :
    (s s' : Storage) (bucket_name object_key : String) (data_bytes : List ℕ) (content_type : String)
    (meta : ObjectMeta) (other : String)
    → str_eq bucket_name other ≡ false
    → Handlers.put_object s bucket_name object_key data_bytes content_type ≡ returned (s', meta)
    → Dict.get s' other ≡ Dict.get s other
unfolding Handlers.put_object Storage.put_object
put_object-others s s' b k data_bytes content_type meta other e h =
    let h' = not_found-cases _ (s', meta) h in
    elim (Bool-cases (Storage.bucket_exists s b)) [
      | inl there ↦
          let directory = Storage.made (Dict.get s b) in
          let meta' : ObjectMeta = record {
            bucket = b;
            key = k;
            size_bytes = length data_bytes;
            content_type = content_type;
          } in
          let d' : Directory = record directory {
            objects = Dict.put directory.objects k data_bytes;
            meta = Dict.put directory.meta k meta';
          } in
          ground (arith, there, h', e, get-put s b other d')
      | inr missing ↦ ground (arith, missing, h')
    ]

pub delete_object-others :
    (s s' : Storage) (bucket_name object_key other : String)
    → str_eq bucket_name other ≡ false
    → Handlers.delete_object s bucket_name object_key ≡ returned s'
    → Dict.get s' other ≡ Dict.get s other
unfolding Handlers.delete_object Storage.delete_object
delete_object-others s s' b k other e h =
    let h' = object_missing-cases _ s' h in
    elim (Bool-cases (Storage.bucket_exists s b)) [
      | inl there ↦
          let directory = Storage.made (Dict.get s b) in
          let d' : Directory = record directory {
            objects = Dict.pop directory.objects k;
            meta = Dict.pop directory.meta k;
          } in
          ground (arith, there, h', e, get-put s b other d')
      | inr missing ↦ ground (arith, missing, h')
    ]
