-- ===== src/Storage/Objects.antt =====
-- aws_light/storage/storage_service.py: what is read of an object after the operations on objects.
use aws_light.Prelude.{
  String, ◌≡◌, arith, str_eq, eq_iff, ◌&&◌, Option-cases, inl, inr, if◌then◌else◌,
}
use aws_light.Prelude.Outcome.{raised, returned}
use aws_light.Dict
use aws_light.Dict.{Dict, get-put, get-pop}
use aws_light.Storage.{
  Storage, object_not_found, Directory, get_object, delete_object, bucket_exists, has_bucket_json,
  made, read_bytes,
}

-- A deleted object is not found any more, and each other is read as before.
pub get_object-delete_object :
    (s s' : Storage) (bucket_name object_key bucket_name' object_key' : String)
    → delete_object s bucket_name object_key ≡ returned s'
    → get_object s' bucket_name' object_key' ≡ (
        if str_eq bucket_name bucket_name' && str_eq object_key object_key'
        then raised (object_not_found object_key)
        else get_object s bucket_name' object_key')
unfolding delete_object get_object bucket_exists has_bucket_json made read_bytes
get_object-delete_object s s' b k b' k' gone = elim (Option-cases (Dict.get s b)) [
  | inl e ↦ ground (arith, e)
  | inr (d, e) ↦
      let d' : Directory = record d { objects = Dict.pop d.objects k; meta = Dict.pop d.meta k } in
      ground (arith, e, eq_iff b b', eq_iff k k', get-put s b b' d', get-pop d.objects k k')
]
