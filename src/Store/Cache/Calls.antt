-- ===== src/Store/Cache/Calls.antt =====
-- aws_light/store/cached_store.py: sequences of calls of the methods of `TTLStoreCache`.
use aws_light.Prelude.{ℕ, String, Bool, Option, List, [], ◌∷◌}
use aws_light.Store.{AnyStore}
use aws_light.Store.Cache.{TtlStoreCache, get, put, delete, exists, list}

-- A call of a method. The numbers are the readings of the clock while it runs.
pub data Call (T : Type 0) : Type 0 where
  get_call : String → ℕ → ℕ → Call T
  exists_call : String → ℕ → Call T
  put_call : String → T → ℕ → Call T
  delete_call : String → Call T
  list_call : Call T

pub data Reply (T : Type 0) : Type 0 where
  item : Option T → Reply T
  found : Bool → Reply T
  done : Reply T
  items : List T → Reply T

module _ {T : Type 0} (store : AnyStore T) where
  abbrev pub step_cached : TtlStoreCache store → Call T → Reply T × TtlStoreCache store
  step_cached c (get_call k now later) =
      (item (get store c k now later).0, (get store c k now later).1)
  step_cached c (exists_call k now) = (found (exists store c k now).0, (exists store c k now).1)
  step_cached c (put_call k v now) = (done, put store c k v now)
  step_cached c (delete_call k) = (done, delete store c k)
  step_cached c list_call = (items (list store c), c)

  -- the cache that a sequence of calls leaves
  unfoldable pub run_cached : TtlStoreCache store → List (Call T) → TtlStoreCache store
  run_cached c [] = c
  run_cached c (call ∷ calls) = run_cached (step_cached c call).1 calls
