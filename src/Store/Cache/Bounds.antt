-- ===== src/Store/Cache/Bounds.antt =====
-- aws_light/store/cached_store.py: the size of the cache.
use aws_light.Prelude.{
  ℕ, ◌≤◌, ◌<◌, String, ◌≡◌, refl, Option, none, some, List, [], ◌∷◌, arith, Option-cases, inl, inr,
  length, length-append,
}
use aws_light.Dict
use aws_light.Dict.{Dict, get-put, is_some}
use aws_light.Store.{AnyStore}
use aws_light.Store.Cache.{
  CacheEntry, TtlStoreCache, move_to_end, trim, fresh_entry, remember, fetch, get, get_from,
  exists_from, put, delete, exists,
}
use aws_light.Store.Cache.Calls.{
  Call, get_call, exists_call, put_call, delete_call, list_call, step_cached, run_cached,
}

length-trim-le {ℓ} : {V : Type ℓ} (n : ℕ) (d : Dict V) → length (trim n d) ≤ n
unfolding trim
length-trim-le n [] = omega arith
length-trim-le n (e ∷ d) = ground (arith, length-trim-le n d)

pub trim_fits {ℓ} : {V : Type ℓ} (n : ℕ) (d : Dict V) → length d ≤ n → trim n d ≡ d
unfolding trim
trim_fits n [] h = refl
trim_fits n (e ∷ d) h = ground arith

length-pop-le {ℓ} : {V : Type ℓ} (d : Dict V) (k : String) → length (Dict.pop d k) ≤ length d
unfolding Dict.pop
length-pop-le [] k = omega arith
length-pop-le ((j, v) ∷ d) k = ground (arith, length-pop-le d k)

-- `pop` of a key that is there shortens the dictionary
length-pop-lt {ℓ} :
    {V : Type ℓ} (d : Dict V) (k : String) (v : V)
    → Dict.get d k ≡ some v
    → length (Dict.pop d k) < length d
unfolding Dict.pop Dict.get
length-pop-lt [] k v h = cc
length-pop-lt ((j, w) ∷ d) k v h = ground (arith, length-pop-le d k, length-pop-lt d k v)

pub pop_absent {ℓ} : {V : Type ℓ} (d : Dict V) (k : String) → Dict.get d k ≡ none → Dict.pop d k ≡ d
unfolding Dict.pop Dict.get
pop_absent [] k h = refl
pop_absent ((j, w) ∷ d) k h = ground (arith, pop_absent d k)

length-move_to_end-le {ℓ} :
    {V : Type ℓ} (d : Dict V) (k : String) → length (move_to_end d k) ≤ length d
unfolding move_to_end
length-move_to_end-le d k = elim (Option-cases (Dict.get d k)) [
  | inl e ↦ rw (e, move_to_end) (omega arith)
  | inr (v, e) ↦
      rw (e, move_to_end)
        (omega (arith, length-append (Dict.pop d k) ((k, v) ∷ []), length-pop-lt d k v e))
]

module _ {T : Type 0} (store : AnyStore T) where
  abbrev pub IsBounded : TtlStoreCache store → Type 0
  IsBounded c = length c.entries ≤ c.max_entries

  fresh_entry-IsBounded :
      (c : TtlStoreCache store) (k : String) (now : ℕ)
      → IsBounded c
      → IsBounded (fresh_entry store c k now).1
  unfolding fresh_entry
  fresh_entry-IsBounded c k now h =
      ground (arith, length-pop-le c.entries k, length-move_to_end-le c.entries k)

  remember-IsBounded :
      (c : TtlStoreCache store) (k : String) (v : T) (now : ℕ)
      → IsBounded (remember store c k v now)
  unfolding remember
  remember-IsBounded c k v now = length-trim-le _ _

  fetch-IsBounded :
      (c : TtlStoreCache store) (k : String) (now : ℕ)
      → IsBounded c
      → IsBounded (fetch store c k now).1
  unfolding fetch
  fetch-IsBounded c k now h = elim (Option-cases (store.get c.state k)) [
    | inl e ↦ rw (e, fetch) h
    | inr (v, e) ↦ rw (e, fetch) (remember-IsBounded c k v now)
  ]

  step-IsBounded :
      (c : TtlStoreCache store) (call : Call T)
      → IsBounded c
      → IsBounded (step_cached store c call).1
  unfolding get exists put delete
  step-IsBounded c (get_call k now later) h =
      go (fresh_entry store c k now) (fresh_entry-IsBounded c k now h)
    where
      go :
          (r : Option (CacheEntry T) × TtlStoreCache store)
          → IsBounded r.1
          → IsBounded (get_from store r k later).1
      go (none, c') b = fetch-IsBounded c' k later b
      go (some entry, c') b = b
  step-IsBounded c (exists_call k now) h =
      go (fresh_entry store c k now) (fresh_entry-IsBounded c k now h)
    where
      go :
          (r : Option (CacheEntry T) × TtlStoreCache store)
          → IsBounded r.1
          → IsBounded (exists_from store r k).1
      go (none, c') b = b
      go (some entry, c') b = b
  step-IsBounded c (put_call k v now) h =
      remember-IsBounded (record c { state = store.put c.state k v }) k v now
  step-IsBounded c (delete_call k) h = omega (arith, length-pop-le c.entries k)
  step-IsBounded c list_call h = h

  -- However it is used, a cache within its limit stays within max_entries.
  pub run_cached-IsBounded :
      (c : TtlStoreCache store) (calls : List (Call T))
      → IsBounded c
      → IsBounded (run_cached store c calls)
  unfolding run_cached
  run_cached-IsBounded c [] h = h
  run_cached-IsBounded c (call ∷ calls) h =
      run_cached-IsBounded (step_cached store c call).1 calls (step-IsBounded c call h)
