-- ===== src/Store/Cache/Expiry.antt =====
-- aws_light/store/cached_store.py: the age of answers while others write, and which entry is given up.
use aws_light.Prelude.{
  ℕ, ◌+◌, ◌<◌, String, ◌≡◌, ap, none, some, [], ◌∷◌, ◌++◌, arith, eq_iff, Bool-cases, inl, inr, ltb,
  length, length-append, if◌then◌else◌,
}
use aws_light.Dict
use aws_light.Dict.{Dict, get-pop}
use aws_light.Store.{AnyStore}
use aws_light.Store.Cache.{CacheEntry, TtlStoreCache, trim, fresh_entry, remember, fetch, get, put}
use aws_light.Store.Cache.Coherence.{move_to_end-put}
use aws_light.Store.Cache.Bounds.{trim_fits, pop_absent}

get-append_last {ℓ} :
    {V : Type ℓ} (d : Dict V) (k : String) (v : V)
    → Dict.get d k ≡ none
    → Dict.get (d ++ (k, v) ∷ []) k ≡ some v
unfolding Dict.get
get-append_last [] k v absent = ground (arith, eq_iff k k)
get-append_last ((j, w) ∷ d) k v absent = ground (arith, get-append_last d k v)

-- the last entry survives, since at least one is kept
get-trim_last {ℓ} :
    {V : Type ℓ} (n : ℕ) (d : Dict V) (k : String) (v : V)
    → 0 < n
    → Dict.get d k ≡ none
    → Dict.get (trim n (d ++ (k, v) ∷ [])) k ≡ some v
unfolding trim Dict.get
get-trim_last n [] k v pos absent = ground (arith, eq_iff k k)
get-trim_last n ((j, w) ∷ d) k v pos absent =
    elim (Bool-cases (ltb n (length ((j, w) ∷ (d ++ (k, v) ∷ []))))) [
      | inl over ↦ rw over (get-trim_last n d k v pos (ground arith))
      | inr fits ↦ rw fits (get-append_last ((j, w) ∷ d) k v absent)
    ]

-- one entry over the limit: the oldest goes
trim_one {ℓ} :
    {V : Type ℓ} (n : ℕ) (e : String × V) (d : Dict V) → length d ≡ n → trim n (e ∷ d) ≡ d
unfolding trim
trim_one n e d h = ground (arith, trim_fits n d)

module _ {T : Type 0} (store : AnyStore T) where
  fetch-eq :
      (c : TtlStoreCache store) (k : String) (now : ℕ)
      → (fetch store c k now).0 ≡ store.get c.state k
  unfolding fetch
  fetch-eq c k now = ground arith

  get-remember :
      (c : TtlStoreCache store) (k : String) (v : T) (now : ℕ)
      → 0 < c.max_entries
      → Dict.get (remember store c k v now).entries k
        ≡ some (record { value = v; expires_at = now + c.ttl_seconds })
  unfolding remember
  get-remember c k v now pos = rw move_to_end-put (
      get-trim_last c.max_entries (Dict.pop c.entries k) k _ pos
        (ground (arith, get-pop c.entries k k, eq_iff k k)))

  -- After a write at time t, whatever others have done to the store since, a cache that can hold
  -- an entry answers the written item while now < t + ttl_seconds, and the present item of the
  -- store from then on.
  pub get-put_after :
      (c : TtlStoreCache store) (k : String) (v : T) (t now later : ℕ) (others : store.State)
      → 0 < c.max_entries
      → (get store (record (put store c k v t) { state = others }) k now later).0
        ≡ (if ltb now (t + c.ttl_seconds) then some v else store.get others k)
  unfolding get fresh_entry put
  get-put_after c k v t now later others pos =
      rw (get-remember (record c { state = store.put c.state k v }) k v t pos) (
        ground (
          arith,
          fetch-eq
              (record (put store c k v t) {
                state = others;
                entries = Dict.pop (put store c k v t).entries k;
              })
              k later,
        ))

  -- A new key in a full cache takes the place of the entry at the front, the one used least
  -- recently.
  pub remember_full :
      (c : TtlStoreCache store) (k : String) (v : T) (now : ℕ) (oldest : String × CacheEntry T)
      (rest : Dict (CacheEntry T))
      → c.entries ≡ oldest ∷ rest
      → length c.entries ≡ c.max_entries
      → Dict.get c.entries k ≡ none
      → (remember store c k v now).entries
        ≡ rest ++ (k, record { value = v; expires_at = now + c.ttl_seconds }) ∷ []
  unfolding remember
  remember_full c k v now oldest rest e full absent =
      let new : CacheEntry T = record { value = v; expires_at = now + c.ttl_seconds } in
      rw (move_to_end-put, pop_absent c.entries k absent, e)
        (trim_one c.max_entries oldest (rest ++ (k, new) ∷ []) (
          omega
            (arith, ap (length {A = String × CacheEntry T}) e, length-append rest ((k, new) ∷ []))))
