-- ===== src/Store/Cache.antt =====
-- `TTLStoreCache` of aws_light/store/cached_store.py, over any store. Each reading of the clock is an
-- argument; a method that reads it twice has two, in order.
pub mod Calls
pub mod Coherence
pub mod Expiry
pub mod Bounds
pub mod Transparency
use aws_light.Prelude.{
  ℕ, zero, suc, ◌+◌, String, Bool, true, false, Option, none, some, List, [], ◌∷◌, ◌++◌, ltb, leb,
  length, if◌then◌else◌, ◌==◌,
}
use aws_light.Dict
use aws_light.Dict.{Dict}
use aws_light.Store.{AnyStore}

pub record CacheEntry (T : Type 0) : Type 0 where
  pub value : T
  pub expires_at : ℕ

-- `OrderedDict.move_to_end`, at a key that is there
unfoldable pub move_to_end {ℓ} : {V : Type ℓ} → Dict V → String → Dict V
move_to_end d k = elim (Dict.get d k) [ none ↦ d | some v ↦ Dict.pop d k ++ (k, v) ∷ [] ]

-- `while len(entries) > max_entries: entries.popitem(last=False)`
unfoldable pub trim {ℓ} : {V : Type ℓ} → ℕ → Dict V → Dict V
trim max_entries [] = []
trim max_entries (e ∷ d) =
    let shorter = trim max_entries d in if ltb max_entries (length (e ∷ d)) then shorter else e ∷ d

pub data ValueError : Type 0 where
  bad_ttl bad_max_entries : ValueError

module _ {T : Type 0} (store : AnyStore T) where
  pub record TtlStoreCache : Type 0 where
    pub state : store.State
    pub ttl_seconds : ℕ
    pub max_entries : ℕ
    pub entries : Dict (CacheEntry T)

  pub data Created : Type 0 where
    created : TtlStoreCache → Created
    value_error : ValueError → Created

  unfoldable pub create : store.State → ℕ → ℕ → Created
  create s ttl_seconds max_entries =
      if ttl_seconds == 0
      then value_error ValueError.bad_ttl
      else if ltb max_entries 1
      then value_error ValueError.bad_max_entries
      else created
          (record { state = s; ttl_seconds = ttl_seconds; max_entries = max_entries; entries = [] })

  unfoldable pub check_entry :
      TtlStoreCache → String → ℕ → Option (CacheEntry T) → Option (CacheEntry T) × TtlStoreCache
  check_entry c identifier now none = (none, c)
  check_entry c identifier now (some entry) =
      if leb entry.expires_at now
      then (none, record c { entries = Dict.pop c.entries identifier })
      else (some entry, record c { entries = move_to_end c.entries identifier })

  unfoldable pub fresh_entry : TtlStoreCache → String → ℕ → Option (CacheEntry T) × TtlStoreCache
  unfolding check_entry
  fresh_entry c identifier now = check_entry c identifier now (Dict.get c.entries identifier)

  unfoldable pub remember : TtlStoreCache → String → T → ℕ → TtlStoreCache
  remember c identifier item now =
      let entry : CacheEntry T = record { value = item; expires_at = now + c.ttl_seconds } in
      record c {
        entries = trim c.max_entries (move_to_end (Dict.put c.entries identifier entry) identifier);
      }

  -- what `get` does when no fresh entry was found
  unfoldable pub fetch : TtlStoreCache → String → ℕ → Option T × TtlStoreCache
  fetch c identifier now = elim (store.get c.state identifier) [
    | none ↦ (none, c)
    | some item ↦ (some item, remember c identifier item now)
  ]

  -- the two ways on from the entries, for `get`
  unfoldable pub get_from :
      Option (CacheEntry T) × TtlStoreCache → String → ℕ → Option T × TtlStoreCache
  unfolding fetch
  get_from (none, c) identifier later = fetch c identifier later
  get_from (some entry, c) identifier later = (some entry.value, c)

  unfoldable pub get : TtlStoreCache → String → ℕ → ℕ → Option T × TtlStoreCache
  unfolding get_from
  get c identifier now later = get_from (fresh_entry c identifier now) identifier later

  unfoldable pub put : TtlStoreCache → String → T → ℕ → TtlStoreCache
  put c identifier item now =
      remember (record c { state = store.put c.state identifier item }) identifier item now

  unfoldable pub list : TtlStoreCache → List T
  list c = store.list c.state

  unfoldable pub delete : TtlStoreCache → String → TtlStoreCache
  delete c identifier = record c {
    state = store.delete c.state identifier;
    entries = Dict.pop c.entries identifier;
  }

  unfoldable pub exists_from : Option (CacheEntry T) × TtlStoreCache → String → Bool × TtlStoreCache
  exists_from (none, c) identifier = (store.exists c.state identifier, c)
  exists_from (some entry, c) identifier = (true, c)

  unfoldable pub exists : TtlStoreCache → String → ℕ → Bool × TtlStoreCache
  unfolding exists_from
  exists c identifier now = exists_from (fresh_entry c identifier now) identifier
