-- ===== src/Store/Cache/Coherence.antt =====
-- aws_light/store/cached_store.py: entries that agree with the store.
use aws_light.Prelude.{
  ℕ, String, ◌≡◌, refl, sym, ap, Option, none, some, [], ◌∷◌, ◌++◌, arith, eq_iff, All, All-append,
  Bool-cases, Option-cases, inl, inr, ltb, leb, length,
}
use aws_light.Dict
use aws_light.Dict.{Dict, get-put}
use aws_light.Dict.Entries.{pop-put, All-pop, All-get}
use aws_light.Store.{AnyStore, IsStore}
use aws_light.Store.Cache.{
  CacheEntry, TtlStoreCache, move_to_end, trim, check_entry, fresh_entry, remember, fetch, get,
  get_from, exists_from, put, delete, exists,
}

pub move_to_end-put {ℓ} :
    {V : Type ℓ} (d : Dict V) (k : String) (v : V)
    → move_to_end (Dict.put d k v) k ≡ Dict.pop d k ++ (k, v) ∷ []
unfolding move_to_end
move_to_end-put d k v = ground (arith, get-put d k k v, eq_iff k k, pop-put d k v)

All-trim {ℓ κ} :
    {V : Type ℓ} (P : String × V → Type κ) (n : ℕ) (d : Dict V) → All P d → All P (trim n d)
unfolding trim
All-trim P n [] h = tt
All-trim P n (e ∷ d) h = elim (Bool-cases (ltb n (length (e ∷ d)))) [
  | inl over ↦ rw over (All-trim P n d h.1)
  | inr fits ↦ rw fits h
]

module _ {T : Type 0} {store : AnyStore T} (laws : IsStore store) where
  -- every entry, expired or not, is what the store holds
  abbrev Agrees : store.State → String × CacheEntry T → Type 0
  Agrees s e = store.get s e.0 ≡ some e.1.value

  abbrev pub IsCoherent : TtlStoreCache store → Type 0
  IsCoherent c = All (Agrees c.state) c.entries

  Agrees-pop :
      (s : store.State) (d : Dict (CacheEntry T)) (k : String)
      → All (Agrees s) d
      → All (Agrees s) (Dict.pop d k)
  Agrees-pop s d k h = All-pop (Agrees s) (Agrees s) d k (λ j v _ a. a) h

  -- entries at other keys, and a new last entry
  remember-IsCoherent :
      (c : TtlStoreCache store) (k : String) (v : T) (now : ℕ)
      → All (Agrees c.state) (Dict.pop c.entries k)
      → store.get c.state k ≡ some v
      → IsCoherent (remember store c k v now)
  unfolding remember
  remember-IsCoherent c k v now others here =
      All-trim _ _ _ (rw move_to_end-put (All-append _ _ _ others (here, tt)))

  move_to_end-IsCoherent :
      (s : store.State) (d : Dict (CacheEntry T)) (k : String)
      → All (Agrees s) d
      → All (Agrees s) (move_to_end d k)
  unfolding move_to_end
  move_to_end-IsCoherent s d k h = elim (Option-cases (Dict.get d k)) [
    | inl absent ↦ rw (absent, move_to_end) h
    | inr (v, found) ↦
        rw (found, move_to_end)
          (All-append _ _ _ (Agrees-pop s d k h) (All-get (Agrees s) d k v found h, tt))
  ]

  -- What a lookup among the entries gives, when they agree with the store.
  record Looked (c : TtlStoreCache store) (k : String)
      (r : Option (CacheEntry T) × TtlStoreCache store) : Type 0 where
    state : r.1.state ≡ c.state
    coherent : IsCoherent r.1
    hit : (e : CacheEntry T) → r.0 ≡ some e → store.get c.state k ≡ some e.value

  fresh_entry-Looked :
      (c : TtlStoreCache store) (k : String) (now : ℕ)
      → IsCoherent c
      → Looked c k (fresh_entry store c k now)
  unfolding fresh_entry
  fresh_entry-Looked c k now h = go (Dict.get c.entries k) refl
    where
      go :
          (o : Option (CacheEntry T))
          → Dict.get c.entries k ≡ o
          → Looked c k (check_entry store c k now o)
      go none e = record { state = refl; coherent = h; hit = λ x p. cc }
      go (some entry) e = elim (Bool-cases (leb entry.expires_at now)) [
        | inl over ↦
            rw over (record {
              state = refl;
              coherent = Agrees-pop c.state c.entries k h;
              hit = λ x p. cc;
            })
        | inr fresh ↦ rw fresh (record {
          state = refl;
          coherent = move_to_end-IsCoherent c.state c.entries k h;
          hit = λ x p. ground (arith, All-get (Agrees c.state) c.entries k entry e h);
        })
      ]

  -- What a method leaves behind: an agreeing cache over the store that it should leave.
  pub record Kept (s : store.State) (c : TtlStoreCache store) : Type 0 where
    pub state : c.state ≡ s
    pub coherent : IsCoherent c

  fetch-Kept :
      (c : TtlStoreCache store) (k : String) (now : ℕ)
      → IsCoherent c
      → ((fetch store c k now).0 ≡ store.get c.state k) × Kept c.state (fetch store c k now).1
  unfolding fetch remember
  fetch-Kept c k now h = elim (Option-cases (store.get c.state k)) [
    | inl e ↦ rw (e, fetch) (refl, record { state = refl; coherent = h })
    | inr (v, e) ↦
        rw (e, fetch)
          (
            refl,
            record {
              state = refl;
              coherent = remember-IsCoherent c k v now (Agrees-pop c.state c.entries k h) e;
            },
          )
  ]

  pub get-Kept :
      (c : TtlStoreCache store) (k : String) (now later : ℕ)
      → IsCoherent c
      → ((get store c k now later).0 ≡ store.get c.state k)
        × Kept c.state (get store c k now later).1
  unfolding get
  get-Kept c k now later h = go (fresh_entry store c k now) (fresh_entry-Looked c k now h)
    where
      go :
          (r : Option (CacheEntry T) × TtlStoreCache store)
          → Looked c k r
          → ((get_from store r k later).0 ≡ store.get c.state k)
            × Kept c.state (get_from store r k later).1
      go (none, c') looked = rw (← looked.state) (fetch-Kept c' k later looked.coherent)
      go (some entry, c') looked =
          (sym (looked.hit entry refl), record { state = looked.state; coherent = looked.coherent })

  pub exists-Kept :
      (c : TtlStoreCache store) (k : String) (now : ℕ)
      → IsCoherent c
      → ((exists store c k now).0 ≡ store.exists c.state k) × Kept c.state (exists store c k now).1
  unfolding exists
  exists-Kept c k now h = go (fresh_entry store c k now) (fresh_entry-Looked c k now h)
    where
      go :
          (r : Option (CacheEntry T) × TtlStoreCache store)
          → Looked c k r
          → ((exists_from store r k).0 ≡ store.exists c.state k)
            × Kept c.state (exists_from store r k).1
      go (none, c') looked = (
        ap (λ s. store.exists s k) looked.state,
        record { state = looked.state; coherent = looked.coherent },
      )
      go (some entry, c') looked = (
        ground (arith, laws.exists-get c.state k, looked.hit entry refl),
        record { state = looked.state; coherent = looked.coherent },
      )

  pub put-Kept :
      (c : TtlStoreCache store) (k : String) (v : T) (now : ℕ)
      → IsCoherent c
      → Kept (store.put c.state k v) (put store c k v now)
  unfolding put remember
  put-Kept c k v now h = record {
    state = refl;
    coherent =
        remember-IsCoherent (record c { state = store.put c.state k v }) k v now
          (All-pop _ _ c.entries k
            (λ j e other agrees. ground (arith, laws.get-put c.state k j v, eq_iff k j)) h)
          (ground (arith, laws.get-put c.state k k v, eq_iff k k));
  }

  pub delete-Kept :
      (c : TtlStoreCache store) (k : String)
      → IsCoherent c
      → Kept (store.delete c.state k) (delete store c k)
  unfolding delete
  delete-Kept c k h = record {
    state = refl;
    coherent =
        All-pop _ _ c.entries k
          (λ j e other agrees. ground (arith, laws.get-delete c.state k j, eq_iff k j)) h;
  }
