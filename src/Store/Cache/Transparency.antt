-- ===== src/Store/Cache/Transparency.antt =====
-- aws_light/store/cached_store.py: the cache beside the store behind it.
use aws_light.Prelude.{ℕ, ◌≡◌, refl, ap, arith, List, [], ◌∷◌}
use aws_light.Store.{AnyStore, IsStore}
use aws_light.Store.Cache.{TtlStoreCache, created, create, list}
use aws_light.Store.Cache.Calls.{
  Call, get_call, exists_call, put_call, delete_call, list_call, Reply, item, found, done, items,
  step_cached,
}
use aws_light.Store.Cache.Coherence.{IsCoherent, Kept, get-Kept, exists-Kept, put-Kept, delete-Kept}

module _ {T : Type 0} (store : AnyStore T) where
  abbrev pub step_direct : store.State → Call T → Reply T × store.State
  step_direct s (get_call k now later) = (item (store.get s k), s)
  step_direct s (exists_call k now) = (found (store.exists s k), s)
  step_direct s (put_call k v now) = (done, store.put s k v)
  step_direct s (delete_call k) = (done, store.delete s k)
  step_direct s list_call = (items (store.list s), s)

  unfoldable pub replies_cached : TtlStoreCache store → List (Call T) → List (Reply T)
  replies_cached c [] = []
  replies_cached c (call ∷ calls) =
      (step_cached store c call).0 ∷ replies_cached (step_cached store c call).1 calls

  unfoldable pub replies_direct : store.State → List (Call T) → List (Reply T)
  replies_direct s [] = []
  replies_direct s (call ∷ calls) =
      (step_direct s call).0 ∷ replies_direct (step_direct s call).1 calls

module _ {T : Type 0} {store : AnyStore T} (laws : IsStore store) where
  step-Kept :
      (c : TtlStoreCache store) (call : Call T)
      → IsCoherent laws c
      → ((step_cached store c call).0 ≡ (step_direct store c.state call).0)
        × Kept laws (step_direct store c.state call).1 (step_cached store c call).1
  unfolding list
  step-Kept c (get_call k now later) h =
      let (same, kept) = get-Kept laws c k now later h in (ap item same, kept)
  step-Kept c (exists_call k now) h =
      let (same, kept) = exists-Kept laws c k now h in (ap found same, kept)
  step-Kept c (put_call k v now) h = (refl, put-Kept laws c k v now h)
  step-Kept c (delete_call k) h = (refl, delete-Kept laws c k h)
  step-Kept c list_call h = (refl, record { state = refl; coherent = h })

  pub replies-eq :
      (calls : List (Call T)) (c : TtlStoreCache store)
      → IsCoherent laws c
      → replies_cached store c calls ≡ replies_direct store c.state calls
  unfolding replies_cached replies_direct
  replies-eq [] c h = refl
  replies-eq (call ∷ calls) c h =
      let (same, kept) = step-Kept c call h in
      let rest : replies_cached store (step_cached store c call).1 calls
          ≡ replies_direct store (step_direct store c.state call).1 calls =
        rw (← kept.state) (replies-eq calls (step_cached store c call).1 kept.coherent) in
      λ i. same i ∷ rest i

  -- A new cache, whatever its limits and at any readings of the clock, answers every sequence of
  -- get, put, list, delete and exists as the store behind it would, if that store keeps its
  -- contract.
  pub create_transparent :
      (s : store.State) (ttl_seconds max_entries : ℕ) (c : TtlStoreCache store)
      (calls : List (Call T))
      → create store s ttl_seconds max_entries ≡ created c
      → replies_cached store c calls ≡ replies_direct store s calls
  unfolding create
  create_transparent s ttl_seconds max_entries c calls h =
      let start : TtlStoreCache store = record {
        state = s;
        ttl_seconds = ttl_seconds;
        max_entries = max_entries;
        entries = [];
      } in
      let e : c ≡ start = ground arith in rw e (replies-eq calls start tt)
