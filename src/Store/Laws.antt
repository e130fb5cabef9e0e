-- ===== src/Store/Laws.antt =====
-- `AnyStore` of aws_light/store/base.py: what is found after a write.
use aws_light.Prelude.{
  String, ◌≡◌, sym, ◌∙◌, Bool-cases, inl, inr, ◌⊎◌, false, some, arith, str_eq, eq_iff,
}
use mathlib.Core.Option.{some-injective}
use aws_light.Store.{AnyStore, IsStore}

module _ {T : Type 0} (store : AnyStore T) (law : IsStore store) where
  pub get-put_self : (s : store.State) (k : String) (v : T) → store.get (store.put s k v) k ≡ some v
  get-put_self s k v = ground (arith, law.get-put s k k v, eq_iff k k)

  pub get-put_other :
      (s : store.State) (k j : String) (v : T)
      → str_eq k j ≡ false
      → store.get (store.put s k v) j ≡ store.get s j
  get-put_other s k j v e = ground (arith, law.get-put s k j v)

  pub get-put_cases :
      (s : store.State) (k j : String) (v u : T)
      → store.get (store.put s k v) j ≡ some u
      → ((k ≡ j) × (v ≡ u)) ⊎ ((str_eq k j ≡ false) × (store.get s j ≡ some u))
  get-put_cases s k j v u h = elim (Bool-cases (str_eq k j)) [
    | inl e ↦
        let same : k ≡ j = (eq_iff k j).0 e in
        let found : store.get (store.put s k v) j ≡ some v = ground (arith, law.get-put s k j v) in
        inl (same, some-injective _ _ (sym found ∙ h))
    | inr e ↦ inr (e, sym (get-put_other s k j v e) ∙ h)
  ]

  pub get-delete_other :
      (s : store.State) (k j : String)
      → str_eq k j ≡ false
      → store.get (store.delete s k) j ≡ store.get s j
  get-delete_other s k j e = ground (arith, law.get-delete s k j)

  pub get-delete_cases :
      (s : store.State) (k j : String) (u : T)
      → store.get (store.delete s k) j ≡ some u
      → (str_eq k j ≡ false) × (store.get s j ≡ some u)
  get-delete_cases s k j u h = elim (Bool-cases (str_eq k j)) [
    | inl e ↦ ground (arith, law.get-delete s k j)
    | inr e ↦
        let kept : store.get (store.delete s k) j ≡ store.get s j =
          ground (arith, law.get-delete s k j) in
        (e, sym kept ∙ h)
  ]
