-- ===== src/Store.antt =====
-- `AnyStore` of aws_light/store/base.py: what the other components ask of a store of items by name.
-- The methods are awaited one at a time, so each is a function of the state of the store.
pub mod JsonStore
pub mod Cache
pub mod Laws
use aws_light.Prelude.{String, ◌≡◌, Bool, Option, none, some, List, str_eq, if◌then◌else◌}
use aws_light.Dict.{is_some}

pub record AnyStore (T : Type 0) : Type 1 where
  pub State : Type 0
  pub get : State → String → Option T
  pub put : State → String → T → State
  pub list : State → List T
  pub delete : State → String → State
  pub exists : State → String → Bool

-- What the protocol promises: a map from names to items.
pub record IsStore {T : Type 0} (store : AnyStore T) : Type 0 where
  pub get-put :
      (s : store.State) (k j : String) (v : T)
      → store.get (store.put s k v) j ≡ (if str_eq k j then some v else store.get s j)
  pub get-delete :
      (s : store.State) (k j : String)
      → store.get (store.delete s k) j ≡ (if str_eq k j then none else store.get s j)
  pub exists-get : (s : store.State) (k : String) → store.exists s k ≡ is_some (store.get s k)
