-- ===== src/Secrets.antt =====
-- `SecretsManager` of aws_light/secrets/secrets_manager.py over any store of secrets. Fernet is a
-- parameter: `encrypt` also moves the source of its random bytes, and `decrypt` may raise.
pub mod Environment
use aws_light.Prelude.{String, ◌≡◌, Bool, Option, none, some, List, [], ◌∷◌, map}
use aws_light.Prelude.Outcome.{Outcome, raised, returned}
use aws_light.Dict
use aws_light.Dict.{Dict}
use aws_light.Text.{upper, underscored}
use aws_light.Store.{AnyStore}

pub record SecretSpec : Type 0 where
  pub name : String
  pub value : String

pub data InvalidToken : Type 0 where
  invalid_token : InvalidToken

pub record Fernet : Type 1 where
  pub Random : Type 0
  pub encrypt : Random → String → Random × String
  pub decrypt : String → Outcome InvalidToken String

-- What `cryptography` promises of one key.
pub record IsFernet (fernet : Fernet) : Type 0 where
  pub decrypt-encrypt :
      (r : fernet.Random) (value : String)
      → fernet.decrypt ((fernet.encrypt r value).1) ≡ returned value

-- `secret_name.upper().replace("-", "_")`
unfoldable pub env_key : String → String
env_key secret_name = underscored (upper secret_name)

module _ (store : AnyStore SecretSpec) (fernet : Fernet) where
  pub record SecretsManager : Type 0 where
    pub secret_store : store.State
    pub random : fernet.Random

  unfoldable pub create_secret : SecretsManager → String → String → SecretsManager
  create_secret m name value =
      let sealed = fernet.encrypt m.random value in
      record {
        secret_store = store.put m.secret_store name (record { name = name; value = sealed.1 });
        random = sealed.0;
      }

  unfoldable pub opened : Outcome InvalidToken String → Outcome InvalidToken (Option String)
  opened (raised e) = raised e
  opened (returned value) = returned (some value)

  unfoldable pub open_spec : Option SecretSpec → Outcome InvalidToken (Option String)
  unfolding opened
  open_spec none = returned none
  open_spec (some secret_spec) = opened (fernet.decrypt secret_spec.value)

  unfoldable pub get_secret : SecretsManager → String → Outcome InvalidToken (Option String)
  get_secret m name = open_spec (store.get m.secret_store name)

  unfoldable pub delete_secret : SecretsManager → String → SecretsManager
  delete_secret m name = record m { secret_store = store.delete m.secret_store name }

  unfoldable pub list_secret_names : SecretsManager → List String
  list_secret_names m = map (λ secret. secret.name) (store.list m.secret_store)

  unfoldable pub exists : SecretsManager → String → Bool
  exists m name = store.exists m.secret_store name

  -- the body of the loop of `inject_into_env`, after the call of `get_secret`
  unfoldable pub inject :
      Dict String
      → String
      → Outcome InvalidToken (Option String)
      → Outcome InvalidToken (Dict String)
  inject env_vars secret_name (raised e) = raised e
  inject env_vars secret_name (returned none) = returned env_vars
  inject env_vars secret_name (returned (some value)) =
      returned (Dict.put env_vars (env_key secret_name) value)

  -- the loop, from the variables so far; an exception ends it
  unfoldable pub inject_all :
      SecretsManager
      → List String
      → Outcome InvalidToken (Dict String)
      → Outcome InvalidToken (Dict String)
  inject_all m secret_refs (raised e) = raised e
  inject_all m [] (returned env_vars) = returned env_vars
  inject_all m (secret_name ∷ secret_refs) (returned env_vars) =
      inject_all m secret_refs (inject env_vars secret_name (get_secret m secret_name))

  unfoldable pub inject_into_env : SecretsManager → List String → Outcome InvalidToken (Dict String)
  inject_into_env m secret_refs = inject_all m secret_refs (returned [])
