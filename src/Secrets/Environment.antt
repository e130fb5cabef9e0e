-- ===== src/Secrets/Environment.antt =====
-- aws_light/secrets/secrets_manager.py: a secret comes back as it was stored, and the variables that
-- `inject_into_env` makes of a list of secrets.
use aws_light.Prelude.{
  String, ◌≡◌, refl, ap, Option, none, some, List, [], ◌∷◌, arith, str_eq, if◌then◌else◌,
  Option-cases, inl, inr, ◌∙◌,
}
use aws_light.Prelude.Outcome.{returned}
use aws_light.Dict
use aws_light.Dict.{Dict, get-put}
use aws_light.Store.{AnyStore, IsStore}
use aws_light.Secrets
use aws_light.Secrets.{SecretSpec, Fernet, IsFernet, SecretsManager, InvalidToken, env_key}

-- The value of a variable, by the secrets' values: of the references that give this variable and have
-- a value, the last counts.
abbrev pub last_value : (String → Option String) → List String → String → Option String
last_value values [] key = none
last_value values (name ∷ refs) key = elim (last_value values refs key) [
  | some value ↦ some value
  | none ↦ if str_eq (env_key name) key then values name else none
]

or_else : Option String → Option String → Option String
or_else none other = other
or_else (some value) other = some value

module _ (store : AnyStore SecretSpec) (fernet : Fernet) where
  -- A secret that was created is read back with its value, and the other secrets are read as
  -- before.
  pub get_secret-create_secret :
      (laws : IsStore store) (seal : IsFernet fernet) (m : SecretsManager store fernet)
      (name value other : String)
      → Secrets.get_secret store fernet (Secrets.create_secret store fernet m name value) other ≡ (
          if str_eq name other
          then returned (some value)
          else Secrets.get_secret store fernet m other)
  unfolding Secrets.get_secret Secrets.create_secret Secrets.open_spec Secrets.opened
  get_secret-create_secret laws seal m name value other =
      rw (laws.get-put) (ground (arith, seal.decrypt-encrypt m.random value))

  -- Neither is a deleted secret, while the others stay.
  pub get_secret-delete_secret :
      (laws : IsStore store) (m : SecretsManager store fernet) (name other : String)
      → Secrets.get_secret store fernet (Secrets.delete_secret store fernet m name) other
        ≡ (if str_eq name other then returned none else Secrets.get_secret store fernet m other)
  unfolding Secrets.get_secret Secrets.delete_secret Secrets.open_spec
  get_secret-delete_secret laws m name other = rw (laws.get-delete) (ground arith)

  step :
      (m : SecretsManager store fernet) (values : String → Option String)
      (reads : (name : String) → Secrets.get_secret store fernet m name ≡ returned (values name))
      (refs : List String) (env : Dict String) (name : String) (value : Option String)
      → values name ≡ value
      → Secrets.inject_all store fernet m (name ∷ refs) (returned env)
        ≡ Secrets.inject_all store fernet m refs
            (Secrets.inject store fernet env name (returned value))
  unfolding Secrets.inject_all
  step m values reads refs env name value e =
      ap (λ o. Secrets.inject_all store fernet m refs (Secrets.inject store fernet env name o))
        (reads name ∙ ap (λ v. returned v) e)

  -- the loop, from variables that are there
  inject_all-Injects :
      (m : SecretsManager store fernet) (values : String → Option String)
      (reads : (name : String) → Secrets.get_secret store fernet m name ≡ returned (values name))
      (refs : List String) (env : Dict String)
      → (env' : Dict String) × (Secrets.inject_all store fernet m refs (returned env)
          ≡ returned env')
        × ((key : String)
            → Dict.get env' key ≡ or_else (last_value values refs key) (Dict.get env key))
  unfolding Secrets.inject_all Secrets.inject or_else
  inject_all-Injects m values reads [] env = (env, refl, λ key. refl)
  inject_all-Injects m values reads (name ∷ refs) env = elim (Option-cases (values name)) [
    | inl e ↦
        let rest = inject_all-Injects m values reads refs env in
        (
          rest.0,
          step m values reads refs env name _ e ∙ rest.1,
          λ key. ground (arith, rest.2 key, e),
        )
    | inr (value, e) ↦
        let rest = inject_all-Injects m values reads refs (Dict.put env (env_key name) value) in
        (
          rest.0,
          step m values reads refs env name _ e ∙ rest.1,
          λ key. ground (arith, rest.2 key, e, get-put env (env_key name) key value),
        )
  ]

  -- Where each secret can be read, inject_into_env returns an environment in which a variable has
  -- the value of the last reference that gives this variable and has a value, and holds no other
  -- variable.
  pub inject_into_env-Injects :
      (m : SecretsManager store fernet) (values : String → Option String)
      (reads : (name : String) → Secrets.get_secret store fernet m name ≡ returned (values name))
      (refs : List String)
      → (env : Dict String) × (Secrets.inject_into_env store fernet m refs ≡ returned env)
        × ((key : String) → Dict.get env key ≡ last_value values refs key)
  unfolding Secrets.inject_into_env Dict.get or_else
  inject_into_env-Injects m values reads refs =
      let all = inject_all-Injects m values reads refs [] in
      (all.0, all.1, λ key. ground (arith, all.2 key))
