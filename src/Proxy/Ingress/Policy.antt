-- ===== src/Proxy/Ingress/Policy.antt =====
-- aws_light/proxy/proxy_server.py: whom the ingress policy of a service lets in.
use aws_light.Prelude.{
  String, ◌≡◌, refl, sym, ap, ◌∙◌, true, Option, none, some, List, [], ◌∷◌, eq_iff, if◌then◌else◌,
  arith, Option-cases, inl, inr, ◌⊎◌,
}
use mathlib.Core.Path.{subst}
use aws_light.Prelude.Outcome.{Outcome, raised, returned}
use aws_light.Dict.{is_some}
use aws_light.Text.{strip_prefix, strip_prefix-concat, concat}
use aws_light.Models.{ServiceState}
use aws_light.Store.{AnyStore}
use aws_light.Secrets
use aws_light.Secrets.{SecretSpec, Fernet, SecretsManager, InvalidToken}
use aws_light.Proxy.Ingress
use aws_light.Proxy.Ingress.{
  InternalValue, mapping, normalize_internal, service_token_secret_prefix,
}

-- The token is the value of the token secret of this service, which is there.
abbrev pub Authentic :
    (service_store : AnyStore ServiceState) (secret_store : AnyStore SecretSpec) (fernet : Fernet)
    → service_store.State
    → SecretsManager secret_store fernet
    → String
    → String
    → Type 0
Authentic service_store secret_store fernet services m token source =
    (Secrets.get_secret secret_store fernet m (concat service_token_secret_prefix source)
      ≡ returned (some token))
    × (is_some (service_store.get services source) ≡ true)

module _ (service_store : AnyStore ServiceState) (secret_store : AnyStore SecretSpec)
    (fernet : Fernet) where
  abbrev State : Type 0
  State = Ingress.Gate service_store secret_store fernet

  -- A request without a token is admitted exactly to the services that are there and open to the host.
  pub admission-external :
      (gate : State) (services : service_store.State) (target : String)
      → gate.services ≡ some services
      → Ingress.admission service_store secret_store fernet gate target none ≡ (
          if Ingress.external_of service_store secret_store fernet
            (service_store.get services target)
          then Ingress.Admission.admitted
          else Ingress.Admission.external_ingress_denied)
  unfolding Ingress.admission Ingress.external_ingress_allowed
  admission-external gate services target there = rw there refl

  -- a turn that answers a service
  turn-cases :
      (gate : State) (services : service_store.State) (service_name token : String)
      (stored rest : Outcome InvalidToken (Option String)) (source : String)
      → gate.services ≡ some services
      → Ingress.token_turn service_store secret_store fernet gate token service_name stored rest
        ≡ returned (some source)
      → ((stored ≡ returned (some token))
          × (service_name ≡ source)
          × (is_some (service_store.get services source) ≡ true))
        ⊎ (rest ≡ returned (some source))
  unfolding Ingress.token_turn Ingress.is_token Ingress.known_service
  turn-cases gate services service_name token (raised e) rest source there h = ground arith
  turn-cases gate services service_name token (returned none) rest source there h = inr h
  turn-cases gate services service_name token (returned (some t)) rest source there h =
      ground (arith, eq_iff t token, there)

  -- The first name that the loop answers belongs to a service that is there, whose token secret holds
  -- the token.
  find_source-Authentic :
      (gate : State) (services : service_store.State) (m : SecretsManager secret_store fernet)
      (token : String) (names : List String) (source : String)
      → gate.services ≡ some services
      → Ingress.find_source service_store secret_store fernet gate m token names
        ≡ returned (some source)
      → Authentic service_store secret_store fernet services m token source
  unfolding Ingress.find_source
  find_source-Authentic gate services m token [] source there h = ground arith
  find_source-Authentic gate services m token (name ∷ names) source there h =
      elim (Option-cases (strip_prefix service_token_secret_prefix name)) [
        | inl e ↦ find_source-Authentic gate services m token names source there (ground (arith, e))
        | inr (service_name, e) ↦
            elim (turn-cases gate services service_name token
              (Secrets.get_secret secret_store fernet m name)
              (Ingress.find_source service_store secret_store fernet gate m token names) source
              there (ground (arith, e))) [
                | inl found ↦ (
                  subst (λ n. Secrets.get_secret secret_store fernet m n ≡ returned (some token))
                      (strip_prefix-concat service_token_secret_prefix name service_name e
                        ∙ ap (concat service_token_secret_prefix) (found.1))
                      (found.0),
                  found.2,
                )
                | inr later ↦ find_source-Authentic gate services m token names source there later
              ]
      ]

  admit_source-cases :
      (gate : State) (target : String) (o : Outcome InvalidToken (Option String))
      → Ingress.admit_source service_store secret_store fernet gate target o
        ≡ Ingress.Admission.admitted
      → (source : String) × (o ≡ returned (some source))
        × (Ingress.internal_ingress_allowed service_store secret_store fernet gate target source
            ≡ true)
  unfolding Ingress.admit_source
  admit_source-cases gate target (raised e) h = ground arith
  admit_source-cases gate target (returned none) h = ground arith
  admit_source-cases gate target (returned (some source)) h = (source, refl, ground arith)

  source-found :
      (gate : State) (m : SecretsManager secret_store fernet) (token : String)
      → gate.secrets_manager ≡ some m
      → Ingress.source_service_from_request service_store secret_store fernet gate (some token)
        ≡ Ingress.find_source service_store secret_store fernet gate m token
            (Secrets.list_secret_names secret_store fernet m)
  unfolding Ingress.source_service_from_request
  source-found gate m token manager = rw manager refl

  -- With both stores there, a request with a token is admitted only where the token is the value
  -- of the token secret of a service that is there, and the target lets that service in.
  pub admission-Authentic :
      (gate : State) (services : service_store.State) (m : SecretsManager secret_store fernet)
      (target token : String)
      → gate.services ≡ some services
      → gate.secrets_manager ≡ some m
      → Ingress.admission service_store secret_store fernet gate target (some token)
        ≡ Ingress.Admission.admitted
      → (source : String) × Authentic service_store secret_store fernet services m token source
        × (Ingress.internal_ingress_allowed service_store secret_store fernet gate target source
            ≡ true)
  unfolding Ingress.admission
  admission-Authentic gate services m target token there manager h =
      let found = admit_source-cases gate target _ h in
      (
        found.0,
        find_source-Authentic gate services m token _ (found.0) there
            (sym (source-found gate m token manager) ∙ found.1),
        found.2,
      )
