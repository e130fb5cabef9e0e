-- ===== src/Proxy/Ingress.antt =====
-- Who may call a service: `_external_ingress_allowed`, `_internal_ingress_allowed` and
-- `_source_service_from_request` of aws_light/proxy/proxy_server.py, and the validator
-- `_normalize_internal` of aws_light/models/service.py that reads the policy of a manifest.
pub mod Policy
use aws_light.Prelude.{
  String, Bool, true, false, not, Option, none, some, List, [], ◌∷◌, ◌||◌, str_eq, if◌then◌else◌,
}
use aws_light.Prelude.Outcome.{Outcome, raised, returned}
use aws_light.Dict.{is_some}
use aws_light.Text.{strip_prefix}
use aws_light.Models.{ServiceState, InternalIngressPolicy}
use aws_light.Store.{AnyStore}
use aws_light.Secrets
use aws_light.Secrets.{SecretSpec, Fernet, SecretsManager, InvalidToken}
use aws_light.Iac.Results.{member}

-- The value of `internal` in a manifest: a Boolean, or a mapping with or without the keys `enabled`
-- and `allowFrom` (or `allow_from`).
pub data InternalValue : Type 0 where
  boolean : Bool → InternalValue
  mapping : Option Bool → Option (List String) → InternalValue

-- `normalized.setdefault("enabled", True)` where one of the two keys is there
unfoldable pub normalized_enabled : Option Bool → Option (List String) → Option Bool
normalized_enabled (some enabled) allow_from = some enabled
normalized_enabled none none = none
normalized_enabled none (some _) = some true

abbrev enabled_of : Option Bool → Bool
enabled_of none = false
enabled_of (some enabled) = enabled

abbrev callers_of : Option (List String) → List String
callers_of none = []
callers_of (some allow_from) = allow_from

-- `_normalize_internal`, and the policy with the defaults of its fields
unfoldable pub normalize_internal : InternalValue → InternalIngressPolicy
unfolding normalized_enabled
normalize_internal (boolean value) = record { enabled = value; allow_from = [] }
normalize_internal (mapping enabled allow_from) = record {
  enabled = enabled_of (normalized_enabled enabled allow_from);
  allow_from = callers_of allow_from;
}

abbrev pub service_token_secret_prefix : String
service_token_secret_prefix = "aws-light-service-token-"

module _ (service_store : AnyStore ServiceState) (secret_store : AnyStore SecretSpec)
    (fernet : Fernet) where
  -- the parts of `ProxyServer` that decide: either may be missing
  pub record Gate : Type 0 where
    pub services : Option service_store.State
    pub secrets_manager : Option (SecretsManager secret_store fernet)

  unfoldable pub external_of : Option ServiceState → Bool
  external_of none = false
  external_of (some service_state) = service_state.spec.ingress.external

  unfoldable pub external_ingress_allowed : Gate → String → Bool
  unfolding external_of
  external_ingress_allowed gate service_name = elim gate.services [
    | none ↦ true
    | some services ↦ external_of (service_store.get services service_name)
  ]

  unfoldable pub internal_of : Option ServiceState → String → Bool
  internal_of none source_service = false
  internal_of (some service_state) source_service =
      let policy = service_state.spec.ingress.internal in
      policy.enabled || member source_service policy.allow_from

  unfoldable pub internal_ingress_allowed : Gate → String → String → Bool
  unfolding internal_of
  internal_ingress_allowed gate service_name source_service = elim gate.services [
    | none ↦ true
    | some services ↦ internal_of (service_store.get services service_name) source_service
  ]

  -- the answer at the first secret whose value is the token
  unfoldable pub known_service : Option service_store.State → String → Option String
  known_service none service_name = some service_name
  known_service (some services) service_name =
      if is_some (service_store.get services service_name) then some service_name else none

  unfoldable pub is_token : String → Option String → Bool
  is_token token none = false
  is_token token (some stored_token) = str_eq stored_token token

  -- one turn of the loop: `rest` is what the later turns answer
  unfoldable pub token_turn :
      Gate
      → String
      → String
      → Outcome InvalidToken (Option String)
      → Outcome InvalidToken (Option String)
      → Outcome InvalidToken (Option String)
  unfolding is_token known_service
  token_turn gate token service_name (raised e) rest = raised e
  token_turn gate token service_name (returned stored_token) rest =
      if is_token token stored_token
      then returned (known_service gate.services service_name)
      else rest

  -- the loop over the names of the secrets
  unfoldable pub find_source :
      Gate
      → SecretsManager secret_store fernet
      → String
      → List String
      → Outcome InvalidToken (Option String)
  unfolding token_turn
  find_source gate secrets_manager token [] = returned none
  find_source gate secrets_manager token (secret_name ∷ secret_names) =
      let rest = find_source gate secrets_manager token secret_names in
      elim (strip_prefix service_token_secret_prefix secret_name) [
        | none ↦ rest
        | some service_name ↦
            token_turn gate token service_name
              (Secrets.get_secret secret_store fernet secrets_manager secret_name) rest
      ]

  -- from the decoded value of the token header
  unfoldable pub source_service_from_request :
      Gate → Option String → Outcome InvalidToken (Option String)
  unfolding find_source
  source_service_from_request gate none = returned none
  source_service_from_request gate (some token) = elim gate.secrets_manager [
    | none ↦ returned none
    | some secrets_manager ↦
        find_source gate secrets_manager token
          (Secrets.list_secret_names secret_store fernet secrets_manager)
  ]

  -- How `_proxy_request` goes on after the name of the service is known.
  pub data Admission : Type 0 where
    admitted internal_ingress_denied external_ingress_denied failed : Admission

  unfoldable pub admit_source : Gate → String → Outcome InvalidToken (Option String) → Admission
  unfolding internal_ingress_allowed
  admit_source gate service_name (raised e) = failed
  admit_source gate service_name (returned none) = internal_ingress_denied
  admit_source gate service_name (returned (some source_service)) =
      if internal_ingress_allowed gate service_name source_service
      then admitted
      else internal_ingress_denied

  unfoldable pub admission : Gate → String → Option String → Admission
  unfolding admit_source external_ingress_allowed
  admission gate service_name (some token) =
      admit_source gate service_name (source_service_from_request gate (some token))
  admission gate service_name none =
      if external_ingress_allowed gate service_name then admitted else external_ingress_denied
