-- ===== src/Iac/Applier/Bindings.antt =====
-- aws_light/iac/applier.py: which bindings of a service `_validate_service_bindings` accepts.
use aws_light.Prelude.{String, ◌≡◌, Bool, true, false, List, [], ◌∷◌, ◌||◌, arith, refl, ◌∙◌, ◌&&◌}
use aws_light.Prelude.Outcome.{Outcome, raised, returned, and_then}
use aws_light.Models.{ServiceState, DatabaseState, BucketBinding, DatabaseBinding}
use aws_light.Store.{AnyStore}
use aws_light.Secrets.{SecretSpec, Fernet}
use aws_light.Storage
use aws_light.Iac.Manifest.{ServiceManifest}
use aws_light.Iac.Results.{Desired, member}
use aws_light.Iac.Applier

-- A call that raises nothing.
abbrev pub passes {ℓ ℓ'} : {E : Type ℓ} {A : Type ℓ'} → Outcome E A → Bool
passes (raised _) = false
passes (returned _) = true

passes-and_then {ℓ ℓ'} :
    {E : Type ℓ} {A B : Type ℓ'} (o : Outcome E A) (next : Outcome E B)
    → passes (and_then o (λ _. next)) ≡ (passes o && passes next)
unfolding and_then
passes-and_then (raised _) next = refl
passes-and_then (returned _) next = refl

abbrev all : {A : Type 0} → (A → Bool) → List A → Bool
all p [] = true
all p (x ∷ xs) = p x && all p xs

module _ (service_store : AnyStore ServiceState) (database_store : AnyStore DatabaseState)
    (secret_store : AnyStore SecretSpec) (fernet : Fernet) where
  abbrev State : Type 0
  State = Applier.Applier service_store database_store secret_store fernet

  -- Every bucket, database and caller that the manifest names is in the same batch or there already.
  abbrev pub resolved : State → Desired → ServiceManifest → Bool
  resolved a desired m =
      all (λ b. member b.name desired.buckets || Storage.bucket_exists a.storage b.name)
        m.spec.resources.buckets
      && (all (λ b. member b.name desired.databases || database_store.exists a.databases b.name)
            m.spec.resources.databases
          && all (λ c. member c desired.services || service_store.exists a.services c)
              m.spec.ingress.internal.allow_from)

  passes-check_buckets :
      (a : State) (desired : Desired) (bindings : List BucketBinding)
      → passes (
          Applier.check_buckets service_store database_store secret_store fernet a desired bindings)
        ≡ all
            (λ b. member b.name desired.buckets || Storage.bucket_exists a.storage b.name)
            bindings
  unfolding Applier.check_buckets
  passes-check_buckets a desired [] = refl
  passes-check_buckets a desired (b ∷ bindings) =
      ground (arith, passes-check_buckets a desired bindings)

  passes-check_databases :
      (a : State) (desired : Desired) (bindings : List DatabaseBinding)
      → passes (
          Applier.check_databases service_store database_store secret_store fernet a desired
            bindings)
        ≡ all
            (λ b. member b.name desired.databases || database_store.exists a.databases b.name)
            bindings
  unfolding Applier.check_databases
  passes-check_databases a desired [] = refl
  passes-check_databases a desired (b ∷ bindings) =
      ground (arith, passes-check_databases a desired bindings)

  passes-check_callers :
      (a : State) (desired : Desired) (callers : List String)
      → passes
          (Applier.check_callers service_store database_store secret_store fernet a desired callers)
        ≡ all (λ c. member c desired.services || service_store.exists a.services c) callers
  unfolding Applier.check_callers
  passes-check_callers a desired [] = refl
  passes-check_callers a desired (c ∷ callers) =
      ground (arith, passes-check_callers a desired callers)

  -- The validation of a service raises nothing exactly where each bucket and database it binds and
  -- each caller it allows is in the same batch or exists already.
  pub passes-validate_service_bindings :
      (a : State) (desired : Desired) (m : ServiceManifest)
      → passes (
          Applier.validate_service_bindings service_store database_store secret_store fernet a m
            desired)
        ≡ resolved a desired m
  unfolding Applier.validate_service_bindings
  passes-validate_service_bindings a desired m =
      passes-and_then _ _
      ∙ (rw
          (
            passes-check_buckets a desired m.spec.resources.buckets,
            passes-and_then
                (Applier.check_databases service_store database_store secret_store fernet a desired
                  m.spec.resources.databases)
                (Applier.check_callers service_store database_store secret_store fernet a desired
                  m.spec.ingress.internal.allow_from),
            passes-check_databases a desired m.spec.resources.databases,
            passes-check_callers a desired m.spec.ingress.internal.allow_from,
          )
          refl)
