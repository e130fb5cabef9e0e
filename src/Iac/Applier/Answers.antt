-- ===== src/Iac/Applier/Answers.antt =====
-- aws_light/iac/applier.py: the results that `apply` reports.
use aws_light.Prelude.{String, ◌≡◌, Option, List, [], ◌∷◌, ◌++◌}
use aws_light.Prelude.Outcome.{Outcome}
use aws_light.Prelude.Action.{Action as Coroutine}
use aws_light.Prelude.Hoare.{After}
use aws_light.Dict.{Dict}
use aws_light.Models.{ServiceState, DatabaseState}
use aws_light.Store.{AnyStore}
use aws_light.Secrets.{SecretSpec, Fernet}
use aws_light.Iac.Manifest.{
  AnyManifest, service, secret, secrets, bucket, database, kind, result_name,
}
use aws_light.Iac.Results.{Action, ApplyResult}
use aws_light.Iac.Applier.{Applier}
use aws_light.Iac.Applier.Apply

-- The resources that a manifest is about, in order: one, and for a bundle of secrets one for each.
abbrev secret_subjects : Dict String → List (String × String)
secret_subjects [] = []
secret_subjects ((name, _) ∷ more) = ("Secret", name) ∷ secret_subjects more

abbrev subject : AnyManifest → List (String × String)
subject (secrets m) = secret_subjects m.secrets
subject (service m) = ("Service", m.metadata.name) ∷ []
subject (secret m) = ("Secret", m.metadata.name) ∷ []
subject (bucket m) = ("Bucket", m.metadata.name) ∷ []
subject (database m) = ("Database", m.metadata.name) ∷ []

-- No result is an error, and they are about these resources, in order.
pub data Succeeded : List (String × String) → List ApplyResult → Type 0 where
  nothing : Succeeded [] []
  also :
      {about : String × String} {subjects : List (String × String)} {rs : List ApplyResult}
      (r : ApplyResult)
      → (r.kind, r.name) ≡ about
      → (r.action ≡ Action.error → ⊥)
      → Succeeded subjects rs
      → Succeeded (about ∷ subjects) (r ∷ rs)

-- The results of a manifest: one for each of its resources, or one error, which a bundle of secrets
-- has under the name "bundle".
pub data Told (m : AnyManifest) : List ApplyResult → Type 0 where
  succeeded : {rs : List ApplyResult} → Succeeded (subject m) rs → Told m rs
  failed :
      (text : String)
      → Told m (
          record { kind = kind m; name = result_name m; action = Action.error; detail = text } ∷ [])

pub data AllTold : List AnyManifest → List ApplyResult → Type 0 where
  all : AllTold [] []
  first :
      {m : AnyManifest} {ms : List AnyManifest} {rs ss : List ApplyResult}
      → Told m rs
      → AllTold ms ss
      → AllTold (m ∷ ms) (rs ++ ss)

module _ (service_store : AnyStore ServiceState) (database_store : AnyStore DatabaseState)
    (secret_store : AnyStore SecretSpec) (fernet : Fernet)
    (raises : Applier service_store database_store secret_store fernet
      → Apply.Call
      → Option String) where
  abbrev State : Type 0
  State = Applier service_store database_store secret_store fernet

  -- what holds of the value of a step where it returns
  abbrev Gives : {A : Type 0} → (A → Type 0) → Coroutine State String A → Type 0
  Gives Q step = (a : State) → After (λ x _. Q x) (λ _. Unit) (step a)

  -- a result about a resource that is no error
  abbrev Fine : String → String → ApplyResult → Type 0
  Fine kind name r = Succeeded ((kind, name) ∷ []) (r ∷ [])
