-- ===== src/Iac/Applier/Keeps.antt =====
-- aws_light/iac/applier.py: what `apply` and `destroy` leave in the store of services.
use aws_light.Prelude.{
  String, ◌≡◌, refl, ap, Option, none, some, List, [], ◌∷◌, arith, eq_iff, if◌then◌else◌, ◌||◌,
}
use aws_light.Prelude.Hoare.{After}
use aws_light.Prelude.Outcome.{Outcome, raised, returned}
use aws_light.Dict.{Dict}
use aws_light.Models.{ServiceState, ReplicaState, DatabaseState}
use aws_light.Models.Status.{ResourceStatus}
use aws_light.Store.{AnyStore, IsStore}
use aws_light.Secrets
use aws_light.Secrets.{SecretSpec, Fernet}
use aws_light.Iac.Manifest.{AnyManifest, service, secret, secrets, bucket, database}
use aws_light.Iac.Results.{ApplyResult, Desired, desired_names, service_names, member}
use aws_light.Iac.Applier.{Applier}
use aws_light.Iac.Applier.Apply
use aws_light.Iac.Applier.Destroy
use aws_light.Iac.Applier.Calls.{running_part, Has, apply_kind-Keeps}

module _ (service_store : AnyStore ServiceState) (database_store : AnyStore DatabaseState)
    (secret_store : AnyStore SecretSpec) (fernet : Fernet) (laws : IsStore service_store) where
  abbrev State : Type 0
  State = Applier service_store database_store secret_store fernet

  -- the store of services after `destroy`
  abbrev pub destroyed : State → List AnyManifest → service_store.State
  destroyed a ms =
      (Destroy.destroy service_store database_store secret_store fernet a ms).0.services

  services-destroy_secrets :
      (a : State) (entries : Dict String)
      → (Destroy.destroy_secrets service_store database_store secret_store fernet a
          entries).0.services
        ≡ a.services
  unfolding Destroy.destroy_secrets
  services-destroy_secrets a [] = refl
  services-destroy_secrets a ((name, value) ∷ more) =
      let next =
        if Secrets.exists secret_store fernet a.secrets_manager name
        then record a {
          secrets_manager = Secrets.delete_secret secret_store fernet a.secrets_manager name;
        }
        else a in
      ground (arith, services-destroy_secrets next more)

  get-destroy_one :
      (a : State) (m : AnyManifest) (name : String)
      → service_store.get
          ((Destroy.destroy_one service_store database_store secret_store fernet a m).0.services)
          name
        ≡ (if member name (service_names (m ∷ [])) then none else service_store.get a.services name)
  unfolding Destroy.destroy_one Destroy.untouched Destroy.bucket_destroyed service_names member
  get-destroy_one a (service m) name = ground (
    arith,
    eq_iff name m.metadata.name,
    eq_iff m.metadata.name name,
    laws.get-delete a.services m.metadata.name name,
    laws.exists-get a.services m.metadata.name,
  )
  get-destroy_one a (secret m) name = ground arith
  get-destroy_one a (secrets m) name =
      ap (λ s. service_store.get s name) (services-destroy_secrets a m.secrets)
  get-destroy_one a (bucket m) name = ground arith
  get-destroy_one a (database m) name = ground arith

  member-service_names :
      (m : AnyManifest) (ms : List AnyManifest) (name : String)
      → member name (service_names (m ∷ ms))
        ≡ (member name (service_names (m ∷ [])) || member name (service_names ms))
  unfolding member service_names
  member-service_names (service m) ms name = ground arith
  member-service_names (secret m) ms name = refl
  member-service_names (secrets m) ms name = refl
  member-service_names (bucket m) ms name = refl
  member-service_names (database m) ms name = refl

  -- destroy removes the services that the manifests name and leaves every other as it was.
  pub get-destroy :
      (a : State) (ms : List AnyManifest) (name : String)
      → service_store.get (destroyed a ms) name
        ≡ (if member name (service_names ms) then none else service_store.get a.services name)
  unfolding Destroy.destroy member service_names
  get-destroy a [] name = refl
  get-destroy a (m ∷ ms) name = ground (
    arith,
    member-service_names m ms name,
    get-destroy_one a m name,
    get-destroy ((Destroy.destroy_one service_store database_store secret_store fernet a m).0) ms
        name,
  )

module _ (service_store : AnyStore ServiceState) (database_store : AnyStore DatabaseState)
    (secret_store : AnyStore SecretSpec) (fernet : Fernet)
    (raises : Applier service_store database_store secret_store fernet → Apply.Call → Option String)
    (laws : IsStore service_store) where
  abbrev Applied : Type 0
  Applied = Applier service_store database_store secret_store fernet

  -- the store of services after `apply`
  abbrev pub applied : Applied → List AnyManifest → service_store.State
  applied a ms =
      (Apply.apply service_store database_store secret_store fernet raises a ms).0.services

  caught-Has :
      (name : String) (r : ResourceStatus × List ReplicaState) (m : AnyManifest)
      (done : Outcome String (List ApplyResult) × Applied)
      → After
          (λ _. Has service_store database_store secret_store fernet raises laws name r)
          (Has service_store database_store secret_store fernet raises laws name r)
          done
      → Has service_store database_store secret_store fernet raises laws name r
          ((Apply.caught service_store database_store secret_store fernet raises m done).0)
  unfolding Apply.caught After
  caught-Has name r m (raised text, a) h = h
  caught-Has name r m (returned results, a) h = h

  apply_all-Has :
      (desired : Desired) (ms : List AnyManifest) (name : String)
      (r : ResourceStatus × List ReplicaState) (a : Applied)
      → Has service_store database_store secret_store fernet raises laws name r a
      → Has service_store database_store secret_store fernet raises laws name r
          ((Apply.apply_all service_store database_store secret_store fernet raises a desired ms).0)
  unfolding Apply.apply_all Apply.apply_one
  apply_all-Has desired [] name r a p = p
  apply_all-Has desired (m ∷ ms) name r a p = apply_all-Has desired ms name r _ (
      caught-Has name r m _ (
        apply_kind-Keeps service_store database_store secret_store fernet raises laws name r desired
          m a p))

  -- apply removes no service and leaves the status and the replicas of each as they were,
  -- whichever calls raise, if a call that raises changes nothing itself.
  pub running_part-apply :
      (a : Applied) (ms : List AnyManifest) (name : String) (st : ServiceState)
      → service_store.get a.services name ≡ some st
      → running_part (service_store.get (applied a ms) name) ≡ some (st.status, st.replicas)
  unfolding Apply.apply
  running_part-apply a ms name st found =
      apply_all-Has (desired_names ms) ms name (st.status, st.replicas) a (ap running_part found)
