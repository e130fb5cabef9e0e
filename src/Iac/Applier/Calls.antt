-- ===== src/Iac/Applier/Calls.antt =====
-- aws_light/iac/applier.py: what the calls of `apply` leave of a stored service.
use aws_light.Prelude.{
  Bool, String, ◌≡◌, refl, true, false, str_eq, Bool-cases, Option, none, some, List, [], ◌∷◌,
  arith, eq_iff, inl, inr,
}
use aws_light.Prelude.Hoare.{After, Runs, Keeps, Keeps-then, After-next, After-any, After-map}
use aws_light.Dict.{Dict}
use aws_light.Json.{Json}
use aws_light.Events.{EventKind}
use aws_light.Prelude.Outcome.{Outcome}
use aws_light.Prelude.Action.{◌>>◌, pure}
use aws_light.Models.{ServiceState, ReplicaState, DatabaseState}
use aws_light.Models.Status.{ResourceStatus}
use aws_light.Store.{AnyStore, IsStore}
use aws_light.Secrets.{SecretSpec, Fernet}
use aws_light.Iac.Manifest.{
  AnyManifest, ServiceManifest, BucketManifest, DatabaseManifest, service, secret, secrets, bucket,
  database,
}
use aws_light.Iac.Results.{ApplyResult, Desired}
use aws_light.Iac.Applier.{Applier}
use aws_light.Iac.Applier.Apply

-- What of a service `apply` does not touch: its status and its replicas.
abbrev pub running_part : Option ServiceState → Option (ResourceStatus × List ReplicaState)
running_part none = none
running_part (some st) = some (st.status, st.replicas)

module _ (service_store : AnyStore ServiceState) (database_store : AnyStore DatabaseState)
    (secret_store : AnyStore SecretSpec) (fernet : Fernet)
    (raises : Applier service_store database_store secret_store fernet → Apply.Call → Option String)
    (laws : IsStore service_store) where
  abbrev pub Running : Type 0
  Running = Applier service_store database_store secret_store fernet

  -- the service of a name has this status and these replicas
  abbrev pub Has : String → ResourceStatus × List ReplicaState → Running → Type 0
  Has name r a = running_part (service_store.get a.services name) ≡ some r

  attempted-Keeps :
      (I : Running → Type 0) (before after : Running) (o : Option String)
      → I before
      → I after
      → After
          (λ _. I)
          I
          (Apply.attempted service_store database_store secret_store fernet raises before after o)
  unfolding Apply.attempted After
  attempted-Keeps I before after none p q = q
  attempted-Keeps I before after (some text) p q = p

  attempt-Keeps :
      (I : Running → Type 0) (call : Apply.Call) (change : Running → Running)
      → ((a : Running) → I a → I (change a))
      → Keeps I (Apply.attempt service_store database_store secret_store fernet raises call change)
  unfolding Apply.attempt
  attempt-Keeps I call change h a p = attempted-Keeps I a (change a) _ p (h a p)

  -- what is read is what the state has
  read-Keeps :
      {A : Type 0} (I : Running → Type 0) (name : String) (f : Running → A)
      → Runs I
          (Apply.read service_store database_store secret_store fernet raises name f)
          (λ x a. I a × (f a ≡ x))
          I
  unfolding Apply.read After
  read-Keeps I name f a p =
      After-next (λ _. I) I (λ x b. I b × (f b ≡ x)) _ _
        (attempt-Keeps I (Apply.look_up name) (λ b. b) (λ b q. q) a p) (λ _ b q. (q, refl))

  forget :
      {A : Type 0} (I : Running → Type 0) (Q : A → Running → Type 0)
      (done : Outcome String A × Running)
      → After (λ x a. I a × Q x a) I done
      → After (λ _. I) I done
  forget I Q done h = After-map _ (λ _. I) I I done (λ _ _ q. q.0) (λ _ q. q) h

  module _ (name : String) (r : ResourceStatus × List ReplicaState) where
    put_service-Keeps :
        (put_name : String) (state : ServiceState) (a : Running)
        → Has name r a
        → (str_eq put_name name ≡ true → running_part (some state) ≡ some r)
        → After
            (λ _. Has name r)
            (Has name r)
            (Apply.put_service service_store database_store secret_store fernet raises put_name
              state a)
    unfolding Apply.put_service Apply.attempt
    put_service-Keeps put_name state a p here = attempted-Keeps (Has name r) a _ _ p (
        rw laws.get-put
          (elim (Bool-cases (str_eq put_name name)) [ inl e ↦ rw e (here e) | inr e ↦ rw e p ]))

    apply_service-Keeps :
        (m : ServiceManifest)
        → Keeps
            (Has name r)
            (Apply.apply_service service_store database_store secret_store fernet raises m)
    unfolding Apply.apply_service Apply.apply_service_at
    apply_service-Keeps m a p =
        After-next
          (λ found b. Has name r b × (service_store.get b.services m.metadata.name ≡ found))
          (Has name r) (λ _. Has name r) _ _ (read-Keeps (Has name r) m.metadata.name _ a p)
          (λ found b q.
            elim found
                as (λ found.
                  (service_store.get b.services m.metadata.name ≡ found)
                  → After (λ _. Has name r) (Has name r)
                      (Apply.apply_service_at service_store database_store secret_store fernet
                        raises m found b)) [
                          | none ↦ λ e.
                              After-next (λ _. Has name r) (Has name r) (λ _. Has name r) _ _
                                (put_service-Keeps m.metadata.name _ b q.0 (λ same.
                                  absurd
                                    (ground (arith, q.0, e, eq_iff m.metadata.name name, same))))
                                (λ _ c. After-any (Has name r) _ c)
                          | some st ↦ λ e.
                              After-next (λ _. Has name r) (Has name r) (λ _. Has name r) _ _
                                (put_service-Keeps m.metadata.name _ b q.0 (λ same.
                                  ground (arith, q.0, e, eq_iff m.metadata.name name, same)))
                                (λ _ c. After-any (Has name r) _ c)
                        ]
              (q.1))

    emit-Keeps :
        (kind : EventKind) (subject : String) (payload : Dict Json)
        → Keeps (Has name r) (
            Apply.emit service_store database_store secret_store fernet raises kind subject payload)
    unfolding Apply.emit
    emit-Keeps kind subject payload = attempt-Keeps (Has name r) _ _ (λ _ q. q)

    -- an event, and the answer after it
    then_emitted :
        (kind : EventKind) (subject : String) (payload : Dict Json) (answer : ApplyResult)
        → Keeps (Has name r) (
            Apply.emit service_store database_store secret_store fernet raises kind subject payload
            >> pure answer)
    then_emitted kind subject payload answer =
        Keeps-then (Has name r) _ _ (emit-Keeps kind subject payload)
          (λ _ b. After-any (Has name r) _ b)

    secret_at-Keeps :
        (secret_name value : String) (there : Bool)
        → Keeps (Has name r) (
            Apply.apply_secret_at service_store database_store secret_store fernet raises
              secret_name value there)
    unfolding Apply.apply_secret_at Apply.delete_secret Apply.create_secret
    secret_at-Keeps secret_name value true =
        Keeps-then (Has name r) _ _ (attempt-Keeps (Has name r) _ _ (λ _ q. q)) (λ _.
          Keeps-then (Has name r) _ _ (attempt-Keeps (Has name r) _ _ (λ _ q. q))
            (λ _ b. After-any (Has name r) _ b))
    secret_at-Keeps secret_name value false =
        Keeps-then (Has name r) _ _ (attempt-Keeps (Has name r) _ _ (λ _ q. q))
          (λ _. then_emitted _ _ _ _)

    secret_calls-Keeps :
        (secret_name value : String)
        → Keeps (Has name r) (
            Apply.apply_secret service_store database_store secret_store fernet raises secret_name
              value)
    unfolding Apply.apply_secret
    secret_calls-Keeps secret_name value a p =
        After-next (λ _. Has name r) (Has name r) (λ _. Has name r) _ _
          (forget (Has name r) _ _ (read-Keeps (Has name r) secret_name _ a p))
          (secret_at-Keeps secret_name value)

    bucket_at-Keeps :
        (bucket_name : String) (there : Bool)
        → Keeps (Has name r) (
            Apply.apply_bucket_at service_store database_store secret_store fernet raises
              bucket_name there)
    unfolding Apply.apply_bucket_at Apply.create_bucket
    bucket_at-Keeps bucket_name true = λ a p. After-any (Has name r) _ a p
    bucket_at-Keeps bucket_name false =
        Keeps-then (Has name r) _ _ (attempt-Keeps (Has name r) _ _ (λ _ q. q))
          (λ _. then_emitted _ _ _ _)

    bucket_calls-Keeps :
        (m : BucketManifest)
        → Keeps
            (Has name r)
            (Apply.apply_bucket service_store database_store secret_store fernet raises m)
    unfolding Apply.apply_bucket
    bucket_calls-Keeps m a p =
        After-next (λ _. Has name r) (Has name r) (λ _. Has name r) _ _
          (forget (Has name r) _ _ (read-Keeps (Has name r) m.metadata.name _ a p))
          (bucket_at-Keeps m.metadata.name)

    database_at-Keeps :
        (m : DatabaseManifest) (found : Option DatabaseState)
        → Keeps (Has name r) (
            Apply.apply_database_at service_store database_store secret_store fernet raises m found)
    unfolding Apply.apply_database_at Apply.put_database
    database_at-Keeps m none =
        Keeps-then (Has name r) _ _ (attempt-Keeps (Has name r) _ _ (λ _ q. q))
          (λ _ b. After-any (Has name r) _ b)
    database_at-Keeps m (some state) =
        Keeps-then (Has name r) _ _ (attempt-Keeps (Has name r) _ _ (λ _ q. q))
          (λ _ b. After-any (Has name r) _ b)

    database_calls-Keeps :
        (m : DatabaseManifest)
        → Keeps
            (Has name r)
            (Apply.apply_database service_store database_store secret_store fernet raises m)
    unfolding Apply.apply_database
    database_calls-Keeps m a p =
        After-next (λ _. Has name r) (Has name r) (λ _. Has name r) _ _
          (forget (Has name r) _ _ (read-Keeps (Has name r) m.metadata.name _ a p))
          (database_at-Keeps m)

    secrets_calls-Keeps :
        (entries : Dict String)
        → Keeps
            (Has name r)
            (Apply.apply_secrets service_store database_store secret_store fernet raises entries)
    unfolding Apply.apply_secrets
    secrets_calls-Keeps [] a p = After-any (Has name r) _ a p
    secrets_calls-Keeps ((secret_name, value) ∷ more) a p =
        After-next (λ _. Has name r) (Has name r) (λ _. Has name r) _ _
          (secret_calls-Keeps secret_name value a p)
          (λ _.
            Keeps-then (Has name r) _ _ (secrets_calls-Keeps more)
              (λ _ b. After-any (Has name r) _ b))

    answered-Keeps :
        (m : Apply.Step service_store database_store secret_store fernet raises ApplyResult)
        → Keeps (Has name r) m
        → Keeps
            (Has name r)
            (Apply.answered service_store database_store secret_store fernet raises m)
    unfolding Apply.answered
    answered-Keeps m h = Keeps-then (Has name r) m _ h (λ _ b. After-any (Has name r) _ b)

    pub apply_kind-Keeps :
        (desired : Desired) (m : AnyManifest)
        → Keeps
            (Has name r)
            (Apply.apply_kind service_store database_store secret_store fernet raises desired m)
    unfolding Apply.apply_kind Apply.validated
    apply_kind-Keeps desired (service m) =
        Keeps-then (Has name r) _ _
          (Keeps-then (Has name r) _ _ (attempt-Keeps (Has name r) _ _ (λ _ q. q))
            (λ _ b. After-any (Has name r) _ b))
          (λ _. answered-Keeps _ (apply_service-Keeps m))
    apply_kind-Keeps desired (secret m) =
        answered-Keeps _ (secret_calls-Keeps m.metadata.name m.spec.value)
    apply_kind-Keeps desired (secrets m) = secrets_calls-Keeps m.secrets
    apply_kind-Keeps desired (bucket m) = answered-Keeps _ (bucket_calls-Keeps m)
    apply_kind-Keeps desired (database m) = answered-Keeps _ (database_calls-Keeps m)
