-- ===== src/Compute/Orchestrator/Settling.antt =====
-- aws_light/compute/orchestrator.py: the status that the end of a pass gives to a service.
use mathlib.Core.Option.{some-injective}
use mathlib.Core.Path.{subst}
use aws_light.Prelude.{
  ℕ, ◌≡◌, ◌⊎◌, refl, sym, ◌∙◌, ap, Bool, true, false, Option, none, some, List, [], ◌∷◌, Bool-cases,
  inl, inr, arith, length,
}
use aws_light.Prelude.Action.{next}
use aws_light.Prelude.Hoare.{After, Runs}
use aws_light.Models.{ServiceState, ServiceSpec, ReplicaState}
use aws_light.Models.Status.{ResourceStatus, is_status, is_status→eq}
use aws_light.Store.{IsStore}
use aws_light.Store.Laws.{get-put_self}
use aws_light.Proxy.RoutingTable.{Table}
use aws_light.Compute.Orchestrator.World.{Env, put_service, get_service, publish}
use aws_light.Compute.Orchestrator.Replicas.{is_running}
use aws_light.Compute.Orchestrator.Reconcile.{
  nonempty, running_replicas, stale_replicas, observed_status, settle, emit_service_updated,
}
use aws_light.Compute.Orchestrator.Steps.{Both, Found}
use aws_light.Compute.Orchestrator.Routes.{RoutesMirror, put_status-Mirrored}
use aws_light.Compute.Orchestrator.Scaling.{Fits}

-- A replica of the list runs.
pub data SomeRuns : List ReplicaState → Type 0 where
  here :
      {r : ReplicaState} {rs : List ReplicaState}
      → r.status ≡ ResourceStatus.running
      → SomeRuns (r ∷ rs)
  later : {r : ReplicaState} {rs : List ReplicaState} → SomeRuns rs → SomeRuns (r ∷ rs)

-- The status is RUNNING and a replica runs, or it is DEGRADED and none runs.
abbrev pub StatusTells : ResourceStatus → List ReplicaState → Type 0
StatusTells status replicas =
    ((status ≡ ResourceStatus.running) × SomeRuns replicas)
    ⊎ ((status ≡ ResourceStatus.degraded) × (¬ SomeRuns replicas))

absurd_bool : true ≡ false → ⊥
absurd_bool e = cc

none_runs :
    (r : ReplicaState) (rs : List ReplicaState)
    → is_status r.status ResourceStatus.running ≡ false
    → (¬ SomeRuns rs)
    → SomeRuns (r ∷ rs)
    → ⊥
none_runs r rs e others (here running) =
    absurd_bool (sym (ap (λ s. is_status s ResourceStatus.running) running) ∙ e)
none_runs r rs e others (later some_runs) = others some_runs

no_replica : SomeRuns [] → ⊥
no_replica h = elim h [ ]

with_other :
    (r : ReplicaState) (rs : List ReplicaState) (status : ResourceStatus)
    → is_status r.status ResourceStatus.running ≡ false
    → StatusTells status rs
    → StatusTells status (r ∷ rs)
with_other r rs status e (inl (running, some_runs)) = inl (running, later some_runs)
with_other r rs status e (inr (degraded, none_other)) = inr (degraded, none_runs r rs e none_other)

observed_status-StatusTells :
    (replicas : List ReplicaState) → StatusTells (observed_status replicas) replicas
unfolding observed_status running_replicas nonempty is_running
observed_status-StatusTells [] = inr (refl, no_replica)
observed_status-StatusTells (r ∷ rs) =
    elim (Bool-cases (is_status r.status ResourceStatus.running)) [
      | inl e ↦ rw e (inl (refl, here (is_status→eq _ _ e)))
      | inr e ↦ rw e (with_other r rs _ e (observed_status-StatusTells rs))
    ]

-- Also its status says whether any replica runs.
pub record Settled (env : Env) (spec : ServiceSpec) (wanted : ℕ) (s : env.service_store.State)
    (t : Table) : Type 0 where
  pub fits : Fits env spec wanted 0 s t
  pub status : StatusTells fits.state.status fits.state.replicas

module _ (env : Env) (law : IsStore env.service_store) where
  -- what was stored, with the status that the replicas show
  put_status-Settled :
      (spec : ServiceSpec) (wanted : ℕ) (s : env.service_store.State) (t : Table)
      (found : ServiceState)
      → env.service_store.get s spec.name ≡ some found
      → Fits env spec wanted 0 s t
      → Settled env spec wanted
          (env.service_store.put s spec.name
            (record found { status = observed_status found.replicas }))
          t
  put_status-Settled spec wanted s t found stored h =
      let same : h.state ≡ found = some-injective _ _ (sym h.stored ∙ stored) in
      record {
        fits = record {
          mirrored = put_status-Mirrored env law s t spec.name found _ stored h.mirrored;
          state = record found { status = observed_status found.replicas };
          stored = get-put_self env.service_store law s spec.name _;
          same_spec = ap (λ st. st.spec) (sym same) ∙ h.same_spec;
          fresh =
              ap (λ st. stale_replicas spec.image (running_replicas st.replicas)) (sym same)
              ∙ h.fresh;
          few = omega (arith, h.few, ap (λ st. length (running_replicas st.replicas)) same);
        };
        status = observed_status-StatusTells found.replicas;
      }

  same_status-Settled :
      (spec : ServiceSpec) (wanted : ℕ) (s : env.service_store.State) (t : Table)
      (found : ServiceState)
      → env.service_store.get s spec.name ≡ some found
      → is_status found.status (observed_status found.replicas) ≡ true
      → Fits env spec wanted 0 s t
      → Settled env spec wanted s t
  same_status-Settled spec wanted s t found stored e h =
      let same : found ≡ h.state = some-injective _ _ (sym stored ∙ h.stored) in
      record {
        fits = h;
        status =
            subst (λ st. StatusTells st.status st.replicas) same
              (subst (λ status. StatusTells status found.replicas) (sym (is_status→eq _ _ e))
                (observed_status-StatusTells found.replicas));
      }

  pub settle-Runs :
      (spec : ServiceSpec) (wanted : ℕ) (changed : Bool) (found : Option ServiceState)
      → Runs
          (Found env (Fits env spec wanted 0) (Fits env spec wanted 0) spec.name found)
          (settle env spec.name changed found)
          (λ _. Both env (Settled env spec wanted))
          (RoutesMirror env)
  unfolding settle put_service emit_service_updated publish After next
  settle-Runs spec wanted changed none w p = let h = p.0.stored in cc
  settle-Runs spec wanted changed (some found) w p =
      elim (Bool-cases (is_status found.status (observed_status found.replicas))) [
        | inl e ↦
            let kept = same_status-Settled spec wanted w.services w.routing_table found p.1 e p.0 in
            rw e (elim (Bool-cases changed) [ inl c ↦ rw c kept | inr c ↦ rw c kept ])
        | inr e ↦ rw e (put_status-Settled spec wanted w.services w.routing_table found p.1 p.0)
      ]

  pub get_service-Fits :
      (spec : ServiceSpec) (wanted : ℕ)
      → Runs
          (Both env (Fits env spec wanted 0))
          (get_service env spec.name)
          (Found env (Fits env spec wanted 0) (Fits env spec wanted 0) spec.name)
          (RoutesMirror env)
  unfolding get_service After
  get_service-Fits spec wanted w p = (p, refl)
