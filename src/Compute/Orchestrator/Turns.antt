-- ===== src/Compute/Orchestrator/Turns.antt =====
-- aws_light/compute/orchestrator.py: what the turn of one service keeps of the others.
use aws_light.Prelude.{
  String, ◌≡◌, refl, Bool, true, false, Option, none, some, List, Bool-cases, inl, inr,
  Option-cases, length,
}
use aws_light.Prelude.Int.{ℤ, pos, ltb_ℤ}
use aws_light.Prelude.Action.{next}
use aws_light.Prelude.Hoare.{After, Runs, Keeps, After-next, After-any, each-Keeps, times-Runs}
use aws_light.Models.{ServiceState, ReplicaState}
use aws_light.Models.Status.{ResourceStatus, is_status}
use aws_light.Proxy.RoutingTable.{Table, update_service, remove_service}
use aws_light.Compute.Orchestrator.World.{Env, World, put_service, get_service, publish}
use aws_light.Compute.Orchestrator.Replicas.{endpoints_of, remove_replica}
use aws_light.Compute.Orchestrator.Placement.{create_replica}
use aws_light.Compute.Orchestrator.Reconcile.{
  observed_status, scale, settle, read_again, emit_service_updated,
}
use aws_light.Compute.Orchestrator.Steps.{Both, remove_replica-Runs, create_replica-Runs}

-- What every write of the turn of a service keeps.
pub record Closed (env : Env) (name : String) (P : env.service_store.State → Table → Type 0)
    : Type 0 where
  pub keyed :
      (s : env.service_store.State) (t : Table) (state : ServiceState)
      → P s t
      → env.service_store.get s name ≡ some state
      → state.spec.name ≡ name
  pub put :
      (s : env.service_store.State) (t : Table) (state : ServiceState)
      → state.spec.name ≡ name
      → P s t
      → P
          (env.service_store.put s name state)
          (update_service t state.spec.name (endpoints_of state.spec state.replicas))
  pub status :
      (s : env.service_store.State) (t : Table) (state : ServiceState) (status : ResourceStatus)
      → env.service_store.get s name ≡ some state
      → P s t
      → P (env.service_store.put s name (record state { status = status })) t
  pub sync :
      (s : env.service_store.State) (t : Table) (state : ServiceState)
      → state.spec.name ≡ name
      → env.service_store.get s name ≡ some state
      → P s t
      → P s (update_service t state.spec.name (endpoints_of state.spec state.replicas))
  pub forget :
      (s : env.service_store.State) (t : Table)
      → P s t
      → P (env.service_store.delete s name) (remove_service t name)

module _ (env : Env) (P : env.service_store.State → Table → Type 0) where
  abbrev Kept : World env → Type 0
  Kept = Both env P

  pub remove-Kept :
      (state : ServiceState) (replica : ReplicaState)
      → Closed env state.spec.name P
      → Keeps Kept (remove_replica env state replica)
  remove-Kept state replica c =
      remove_replica-Runs env P P state replica
        (λ s t current found p. c.put s t _ (c.keyed s t current p found) p) (λ s t found p. p)

  create-Kept :
      (state : ServiceState) → Closed env state.spec.name P → Keeps Kept (create_replica env state)
  create-Kept state c =
      create_replica-Runs env P P state
        (λ replica_id node_id container s t current found p.
          c.put s t _ (c.keyed s t current p found) p)
        (λ s t p. p)

  pub read_again-Kept :
      (b : Bool) (name : String) (state : ServiceState)
      → Closed env name P
      → state.spec.name ≡ name
      → Runs Kept
          (read_again env b name state)
          (λ current w. Kept w × (current.spec.name ≡ name))
          Kept
  unfolding read_again After
  read_again-Kept false name state c named w p = (p, named)
  read_again-Kept true name state c named w p =
      elim (Option-cases (env.service_store.get w.services name)) [
        | inl e ↦ rw e (p, named)
        | inr (found, e) ↦ rw e (p, c.keyed w.services w.routing_table found p e)
      ]

  pub settle-Kept :
      (name : String) (changed : Bool) (found : Option ServiceState)
      → Closed env name P
      → Runs
          (λ w. Kept w × (env.service_store.get w.services name ≡ found))
          (settle env name changed found)
          (λ _. Kept)
          Kept
  unfolding settle put_service emit_service_updated publish After next
  settle-Kept name changed none c w p = p.0
  settle-Kept name changed (some found) c w p =
      elim (Bool-cases (is_status found.status (observed_status found.replicas))) [
        | inl e ↦ rw e (elim (Bool-cases changed) [ inl h ↦ rw h p.0 | inr h ↦ rw h p.0 ])
        | inr e ↦ rw e (c.status w.services w.routing_table found _ p.1 p.0)
      ]

  pub scale-Kept :
      (current : ServiceState) (wanted : ℤ) (running : List ReplicaState)
      → Closed env current.spec.name P
      → Keeps Kept (scale env current wanted running)
  unfolding scale
  scale-Kept current wanted running c w p =
      elim (Bool-cases (ltb_ℤ (pos (length running)) wanted)) [
        | inl e ↦ rw e (
            After-next (λ _. Kept) Kept (λ _. Kept) _ _
              (times-Runs Kept (λ _. Kept) _ (λ _. create-Kept current c) _ w p)
              (λ _ w'. After-any Kept _ w'))
        | inr e ↦ rw e (elim (Bool-cases (ltb_ℤ wanted (pos (length running)))) [
          | inl f ↦ rw f (
              After-next (λ _. Kept) Kept (λ _. Kept) _ _
                (each-Keeps Kept _ (λ r. remove-Kept current r c) _ w p)
                (λ _ w'. After-any Kept _ w'))
          | inr f ↦ rw f (After-any Kept _ w p)
        ])
      ]

  pub get_service-Kept :
      (name : String)
      → Runs Kept
          (get_service env name)
          (λ found w. Kept w × (env.service_store.get w.services name ≡ found))
          Kept
  unfolding get_service After
  get_service-Kept name w p = (p, refl)
