-- ===== src/Compute/Orchestrator/Routes.antt =====
-- aws_light/compute/orchestrator.py: the routing table shows the replicas that the store has.
use aws_light.Prelude.{
  ℕ, String, ◌≡◌, ◌≢◌, refl, sym, ◌∙◌, ap, Bool, true, false, some, List, [], ◌∷◌, map, str_eq,
  eq_iff, if◌then◌else◌, Bool-cases, inl, inr,
}
use mathlib.Core.Path.{subst}
use aws_light.Dict.{Dict, get-put, get-pop}
use aws_light.Prelude.Hoare.{Keeps}
use aws_light.Models.{ServiceState, ServiceSpec, ReplicaState}
use aws_light.Store.{IsStore}
use aws_light.Models.Status.{ResourceStatus, is_status, is_status→eq}
use aws_light.Store.Laws.{get-put_cases, get-delete_cases}
use aws_light.Proxy.RoutingTable.{
  ReplicaEndpoint, Table, get_endpoints, existing_health, carry_health, update_service,
  remove_service,
}
use aws_light.Compute.Orchestrator.World.{Env, World}
use aws_light.Compute.Orchestrator.Replicas.{endpoints_of, is_running, remove_replica}
use aws_light.Compute.Orchestrator.Placement.{create_replica}
use aws_light.Compute.Orchestrator.Steps.{remove_replica-Runs, create_replica-Runs, Both}

-- the replica and the address of an endpoint, without its health
abbrev pub Address : Type 0
Address = String × String × ℕ

abbrev pub address : ReplicaEndpoint → Address
address e = (e.replica_id, e.host, e.port)

abbrev pub addresses : List ReplicaEndpoint → List Address
addresses = map address

addresses-carry :
    (known : Dict Bool) (endpoints : List ReplicaEndpoint)
    → addresses (map (carry_health known) endpoints) ≡ addresses endpoints
unfolding carry_health
addresses-carry known [] = refl
addresses-carry known (e ∷ endpoints) = ap (λ l. address e ∷ l) (addresses-carry known endpoints)

-- the addresses after an update: those given, at the service; elsewhere as before
pub addresses-update_service :
    (table : Table) (name other : String) (endpoints : List ReplicaEndpoint)
    → addresses (get_endpoints (update_service table name endpoints) other)
      ≡ (if str_eq name other then addresses endpoints else addresses (get_endpoints table other))
unfolding update_service get_endpoints
addresses-update_service table name other endpoints =
    let known = existing_health (get_endpoints table name) in
    rw (get-put table name other (map (carry_health known) endpoints))
      (elim (Bool-cases (str_eq name other)) [
        | inl e ↦ rw (e, addresses-carry known endpoints) refl
        | inr e ↦ rw e refl
      ])

addresses-remove_service :
    (table : Table) (name other : String)
    → str_eq name other ≡ false
    → get_endpoints (remove_service table name) other ≡ get_endpoints table other
unfolding remove_service get_endpoints
addresses-remove_service table name other e = rw (get-pop table name other, e) refl

-- The replica runs and has an address.
abbrev pub Reachable : ReplicaState → Type 0
Reachable r = (r.status ≡ ResourceStatus.running) × (r.container_ip ≢ "")

-- The addresses are those of the replicas that run and have one, in order, at a port.
pub data Shows (port : ℕ) : List ReplicaState → List Address → Type 0 where
  nothing : Shows port [] []
  shown :
      {r : ReplicaState} {rs : List ReplicaState} {seen : List Address}
      → Reachable r
      → Shows port rs seen
      → Shows port (r ∷ rs) ((r.replica_id, r.container_ip, port) ∷ seen)
  hidden :
      {r : ReplicaState} {rs : List ReplicaState} {seen : List Address}
      → ¬ Reachable r
      → Shows port rs seen
      → Shows port (r ∷ rs) seen

absurd_bool : true ≡ false → ⊥
absurd_bool e = cc

nonempty_ip : (r : ReplicaState) → r.container_ip ≡ "" → str_eq r.container_ip "" ≡ false → ⊥
nonempty_ip r empty there = absurd_bool (sym ((eq_iff r.container_ip "").1 empty) ∙ there)

not_running :
    (r : ReplicaState)
    → is_status r.status ResourceStatus.running ≡ false
    → r.status ≡ ResourceStatus.running
    → ⊥
not_running r e running =
    absurd_bool (sym (ap (λ s. is_status s ResourceStatus.running) running) ∙ e)

pub endpoints_of-Shows :
    (spec : ServiceSpec) (replicas : List ReplicaState)
    → Shows spec.port replicas (addresses (endpoints_of spec replicas))
unfolding endpoints_of is_running
endpoints_of-Shows spec [] = nothing
endpoints_of-Shows spec (r ∷ rs) =
    let rest = endpoints_of-Shows spec rs in
    elim (Bool-cases (is_status r.status ResourceStatus.running)) [
      | inl e ↦ elim (Bool-cases (str_eq r.container_ip "")) [
        | inl empty ↦
            rw (e, empty)
              (hidden (λ reachable. reachable.1 ((eq_iff r.container_ip "").0 empty)) rest)
        | inr there ↦
            rw (e, there) (shown (is_status→eq _ _ e, λ empty. nonempty_ip r empty there) rest)
      ]
      | inr e ↦ rw e (hidden (λ reachable. not_running r e reachable.0) rest)
    ]

-- routes that are computed from what is stored
pub routed_here :
    {seen : List Address} (stored : ServiceState)
    → seen ≡ addresses (endpoints_of stored.spec stored.replicas)
    → Shows stored.spec.port stored.replicas seen
routed_here stored e =
    subst (Shows stored.spec.port stored.replicas) (sym e)
      (endpoints_of-Shows stored.spec stored.replicas)

module _ (env : Env) where
  -- Each service is stored under its name, and its routes are the addresses of its running replicas.
  pub record Mirrored (s : env.service_store.State) (t : Table) : Type 0 where
    pub keyed :
        (name : String) (state : ServiceState)
        → env.service_store.get s name ≡ some state
        → state.spec.name ≡ name
    pub routed :
        (name : String) (state : ServiceState)
        → env.service_store.get s name ≡ some state
        → Shows state.spec.port state.replicas (addresses (get_endpoints t name))

  abbrev pub RoutesMirror : World env → Type 0
  RoutesMirror = Both env Mirrored

module _ (env : Env) (law : IsStore env.service_store) where
  -- a state that is put under its name, with its routes
  pub put-Mirrored :
      (s : env.service_store.State) (t : Table) (name : String) (state : ServiceState)
      → state.spec.name ≡ name
      → Mirrored env s t
      → Mirrored env
          (env.service_store.put s name state)
          (update_service t state.spec.name (endpoints_of state.spec state.replicas))
  put-Mirrored s t name state named h = record {
    keyed = λ other stored found.
        elim (get-put_cases env.service_store law s name other state stored found) [
          | inl (at_name, same) ↦ rw (← same) (named ∙ at_name)
          | inr (e, before) ↦ h.keyed other stored before
        ];
    routed = λ other stored found.
        let routes =
          addresses-update_service t state.spec.name other
            (endpoints_of state.spec state.replicas) in
        elim (get-put_cases env.service_store law s name other state stored found) [
          | inl (at_name, same) ↦
              let here : str_eq state.spec.name other ≡ true =
                (eq_iff state.spec.name other).1 (named ∙ at_name) in
              routed_here stored
                (routes ∙ rw here (ap (λ st. addresses (endpoints_of st.spec st.replicas)) same))
          | inr (e, before) ↦
              let there : str_eq state.spec.name other ≡ false =
                subst (λ n. str_eq n other ≡ false) (sym named) e in
              subst (Shows stored.spec.port stored.replicas) (sym (routes ∙ rw there refl))
                (h.routed other stored before)
        ];
  }

  -- the same replicas with another status
  pub put_status-Mirrored :
      (s : env.service_store.State) (t : Table) (name : String) (state : ServiceState)
      (status : ResourceStatus)
      → env.service_store.get s name ≡ some state
      → Mirrored env s t
      → Mirrored env (env.service_store.put s name (record state { status = status })) t
  put_status-Mirrored s t name state status found h =
      let next_state = record state { status = status } in
      record {
        keyed = λ other stored found'.
            elim (get-put_cases env.service_store law s name other next_state stored found') [
              | inl (at_name, same) ↦ rw (← same) (h.keyed name state found ∙ at_name)
              | inr (e, before) ↦ h.keyed other stored before
            ];
        routed = λ other stored found'.
            elim (get-put_cases env.service_store law s name other next_state stored found') [
              | inl (at_name, same) ↦ rw (← same, ← at_name) (h.routed name state found)
              | inr (e, before) ↦ h.routed other stored before
            ];
      }

  pub delete-Mirrored :
      (s : env.service_store.State) (t : Table) (name : String)
      → Mirrored env s t
      → Mirrored env (env.service_store.delete s name) (remove_service t name)
  delete-Mirrored s t name h = record {
    keyed = λ other stored found.
        h.keyed other stored (get-delete_cases env.service_store law s name other stored found).1;
    routed = λ other stored found.
        let kept = get-delete_cases env.service_store law s name other stored found in
        subst (λ l. Shows stored.spec.port stored.replicas (addresses l))
          (sym (addresses-remove_service t name other kept.0)) (h.routed other stored kept.1);
  }

  pub remove_replica-Mirrored :
      (service_state : ServiceState) (replica : ReplicaState)
      → Keeps (RoutesMirror env) (remove_replica env service_state replica)
  remove_replica-Mirrored service_state replica =
      remove_replica-Runs env (Mirrored env) (Mirrored env) service_state replica
        (λ s t current found h. put-Mirrored s t _ _ (h.keyed _ current found) h) (λ s t found h. h)

  pub create_replica-Mirrored :
      (service_state : ServiceState) → Keeps (RoutesMirror env) (create_replica env service_state)
  create_replica-Mirrored service_state =
      create_replica-Runs env (Mirrored env) (Mirrored env) service_state
        (λ replica_id node_id container s t current found h.
          put-Mirrored s t _ _ (h.keyed _ current found) h)
        (λ s t h. h)
