-- ===== src/Compute/Orchestrator/Scaling.antt =====
-- aws_light/compute/orchestrator.py: how the number of running replicas of a service is brought to the wanted one.
use mathlib.Core.Option.{some-injective}
use aws_light.Prelude.{
  ℕ, suc, ◌+◌, ◌≤◌, String, ◌≡◌, refl, sym, ◌∙◌, ap, true, some, List, [], ◌∷◌, ◌++◌, Bool-cases,
  inl, inr, arith, length, drop,
}
use aws_light.Prelude.Int.{pos, ltb_ℤ, ◌-ℤ◌}
use aws_light.Prelude.Action.{each, times}
use aws_light.Prelude.Hoare.{After, Runs, After-next, After-map, times-Runs}
use aws_light.Models.{ServiceState, ServiceSpec, ReplicaState}
use aws_light.Store.{IsStore}
use aws_light.Store.Laws.{get-put_self}
use aws_light.Proxy.RoutingTable.{Table, update_service}
use aws_light.Compute.Orchestrator.World.{Env}
use aws_light.Compute.Orchestrator.Replicas.{without, remove_replica, is_running, endpoints_of}
use aws_light.Compute.Orchestrator.Placement.{create_replica, new_replica}
use aws_light.Compute.Orchestrator.Reconcile.{
  running_replicas, stale_replicas, slice_from, turns, scale,
}
use aws_light.Compute.Orchestrator.Steps.{Both, remove_replica-Runs, create_replica-Runs}
use aws_light.Compute.Orchestrator.Routes.{Mirrored, RoutesMirror, put-Mirrored}
use aws_light.Compute.Orchestrator.Refresh.{Have}
use aws_light.Compute.Orchestrator.Counting.{
  without_all, running-without_all, stale-without_all, without_all-nil, length-without_all-drop,
  fresh-append, length-running_append,
}

abbrev pub leaving : List ReplicaState → ServiceState → ServiceState
leaving xs state = record state { replicas = without_all xs state.replicas }

abbrev leaving_one : String → ServiceState → ServiceState
leaving_one id state = record state { replicas = without id state.replicas }

-- The service is stored with this specification, no running replica has another known image, and the
-- running replicas and `left` more are at most the wanted number.
pub record Fits (env : Env) (spec : ServiceSpec) (wanted left : ℕ) (s : env.service_store.State)
    (t : Table) : Type 0 where
  pub mirrored : Mirrored env s t
  pub state : ServiceState
  pub stored : env.service_store.get s spec.name ≡ some state
  pub same_spec : state.spec ≡ spec
  pub fresh : stale_replicas spec.image (running_replicas state.replicas) ≡ []
  pub few : length (running_replicas state.replicas) + left ≤ wanted

module _ (env : Env) (law : IsStore env.service_store) where
  pub remove_all-Runs :
      (service_state : ServiceState) (xs : List ReplicaState) (state : ServiceState)
      → Runs
          (Both env (Have env service_state.spec.name state))
          (each (remove_replica env service_state) xs)
          (λ _. Both env (Have env service_state.spec.name (leaving xs state)))
          (RoutesMirror env)
  unfolding each After without_all
  remove_all-Runs service_state [] state w p = p
  remove_all-Runs service_state (x ∷ xs) state w p =
      let name = service_state.spec.name in
      let less = record state { replicas = without x.replica_id state.replicas } in
      After-next (λ _. Both env (Have env name less)) (RoutesMirror env)
        (λ _. Both env (Have env name (leaving xs less))) _ _
        (After-map (λ _. Both env (Have env name less)) (λ _. Both env (Have env name less))
          (Both env (Have env name state)) (RoutesMirror env) _ (λ _ _ h. h) (λ _ h. h.0)
          (remove_replica-Runs env (Have env name state) (Have env name less) service_state x
            (λ s t current found h.
              let same : current ≡ state = some-injective _ _ (sym found ∙ h.1) in
              (
                put-Mirrored env law s t name _ (h.0.keyed name current found) h.0,
                get-put_self env.service_store law s name (leaving_one x.replica_id current)
                    ∙ ap (λ st. some (leaving_one x.replica_id st)) same,
              ))
            (λ s t found h. cc) w p))
        (λ _. remove_all-Runs service_state xs less)

  append-Fits :
      (current : ServiceState) (wanted left : ℕ) (s : env.service_store.State) (t : Table)
      (replica : ReplicaState) (stored : ServiceState)
      → is_running replica ≡ true
      → replica.image ≡ current.spec.image
      → env.service_store.get s current.spec.name ≡ some stored
      → Fits env current.spec wanted (suc left) s t
      → Fits env current.spec wanted left
          (env.service_store.put s current.spec.name
            (record stored { replicas = stored.replicas ++ replica ∷ [] }))
          (update_service t stored.spec.name
            (endpoints_of stored.spec (stored.replicas ++ replica ∷ [])))
  append-Fits current wanted left s t replica stored up image found h =
      let same : h.state ≡ stored = some-injective _ _ (sym h.stored ∙ found) in
      let fresh : stale_replicas current.spec.image (running_replicas stored.replicas) ≡ [] =
        ap (λ st. stale_replicas current.spec.image (running_replicas st.replicas)) (sym same)
        ∙ h.fresh in
      let count : length (running_replicas h.state.replicas)
          ≡ length (running_replicas stored.replicas) =
        ap (λ st. length (running_replicas st.replicas)) same in
      record {
        mirrored = put-Mirrored env law s t _ _ (h.mirrored.keyed _ stored found) h.mirrored;
        state = record stored { replicas = stored.replicas ++ replica ∷ [] };
        stored = get-put_self env.service_store law s _ _;
        same_spec = ap (λ st. st.spec) (sym same) ∙ h.same_spec;
        fresh = fresh-append _ _ replica up image fresh;
        few = omega (arith, h.few, count, length-running_append stored.replicas replica up);
      }

  new_replica_runs :
      (spec : ServiceSpec) (replica_id node_id : String) (container : String × String)
      → is_running (new_replica env spec replica_id node_id container) ≡ true
  unfolding is_running
  new_replica_runs spec replica_id node_id container = refl

  create_replica-Fits :
      (current : ServiceState) (wanted left : ℕ)
      → Runs
          (Both env (Fits env current.spec wanted (suc left)))
          (create_replica env current)
          (λ _. Both env (Fits env current.spec wanted left))
          (RoutesMirror env)
  create_replica-Fits current wanted left w p =
      let before = Both env (Fits env current.spec wanted (suc left)) in
      let after = Both env (Fits env current.spec wanted left) in
      After-map (λ _. after) (λ _. after) before (RoutesMirror env) _ (λ _ _ h. h)
        (λ _ h. h.mirrored)
        (create_replica-Runs env (Fits env current.spec wanted (suc left))
          (Fits env current.spec wanted left) current
          (λ replica_id node_id container s t stored found h.
            append-Fits current wanted left s t
              (new_replica env current.spec replica_id node_id container) stored
              (new_replica_runs current.spec replica_id node_id container) refl found h)
          (λ s t h. record {
            mirrored = h.mirrored;
            state = h.state;
            stored = h.stored;
            same_spec = h.same_spec;
            fresh = h.fresh;
            few = omega (arith, h.few);
          })
          w p)

  scale_up-Runs :
      (current : ServiceState) (wanted : ℕ) (n : ℕ)
      → Runs
          (Both env (Fits env current.spec wanted n))
          (times (create_replica env current) n)
          (λ _. Both env (Fits env current.spec wanted 0))
          (RoutesMirror env)
  scale_up-Runs current wanted n =
      times-Runs (RoutesMirror env) (λ k. Both env (Fits env current.spec wanted k)) _
        (λ k. create_replica-Fits current wanted k) n

  turns_fit : (a b : ℕ) → ltb_ℤ (pos a) (pos b) ≡ true → a + turns (pos b -ℤ pos a) ≤ b
  unfolding turns ◌-ℤ◌
  turns_fit a b h = ground arith

  have-Fits :
      (current : ServiceState) (wanted left : ℕ) (s : env.service_store.State) (t : Table)
      → stale_replicas current.spec.image (running_replicas current.replicas) ≡ []
      → length (running_replicas current.replicas) + left ≤ wanted
      → Have env current.spec.name current s t
      → Fits env current.spec wanted left s t
  have-Fits current wanted left s t fresh few h = record {
    mirrored = h.0;
    state = current;
    stored = h.1;
    same_spec = refl;
    fresh = fresh;
    few = few;
  }

  excess-Fits :
      (current : ServiceState) (wanted : ℕ) (s : env.service_store.State) (t : Table)
      → stale_replicas current.spec.image (running_replicas current.replicas) ≡ []
      → Have env current.spec.name
          (leaving (drop wanted (running_replicas current.replicas)) current)
          s
          t
      → Fits env current.spec wanted 0 s t
  excess-Fits current wanted s t fresh h =
      let excess = drop wanted (running_replicas current.replicas) in
      have-Fits (leaving excess current) wanted 0 s t
        (ap (stale_replicas current.spec.image) (running-without_all excess current.replicas)
          ∙ stale-without_all current.spec.image excess (running_replicas current.replicas)
          ∙ ap (without_all excess) fresh
          ∙ without_all-nil excess)
        (omega (
          arith,
          ap length (running-without_all excess current.replicas),
          length-without_all-drop wanted (running_replicas current.replicas),
        ))
        h

  pub scale-Runs :
      (current : ServiceState) (wanted : ℕ)
      → stale_replicas current.spec.image (running_replicas current.replicas) ≡ []
      → Runs
          (Both env (Have env current.spec.name current))
          (scale env current (pos wanted) (running_replicas current.replicas))
          (λ _. Both env (Fits env current.spec wanted 0))
          (RoutesMirror env)
  unfolding scale slice_from After
  scale-Runs current wanted fresh w p =
      let running = running_replicas current.replicas in
      let done = Both env (Fits env current.spec wanted 0) in
      elim (Bool-cases (ltb_ℤ (pos (length running)) (pos wanted))) [
        | inl e ↦ rw e (
            After-next (λ _. done) (RoutesMirror env) (λ _. done) _ _
              (scale_up-Runs current wanted (turns (pos wanted -ℤ pos (length running))) w
                (have-Fits current wanted _ _ _ fresh (turns_fit (length running) wanted e) p))
              (λ _ w' h. h))
        | inr e ↦ rw e (elim (Bool-cases (ltb_ℤ (pos wanted) (pos (length running)))) [
          | inl f ↦ rw f (
              After-next (λ _. done) (RoutesMirror env) (λ _. done) _ _
                (After-map
                  (λ _.
                    Both env (Have env current.spec.name (leaving (drop wanted running) current)))
                  (λ _. done) (RoutesMirror env) (RoutesMirror env) _
                  (λ _ w' h. excess-Fits current wanted w'.services w'.routing_table fresh h)
                  (λ _ h. h) (remove_all-Runs current (drop wanted running) current w p))
                (λ _ w' h. h))
          | inr f ↦ rw f (have-Fits current wanted 0 _ _ fresh (ground (arith, e, f)) p)
        ])
      ]
