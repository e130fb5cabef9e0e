-- ===== src/Compute/Orchestrator/Steps.antt =====
-- aws_light/compute/orchestrator.py: what the creation and the removal of a replica do to the store of
-- services and to the routes, for any property of the two.
use aws_light.Prelude.{String, ◌≡◌, refl, Option, none, some, List}
use aws_light.Prelude.Action.{next}
use aws_light.Prelude.Hoare.{After, Runs, Keeps, After-next, Runs-then, After-map}
use aws_light.Dict.{Dict}
use aws_light.Json.{Json}
use aws_light.Events.{EventKind}
use aws_light.Models.{ServiceState, ReplicaState, NodeState}
use aws_light.Proxy.RoutingTable.{Table, update_service}
use aws_light.Compute.NodeManager
use aws_light.Compute.Orchestrator.World.{Env, World, Step, publish, get_service, put_service}
use aws_light.Compute.Orchestrator.Replicas.{
  endpoints_of, put_replicas, sync_routing_table, without, remove_replica,
}
use aws_light.Compute.Orchestrator.Placement.{
  new_replica, append_replica, started, create_replica_on, create_replica, no_capacity,
}
use aws_light.Compute.Orchestrator.Frame.{
  On, call-Keeps, publish-Keeps, allocate-Keeps, deallocate-Keeps, emit_node_updated-Keeps,
  uuid4-Keeps, inject_into_env-Keeps, platform_env-Keeps, database_env-Keeps,
  ensure_service_network-Keeps, try_create-Keeps, attach_service_replica_networks-Keeps,
}

module _ (env : Env) where
  -- a property of the services and the routes, of a world
  abbrev pub Both : (env.service_store.State → Table → Type 0) → World env → Type 0
  Both P = On env (λ s t _. P s t)

module _ (env : Env) (P Q : env.service_store.State → Table → Type 0) where
  -- what a step that puts other replicas must do
  abbrev pub Puts : String → (List ReplicaState → List ReplicaState) → Type 0
  Puts name change =
      (s : env.service_store.State) (t : Table) (current : ServiceState)
      → env.service_store.get s name ≡ some current
      → P s t
      → Q (env.service_store.put s name (record current { replicas = change current.replicas }))
          (update_service t current.spec.name (endpoints_of current.spec (change current.replicas)))

  abbrev pub Misses : String → Type 0
  Misses name =
      (s : env.service_store.State) (t : Table)
      → env.service_store.get s name ≡ none
      → P s t
      → Q s t

  abbrev pub Found : String → Option ServiceState → World env → Type 0
  Found name found w = Both env P w × (env.service_store.get w.services name ≡ found)

  pub get_service-Runs :
      (name : String) → Runs (Both env P) (get_service env name) (Found name) (Both env P)
  unfolding get_service After
  get_service-Runs name w p = (p, refl)

  put_replicas-Runs :
      (name : String) (change : List ReplicaState → List ReplicaState)
      → Puts name change
      → Misses name
      → (found : Option ServiceState)
      → Runs (Found name found) (put_replicas env name change found) (λ _. Both env Q) (Both env P)
  unfolding put_replicas put_service sync_routing_table After next
  put_replicas-Runs name change puts misses none w p = misses w.services w.routing_table p.1 p.0
  put_replicas-Runs name change puts misses (some current) w p =
      puts w.services w.routing_table current p.1 p.0

  abbrev Three : env.service_store.State → Table → NodeManager.NodeManager → Type 0
  Three s t n = P s t

  -- a step that changes neither, and what follows it
  first :
      {A B : Type 0} (m : Step env A) (f : A → Step env B)
      → Keeps (Both env P) m
      → ((a : A) → Runs (Both env P) (f a) (λ _. Both env Q) (Both env P))
      → Runs (Both env P) (λ w. next f (m w)) (λ _. Both env Q) (Both env P)
  first = Runs-then (Both env P) (λ _. Both env P) (Both env P) (λ _. Both env Q)

  publish_last :
      (kind : EventKind) (payload : Dict Json)
      → Runs (Both env Q) (publish env kind payload) (λ _. Both env Q) (Both env P)
  unfolding publish After
  publish_last kind payload w q = q

  -- the end of both: the state is read, put with other replicas, and an event is published
  reported :
      (name : String) (change : List ReplicaState → List ReplicaState) (kind : EventKind)
      (payload : Dict Json)
      → Puts name change
      → Misses name
      → Runs
          (Both env P)
          (λ w.
            next
              (λ found w'.
                next (λ _. publish env kind payload) (put_replicas env name change found w'))
              (get_service env name w))
          (λ _. Both env Q)
          (Both env P)
  reported name change kind payload puts misses =
      Runs-then (Both env P) (Found name) (Both env P) _ _ _ (get_service-Runs name) (λ found.
        Runs-then (Found name found) (λ _. Both env Q) (Both env P) _ _ _
          (put_replicas-Runs name change puts misses found) (λ _. publish_last kind payload))

  pub remove_replica-Runs :
      (service_state : ServiceState) (replica : ReplicaState)
      → Puts service_state.spec.name (without replica.replica_id)
      → Misses service_state.spec.name
      → Runs (Both env P) (remove_replica env service_state replica) (λ _. Both env Q) (Both env P)
  unfolding remove_replica
  remove_replica-Runs service_state replica puts misses = first _ _ (call-Keeps env Three _) (λ _.
      first _ _ (deallocate-Keeps env P _ _ service_state.spec) (λ _.
        first _ _ (emit_node_updated-Keeps env Three _)
          (λ _. reported service_state.spec.name _ _ _ puts misses)))

  -- what the creation of a replica of a service may put, whatever its identity and its node
  abbrev pub Appends : ServiceState → Type 0
  Appends service_state =
      (replica_id node_id : String) (container : String × String)
      → Puts service_state.spec.name
          (append_replica env (new_replica env service_state.spec replica_id node_id container))

  abbrev pub Weakens : Type 0
  Weakens = (s : env.service_store.State) (t : Table) → P s t → Q s t

  weakly :
      Weakens
      → {A : Type 0} (m : Step env A) → Keeps (Both env P) m
      → Runs (Both env P) m (λ _. Both env Q) (Both env P)
  weakly weaken m h w p =
      After-map (λ _. Both env P) (λ _. Both env Q) (Both env P) (Both env P) (m w)
        (λ a w'. weaken w'.services w'.routing_table) (λ w' r. r) (h w p)

  started-Runs :
      (service_state : ServiceState) (replica_id node_id : String)
      (container : Option (String × String))
      → Appends service_state
      → Weakens
      → Runs
          (Both env P)
          (started env service_state replica_id node_id container)
          (λ _. Both env Q)
          (Both env P)
  unfolding started After
  started-Runs service_state replica_id node_id none appends weaken w p = weaken _ _ p
  started-Runs service_state replica_id node_id (some container) appends weaken w p =
      After-next (λ _. Both env P) (Both env P) (λ _. Both env Q) _ _
        (attach_service_replica_networks-Keeps env Three service_state w p)
        (λ _. first _ _ (allocate-Keeps env P _ _ service_state.spec) (λ _.
          first _ _ (emit_node_updated-Keeps env Three _) (λ _.
            reported service_state.spec.name _ _ _ (appends replica_id node_id container)
              (λ s t _. weaken s t))))

  create_replica_on-Runs :
      (service_state : ServiceState) (nodes : List NodeState) (target_node : Option NodeState)
      → Appends service_state
      → Weakens
      → Runs
          (Both env P)
          (create_replica_on env service_state nodes target_node)
          (λ _. Both env Q)
          (Both env P)
  unfolding create_replica_on no_capacity
  create_replica_on-Runs service_state nodes none appends weaken w p =
      weakly weaken (publish env _ _) (publish-Keeps env Three _ _) w p
  create_replica_on-Runs service_state nodes (some target_node) appends weaken w p =
      After-next (λ _. Both env P) (Both env P) (λ _. Both env Q) _ _
        (publish-Keeps env Three _ _ w p)
        (λ _. first _ _ (uuid4-Keeps env Three) (λ replica_id.
          first _ _ (inject_into_env-Keeps env Three _) (λ _.
            first _ _ (platform_env-Keeps env Three _) (λ _.
              first _ _ (database_env-Keeps env Three _) (λ _.
                Runs-then (Both env P) (λ _. Both env P) (Both env P) _ _ _
                  (ensure_service_network-Keeps env Three _ _)
                  (λ _.
                    Runs-then (Both env P) (λ _. Both env P) (Both env P) _ _ _
                      (try_create-Keeps env Three _)
                      (λ container.
                        started-Runs service_state replica_id target_node.spec.node_id container
                          appends weaken)))))))

  pub create_replica-Runs :
      (service_state : ServiceState)
      → Appends service_state
      → Weakens
      → Runs (Both env P) (create_replica env service_state) (λ _. Both env Q) (Both env P)
  unfolding create_replica
  create_replica-Runs service_state appends weaken w p =
      create_replica_on-Runs service_state _ _ appends weaken w p
