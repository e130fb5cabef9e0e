-- ===== src/Compute/Orchestrator/Capacity.antt =====
-- aws_light/compute/orchestrator.py: the creation of a replica and the capacity of the nodes.
use aws_light.Prelude.{String, ◌≡◌, refl, Option, none, some, List}
use aws_light.Prelude.Action.{next}
use aws_light.Prelude.Hoare.{After, Runs, Keeps, After-next, Keeps-then, Runs-then, After-map}
use aws_light.Models.{ServiceState, ReplicaState, NodeState}
use aws_light.Proxy.RoutingTable.{Table}
use aws_light.Compute.NodeManager.{NodeManager}
use aws_light.Compute.NodeManager.Accounts.{Accounts, Chosen, select_node-Chosen, allocate-Accounts}
use aws_light.Compute.Orchestrator.World.{Env, World, Step, publish, get_service, put_service}
use aws_light.Compute.Orchestrator.Replicas.{allocated, allocate, put_replicas, sync_routing_table}
use aws_light.Compute.Orchestrator.Placement.{
  append_replica, new_replica, started, create_replica_on, create_replica, no_capacity,
}
use aws_light.Compute.Orchestrator.Environment.{attach_service_replica_networks}
use aws_light.Compute.Orchestrator.Frame.{
  On, publish-Keeps, emit_node_updated-Keeps, uuid4-Keeps, inject_into_env-Keeps,
  platform_env-Keeps, database_env-Keeps, ensure_service_network-Keeps, try_create-Keeps,
  attach_service_replica_networks-Keeps,
}

module _ (env : Env) where
  abbrev Sound : env.service_store.State → Table → NodeManager → Type 0
  Sound s t nodes = Accounts nodes

  abbrev pub SoundAccounts : World env → Type 0
  SoundAccounts w = Accounts w.node_manager

  -- a node is chosen for a replica of the service
  abbrev Ready : ServiceState → NodeState → env.service_store.State → Table → NodeManager → Type 0
  Ready state n s t nodes =
      Accounts nodes × Chosen nodes state.spec.cpu_request state.spec.memory_request_mb n

  put_replicas-Sound :
      (name : String) (change : List ReplicaState → List ReplicaState) (found : Option ServiceState)
      → Keeps SoundAccounts (put_replicas env name change found)
  unfolding put_replicas put_service sync_routing_table After next
  put_replicas-Sound name change none w p = p
  put_replicas-Sound name change (some state) w p = p

  get_service-Sound : (name : String) → Keeps SoundAccounts (get_service env name)
  unfolding get_service After
  get_service-Sound name w p = p

  allocate-Sound :
      (state : ServiceState) (n : NodeState) (replica_id : String)
      → Runs
          (On env (Ready state n))
          (allocate env n.spec.node_id replica_id state.spec)
          (λ _. SoundAccounts)
          SoundAccounts
  unfolding allocate allocated After
  allocate-Sound state n replica_id w p =
      let (after, placed, sound) =
        allocate-Accounts w.node_manager n replica_id state.spec.cpu_request
          state.spec.memory_request_mb p.0 p.1 in
      rw placed sound

  -- a step before the placement
  held :
      {A : Type 0} (state : ServiceState) (n : NodeState) (m : Step env A)
      → Keeps (On env (Ready state n)) m
      → Runs (On env (Ready state n)) m (λ _. On env (Ready state n)) SoundAccounts
  held state n m h w p =
      let ready = On env (Ready state n) in
      After-map (λ _. ready) (λ _. ready) ready SoundAccounts (m w) (λ _ _ q. q) (λ _ q. q.0)
        (h w p)

  before :
      {A B : Type 0} (state : ServiceState) (n : NodeState) (m : Step env A) (f : A → Step env B)
      → Keeps (On env (Ready state n)) m
      → ((a : A) → Runs (On env (Ready state n)) (f a) (λ _. SoundAccounts) SoundAccounts)
      → Runs (On env (Ready state n)) (λ w. next f (m w)) (λ _. SoundAccounts) SoundAccounts
  before state n m f h =
      let ready = On env (Ready state n) in
      Runs-then ready (λ _. ready) SoundAccounts (λ _. SoundAccounts) m f (held state n m h)

  started-Sound :
      (state : ServiceState) (n : NodeState) (replica_id : String)
      (container : Option (String × String))
      → Runs
          (On env (Ready state n))
          (started env state replica_id n.spec.node_id container)
          (λ _. SoundAccounts)
          SoundAccounts
  unfolding started After
  started-Sound state n replica_id none w p = p.0
  started-Sound state n replica_id (some container) w p =
      let ready = On env (Ready state n) in
      After-next (λ _. ready) SoundAccounts (λ _. SoundAccounts) _ _
        (held state n (attach_service_replica_networks env state)
          (attach_service_replica_networks-Keeps env (Ready state n) state) w p)
        (λ _.
          Runs-then ready (λ _. SoundAccounts) SoundAccounts (λ _. SoundAccounts) _ _
            (allocate-Sound state n replica_id)
            (λ _.
              Keeps-then SoundAccounts _ _ (emit_node_updated-Keeps env Sound n.spec.node_id) (λ _.
                Keeps-then SoundAccounts _ _ (get_service-Sound state.spec.name) (λ found.
                  Keeps-then SoundAccounts _ _
                    (put_replicas-Sound state.spec.name
                      (append_replica env
                        (new_replica env state.spec replica_id n.spec.node_id container))
                      found)
                    (λ _. publish-Keeps env Sound _ _)))))

  create_replica_on-Sound :
      (state : ServiceState) (nodes : List NodeState) (target_node : Option NodeState)
      (w : World env)
      → SoundAccounts w
      → ((n : NodeState)
          → target_node ≡ some n
          → Chosen w.node_manager state.spec.cpu_request state.spec.memory_request_mb n)
      → After (λ _. SoundAccounts) SoundAccounts (create_replica_on env state nodes target_node w)
  unfolding create_replica_on no_capacity
  create_replica_on-Sound state nodes none w p h = publish-Keeps env Sound _ _ w p
  create_replica_on-Sound state nodes (some n) w p h =
      let ready = Ready state n in
      After-next (λ _. On env ready) SoundAccounts (λ _. SoundAccounts) _ _
        (held state n (publish env _ _) (publish-Keeps env ready _ _) w (p, h n refl))
        (λ _. before state n _ _ (uuid4-Keeps env ready) (λ replica_id.
          before state n _ _ (inject_into_env-Keeps env ready _) (λ _.
            before state n _ _ (platform_env-Keeps env ready _) (λ _.
              before state n _ _ (database_env-Keeps env ready _) (λ _.
                before state n _ _ (ensure_service_network-Keeps env ready _ _) (λ _.
                  before state n _ _ (try_create-Keeps env ready _)
                    (λ container. started-Sound state n replica_id container)))))))

  -- The creation of a replica, whether or not it succeeds, leaves every node with no more in use
  -- than its capacity, if the nodes are stored under their names and none was over its capacity
  -- before.
  pub create_replica-Accounts :
      (service_state : ServiceState) → Keeps SoundAccounts (create_replica env service_state)
  unfolding create_replica
  create_replica-Accounts state w p = create_replica_on-Sound state _ _ w p (λ n e.
      select_node-Chosen env.scheduler w.node_manager state.spec.cpu_request
        state.spec.memory_request_mb n p e)
