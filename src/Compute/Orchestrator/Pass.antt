-- ===== src/Compute/Orchestrator/Pass.antt =====
-- aws_light/compute/orchestrator.py: `_reconcile_all`, one pass over everything.
use aws_light.Prelude.{Option, none, some, none, some, List, [], ◌∷◌, if◌then◌else◌}
use aws_light.Prelude.Outcome.{returned}
use aws_light.Prelude.Action.{pure, ◌>>=◌, ◌>>◌, each}
use aws_light.Dict
use aws_light.Dict.{Dict}
use mathlib.Core.Option
use aws_light.Models.{ServiceState, NodeState}
use aws_light.Models.Status.{ResourceStatus, is_status}
use aws_light.Compute.NodeManager
use aws_light.Compute.Orchestrator.World.{Env, Step, ComposeContainerInfo}
use aws_light.Compute.Orchestrator.Environment.{platform_compose_containers}
use aws_light.Compute.Orchestrator.Databases.{reconcile_database}
use aws_light.Compute.Orchestrator.Reconcile.{reconcile_service}
use aws_light.Compute.Orchestrator.Teardown.{teardown_service}

unfoldable pub put_nodes : Dict NodeState → List NodeState → Dict NodeState
put_nodes store [] = store
put_nodes store (node_state ∷ nodes) =
    put_nodes (Dict.put store node_state.spec.node_id node_state) nodes

module _ (env : Env) where
  -- nothing is written where there is no store of nodes
  unfoldable pub sync_nodes_to_store : Step env (Unit {0})
  unfolding put_nodes
  sync_nodes_to_store w = (
    returned tt,
    record w {
      node_store =
          Option.map (λ store. put_nodes store (NodeManager.get_all_nodes w.node_manager))
            w.node_store;
    },
  )

  -- no database is reconciled where there is no store of databases
  unfoldable pub reconcile_stored : Option env.database_store.State → Step env (Unit {0})
  reconcile_stored none = pure tt
  reconcile_stored (some databases) =
      each (reconcile_database env) (env.database_store.list databases)

  unfoldable pub reconcile_databases : Step env (Unit {0})
  unfolding reconcile_stored
  reconcile_databases w = reconcile_stored w.databases w

  unfoldable pub reconcile_or_teardown :
      List ComposeContainerInfo → ServiceState → Step env (Unit {0})
  reconcile_or_teardown platform_containers service_state =
      if is_status service_state.status ResourceStatus.deleting
      then teardown_service env service_state
      else reconcile_service env service_state (some platform_containers)

  unfoldable pub list_services : Step env (List ServiceState)
  list_services w = (returned (env.service_store.list w.services), w)

  unfoldable pub reconcile_all : Step env (Unit {0})
  unfolding reconcile_databases reconcile_or_teardown sync_nodes_to_store list_services
  reconcile_all = do
    reconcile_databases
    all_services ← list_services
    platform_containers ← platform_compose_containers env
    each (reconcile_or_teardown platform_containers) all_services
    sync_nodes_to_store
