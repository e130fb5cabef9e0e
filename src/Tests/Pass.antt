-- ===== src/Tests/Pass.antt =====
-- A run of the orchestrator: every step of a pass over a service, at a concrete state.
use aws_light.Prelude.{◌≡◌, refl, map, List, none, some, [], ◌∷◌, Option, String}
use aws_light.Prelude.Int.{◌-ℤ◌, ◌+ℤ◌}
use aws_light.Models.{ServiceState}
use aws_light.Compute.Orchestrator.World.{Failure, World}
use aws_light.Prelude.Action.{next, each, fold, times}
use aws_light.Prelude.Outcome.{Outcome, returned}
use aws_light.Dict
use aws_light.Text
use aws_light.Models
use aws_light.Secrets
use aws_light.Iac.Results
use aws_light.Compute.NodeManager
use aws_light.Compute.Scheduler
use aws_light.Proxy.RoutingTable
use aws_light.Compute.Orchestrator.World as Steps
use aws_light.Compute.Orchestrator.Names
use aws_light.Compute.Orchestrator.Environment
use aws_light.Compute.Orchestrator.Replicas
use aws_light.Compute.Orchestrator.Placement
use aws_light.Compute.Orchestrator.Observe
use aws_light.Compute.Orchestrator.Reconcile
use aws_light.Tests.Orchestration.{env, world, web}

abbrev images : Option ServiceState → List String
images none = []
images (some state) = map (λ r. r.image) state.replicas

-- what a run answers, and the images of the replicas that it leaves
abbrev summary : Outcome Failure (Unit {0}) × World env → Outcome Failure (Unit {0}) × List String
summary (answer, w) = (answer, images (Dict.get w.services "web"))

-- The old replica makes way for two of the new image.
reconcile_service_runs :
    summary (Reconcile.reconcile_service env web none world) ≡ (returned tt, "app:1" ∷ "app:1" ∷ [])
unfolding next each fold times Text.decimal Dict.get Dict.put Text.join Text.first_characters
    Text.strip_prefix Text.upper Text.underscored Models.available_cpu Models.available_memory_mb
    Secrets.env_key Secrets.create_secret Secrets.opened Secrets.open_spec Secrets.get_secret
    Secrets.inject Secrets.inject_all Secrets.inject_into_env Results.merged
    NodeManager.get_all_nodes NodeManager.get_node NodeManager.member NodeManager.remove_id
    NodeManager.allocate_on NodeManager.allocate NodeManager.floor_zero NodeManager.deallocate_on
    NodeManager.deallocate Scheduler.geb Scheduler.fits Scheduler.candidates Scheduler.bin_pack_less
    Scheduler.least Scheduler.min_by Scheduler.less Scheduler.select_node RoutingTable.get_endpoints
    RoutingTable.add_health RoutingTable.existing_health RoutingTable.carry_health
    RoutingTable.update_service Steps.publish Steps.call Steps.get_service Steps.put_service
    Names.env_resource_name Names.database_identifier Names.service_network_name
    Names.database_network_name Names.database_volume_name Names.fields_of Names.array_of
    Names.node_capacity_payload Names.insert_node Names.sorted_nodes Names.candidate_nodes
    Environment.is_platform Environment.platform_only Environment.can_connect Environment.truthy
    Environment.connected_names Environment.platform_compose_containers Environment.connect_platform
    Environment.given_or_listed Environment.ensure_service_network Environment.outcome_of
    Environment.get_secret Environment.create_secret Environment.token_urlsafe
    Environment.kept_or_new Environment.keep_secret Environment.service_token
    Environment.platform_env Environment.stored_database Environment.database_env
    Environment.attach_service_replica_networks Replicas.is_running Replicas.endpoints_of
    Replicas.without Replicas.sync_routing_table Replicas.node_updated_payload Replicas.emit_found
    Replicas.emit_node_updated Replicas.allocated Replicas.allocate Replicas.deallocate
    Replicas.put_replicas Replicas.replica_payload Replicas.remove_replica
    Placement.placement_payload Placement.uuid4 Placement.inject_into_env Placement.caught
    Placement.try_create Placement.started Placement.container_request Placement.create_replica_on
    Placement.create_replica Observe.moved Observe.at_ip Observe.lose_replica Observe.keep_replica
    Observe.observe_container Observe.observe_running Observe.observe Observe.store_observed
    Observe.refresh_observed_replicas Reconcile.running_replicas Reconcile.stale_replicas
    Reconcile.slice_from Reconcile.nonempty Reconcile.turns Reconcile.observed_status
    Reconcile.emit_service_updated Reconcile.read_again Reconcile.scale Reconcile.settle
    Reconcile.scale_and_settle Reconcile.converge Reconcile.reconcile_service ◌-ℤ◌ ◌+ℤ◌
reconcile_service_runs = refl
