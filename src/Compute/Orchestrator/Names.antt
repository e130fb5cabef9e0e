-- ===== src/Compute/Orchestrator/Names.antt =====
-- aws_light/compute/orchestrator.py: the names that it gives, and the payloads that it publishes.
use aws_light.Prelude.{String, List, [], ◌∷◌, length, if◌then◌else◌, map}
use text.Mathlib.Text.{is_lt}
use Prim.Native.String.{compare as compare_text}
use aws_light.Prelude.Int.{pos}
use aws_light.Dict.{Dict}
use aws_light.Json.{Json, Items, Fields}
use aws_light.Text.{join, concat, lower, upper, underscored}
use aws_light.Models.{NodeState, available_cpu, available_memory_mb}

abbrev pub docker_label_managed : String
docker_label_managed = "aws-light.managed"

abbrev pub docker_label_service : String
docker_label_service = "aws-light.service"

abbrev pub docker_label_replica : String
docker_label_replica = "aws-light.replica-id"

abbrev pub docker_label_node : String
docker_label_node = "aws-light.node"

abbrev pub docker_label_database : String
docker_label_database = "aws-light.database"

abbrev pub proxy_workload_url : String
proxy_workload_url = "http://proxy:8080"

abbrev pub database_password_secret_prefix : String
database_password_secret_prefix = "aws-light-database-"

unfoldable pub env_resource_name : String → String
env_resource_name resource_name = underscored (upper resource_name)

unfoldable pub database_identifier : String → String
database_identifier database_name = underscored (lower database_name)

unfoldable pub service_network_name : String → String
service_network_name service_name = concat "aws-light-svc-" service_name

unfoldable pub database_network_name : String → String
database_network_name database_name = concat "aws-light-db-" database_name

unfoldable pub database_volume_name : String → String
database_volume_name database_name = join ("aws-light-db-" ∷ database_name ∷ "-data" ∷ [])

-- a dictionary, and a list, as JSON
unfoldable pub fields_of : Dict Json → Fields
fields_of [] = Fields.end
fields_of ((key, value) ∷ entries) = Fields.field key value (fields_of entries)

unfoldable pub array_of : List Json → Items
array_of [] = Items.nil
array_of (item ∷ items) = Items.cons item (array_of items)

unfoldable pub node_capacity_payload : NodeState → Json
unfolding fields_of
node_capacity_payload node = Json.object (
    fields_of (
      ("node_id", Json.text node.spec.node_id)
      ∷ ("cpu_used", Json.number node.usage.cpu_used)
      ∷ ("cpu_capacity", Json.number node.spec.cpu_capacity)
      ∷ ("cpu_available", Json.number (available_cpu node))
      ∷ ("actual_cpu_used", Json.number node.actual_usage.cpu_used)
      ∷ ("memory_used_mb", Json.number node.usage.memory_used_mb)
      ∷ ("memory_capacity_mb", Json.number node.spec.memory_capacity_mb)
      ∷ ("memory_available_mb", Json.number (available_memory_mb node))
      ∷ ("actual_memory_used_mb", Json.number node.actual_usage.memory_used_mb)
      ∷ ("replica_count", Json.number (pos (length node.replica_ids)))
      ∷ []))

-- `sorted(nodes, key=lambda item: item.spec.node_id)`, which keeps the order of equal keys
unfoldable pub insert_node : NodeState → List NodeState → List NodeState
insert_node node [] = node ∷ []
insert_node node (other ∷ nodes) =
    let rest = insert_node node nodes in
    if is_lt (compare_text other.spec.node_id node.spec.node_id)
    then other ∷ rest
    else node ∷ other ∷ nodes

unfoldable pub sorted_nodes : List NodeState → List NodeState
sorted_nodes [] = []
sorted_nodes (node ∷ nodes) = insert_node node (sorted_nodes nodes)

unfoldable pub candidate_nodes : List NodeState → Json
unfolding array_of sorted_nodes node_capacity_payload
candidate_nodes nodes = Json.array (array_of (map node_capacity_payload (sorted_nodes nodes)))
