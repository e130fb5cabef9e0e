-- ===== src/Compute/NodeManager.antt =====
-- aws_light/compute/node_manager.py. `none` of a method that returns nothing is the `KeyError` of an
-- unknown node.
pub mod Accounting
pub mod Accounts
use mathlib.Core.Option
use aws_light.Prelude.{
  ℕ, zero, suc, ◌+◌, String, Bool, true, false, Option, none, some, List, [], ◌∷◌, ◌++◌, ltb,
  str_eq, if◌then◌else◌,
}
use aws_light.Prelude.Int.{ℤ, pos, ◌+ℤ◌, ◌-ℤ◌, ltb_ℤ}
use aws_light.Config.{Settings}
use aws_light.Text.{concat, decimal}
use aws_light.Dict
use aws_light.Dict.{Dict}
use aws_light.Models.{Amount, NodeState, no_usage}
use aws_light.Models.Status.{ResourceStatus}

abbrev pub NodeManager : Type 0
NodeManager = Dict NodeState

-- f"node-{index:02d}"
unfoldable pub node_name : ℕ → String
node_name index =
    concat "node-" (if ltb index 10 then concat "0" (decimal index) else decimal index)

unfoldable pub new_node : Settings → String → NodeState
new_node settings node_id = record {
  spec = record {
    node_id = node_id;
    cpu_capacity = settings.node_cpu_capacity;
    memory_capacity_mb = settings.node_memory_capacity_mb;
  };
  usage = no_usage;
  actual_usage = no_usage;
  status = ResourceStatus.running;
  replica_ids = [];
}

-- the rounds left, and the index of the next
unfoldable pub initialize_from : Settings → ℕ → ℕ → NodeManager → NodeManager
unfolding new_node node_name
initialize_from settings zero index nodes = nodes
initialize_from settings (suc rounds) index nodes =
    initialize_from settings rounds (index + 1)
      (Dict.put nodes (node_name index) (new_node settings (node_name index)))

unfoldable pub initialize : Settings → NodeManager → NodeManager
unfolding initialize_from
initialize settings nodes = initialize_from settings settings.node_count 0 nodes

unfoldable pub get_all_nodes : NodeManager → List NodeState
get_all_nodes nodes = Dict.values nodes

unfoldable pub get_node : NodeManager → String → Option NodeState
get_node nodes node_id = Dict.get nodes node_id

-- x in xs, and xs.remove(x) of the first that is equal
unfoldable pub member : String → List String → Bool
member x [] = false
member x (y ∷ ys) = if str_eq y x then true else member x ys

unfoldable pub remove_id : String → List String → List String
remove_id x [] = []
remove_id x (y ∷ ys) = let rest = remove_id x ys in if str_eq y x then ys else y ∷ rest

unfoldable pub allocate_on : NodeState → String → Amount → Amount → NodeState
unfolding member
allocate_on node replica_id cpu memory_mb =
    if member replica_id node.replica_ids then node else record node {
      usage = record {
        cpu_used = node.usage.cpu_used +ℤ cpu;
        memory_used_mb = node.usage.memory_used_mb +ℤ memory_mb;
      };
      replica_ids = node.replica_ids ++ replica_id ∷ [];
    }

unfoldable pub allocate : NodeManager → String → String → Amount → Amount → Option NodeManager
unfolding allocate_on
allocate nodes node_id replica_id cpu memory_mb =
    Option.map (λ node. Dict.put nodes node_id (allocate_on node replica_id cpu memory_mb))
      (Dict.get nodes node_id)

-- max(0.0, x)
unfoldable pub floor_zero : Amount → Amount
floor_zero x = if ltb_ℤ (pos 0) x then x else pos 0

unfoldable pub deallocate_on : NodeState → String → Amount → Amount → NodeState
unfolding floor_zero remove_id
deallocate_on node replica_id cpu memory_mb = record node {
  usage = record {
    cpu_used = floor_zero (node.usage.cpu_used -ℤ cpu);
    memory_used_mb = floor_zero (node.usage.memory_used_mb -ℤ memory_mb);
  };
  replica_ids = remove_id replica_id node.replica_ids;
}

unfoldable pub deallocate : NodeManager → String → String → Amount → Amount → NodeManager
unfolding deallocate_on
deallocate nodes node_id replica_id cpu memory_mb = elim (Dict.get nodes node_id) [
  | none ↦ nodes
  | some node ↦ Dict.put nodes node_id (deallocate_on node replica_id cpu memory_mb)
]

unfoldable pub set_actual_usage : NodeManager → String → Amount → Amount → NodeManager
unfolding floor_zero
set_actual_usage nodes node_id cpu_used memory_used_mb = elim (Dict.get nodes node_id) [
  | none ↦ nodes
  | some node ↦ Dict.put nodes node_id (record node {
    actual_usage = record {
      cpu_used = floor_zero cpu_used;
      memory_used_mb = floor_zero memory_used_mb;
    };
  })
]
