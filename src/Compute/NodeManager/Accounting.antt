-- ===== src/Compute/NodeManager/Accounting.antt =====
-- aws_light/compute/node_manager.py: the accounts of the nodes.
use aws_light.Prelude.{String, ◌≡◌, refl, true, false, List, [], ◌∷◌, ◌++◌, arith, eq_iff}
use aws_light.Prelude.Int.{pos, ◌+ℤ◌, ◌-ℤ◌, ◌≤ℤ◌, ltb_ℤ, +ℤ_parts, -ℤ_parts, +ℤ_cancel}
use aws_light.Models.{Amount, NodeState, available_cpu, available_memory_mb}
use aws_light.Compute.Scheduler.{fits}
use aws_light.Compute.NodeManager.{member, remove_id, allocate_on, floor_zero, deallocate_on}

-- No more is in use than there is.
pub record WithinCapacity (node : NodeState) : Type 0 where
  pub cpu : node.usage.cpu_used ≤ℤ node.spec.cpu_capacity
  pub memory : node.usage.memory_used_mb ≤ℤ node.spec.memory_capacity_mb

-- A node within its capacity that has room for a request is within its capacity after the
-- allocation.
pub allocate_on-WithinCapacity :
    (node : NodeState) (replica_id : String) (cpu memory : Amount)
    → fits cpu memory node ≡ true
    → WithinCapacity node
    → WithinCapacity (allocate_on node replica_id cpu memory)
unfolding allocate_on fits available_cpu available_memory_mb
allocate_on-WithinCapacity node replica_id cpu memory room h = ground (
  arith,
  h.cpu,
  h.memory,
  -ℤ_parts node.spec.cpu_capacity node.usage.cpu_used,
  -ℤ_parts node.spec.memory_capacity_mb node.usage.memory_used_mb,
  +ℤ_parts node.usage.cpu_used cpu,
  +ℤ_parts node.usage.memory_used_mb memory,
)

member-append_self : (x : String) (xs : List String) → member x (xs ++ x ∷ []) ≡ true
unfolding member
member-append_self x [] = ground (arith, eq_iff x x)
member-append_self x (y ∷ ys) = ground (arith, member-append_self x ys)

remove_id-append :
    (x : String) (xs : List String) → member x xs ≡ false → remove_id x (xs ++ x ∷ []) ≡ xs
unfolding member remove_id
remove_id-append x [] h = ground (arith, eq_iff x x)
remove_id-append x (y ∷ ys) h = ground (arith, remove_id-append x ys)

floor_zero-back :
    (used amount : Amount) → pos 0 ≤ℤ used → floor_zero (used +ℤ amount -ℤ amount) ≡ used
unfolding floor_zero
floor_zero-back used amount h = rw (+ℤ_cancel used amount) (ground arith)

-- The removal of a new replica undoes its allocation: the node is as before, where its account is
-- not negative.
pub deallocate_on-allocate_on :
    (node : NodeState) (replica_id : String) (cpu memory : Amount)
    → member replica_id node.replica_ids ≡ false
    → pos 0 ≤ℤ node.usage.cpu_used
    → pos 0 ≤ℤ node.usage.memory_used_mb
    → deallocate_on (allocate_on node replica_id cpu memory) replica_id cpu memory ≡ node
unfolding allocate_on deallocate_on
deallocate_on-allocate_on node replica_id cpu memory new c m = ground (
  arith,
  remove_id-append replica_id node.replica_ids,
  floor_zero-back node.usage.cpu_used cpu c,
  floor_zero-back node.usage.memory_used_mb memory m,
)

-- To place a replica again changes nothing.
pub allocate_on_idem :
    (node : NodeState) (replica_id : String) (cpu memory cpu' memory' : Amount)
    → allocate_on (allocate_on node replica_id cpu memory) replica_id cpu' memory'
      ≡ allocate_on node replica_id cpu memory
unfolding allocate_on
allocate_on_idem node replica_id cpu memory cpu' memory' =
    ground (arith, member-append_self replica_id node.replica_ids)

remove_id-absent : (x : String) (ids : List String) → member x ids ≡ false → remove_id x ids ≡ ids
unfolding member remove_id
remove_id-absent x [] h = refl
remove_id-absent x (y ∷ ys) h = ground (arith, remove_id-absent x ys)

-- The removal of a replica that the node does not hold keeps its replicas and lowers its CPU
-- account, where the request and the account are positive.
pub deallocate_on_absent :
    (node : NodeState) (replica_id : String) (cpu memory : Amount)
    → member replica_id node.replica_ids ≡ false
    → pos 1 ≤ℤ cpu
    → pos 1 ≤ℤ node.usage.cpu_used
    → ((deallocate_on node replica_id cpu memory).replica_ids ≡ node.replica_ids)
      × (ltb_ℤ ((deallocate_on node replica_id cpu memory).usage.cpu_used) (node.usage.cpu_used)
          ≡ true)
unfolding deallocate_on
deallocate_on_absent node replica_id cpu memory absent some_cpu used = (
  remove_id-absent replica_id node.replica_ids absent,
  ground (arith, -ℤ_parts node.usage.cpu_used cpu),
)
