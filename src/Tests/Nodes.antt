-- ===== src/Tests/Nodes.antt =====
-- Examples of the scheduler and the node manager.
use aws_light.Prelude.{String, ◌≡◌, refl, [], ◌∷◌, true, false, arith}
use aws_light.Prelude.Int.{pos, ltb_ℤ}
use aws_light.Models.{NodeState}
use aws_light.Models.Status.{ResourceStatus}
use aws_light.Compute.Scheduler.{select_node, bin_pack_scheduler}
use aws_light.Compute.Scheduler.Selection.{Best, select_node-Best}
use aws_light.Compute.NodeManager.{allocate_on, deallocate_on, member}
use aws_light.Compute.NodeManager.Accounting.{allocate_on_idem, deallocate_on_absent}

abbrev node : String → NodeState
node node_id = record {
  spec = record { node_id = node_id; cpu_capacity = pos 100; memory_capacity_mb = pos 512 };
  usage = record { cpu_used = pos 25; memory_used_mb = pos 128 };
  actual_usage = record { cpu_used = pos 0; memory_used_mb = pos 0 };
  status = ResourceStatus.running;
  replica_ids = "r1" ∷ [];
}

select_node-Best_example :
    Best
      (pos 25)
      (pos 128)
      bin_pack_scheduler
      (node "n1" ∷ node "n2" ∷ [])
      (select_node bin_pack_scheduler (node "n1" ∷ node "n2" ∷ []) (pos 25) (pos 128))
select_node-Best_example =
    select_node-Best (pos 25) (pos 128) bin_pack_scheduler (node "n1" ∷ node "n2" ∷ [])

r2_absent : member "r2" (node "n1").replica_ids ≡ false
unfolding member
r2_absent = refl

allocate_on_idem_example :
    allocate_on (allocate_on (node "n1") "r2" (pos 25) (pos 128)) "r2" (pos 50) (pos 64)
    ≡ allocate_on (node "n1") "r2" (pos 25) (pos 128)
allocate_on_idem_example = allocate_on_idem (node "n1") "r2" (pos 25) (pos 128) (pos 50) (pos 64)

deallocate_on_absent_example :
    ((deallocate_on (node "n1") "r2" (pos 10) (pos 64)).replica_ids ≡ (node "n1").replica_ids)
    × (ltb_ℤ
          (deallocate_on (node "n1") "r2" (pos 10) (pos 64)).usage.cpu_used
          (node "n1").usage.cpu_used
        ≡ true)
deallocate_on_absent_example =
    deallocate_on_absent (node "n1") "r2" (pos 10) (pos 64) r2_absent (ground arith) (ground arith)
