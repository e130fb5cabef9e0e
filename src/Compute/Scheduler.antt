-- ===== src/Compute/Scheduler.antt =====
-- aws_light/compute/scheduler.py. The class hierarchy is a data type of policies, and `none` is
-- `SchedulingError`.
pub mod Selection
use text.Mathlib.Text.{is_lt}
use Prim.Native.String.{compare as compare_text}
use aws_light.Prelude.{
  ℕ, String, Bool, true, false, ◌&&◌, Option, none, some, List, [], ◌∷◌, ltb, length, str_eq,
  if◌then◌else◌,
}
use aws_light.Prelude.Int.{ltb_ℤ}
use aws_light.Text.{lower, strip}
use aws_light.Models.{Amount, NodeState, available_cpu, available_memory_mb}

-- Python's `<` of two amounts reversed: `a >= b`
unfoldable pub geb : Amount → Amount → Bool
geb a b = if ltb_ℤ a b then false else true

unfoldable pub fits : Amount → Amount → NodeState → Bool
unfolding geb
fits cpu_request memory_request_mb node =
    geb (available_cpu node) cpu_request && geb (available_memory_mb node) memory_request_mb

unfoldable pub candidates : Amount → Amount → List NodeState → List NodeState
candidates cpu_request memory_request_mb [] = []
candidates cpu_request memory_request_mb (node ∷ nodes) =
    let rest = candidates cpu_request memory_request_mb nodes in
    if fits cpu_request memory_request_mb node then node ∷ rest else rest

-- Python's `<` of the key tuples
unfoldable pub bin_pack_less : NodeState → NodeState → Bool
bin_pack_less a b =
    if ltb_ℤ (available_cpu a) (available_cpu b)
    then true
    else if ltb_ℤ (available_cpu b) (available_cpu a)
    then false
    else if ltb_ℤ (available_memory_mb a) (available_memory_mb b)
    then true
    else if ltb_ℤ (available_memory_mb b) (available_memory_mb a)
    then false
    else is_lt (compare_text a.spec.node_id b.spec.node_id)

unfoldable pub spread_less : NodeState → NodeState → Bool
spread_less a b =
    if ltb (length a.replica_ids) (length b.replica_ids)
    then true
    else if ltb (length b.replica_ids) (length a.replica_ids)
    then false
    else if ltb_ℤ a.usage.cpu_used b.usage.cpu_used
    then true
    else if ltb_ℤ b.usage.cpu_used a.usage.cpu_used
    then false
    else if ltb_ℤ a.usage.memory_used_mb b.usage.memory_used_mb
    then true
    else if ltb_ℤ b.usage.memory_used_mb a.usage.memory_used_mb
    then false
    else is_lt (compare_text a.spec.node_id b.spec.node_id)

-- `min(…, key=…)`: the first of the least
unfoldable pub least {ℓ} : {A : Type ℓ} → (A → A → Bool) → A → List A → A
least less best [] = best
least less best (x ∷ xs) = least less (if less x best then x else best) xs

unfoldable pub min_by {ℓ} : {A : Type ℓ} → (A → A → Bool) → List A → Option A
unfolding least
min_by less [] = none
min_by less (x ∷ xs) = some (least less x xs)

pub data Scheduler : Type 0 where
  bin_pack_scheduler spread_scheduler : Scheduler

unfoldable pub less : Scheduler → NodeState → NodeState → Bool
less bin_pack_scheduler = bin_pack_less
less spread_scheduler = spread_less

unfoldable pub select_node : Scheduler → List NodeState → Amount → Amount → Option NodeState
unfolding min_by
select_node scheduler nodes cpu_request memory_request_mb =
    min_by (less scheduler) (candidates cpu_request memory_request_mb nodes)

-- `none` is `ValueError`
unfoldable pub create_scheduler : String → Option Scheduler
create_scheduler policy =
    let normalized = lower (strip policy) in
    if str_eq normalized "binpack"
    then some bin_pack_scheduler
    else if str_eq normalized "spread"
    then some spread_scheduler
    else none
