-- ===== src/Compute/Orchestrator/Reconcile.antt =====
-- aws_light/compute/orchestrator.py: one pass over a service.
use aws_light.Prelude.{
  ℕ, ◌+◌, ◌-◌, String, Bool, true, false, Option, none, some, List, [], ◌∷◌, ◌&&◌, ◌||◌, str_eq,
  if◌then◌else◌, not, length, drop,
}
use mathlib.Core.Option
use aws_light.Prelude.Int.{ℤ, pos, negsuc, ltb_ℤ, ◌-ℤ◌}
use aws_light.Prelude.Action.{◌>>=◌, ◌>>◌, pure, each, times}
use aws_light.Json.{Json}
use aws_light.Events.{EventKind}
use aws_light.Models.{ServiceState, ServiceSpec, ReplicaState}
use aws_light.Models.Status.{ResourceStatus, is_status, value}
use aws_light.Compute.Orchestrator.World.{
  Env, Step, ComposeContainerInfo, publish, get_service, put_service,
}
use aws_light.Compute.Orchestrator.Observe.{refresh_observed_replicas}
use aws_light.Compute.Orchestrator.Environment.{ensure_service_network}
use aws_light.Compute.Orchestrator.Placement.{create_replica}
use aws_light.Compute.Orchestrator.Replicas.{is_running, remove_replica}

unfoldable pub running_replicas : List ReplicaState → List ReplicaState
unfolding is_running
running_replicas [] = []
running_replicas (replica ∷ replicas) =
    let rest = running_replicas replicas in if is_running replica then replica ∷ rest else rest

-- `[r for r in running_replicas if r.image and r.image != spec.image]`
unfoldable pub stale_replicas : String → List ReplicaState → List ReplicaState
stale_replicas image [] = []
stale_replicas image (r ∷ replicas) =
    let rest = stale_replicas image replicas in
    if not (str_eq r.image "") && not (str_eq r.image image) then r ∷ rest else rest

-- `replicas[count:]`, which counts from the end where `count` is negative
unfoldable pub slice_from {ℓ} : {A : Type ℓ} → ℤ → List A → List A
slice_from (pos n) xs = drop n xs
slice_from (negsuc n) xs = drop (length xs - (n + 1)) xs

unfoldable pub nonempty {ℓ} : {A : Type ℓ} → List A → Bool
nonempty [] = false
nonempty (x ∷ xs) = true

-- the turns of `range(count)`
unfoldable pub turns : ℤ → ℕ
turns (pos n) = n
turns (negsuc n) = 0

unfoldable pub observed_status : List ReplicaState → ResourceStatus
unfolding nonempty running_replicas
observed_status replicas =
    if nonempty (running_replicas replicas) then ResourceStatus.running else ResourceStatus.degraded

module _ (env : Env) where
  unfoldable pub emit_service_updated : ServiceState → Step env (Unit {0})
  emit_service_updated service_state = publish env EventKind.service_updated (
      ("service_name", Json.text service_state.spec.name)
      ∷ ("status", Json.text (value service_state.status))
      ∷ ("replica_count", Json.number (pos (length service_state.replicas)))
      ∷ ("service", env.model_dump service_state)
      ∷ [])

  -- `await self._service_store.get(spec.name) or service_state`
  unfoldable pub read_again : Bool → String → ServiceState → Step env ServiceState
  read_again false name service_state w = pure service_state w
  read_again true name service_state w =
      pure (Option.get_or (env.service_store.get w.services name) service_state) w

  -- the creations, or the removals, that bring the replicas to the wanted number; whether there were any
  unfoldable pub scale : ServiceState → ℤ → List ReplicaState → Step env Bool
  unfolding slice_from nonempty turns
  scale service_state desired_count running =
      let actual_count = pos (length running) in
      let excess = slice_from desired_count running in
      if ltb_ℤ actual_count desired_count
      then (do
        times (create_replica env service_state) (turns (desired_count -ℤ actual_count))
        pure true)
      else if ltb_ℤ desired_count actual_count
      then (do each (remove_replica env service_state) excess; pure (nonempty excess))
      else pure false

  -- the end of the pass, at the state that `get` answered
  unfoldable pub settle : String → Bool → Option ServiceState → Step env (Unit {0})
  unfolding observed_status emit_service_updated nonempty running_replicas
  settle name replicas_changed none = pure tt
  settle name replicas_changed (some updated_service) =
      let new_status = observed_status updated_service.replicas in
      let updated = record updated_service { status = new_status } in
      if not (is_status updated_service.status new_status)
      then (do put_service env name updated; emit_service_updated updated)
      else if replicas_changed
      then emit_service_updated updated_service
      else pure tt

  unfoldable pub scale_and_settle : ServiceSpec → Bool → ServiceState → Step env (Unit {0})
  unfolding scale settle running_replicas
  scale_and_settle spec replaced service_state = do
    scaled ← scale service_state spec.replicas (running_replicas service_state.replicas)
    updated_service ← get_service env spec.name
    settle spec.name (replaced || scaled) updated_service

  -- what follows the refresh
  unfoldable pub converge : ServiceSpec → ServiceState → Step env (Unit {0})
  unfolding stale_replicas running_replicas read_again nonempty scale_and_settle
  converge spec service_state =
      let stale = stale_replicas spec.image (running_replicas service_state.replicas) in
      do
        each (remove_replica env service_state) stale
        current ← read_again (nonempty stale) spec.name service_state
        scale_and_settle spec (nonempty stale) current

  unfoldable pub reconcile_service :
      ServiceState → Option (List ComposeContainerInfo) → Step env (Unit {0})
  unfolding refresh_observed_replicas converge
  reconcile_service service_state platform_containers = do
    ensure_service_network env service_state.spec.name platform_containers
    refreshed ← refresh_observed_replicas env service_state
    converge service_state.spec refreshed
