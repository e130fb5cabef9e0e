-- ===== src/Compute/Orchestrator/Rollout.antt =====
-- aws_light/compute/orchestrator.py: a rollout, which replaces the replicas of a service in batches.
-- `elapse n m` is what the other coroutines do in a sleep with `n` rounds of waiting and `m` old
-- replicas left.
use aws_light.Prelude.{
  ℕ, zero, suc, ◌+◌, ◌/◌, String, Bool, true, false, Option, none, some, List, [], ◌∷◌, ◌&&◌,
  if◌then◌else◌, not, length, take, drop, leb, ltb, ◌==◌,
}
use aws_light.Prelude.Int.{ℤ, pos, negsuc, ◌+ℤ◌, ◌-ℤ◌}
use aws_light.Prelude.Outcome.{returned}
use aws_light.Prelude.Action.{◌>>=◌, ◌>>◌, pure, next, each}
use aws_light.Json.{Json}
use aws_light.Events.{EventKind}
use aws_light.Models.{ServiceState, ReplicaState}
use aws_light.Models.Status.{ResourceStatus, is_status}
use aws_light.Compute.NodeManager.{member, remove_id}
use aws_light.Compute.Orchestrator.World.{
  Env, World, Step, RolloutState, publish, get_service, put_service,
}
use aws_light.Compute.Orchestrator.Replicas.{is_running, remove_replica}

-- `max(1, strategy.max_surge)`
unfoldable pub batch_size_of : ℤ → ℕ
batch_size_of (pos n) = if n == 0 then 1 else n
batch_size_of (negsuc n) = 1

unfoldable pub replica_ids_of : List ReplicaState → List String
replica_ids_of [] = []
replica_ids_of (r ∷ replicas) = r.replica_id ∷ replica_ids_of replicas

unfoldable pub running_new : List String → List ReplicaState → ℕ
unfolding member is_running
running_new old_ids [] = 0
running_new old_ids (r ∷ replicas) =
    let rest = running_new old_ids replicas in
    if is_running r && not (member r.replica_id old_ids) then suc rest else rest

abbrev pub with_replicas : ServiceState → ℤ → ServiceState
with_replicas service replicas = record service {
  spec = record service.spec { replicas = replicas };
}

-- _ROLLOUT_HEALTH_WAIT_TIMEOUT, in intervals of _ROLLOUT_HEALTH_WAIT_INTERVAL seconds
abbrev pub wait_rounds : ℕ
wait_rounds = 60 / 2

module _ (env : Env) where
  unfoldable pub put_rollout : RolloutState → Step env (Unit {0})
  put_rollout rollout w = (
    returned tt,
    record w { deployments = env.deployment_store.put w.deployments rollout.deployment_id rollout },
  )

  unfoldable pub emit_rollout_progress : RolloutState → ℕ → ℕ → Step env (Unit {0})
  emit_rollout_progress rollout step total_steps = publish env EventKind.rollout_progress (
      ("deployment_id", Json.text rollout.deployment_id)
      ∷ ("service_name", Json.text rollout.spec.service_name)
      ∷ ("step", Json.number (pos step))
      ∷ ("total_steps", Json.number (pos total_steps))
      ∷ ("status", Json.text (if ltb step total_steps then "in_progress" else "complete"))
      ∷ [])

module _ (env : Env) (elapse : ℕ → ℕ → World env → World env) where
  -- whether a round of waiting is the last one
  unfoldable pub waited_enough : List ReplicaState → Option ServiceState → Bool
  unfolding running_new replica_ids_of
  waited_enough batch none = true
  waited_enough batch (some current_service) =
      leb (length batch) (running_new (replica_ids_of batch) current_service.replicas)

  unfoldable pub wait_for_new : ℕ → ℕ → String → List ReplicaState → World env → World env
  unfolding waited_enough
  wait_for_new zero left name batch w = w
  wait_for_new (suc rounds) left name batch w =
      let later = elapse rounds left w in
      let rest = wait_for_new rounds left name batch later in
      if waited_enough batch (env.service_store.get later.services name) then later else rest

  -- `current_service.spec.replicas` changed and put, where the service is there
  unfoldable pub change_replicas : (ℤ → ℤ) → Option ServiceState → Step env (Option ServiceState)
  change_replicas change none = pure none
  change_replicas change (some current_service) =
      let changed = with_replicas current_service (change current_service.spec.replicas) in
      do put_service env changed.spec.name changed; pure (some changed)

  -- the end of a turn, at what the second `get` answered: `none` leaves the loop
  unfoldable pub finish_batch :
      RolloutState → List ReplicaState → ℕ → ℕ → Option ServiceState → Step env Bool
  unfolding emit_rollout_progress
  finish_batch rollout batch step total_steps none = pure false
  finish_batch rollout batch step total_steps (some current_service) = do
    each (remove_replica env current_service) batch
    emit_rollout_progress env rollout step total_steps
    pure true

  unfoldable pub wait_and_finish :
      RolloutState → List ReplicaState → ℕ → ℕ → ℕ → Option ServiceState → Step env Bool
  unfolding wait_for_new change_replicas finish_batch
  wait_and_finish rollout batch left step total_steps none w = (returned false, w)
  wait_and_finish rollout batch left step total_steps (some surged) w =
      let name = rollout.spec.service_name in
      let later = wait_for_new wait_rounds left name batch w in
      (do
        current_service ← get_service env name
        reduced ← change_replicas (λ n. n -ℤ pos (length batch)) current_service
        finish_batch rollout batch step total_steps reduced)
        later

  -- one turn of `while old_replicas`; whether the loop goes on
  unfoldable pub roll_batch : RolloutState → List ReplicaState → ℕ → ℕ → ℕ → Step env Bool
  unfolding wait_and_finish change_replicas
  roll_batch rollout batch left step total_steps = do
    current_service ← get_service env rollout.spec.service_name
    surged ← change_replicas (λ n. n +ℤ pos (length batch)) current_service
    wait_and_finish rollout batch left step total_steps surged

  -- the loop, on fuel, which has one turn for each old replica
  unfoldable pub roll_batches :
      ℕ → RolloutState → ℕ → ℕ → ℕ → List ReplicaState → Step env (Unit {0})
  unfolding roll_batch
  roll_batches fuel rollout batch_size step total_steps [] w = (returned tt, w)
  roll_batches zero rollout batch_size step total_steps (r ∷ old_replicas) w = (returned tt, w)
  roll_batches (suc fuel) rollout batch_size step total_steps (r ∷ old_replicas) w =
      let batch = take batch_size (r ∷ old_replicas) in
      let left = drop batch_size (r ∷ old_replicas) in
      let done = step + length batch in
      next
        (λ go_on w'.
          let rest = roll_batches fuel rollout batch_size done total_steps left w' in
          if go_on then rest else (returned tt, w'))
        (roll_batch rollout batch (length left) done total_steps w)

  -- the end, at what the last `get` answered
  unfoldable pub complete_rollout : Option ServiceState → Step env (Unit {0})
  complete_rollout none = pure tt
  complete_rollout (some final_service) =
      put_service env final_service.spec.name
        (record final_service { status = ResourceStatus.running })

  unfoldable pub roll_service : RolloutState → Option ServiceState → Step env (Unit {0})
  unfolding roll_batches complete_rollout put_rollout batch_size_of
  roll_service rollout none = pure tt
  roll_service rollout (some service_state) =
      let old_replicas = service_state.replicas in
      let total_steps = length old_replicas in
      let updating = record service_state {
        spec = record service_state.spec { image = rollout.spec.new_image };
        status = ResourceStatus.updating;
      } in
      do
        put_service env updating.spec.name updating
        roll_batches total_steps rollout (batch_size_of rollout.spec.strategy.max_surge) 0
            total_steps old_replicas
        put_rollout env (record rollout { status = ResourceStatus.running })
        final_service ← get_service env rollout.spec.service_name
        complete_rollout final_service

  unfoldable pub run_rollout : RolloutState → Step env (Unit {0})
  unfolding roll_service put_rollout
  run_rollout rollout =
      let started = record rollout { status = ResourceStatus.updating } in
      do
        put_rollout env started
        service_state ← get_service env rollout.spec.service_name
        roll_service started service_state

  unfoldable pub discard : String → World env → World env
  discard deployment_id w = record w {
    executing_rollouts = remove_id deployment_id w.executing_rollouts;
  }

  unfoldable pub execute_rollout : RolloutState → Step env (Unit {0})
  unfolding discard
  execute_rollout rollout w =
      let done = run_rollout rollout w in (done.0, discard rollout.deployment_id (done.1))

-- the condition of `_dispatch_pending_rollouts`
unfoldable pub startable : List String → RolloutState → Bool
unfolding member
startable executing rollout =
    is_status rollout.status ResourceStatus.pending && not (member rollout.deployment_id executing)

-- its loop: the tasks that it creates, and the set that it leaves
unfoldable pub dispatch : List String → List RolloutState → List RolloutState × List String
unfolding startable
dispatch executing [] = ([], executing)
dispatch executing (rollout ∷ rollouts) =
    let started = dispatch (rollout.deployment_id ∷ executing) rollouts in
    let rest = dispatch executing rollouts in
    if startable executing rollout then (rollout ∷ started.0, started.1) else rest

module _ (env : Env) where
  unfoldable pub dispatch_pending_rollouts : Step env (List RolloutState)
  unfolding dispatch
  dispatch_pending_rollouts w =
      let done = dispatch w.executing_rollouts (env.deployment_store.list w.deployments) in
      (returned (done.0), record w { executing_rollouts = done.1 })
