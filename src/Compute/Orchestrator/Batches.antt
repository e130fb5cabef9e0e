-- ===== src/Compute/Orchestrator/Batches.antt =====
-- aws_light/compute/orchestrator.py: how a rollout ends, and which rollouts start.
use aws_light.Prelude.{
  ℕ, zero, suc, ◌+◌, ◌≤◌, ◌≡◌, refl, Bool, true, false, take, if◌then◌else◌, Option, none, some,
  List, [], ◌∷◌, arith, length, drop, length-drop,
}
use aws_light.Prelude.Int.{ℤ}
use aws_light.Prelude.Outcome.{Outcome, raised, returned}
use aws_light.Prelude.Action.{next}
use aws_light.Prelude.Hoare.{After, After-next}
use aws_light.Models.{ServiceState, ReplicaState}
use aws_light.Models.Status.{ResourceStatus}
use aws_light.Store.{IsStore}
use aws_light.Store.Laws.{get-put_self}
use aws_light.Compute.Orchestrator.World.{
  Env, World, Failure, RolloutState, get_service, put_service,
}
use aws_light.Compute.Orchestrator.Rollout.{
  batch_size_of, roll_batch, roll_batches, complete_rollout, roll_service, run_rollout, put_rollout,
}

batch_size_of-positive : (max_surge : ℤ) → 1 ≤ batch_size_of max_surge
unfolding batch_size_of
batch_size_of-positive max_surge = ground arith

fewer :
    (n fuel : ℕ) (r : ReplicaState) (rs : List ReplicaState)
    → 1 ≤ n
    → length (r ∷ rs) ≤ suc fuel
    → length (drop n (r ∷ rs)) ≤ fuel
fewer n fuel r rs positive enough = omega (arith, positive, enough, length-drop n (r ∷ rs))

module _ (env : Env) (elapse : ℕ → ℕ → World env → World env) (rollout : RolloutState)
    (batch_size total_steps : ℕ) where
  -- the turn of `while old_replicas` that takes the next batch
  abbrev turn : ℕ → List ReplicaState → World env → Outcome Failure Bool × World env
  turn step old_replicas =
      let batch = take batch_size old_replicas in
      roll_batch env elapse rollout batch (length (drop batch_size old_replicas))
        (step + length batch) total_steps

  -- A run of `while old_replicas` to its end, in any number of turns: it ends where no old replica is
  -- left, where a turn breaks out of it, and where a turn raises.
  pub data Rolls
      : ℕ → List ReplicaState → World env → Outcome Failure (Unit {0}) × World env → Type 0 where
    drained : {step : ℕ} {w : World env} → Rolls step [] w (returned tt, w)
    left_loop :
        {step : ℕ} {r : ReplicaState} {rs : List ReplicaState} {w w' : World env}
        → turn step (r ∷ rs) w ≡ (returned false, w')
        → Rolls step (r ∷ rs) w (returned tt, w')
    failed :
        {step : ℕ} {r : ReplicaState} {rs : List ReplicaState} {w w' : World env} {e : Failure}
        → turn step (r ∷ rs) w ≡ (raised e, w')
        → Rolls step (r ∷ rs) w (raised e, w')
    again :
        {step : ℕ} {r : ReplicaState} {rs : List ReplicaState} {w w' : World env}
        {result : Outcome Failure (Unit {0}) × World env}
        → turn step (r ∷ rs) w ≡ (returned true, w')
        → Rolls (step + length (take batch_size (r ∷ rs))) (drop batch_size (r ∷ rs)) w' result
        → Rolls step (r ∷ rs) w result

  -- one turn, by what it answers, with the rest of the loop after it
  turn-Rolls :
      (step : ℕ) (r : ReplicaState) (rs : List ReplicaState) (w : World env)
      (rest : World env → Outcome Failure (Unit {0}) × World env)
      (done : Outcome Failure Bool × World env)
      → turn step (r ∷ rs) w ≡ done
      → ((w' : World env)
          → Rolls
              (step + length (take batch_size (r ∷ rs)))
              (drop batch_size (r ∷ rs))
              w'
              (rest w'))
      → Rolls step (r ∷ rs) w (next (λ go_on w'. if go_on then rest w' else (returned tt, w')) done)
  unfolding next
  turn-Rolls step r rs w rest (raised e, w') answer later = failed answer
  turn-Rolls step r rs w rest (returned true, w') answer later = again answer (later w')
  turn-Rolls step r rs w rest (returned false, w') answer later = left_loop answer

  -- TODO
  pub roll_batches-Rolls :
      (fuel step : ℕ) (old_replicas : List ReplicaState) (w : World env)
      → 1 ≤ batch_size
      → length old_replicas ≤ fuel
      → Rolls step old_replicas w
          (roll_batches env elapse fuel rollout batch_size step total_steps old_replicas w)
  unfolding roll_batches
  roll_batches-Rolls fuel step [] w positive enough = drained
  roll_batches-Rolls zero step (r ∷ rs) w positive enough = absurd (ground (arith, enough))
  roll_batches-Rolls (suc fuel) step (r ∷ rs) w positive enough =
      turn-Rolls step r rs w _ _ refl
        (λ w'. roll_batches-Rolls fuel _ _ w' positive (fewer batch_size fuel r rs positive enough))

module _ (env : Env) (elapse : ℕ → ℕ → World env → World env) where
  -- Whatever max_surge is and whatever others do while it waits, the loop of a rollout over the
  -- batches of its old replicas comes to an end, by running out of old replicas, by a turn that
  -- breaks out of it or by a turn that raises, and as many turns as there are old replicas give
  -- its result.
  pub roll_batches-Ends :
      (rollout : RolloutState) (old_replicas : List ReplicaState) (w : World env)
      → let batch_size = batch_size_of rollout.spec.strategy.max_surge in
        let total_steps = length old_replicas in
        Rolls env elapse rollout batch_size total_steps 0 old_replicas w
          (roll_batches env elapse total_steps rollout batch_size 0 total_steps old_replicas w)
  roll_batches-Ends rollout old_replicas w =
      roll_batches-Rolls env elapse rollout _ _ _ 0 old_replicas w
        (batch_size_of-positive rollout.spec.strategy.max_surge) (omega arith)

-- the status of a rollout at its end, by the service that it found
abbrev pub final_status : Option ServiceState → ResourceStatus
final_status none = ResourceStatus.updating
final_status (some service) = ResourceStatus.running

-- The store has the rollout with the status that belongs to the service it found.
pub record Finished (env : Env) (rollout : RolloutState) (found : Option ServiceState)
    (w : World env) : Type 0 where
  pub recorded :
      env.deployment_store.get w.deployments rollout.deployment_id
      ≡ some (record rollout { status = final_status found })

module _ (env : Env) (elapse : ℕ → ℕ → World env → World env)
    (law : IsStore env.deployment_store) where
  always :
      {A : Type 0} (done : Outcome Failure A × World env) → After (λ _ _. Unit) (λ _. Unit) done
  unfolding After
  always (raised e, w) = tt
  always (returned a, w) = tt

  complete_rollout-Finished :
      (rollout : RolloutState) (service : ServiceState) (last : Option ServiceState) (w : World env)
      → Finished env rollout (some service) w
      → After
          (λ _. Finished env rollout (some service))
          (λ _. Unit)
          (complete_rollout env elapse last w)
  unfolding complete_rollout put_service After next
  complete_rollout-Finished rollout service none w h = h
  complete_rollout-Finished rollout service (some final_service) w h = record {
    recorded = h.recorded;
  }

  roll_service-Finished :
      (rollout : RolloutState) (found : Option ServiceState) (w : World env)
      → Finished env rollout none w
      → After
          (λ _. Finished env rollout found)
          (λ _. Unit)
          (roll_service env elapse (record rollout { status = ResourceStatus.updating }) found w)
  unfolding roll_service put_rollout get_service put_service After next
  roll_service-Finished rollout none w h = h
  roll_service-Finished rollout (some service) w h =
      After-next (λ _ _. Unit) (λ _. Unit) (λ _. Finished env rollout (some service)) _ _
        (always (roll_batches env elapse _ _ _ 0 _ service.replicas _))
        (λ _ w' _. complete_rollout-Finished rollout service _ _ (record {
          recorded = get-put_self env.deployment_store law w'.deployments rollout.deployment_id _;
        }))

  -- Whatever others do while it waits, where a rollout returns its status in the store is RUNNING
  -- if its service was in the store when it started, and still UPDATING if not, if the store of
  -- rollouts is a map from names to items.
  pub run_rollout-Finished :
      (rollout : RolloutState) (w : World env)
      → After
          (λ _. Finished env rollout (env.service_store.get w.services rollout.spec.service_name))
          (λ _. Unit)
          (run_rollout env elapse rollout w)
  unfolding run_rollout put_rollout get_service After next
  run_rollout-Finished rollout w = roll_service-Finished rollout _ _ (record {
    recorded = get-put_self env.deployment_store law w.deployments rollout.deployment_id _;
  })
