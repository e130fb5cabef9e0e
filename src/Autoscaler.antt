-- ===== src/Autoscaler.antt =====
-- aws_light/autoscaler/autoscaler.py. The metrics of a service are an argument: they come from Redis.
pub mod Decisions
pub mod Bounds
use mathlib.Core.Option
use aws_light.Prelude.{
  ℕ, ◌+◌, String, ◌≡◌, Bool, true, false, not, ◌&&◌, ◌||◌, Option, none, some, List, [], ◌∷◌, ◌++◌,
  ltb, leb, str_eq, if◌then◌else◌,
}
use aws_light.Prelude.Int.{ℤ, pos, ◌+ℤ◌, ◌-ℤ◌, ltb_ℤ}
use aws_light.Config.{Settings}
use aws_light.Text.{join, decimal}
use aws_light.Dict
use aws_light.Dict.{Dict}
use aws_light.Json.{Json}
use aws_light.Events.{EventKind, WebSocketEvent}
use aws_light.Models.{Amount, ServiceSpec, ServiceState}

pub record ServiceMetrics : Type 0 where
  pub average_cpu_percent : Amount
  pub requests_per_second : Amount

pub record Autoscaler : Type 0 where
  pub service_store : Dict ServiceState
  pub scale_down_counters : Dict ℕ
  pub last_evaluation_decisions : Dict String
  pub events : List WebSocketEvent

-- the two kinds of a decision that differ in the text are told apart by their numbers
pub data Decision : Type 0 where
  scale_up hold_at_max scale_down hold_at_min hold : Decision
  wait_scale_down : ℕ → ℕ → Decision

unfoldable pub decision_text : Decision → String
unfolding join
decision_text Decision.scale_up = "scale_up"
decision_text Decision.hold_at_max = "hold_at_max"
decision_text Decision.scale_down = "scale_down"
decision_text Decision.hold_at_min = "hold_at_min"
decision_text Decision.hold = "hold"
decision_text (wait_scale_down n m) =
    join ("wait_scale_down_" ∷ decimal n ∷ "_of_" ∷ decimal m ∷ [])

-- Python's `==` of two integers, `min` and `max`
unfoldable pub eqb_ℤ : ℤ → ℤ → Bool
eqb_ℤ a b = not (ltb_ℤ a b) && not (ltb_ℤ b a)

unfoldable pub min_ℤ : ℤ → ℤ → ℤ
min_ℤ a b = if ltb_ℤ b a then b else a

unfoldable pub max_ℤ : ℤ → ℤ → ℤ
max_ℤ a b = if ltb_ℤ a b then b else a

unfoldable pub publish : Autoscaler → EventKind → Dict Json → Autoscaler
publish a kind payload = record a {
  events = a.events ++ record { kind = kind; payload = payload } ∷ [];
}

module _ (settings : Settings) where
  unfoldable pub is_scale_up : ServiceMetrics → Bool
  is_scale_up metrics =
      ltb_ℤ settings.autoscaler_cpu_scale_up_threshold metrics.average_cpu_percent
      || ltb_ℤ settings.autoscaler_rps_scale_up_threshold metrics.requests_per_second

  unfoldable pub is_scale_down_candidate : ServiceMetrics → Bool
  is_scale_down_candidate metrics =
      ltb_ℤ metrics.average_cpu_percent settings.autoscaler_cpu_scale_down_threshold
      && ltb_ℤ metrics.requests_per_second settings.autoscaler_rps_scale_down_threshold

  abbrev pub required : ℕ
  required = settings.autoscaler_scale_down_consecutive_checks

  -- `self._scale_down_counters.get(spec.name, 0) + 1`
  abbrev pub consecutive : Autoscaler → ServiceSpec → ℕ
  consecutive a spec = Option.get_or (Dict.get a.scale_down_counters spec.name) 0 + 1

  unfoldable pub autoscale_decision : Autoscaler → ServiceSpec → Bool → Bool → Decision
  autoscale_decision a spec up candidate =
      if up && ltb_ℤ spec.replicas spec.max_replicas
      then Decision.scale_up
      else if up
      then Decision.hold_at_max
      else if candidate && ltb_ℤ spec.min_replicas spec.replicas
      then (if leb required (consecutive a spec)
          then Decision.scale_down
          else wait_scale_down (consecutive a spec) required)
      else if candidate
      then Decision.hold_at_min
      else Decision.hold

  unfoldable pub publish_evaluation_if_changed :
      Autoscaler → ServiceSpec → ServiceMetrics → Bool → Bool → String → Autoscaler
  unfolding publish
  publish_evaluation_if_changed a spec metrics up candidate decision =
      let changed =
        publish
          (record a {
            last_evaluation_decisions = Dict.put a.last_evaluation_decisions spec.name decision;
          })
          EventKind.autoscale_evaluated
          (("service_name", Json.text spec.name)
            ∷ ("current_replicas", Json.number spec.replicas)
            ∷ ("min_replicas", Json.number spec.min_replicas)
            ∷ ("max_replicas", Json.number spec.max_replicas)
            ∷ ("average_cpu_percent", Json.number metrics.average_cpu_percent)
            ∷ ("requests_per_second", Json.number metrics.requests_per_second)
            ∷ ("scale_up_threshold_cpu", Json.number settings.autoscaler_cpu_scale_up_threshold)
            ∷ ("scale_up_threshold_rps", Json.number settings.autoscaler_rps_scale_up_threshold)
            ∷ ("scale_down_threshold_cpu", Json.number settings.autoscaler_cpu_scale_down_threshold)
            ∷ ("scale_down_threshold_rps", Json.number settings.autoscaler_rps_scale_down_threshold)
            ∷ ("scale_up_candidate", Json.flag up)
            ∷ ("scale_down_candidate", Json.flag candidate)
            ∷ ("decision", Json.text decision)
            ∷ []) in
      elim (Dict.get a.last_evaluation_decisions spec.name) [
        | none ↦ changed
        | some previous ↦ if str_eq previous decision then a else changed
      ]

  unfoldable pub apply_scale : Autoscaler → ServiceSpec → ℤ → String → ServiceMetrics → Autoscaler
  unfolding publish
  apply_scale a spec new_replica_count reason metrics = elim (Dict.get a.service_store spec.name) [
    | none ↦ a
    | some refreshed ↦
        publish
          (record a {
            service_store = Dict.put a.service_store spec.name (record refreshed {
              spec = record (refreshed.spec) { replicas = new_replica_count };
            });
          })
          EventKind.autoscale_triggered
          (("service_name", Json.text spec.name)
            ∷ ("from_replicas", Json.number spec.replicas)
            ∷ ("to_replicas", Json.number new_replica_count)
            ∷ ("reason", Json.text reason)
            ∷ ("average_cpu_percent", Json.number metrics.average_cpu_percent)
            ∷ ("requests_per_second", Json.number metrics.requests_per_second)
            ∷ [])
  ]

  unfoldable pub pop_counter : Autoscaler → ServiceSpec → Autoscaler
  pop_counter a spec = record a { scale_down_counters = Dict.pop a.scale_down_counters spec.name }

  -- the last statement of `_evaluate_service`
  unfoldable pub act : Autoscaler → ServiceSpec → ServiceMetrics → Bool → Bool → Autoscaler
  unfolding pop_counter min_ℤ max_ℤ
  act a spec metrics up candidate =
      if up && ltb_ℤ spec.replicas spec.max_replicas
      then apply_scale (pop_counter a spec) spec (min_ℤ (spec.replicas +ℤ pos 1) spec.max_replicas)
          "scale_up" metrics
      else if candidate && ltb_ℤ spec.min_replicas spec.replicas
      then (let counted = record a {
        scale_down_counters = Dict.put a.scale_down_counters spec.name (consecutive a spec);
      } in
          if leb required (consecutive a spec)
          then apply_scale (pop_counter counted spec) spec
              (max_ℤ (spec.replicas -ℤ pos 1) spec.min_replicas) "scale_down" metrics
          else counted)
      else pop_counter a spec

  unfoldable pub evaluate_service : Autoscaler → ServiceState → ServiceMetrics → Autoscaler
  evaluate_service a service_state metrics =
      let spec = service_state.spec in
      let up = is_scale_up metrics in
      let candidate = is_scale_down_candidate metrics in
      let decision = decision_text (autoscale_decision a spec up candidate) in
      act (publish_evaluation_if_changed a spec metrics up candidate decision) spec metrics up
        candidate

  -- the loop of `_evaluate_all_services`, with what `collect` answers for each service
  unfoldable pub evaluate_all :
      (String → ServiceMetrics) → Autoscaler → List ServiceState → Autoscaler
  evaluate_all collect a [] = a
  evaluate_all collect a (service_state ∷ all_services) =
      let spec = service_state.spec in
      evaluate_all collect
        (if eqb_ℤ spec.min_replicas spec.max_replicas
          then a
          else evaluate_service a service_state (collect spec.name))
        all_services

  unfoldable pub evaluate_all_services : (String → ServiceMetrics) → Autoscaler → Autoscaler
  evaluate_all_services collect a = evaluate_all collect a (Dict.values a.service_store)
