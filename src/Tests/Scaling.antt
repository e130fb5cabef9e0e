-- ===== src/Tests/Scaling.antt =====
-- Examples of the autoscaler.
use aws_light.Prelude.{◌≡◌, refl, ◌+◌, ◌==◌, [], ◌∷◌, true, some, arith, if◌then◌else◌, length}
use aws_light.Prelude.Int.{pos, ◌-ℤ◌}
use aws_light.Config.{default_settings}
use aws_light.Dict
use aws_light.Models.{ServiceState}
use aws_light.Autoscaler.{
  Autoscaler, ServiceMetrics, evaluate_service, is_scale_down_candidate, required, consecutive,
}
use aws_light.Autoscaler.Decisions.{Separated, set_replicas, target, decide, evaluate-store}
use aws_light.Autoscaler.Bounds.{InRange, evaluations, evaluate-InRange, evaluations-idle}
use aws_light.Tests.Samples.{state_of}

abbrev scaler : Autoscaler
scaler = record {
  service_store = ("api", state_of "api") ∷ [];
  scale_down_counters = [];
  last_evaluation_decisions = [];
  events = [];
}

abbrev busy : ServiceMetrics
busy = record { average_cpu_percent = pos 9000; requests_per_second = pos 0 }

abbrev idle : ServiceMetrics
idle = record { average_cpu_percent = pos 100; requests_per_second = pos 0 }

default-Separated : Separated default_settings
default-Separated = record { cpu = ground arith; rps = ground arith }

evaluate-store_example :
    (evaluate_service default_settings scaler (state_of "api") busy).service_store
    ≡ set_replicas scaler.service_store "api"
        (target (decide default_settings scaler (state_of "api").spec busy) (pos 2))
evaluate-store_example =
    evaluate-store default_settings default-Separated scaler (state_of "api") busy

api_there : Dict.get scaler.service_store "api" ≡ some (state_of "api")
unfolding Dict.get
api_there = refl

evaluate-InRange_example :
    (state : ServiceState) × (Dict.get
        (evaluate_service default_settings scaler (state_of "api") busy).service_store
        "api"
      ≡ some state)
    × InRange state.spec
evaluate-InRange_example =
    evaluate-InRange default_settings scaler (state_of "api") busy default-Separated api_there
      (ground arith, ground arith)

idle_candidate : is_scale_down_candidate default_settings idle ≡ true
unfolding is_scale_down_candidate
idle_candidate = refl

counted : consecutive default_settings scaler (state_of "api").spec ≡ 1
unfolding Dict.get
counted = refl

evaluations-idle_example :
    (evaluations default_settings scaler (state_of "api") (idle ∷ idle ∷ [])).service_store ≡ (
      if consecutive default_settings scaler (state_of "api").spec + length (idle ∷ idle ∷ [])
        == required default_settings + 1
      then set_replicas scaler.service_store "api" (some (pos 2 -ℤ pos 1))
      else scaler.service_store)
evaluations-idle_example =
    evaluations-idle default_settings scaler (state_of "api") (idle ∷ idle ∷ []) default-Separated
      (idle_candidate, (idle_candidate, tt)) refl (omega arith) (omega (arith, counted))
