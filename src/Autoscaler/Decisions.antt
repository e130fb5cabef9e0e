-- ===== src/Autoscaler/Decisions.antt =====
-- aws_light/autoscaler/autoscaler.py: what an evaluation decides and does.
use mathlib.Core.Option
use mathlib.Core.Path.{ap₂}
use aws_light.Prelude.{
  ℕ, String, ◌≡◌, ◌∙◌, ap, refl, Bool, true, false, ◌&&◌, Option, none, some, arith, eq_iff,
}
use aws_light.Prelude.Int.{ℤ, pos, ◌+ℤ◌, ◌-ℤ◌, ◌≤ℤ◌, ltb_ℤ, +ℤ_parts, -ℤ_parts}
use aws_light.Config.{Settings}
use aws_light.Dict
use aws_light.Dict.{Dict, get-put, get-pop}
use aws_light.Models.{ServiceSpec, ServiceState}
use aws_light.Autoscaler.{
  ServiceMetrics, Autoscaler, Decision, wait_scale_down, decision_text, min_ℤ, max_ℤ, is_scale_up,
  is_scale_down_candidate, consecutive, autoscale_decision, publish_evaluation_if_changed,
  apply_scale, act, evaluate_service,
}

-- the number of replicas that a decision asks for
abbrev pub target : Decision → ℤ → Option ℤ
target Decision.scale_up current = some (current +ℤ pos 1)
target Decision.scale_down current = some (current -ℤ pos 1)
target _ current = none

-- the number of evaluations that a decision has waited for
abbrev pub waiting : Decision → ℕ
waiting (wait_scale_down n m) = n
waiting _ = 0

-- the store with a new number of desired replicas for a service, if it is there
unfoldable pub set_replicas : Dict ServiceState → String → Option ℤ → Dict ServiceState
set_replicas store name none = store
set_replicas store name (some n) = elim (Dict.get store name) [
  | none ↦ store
  | some state ↦ Dict.put store name (record state { spec = record (state.spec) { replicas = n } })
]

apply_scale-store :
    (settings : Settings) (a : Autoscaler) (spec : ServiceSpec) (n : ℤ) (reason : String)
    (metrics : ServiceMetrics)
    → (apply_scale settings a spec n reason metrics).service_store
      ≡ set_replicas a.service_store spec.name (some n)
unfolding apply_scale set_replicas
apply_scale-store settings a spec n reason metrics = ground arith

apply_scale-counters :
    (settings : Settings) (a : Autoscaler) (spec : ServiceSpec) (n : ℤ) (reason : String)
    (metrics : ServiceMetrics)
    → (apply_scale settings a spec n reason metrics).scale_down_counters ≡ a.scale_down_counters
unfolding apply_scale
apply_scale-counters settings a spec n reason metrics = ground arith

min_above : (a b : ℤ) → ltb_ℤ a b ≡ true → min_ℤ (a +ℤ pos 1) b ≡ a +ℤ pos 1
unfolding min_ℤ
min_above a b h = ground (arith, +ℤ_parts a (pos 1))

max_below : (a b : ℤ) → ltb_ℤ b a ≡ true → max_ℤ (a -ℤ pos 1) b ≡ a -ℤ pos 1
unfolding max_ℤ
max_below a b h = ground (arith, -ℤ_parts a (pos 1))

module _ (settings : Settings) (a : Autoscaler) (spec : ServiceSpec)
    (metrics : ServiceMetrics) where
  act-store :
      (up candidate : Bool)
      → up && candidate ≡ false
      → (act settings a spec metrics up candidate).service_store
        ≡ set_replicas a.service_store spec.name
            (target (autoscale_decision settings a spec up candidate) spec.replicas)
  unfolding act autoscale_decision set_replicas apply_scale
  act-store true true h = cc
  act-store true false h = ground (arith, min_above spec.replicas spec.max_replicas)
  act-store false true h = ground (arith, max_below spec.replicas spec.min_replicas)
  act-store false false h = refl

  act-counter :
      (up candidate : Bool)
      → up && candidate ≡ false
      → Option.get_or
          (Dict.get (act settings a spec metrics up candidate).scale_down_counters spec.name)
          0
        ≡ waiting (autoscale_decision settings a spec up candidate)
  unfolding act autoscale_decision apply_scale
  act-counter true true h = cc
  act-counter up candidate h = ground (
    arith,
    eq_iff spec.name spec.name,
    get-pop a.scale_down_counters spec.name spec.name,
    get-put a.scale_down_counters spec.name spec.name (consecutive settings a spec),
    get-pop (Dict.put a.scale_down_counters spec.name (consecutive settings a spec)) spec.name
        spec.name,
  )

-- The thresholds for more and for fewer replicas do not overlap, as in the default settings.
pub record Separated (settings : Settings) : Type 0 where
  pub cpu :
      settings.autoscaler_cpu_scale_down_threshold ≤ℤ settings.autoscaler_cpu_scale_up_threshold
  pub rps :
      settings.autoscaler_rps_scale_down_threshold ≤ℤ settings.autoscaler_rps_scale_up_threshold

pub exclusive :
    (settings : Settings) (metrics : ServiceMetrics)
    → Separated settings
    → is_scale_up settings metrics && is_scale_down_candidate settings metrics ≡ false
unfolding is_scale_up is_scale_down_candidate
exclusive settings metrics sep = ground (arith, sep.cpu, sep.rps)

-- the decision of an evaluation
abbrev pub decide : Settings → Autoscaler → ServiceSpec → ServiceMetrics → Decision
decide settings a spec metrics =
    autoscale_decision settings a spec (is_scale_up settings metrics)
      (is_scale_down_candidate settings metrics)

-- publishing changes neither the store nor the counters
published :
    (settings : Settings) (a : Autoscaler) (spec : ServiceSpec) (metrics : ServiceMetrics)
    (up candidate : Bool) (text : String)
    → ((publish_evaluation_if_changed settings a spec metrics up candidate text).service_store
        ≡ a.service_store)
      × ((publish_evaluation_if_changed settings a spec metrics up candidate
            text).scale_down_counters
          ≡ a.scale_down_counters)
unfolding publish_evaluation_if_changed
published settings a spec metrics up candidate text = (ground arith, ground arith)

-- a decision depends on the counters alone
decision_of_counters :
    (settings : Settings) (a b : Autoscaler) (spec : ServiceSpec) (up candidate : Bool)
    → b.scale_down_counters ≡ a.scale_down_counters
    → autoscale_decision settings b spec up candidate
      ≡ autoscale_decision settings a spec up candidate
unfolding autoscale_decision
decision_of_counters settings a b spec up candidate e =
    ap (λ c. autoscale_decision settings (record a { scale_down_counters = c }) spec up candidate) e

module _ (settings : Settings) (sep : Separated settings) (a : Autoscaler) (state : ServiceState)
    (metrics : ServiceMetrics) where
  -- Where the thresholds of scaling down are not above those of scaling up, an evaluation changes
  -- the desired replicas of its service by one up, by one down or not at all, as its decision
  -- says, and changes no other service.
  pub evaluate-store :
      (evaluate_service settings a state metrics).service_store
      ≡ set_replicas a.service_store state.spec.name
          (target (decide settings a state.spec metrics) state.spec.replicas)
  unfolding evaluate_service
  evaluate-store =
      let up = is_scale_up settings metrics in
      let candidate = is_scale_down_candidate settings metrics in
      let text = decision_text (decide settings a state.spec metrics) in
      let a' = publish_evaluation_if_changed settings a state.spec metrics up candidate text in
      let (store, counters) = published settings a state.spec metrics up candidate text in
      act-store settings a' state.spec metrics up candidate (exclusive settings metrics sep)
      ∙ ap₂ (λ s d. set_replicas s state.spec.name (target d state.spec.replicas)) store
          (decision_of_counters settings a a' state.spec up candidate counters)

  -- After an evaluation the counter of the service is the number that its decision waits at, and 0
  -- where the decision does not wait.
  pub evaluate-counter :
      Option.get_or
        (Dict.get (evaluate_service settings a state metrics).scale_down_counters state.spec.name)
        0
      ≡ waiting (decide settings a state.spec metrics)
  unfolding evaluate_service
  evaluate-counter =
      let up = is_scale_up settings metrics in
      let candidate = is_scale_down_candidate settings metrics in
      let text = decision_text (decide settings a state.spec metrics) in
      let a' = publish_evaluation_if_changed settings a state.spec metrics up candidate text in
      let (_, counters) = published settings a state.spec metrics up candidate text in
      act-counter settings a' state.spec metrics up candidate (exclusive settings metrics sep)
      ∙ ap waiting (decision_of_counters settings a a' state.spec up candidate counters)
