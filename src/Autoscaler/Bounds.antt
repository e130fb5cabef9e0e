-- ===== src/Autoscaler/Bounds.antt =====
-- aws_light/autoscaler/autoscaler.py: the range of the desired replicas, and idle evaluations in a row.
use aws_light.Prelude.{
  ◌+◌, ◌≤◌, ◌<◌, String, ◌≡◌, ◌∙◌, ap, refl, Bool, true, Option, none, some, List, [], ◌∷◌, arith,
  leb, eq_iff, if◌then◌else◌, length, ◌==◌, All,
}
use aws_light.Prelude.Int.{ℤ, pos, ◌-ℤ◌, ◌≤ℤ◌, ltb_ℤ, +ℤ_parts, -ℤ_parts}
use aws_light.Config.{Settings}
use aws_light.Dict
use aws_light.Dict.{get-put}
use aws_light.Models.{ServiceSpec, ServiceState}
use aws_light.Autoscaler.{
  ServiceMetrics, Autoscaler, Decision, is_scale_down_candidate, required, consecutive,
  autoscale_decision, evaluate_service,
}
use aws_light.Autoscaler.Decisions.{
  target, set_replicas, waiting, Separated, exclusive, decide, evaluate-store, evaluate-counter,
}

abbrev pub InRange : ServiceSpec → Type 0
InRange spec = (spec.min_replicas ≤ℤ spec.replicas) × (spec.replicas ≤ℤ spec.max_replicas)

target-InRange :
    (settings : Settings) (a : Autoscaler) (spec : ServiceSpec) (up candidate : Bool) (n : ℤ)
    → InRange spec
    → target (autoscale_decision settings a spec up candidate) spec.replicas ≡ some n
    → (spec.min_replicas ≤ℤ n) × (n ≤ℤ spec.max_replicas)
unfolding autoscale_decision
target-InRange settings a spec up candidate n h e =
    ground (arith, h.0, h.1, +ℤ_parts spec.replicas (pos 1), -ℤ_parts spec.replicas (pos 1))

set_replicas-none :
    (store : Dict.Dict ServiceState) (name : String) → set_replicas store name none ≡ store
unfolding set_replicas
set_replicas-none store name = refl

get-set_replicas :
    (store : Dict.Dict ServiceState) (name : String) (state : ServiceState) (n : ℤ)
    → Dict.get store name ≡ some state
    → Dict.get (set_replicas store name (some n)) name
      ≡ some (record state { spec = record (state.spec) { replicas = n } })
unfolding set_replicas
get-set_replicas store name state n here =
    rw (here, set_replicas)
      (ground (
        arith,
        get-put store name name (record state { spec = record (state.spec) { replicas = n } }),
        eq_iff name name,
      ))

-- An evaluation of a service in the store whose desired replicas are within its range leaves it in
-- the store with a number of replicas in its range, if the thresholds of scaling down are not
-- above those of scaling up.
pub evaluate-InRange :
    (settings : Settings) (a : Autoscaler) (state : ServiceState) (metrics : ServiceMetrics)
    → Separated settings
    → Dict.get a.service_store state.spec.name ≡ some state
    → InRange state.spec
    → (after : ServiceState) × (Dict.get
          (evaluate_service settings a state metrics).service_store
          state.spec.name
        ≡ some after)
      × InRange after.spec
evaluate-InRange settings a state metrics sep here h =
    go (target (decide settings a state.spec metrics) state.spec.replicas) refl
  where
    go :
        (o : Option ℤ)
        → target (decide settings a state.spec metrics) state.spec.replicas ≡ o
        → (after : ServiceState) × (Dict.get
              (evaluate_service settings a state metrics).service_store
              state.spec.name
            ≡ some after)
          × InRange after.spec
    go none e = (
      state,
      ap (λ s. Dict.get s state.spec.name)
            (evaluate-store settings sep a state metrics
              ∙ ap (set_replicas a.service_store state.spec.name) e
              ∙ set_replicas-none a.service_store state.spec.name)
          ∙ here,
      h,
    )
    go (some n) e = (
      record state { spec = record (state.spec) { replicas = n } },
      ap (λ s. Dict.get s state.spec.name)
            (evaluate-store settings sep a state metrics
              ∙ ap (set_replicas a.service_store state.spec.name) e)
          ∙ get-set_replicas a.service_store state.spec.name state n here,
      target-InRange settings a state.spec _ _ n h e,
    )

decide_candidate :
    (settings : Settings) (a : Autoscaler) (spec : ServiceSpec) (metrics : ServiceMetrics)
    → Separated settings
    → is_scale_down_candidate settings metrics ≡ true
    → ltb_ℤ spec.min_replicas spec.replicas ≡ true
    → decide settings a spec metrics ≡ (
        if leb (required settings) (consecutive settings a spec)
        then Decision.scale_down
        else Decision.wait_scale_down (consecutive settings a spec) (required settings))
unfolding autoscale_decision
decide_candidate settings a spec metrics sep candidate above =
    ground (arith, exclusive settings metrics sep)

-- evaluations of one service, with the metrics of each
unfoldable pub evaluations : Settings → Autoscaler → ServiceState → List ServiceMetrics → Autoscaler
evaluations settings a state [] = a
evaluations settings a state (metrics ∷ rest) =
    evaluations settings (evaluate_service settings a state metrics) state rest

-- Where the thresholds of scaling down are not above those of scaling up, while fewer evaluations
-- in a row than required find a service above its minimum idle, the desired replicas stay; the one
-- that completes the number takes one replica away.
pub evaluations-idle :
    (settings : Settings) (a : Autoscaler) (state : ServiceState) (idle : List ServiceMetrics)
    → Separated settings
    → All (λ m. is_scale_down_candidate settings m ≡ true) idle
    → ltb_ℤ state.spec.min_replicas state.spec.replicas ≡ true
    → 0 < length idle
    → consecutive settings a state.spec + length idle ≤ required settings + 1
    → (evaluations settings a state idle).service_store ≡ (
        if consecutive settings a state.spec + length idle == required settings + 1
        then set_replicas a.service_store state.spec.name (some (state.spec.replicas -ℤ pos 1))
        else a.service_store)
unfolding evaluations
evaluations-idle settings a state [] sep all above some_idle few = absurd (omega arith)
evaluations-idle settings a state (m ∷ []) sep all above some_idle few = ground (
  arith,
  evaluate-store settings sep a state m,
  decide_candidate settings a state.spec m sep all.0 above,
  set_replicas-none a.service_store state.spec.name,
)
evaluations-idle settings a state (m ∷ m' ∷ rest) sep all above some_idle few =
    let a' = evaluate_service settings a state m in
    let c = consecutive settings a state.spec in
    let waits : decide settings a state.spec m ≡ Decision.wait_scale_down c (required settings) =
      ground (arith, decide_candidate settings a state.spec m sep all.0 above) in
    let store : a'.service_store ≡ a.service_store =
      evaluate-store settings sep a state m
      ∙ ap (λ d. set_replicas a.service_store state.spec.name (target d state.spec.replicas)) waits
      ∙ set_replicas-none a.service_store state.spec.name in
    let counted : consecutive settings a' state.spec ≡ c + 1 =
      ap (λ n. n + 1) (evaluate-counter settings sep a state m ∙ ap waiting waits) in
    let ih =
      evaluations-idle settings a' state (m' ∷ rest) sep all.1 above (omega arith) (omega arith) in
    ground (arith, ih)
