-- ===== src/Proxy/HealthChecker.antt =====
-- `HealthChecker` of aws_light/proxy/health_checker.py. The answer to a probe is an argument: the
-- HTTP client is not part of the program. The routing table is the one of the checker.
pub mod Run
use aws_light.Prelude.{
  ℕ, ◌+◌, String, Bool, true, false, not, Option, List, [], ◌∷◌, ◌++◌, ltb, leb, str_eq,
  if◌then◌else◌, ◌==◌,
}
use aws_light.Prelude.Int.{pos}
use mathlib.Core.Option
use aws_light.Config.{Settings}
use aws_light.Dict
use aws_light.Dict.{Dict}
use aws_light.Json.{Json}
use aws_light.Events.{EventKind, WebSocketEvent}
use aws_light.Models.{ServiceState, ReplicaState}
use aws_light.Proxy.RoutingTable.{Table, set_healthy}

pub data Probe : Type 0 where
  response : ℕ → Probe
  exception : Probe

-- `_probe_http`
unfoldable pub is_success : Probe → Bool
is_success (response status_code) = ltb status_code 500
is_success exception = false

pub record HealthChecker : Type 0 where
  pub routing_table : Table
  pub consecutive_failures : Dict ℕ
  pub consecutive_successes : Dict ℕ
  pub routeable_replicas : Dict (Unit {0})
  pub events : List WebSocketEvent

unfoldable pub publish : HealthChecker → EventKind → Dict Json → HealthChecker
publish h kind payload = record h {
  events = h.events ++ record { kind = kind; payload = payload } ∷ [];
}

module _ (settings : Settings) (replica_id service_name url : String) where
  abbrev payload : Dict Json
  payload =
      ("replica_id", Json.text replica_id)
      ∷ ("service_name", Json.text service_name)
      ∷ ("url", Json.text url)
      ∷ []

  -- `if replica_id not in self._routeable_replicas`
  unfoldable pub announce : HealthChecker → HealthChecker
  unfolding publish
  announce h =
      if Dict.contains h.routeable_replicas replica_id
      then h
      else publish (record h { routeable_replicas = Dict.put h.routeable_replicas replica_id tt })
          EventKind.health_check_passed
          (payload
            ++ ("success_threshold", Json.number (pos settings.health_check_success_threshold))
              ∷ [])

  -- the branch of a success
  unfoldable pub on_success : HealthChecker → HealthChecker
  unfolding announce publish
  on_success h =
      let had_failures = Dict.contains h.consecutive_failures replica_id in
      let successes = Option.get_or (Dict.get h.consecutive_successes replica_id) 0 + 1 in
      let counted = record h {
        consecutive_successes = Dict.put h.consecutive_successes replica_id successes;
      } in
      if leb settings.health_check_success_threshold successes
      then (let cleared = announce (record counted {
        consecutive_successes = Dict.pop counted.consecutive_successes replica_id;
        consecutive_failures = Dict.pop counted.consecutive_failures replica_id;
        routing_table = set_healthy counted.routing_table replica_id true;
      }) in
          if had_failures
          then publish cleared EventKind.health_check_recovered payload
          else cleared)
      else counted

  -- the branch of a failure
  unfoldable pub on_failure : HealthChecker → HealthChecker
  unfolding publish
  on_failure h =
      let failures = Option.get_or (Dict.get h.consecutive_failures replica_id) 0 + 1 in
      let counted = record h {
        consecutive_failures = Dict.put h.consecutive_failures replica_id failures;
        consecutive_successes = Dict.pop h.consecutive_successes replica_id;
      } in
      if failures == settings.health_check_failure_threshold
      then publish
          (record counted {
            routeable_replicas = Dict.pop counted.routeable_replicas replica_id;
            routing_table = set_healthy counted.routing_table replica_id false;
          })
          EventKind.health_check_failed
          (payload ++ ("consecutive_failures", Json.number (pos failures)) ∷ [])
      else counted

  unfoldable pub check_replica : HealthChecker → String → Probe → HealthChecker
  unfolding is_success on_success on_failure
  check_replica h container_ip probe =
      if str_eq container_ip "" then h else if is_success probe then on_success h else on_failure h

module _ (settings : Settings) (url_of : ServiceState → ReplicaState → String) where
  -- the inner loop of `_check_all_services`, with the answer that each probe gets
  unfoldable pub check_replicas :
      (String → Probe) → ServiceState → HealthChecker → List ReplicaState → HealthChecker
  check_replicas answer service_state h [] = h
  check_replicas answer service_state h (replica ∷ replicas) =
      check_replicas answer service_state
        (check_replica settings replica.replica_id service_state.spec.name
          (url_of service_state replica) h replica.container_ip (answer replica.replica_id))
        replicas

  unfoldable pub check_all_services :
      (String → Probe) → HealthChecker → List ServiceState → HealthChecker
  unfolding check_replicas
  check_all_services answer h [] = h
  check_all_services answer h (service_state ∷ all_services) =
      check_all_services answer (check_replicas answer service_state h service_state.replicas)
        all_services
