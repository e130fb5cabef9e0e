-- ===== src/Events.antt =====
-- aws_light/models/events.py: the events that the components publish. The identifier and the time
-- of an event, which nothing decides by, are left out.
pub mod Bus
use aws_light.Prelude.{String, List}
use aws_light.Json.{Json}
use aws_light.Dict.{Dict}

pub data EventKind : Type 0 where
  platform_started service_updated replica_started replica_stopped replica_failed : EventKind
  scheduler_selected scheduler_no_capacity node_updated autoscale_evaluated : EventKind
  autoscale_triggered rollout_progress proxy_traffic_observed proxy_request_failed : EventKind
  health_check_passed health_check_recovered health_check_failed secret_created : EventKind
  bucket_created object_uploaded : EventKind

pub record WebSocketEvent : Type 0 where
  pub kind : EventKind
  pub payload : Dict Json
