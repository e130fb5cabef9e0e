-- ===== src/Proxy/Gateway.antt =====
-- `_forward_http_to_candidates` of aws_light/proxy/proxy_server.py. How the try at an endpoint ends is an argument.
pub mod Candidates
use aws_light.Prelude.{ℕ, String, Bool, true, false, Option, none, some, List, [], ◌∷◌, ◌++◌}
use aws_light.Proxy.RoutingTable.{ReplicaEndpoint}

-- How `_forward_http_to_endpoint` ends: with the status and the response it wrote to the client, with a
-- time-out, or with an error of the connection or of the response.
pub data Attempt (Response : Type 0) : Type 0 where
  answered : ℕ → Response → Attempt Response
  timed_out unreachable : Attempt Response

-- What is written to the client.
pub data Written (Response : Type 0) : Type 0 where
  response : Response → Written Response
  bad_gateway gateway_timeout : Written Response

-- What is written, what `_record_proxy_result` is told, and the replicas in `failures`, in order.
pub record Forwarded (Response : Type 0) : Type 0 where
  pub written : Written Response
  pub status_code : ℕ
  pub failure_reason : Option String
  pub failures : List String

module _ {Response : Type 0} (attempt : ReplicaEndpoint → Attempt Response) where
  unfoldable pub exhausted : Bool → List String → Forwarded Response
  exhausted true failures = record {
    written = gateway_timeout;
    status_code = 504;
    failure_reason = some "upstream_response_timeout";
    failures = failures;
  }
  exhausted false failures = record {
    written = bad_gateway;
    status_code = 502;
    failure_reason = some "upstream_unreachable";
    failures = failures;
  }

  -- the loop, from `timeout_seen` and `failures`
  unfoldable pub try_endpoints : Bool → List String → List ReplicaEndpoint → Forwarded Response
  unfolding exhausted
  try_endpoints timeout_seen failures [] = exhausted timeout_seen failures
  try_endpoints timeout_seen failures (endpoint ∷ endpoints) = elim (attempt endpoint) [
    | answered status_code text ↦ record {
      written = response text;
      status_code = status_code;
      failure_reason = none;
      failures = failures;
    }
    | timed_out ↦ try_endpoints true (failures ++ endpoint.replica_id ∷ []) endpoints
    | unreachable ↦ try_endpoints timeout_seen (failures ++ endpoint.replica_id ∷ []) endpoints
  ]

  unfoldable pub forward_http_to_candidates : List ReplicaEndpoint → Forwarded Response
  unfolding try_endpoints
  forward_http_to_candidates endpoints = try_endpoints false [] endpoints
