-- ===== src/Proxy/Gateway/Candidates.antt =====
-- aws_light/proxy/proxy_server.py: which of the candidates answers, and the status where none does.
use aws_light.Prelude.{
  ℕ, ◌≡◌, refl, String, Bool, true, false, Option, none, some, List, [], ◌∷◌, ◌++◌, ◌||◌, arith,
  ◌⊎◌, inl, inr,
}
use mathlib.Core.List.{append_assoc, append-nil}
use aws_light.Proxy.RoutingTable.{ReplicaEndpoint}
use aws_light.Proxy.Gateway.{
  Attempt, answered, timed_out, unreachable, Written, response, Forwarded, try_endpoints, exhausted,
  forward_http_to_candidates,
}

-- The answers of the endpoints, in order: the first answer with the replicas before it, or that there
-- is none and whether one timed out.
pub record Summary (Response : Type 0) : Type 0 where
  pub answer : Option (ℕ × Response)
  pub before : List String
  pub late : Bool

module _ {Response : Type 0} where
  abbrev pub summary :
      (ReplicaEndpoint → Attempt Response) → List ReplicaEndpoint → Summary Response
  summary attempt [] = record { answer = none; before = []; late = false }
  summary attempt (e ∷ endpoints) =
      let rest = summary attempt endpoints in
      elim (attempt e) [
        | answered status_code text ↦ record {
          answer = some (status_code, text);
          before = [];
          late = false;
        }
        | timed_out ↦ record rest { before = e.replica_id ∷ rest.before; late = true }
        | unreachable ↦ record rest { before = e.replica_id ∷ rest.before }
      ]

  abbrev pub reply : Option (ℕ × Response) → Bool → List String → Forwarded Response
  reply (some (code, text)) late failures = record {
    written = response text;
    status_code = code;
    failure_reason = none;
    failures = failures;
  }
  reply none true failures = record {
    written = Written.gateway_timeout;
    status_code = 504;
    failure_reason = some "upstream_response_timeout";
    failures = failures;
  }
  reply none false failures = record {
    written = Written.bad_gateway;
    status_code = 502;
    failure_reason = some "upstream_unreachable";
    failures = failures;
  }

  abbrev concluded : Bool → List String → Summary Response → Forwarded Response
  concluded late failures s = reply s.answer (late || s.late) (failures ++ s.before)

  Attempt-cases :
      (a : Attempt Response)
      → ((code : ℕ) × (text : Response) × (a ≡ answered code text))
        ⊎ (a ≡ Attempt.timed_out ⊎ a ≡ Attempt.unreachable)
  Attempt-cases (answered code text) = inl (code, text, refl)
  Attempt-cases Attempt.timed_out = inr (inl refl)
  Attempt-cases Attempt.unreachable = inr (inr refl)

  try_endpoints-Summary :
      (attempt : ReplicaEndpoint → Attempt Response) (timeout_seen : Bool) (failures : List String)
      (endpoints : List ReplicaEndpoint)
      → try_endpoints attempt timeout_seen failures endpoints
        ≡ concluded timeout_seen failures (summary attempt endpoints)
  unfolding try_endpoints exhausted
  try_endpoints-Summary attempt true failures [] = rw (append-nil failures) refl
  try_endpoints-Summary attempt false failures [] = rw (append-nil failures) refl
  try_endpoints-Summary attempt timeout_seen failures (e ∷ endpoints) =
      elim (Attempt-cases (attempt e)) [
        | inl (code, text, h) ↦ ground (arith, h, append-nil failures)
        | inr (inl h) ↦
            let later =
              try_endpoints-Summary attempt true (failures ++ e.replica_id ∷ []) endpoints in
            ground (
              arith,
              h,
              later,
              append_assoc failures (e.replica_id ∷ []) (summary attempt endpoints).before,
            )
        | inr (inr h) ↦
            let later =
              try_endpoints-Summary attempt timeout_seen (failures ++ e.replica_id ∷ [])
                endpoints in
            ground (
              arith,
              h,
              later,
              append_assoc failures (e.replica_id ∷ []) (summary attempt endpoints).before,
            )
      ]

  -- A request is answered by the first candidate that answers; where none does the client gets 504
  -- if one timed out and 502 otherwise, and the failures are the candidates before the answer.
  pub forward_http_to_candidates-Summary :
      (attempt : ReplicaEndpoint → Attempt Response) (endpoints : List ReplicaEndpoint)
      → forward_http_to_candidates attempt endpoints
        ≡ reply
            (summary attempt endpoints).answer
            (summary attempt endpoints).late
            (summary attempt endpoints).before
  unfolding forward_http_to_candidates
  forward_http_to_candidates-Summary attempt endpoints =
      try_endpoints-Summary attempt false [] endpoints
