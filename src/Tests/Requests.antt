-- ===== src/Tests/Requests.antt =====
-- Examples of requests at the proxy.
use aws_light.Prelude.{
  String, ◌≡◌, refl, ℕ, ◌+◌, ◌++◌, ◌==◌, List, [], ◌∷◌, true, false, some, none, if◌then◌else◌,
}
use aws_light.Dict
use aws_light.Models.{ServiceState}
use aws_light.Secrets
use aws_light.Secrets.{SecretsManager, create_secret}
use aws_light.Proxy.RoutingTable.{ReplicaEndpoint}
use aws_light.Proxy.Bytes.{Bytes, encode, same, split, crlf, onto_first, partition, join}
use aws_light.Proxy.Bytes.Lines.{IsLine, has_crlf}
use aws_light.Proxy.Http.{
  header_delimiter, header_value, header_lines, nonempty_lines, header_name,
  rewrite_request_headers, host_line, is_named, among, hop_by_hop_headers,
}
use aws_light.Proxy.Http.Forwarded.{header_value-rewrite_request_headers}
use aws_light.Proxy.Head.{read_http_head}
use aws_light.Proxy.Head.Whole.{HeadRead, read_http_head-Whole}
use aws_light.Proxy.Ingress
use aws_light.Proxy.Ingress.{mapping, normalize_internal, normalized_enabled}
use aws_light.Proxy.Ingress.Policy.{Authentic, admission-Authentic}
use aws_light.Proxy.Gateway.{Attempt, answered, forward_http_to_candidates}
use aws_light.Proxy.Gateway.Candidates.{summary, reply, forward_http_to_candidates-Summary}
use aws_light.Proxy.Traffic.{no_traffic}
use aws_light.Proxy.Traffic.Conservation.{
  Event, request, turn, observe, totals, requests, observe-Conserves,
}
use aws_light.Text.{decimal, strip_prefix}
use aws_light.Iac.Results.{member}
use aws_light.Tests.Samples.{services, secrets, fernet, state_of}

abbrev open_state : ServiceState
open_state = record (state_of "api") {
  spec = record ((state_of "api").spec) {
    ingress = record {
      external = false;
      internal = normalize_internal (mapping none (some ("web" ∷ [])));
    };
  };
}

abbrev stored : services.State
stored = (("api", open_state) ∷ ("web", state_of "web") ∷ [])

abbrev manager : SecretsManager secrets fernet
manager = record {
  secret_store =
      ((
        "aws-light-service-token-web",
        record { name = "aws-light-service-token-web"; value = "t1" },
      )
        ∷ []);
  random = 0;
}

abbrev gate : Ingress.Gate services secrets fernet
gate = record { services = some stored; secrets_manager = some manager }

admitted_web :
    Ingress.admission services secrets fernet gate "api" (some "t1") ≡ Ingress.Admission.admitted
unfolding Ingress.admission Ingress.admit_source Ingress.source_service_from_request
    Ingress.find_source Ingress.token_turn Ingress.is_token Ingress.known_service
    Ingress.internal_ingress_allowed Ingress.internal_of normalize_internal normalized_enabled
    member Secrets.list_secret_names Secrets.get_secret Secrets.open_spec Secrets.opened
    strip_prefix Dict.get
admitted_web = refl

admission-Authentic_example :
    (source : String) × Authentic services secrets fernet stored manager "t1" source
    × (Ingress.internal_ingress_allowed services secrets fernet gate "api" source ≡ true)
admission-Authentic_example =
    admission-Authentic services secrets fernet gate stored manager "api" "t1" refl refl
      admitted_web

api_stored : services.get stored "api" ≡ some open_state
unfolding Dict.get
api_stored = refl

abbrev rest_of_head : List Bytes
rest_of_head = encode "Host: api.localhost" ∷ encode "Upgrade: websocket" ∷ encode "X-A: 1" ∷ []

abbrev head : Bytes
head = join (encode "GET / HTTP/1.1" ∷ rest_of_head) ++ header_delimiter

clean_host : IsLine (host_line "10.0.0.1" 80)
unfolding host_line has_crlf encode decimal crlf
clean_host = refl

not_host : same (encode "host") (encode "upgrade") ≡ false
unfolding same encode
not_host = refl

not_connection : same (encode "connection") (encode "upgrade") ≡ false
unfolding same encode
not_connection = refl

head_split : header_lines head ≡ encode "GET / HTTP/1.1" ∷ rest_of_head
unfolding header_lines nonempty_lines split join encode crlf onto_first
head_split = refl

not_request_line : is_named (encode "upgrade") (encode "GET / HTTP/1.1") ≡ false
unfolding is_named header_name partition encode
not_request_line = refl

header_value-rewrite_request_headers_example :
    header_value (rewrite_request_headers head "10.0.0.1" 80) (encode "upgrade") ≡ (
      if among (encode "upgrade") (encode "host" ∷ hop_by_hop_headers)
      then none
      else header_value head (encode "upgrade"))
header_value-rewrite_request_headers_example =
    header_value-rewrite_request_headers (encode "upgrade") head (encode "GET / HTTP/1.1")
      rest_of_head "10.0.0.1" 80 clean_host not_host not_connection head_split not_request_line

abbrev candidate : String → ReplicaEndpoint
candidate replica_id = record {
  replica_id = replica_id;
  host = "10.0.0.1";
  port = 80;
  healthy = true;
}

abbrev attempt : ReplicaEndpoint → Attempt ℕ
attempt e = elim (e.port == 80) [ true ↦ Attempt.timed_out | false ↦ answered 200 7 ]

forward_http_to_candidates-Summary_example :
    forward_http_to_candidates attempt (candidate "r1" ∷ candidate "r2" ∷ [])
    ≡ reply
        (summary attempt (candidate "r1" ∷ candidate "r2" ∷ [])).answer
        (summary attempt (candidate "r1" ∷ candidate "r2" ∷ [])).late
        (summary attempt (candidate "r1" ∷ candidate "r2" ∷ [])).before
forward_http_to_candidates-Summary_example =
    forward_http_to_candidates-Summary attempt (candidate "r1" ∷ candidate "r2" ∷ [])

abbrev day : List Event
day = request (some "api") 200 none ∷ turn ∷ request none 503 (some "missing_host") ∷ []

observe-Conserves_example :
    totals ((observe no_traffic day).1) + (observe no_traffic day).0.total ≡ 0 + requests day
observe-Conserves_example = observe-Conserves no_traffic day

-- The end of the head is split over two chunks.
abbrev chunks : List Bytes
chunks = (71 ∷ 13 ∷ 10 ∷ []) ∷ (13 ∷ 10 ∷ 66 ∷ []) ∷ []

read_http_head-Whole_example : HeadRead [] chunks (read_http_head chunks)
read_http_head-Whole_example = read_http_head-Whole chunks
