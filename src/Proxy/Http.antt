-- ===== src/Proxy/Http.antt =====
-- The functions on HTTP heads of aws_light/proxy/proxy_server.py, and the constants they use.
pub mod Forwarded
use aws_light.Prelude.{
  ℕ, String, Bool, true, false, not, Option, none, some, List, [], ◌∷◌, ◌++◌, ◌||◌, map,
  if◌then◌else◌,
}
use aws_light.Proxy.Bytes.{Bytes, encode, same, lower, strip, split, join, partition}
use aws_light.Text.{decimal}

abbrev pub header_delimiter : Bytes
header_delimiter = 13 ∷ 10 ∷ 13 ∷ 10 ∷ []

abbrev pub response_hop_by_hop_headers : List Bytes
response_hop_by_hop_headers = map encode (
    "connection" ∷ "keep-alive" ∷ "proxy-authenticate" ∷ "proxy-authorization" ∷ "te" ∷ "trailer"
    ∷ "upgrade" ∷ [])

abbrev pub hop_by_hop_headers : List Bytes
hop_by_hop_headers = encode "transfer-encoding" ∷ response_hop_by_hop_headers

unfoldable pub among : Bytes → List Bytes → Bool
among name [] = false
among name (other ∷ names) = same name other || among name names

unfoldable pub header_name : Bytes → Option Bytes
header_name line = elim (partition line) [ none ↦ none | some (l, r) ↦ some (lower (strip l)) ]

-- `line.split(b":", 1)[1].strip()`, at a line with a colon
unfoldable pub line_value : Bytes → Bytes
line_value line = elim (partition line) [ none ↦ [] | some (l, r) ↦ strip r ]

unfoldable pub is_named : Bytes → Bytes → Bool
is_named name line = elim (header_name line) [ none ↦ false | some other ↦ same other name ]

-- the loop of `_header_value`
unfoldable pub find_value : Bytes → List Bytes → Option Bytes
find_value name [] = none
find_value name (line ∷ lines) =
    let rest = find_value name lines in if is_named name line then some (line_value line) else rest

unfoldable pub header_value : Bytes → Bytes → Option Bytes
header_value header_bytes name = find_value name (split header_bytes)

unfoldable pub nonempty_lines : List Bytes → List Bytes
nonempty_lines [] = []
nonempty_lines ([] ∷ lines) = nonempty_lines lines
nonempty_lines ((c ∷ line) ∷ lines) = (c ∷ line) ∷ nonempty_lines lines

unfoldable pub header_lines : Bytes → List Bytes
header_lines header_bytes = nonempty_lines (split header_bytes)

unfoldable pub has_transfer_encoding : Bytes → Bool
has_transfer_encoding header_bytes = elim (header_value header_bytes (encode "transfer-encoding")) [
  | none ↦ false
  | some _ ↦ true
]

-- whether a rewriting that drops these names keeps the line
unfoldable pub keeps : List Bytes → Bytes → Bool
keeps names line = elim (header_name line) [ none ↦ false | some name ↦ not (among name names) ]

unfoldable pub kept : List Bytes → List Bytes → List Bytes
kept names [] = []
kept names (line ∷ lines) =
    let rest = kept names lines in if keeps names line then line ∷ rest else rest

-- f"Host: {upstream_host}:{upstream_port}".encode(), part by part, of an ASCII host
unfoldable pub host_line : String → ℕ → Bytes
host_line upstream_host upstream_port =
    encode "Host: " ++ encode upstream_host ++ encode ":" ++ encode (decimal upstream_port)

-- the list `rewritten`, from the first line and the others
unfoldable pub rewritten_request : String → ℕ → List Bytes → List Bytes
unfolding kept host_line
rewritten_request upstream_host upstream_port lines =
    host_line upstream_host upstream_port ∷ kept (encode "host" ∷ hop_by_hop_headers) lines
    ++ encode "Connection: close" ∷ []

unfoldable pub rewrite_request_lines : Bytes → String → ℕ → List Bytes → Bytes
unfolding rewritten_request
rewrite_request_lines header_bytes upstream_host upstream_port [] = header_bytes
rewrite_request_lines header_bytes upstream_host upstream_port (line ∷ lines) =
    join (line ∷ rewritten_request upstream_host upstream_port lines) ++ header_delimiter

unfoldable pub rewrite_request_headers : Bytes → String → ℕ → Bytes
rewrite_request_headers header_bytes upstream_host upstream_port =
    rewrite_request_lines header_bytes upstream_host upstream_port (header_lines header_bytes)

unfoldable pub rewrite_response_lines : Bytes → List Bytes → Bytes
unfolding kept
rewrite_response_lines header_bytes [] = header_bytes
rewrite_response_lines header_bytes (line ∷ lines) =
    join (line ∷ kept response_hop_by_hop_headers lines ++ encode "Connection: close" ∷ [])
    ++ header_delimiter

unfoldable pub rewrite_response_headers : Bytes → Bytes
rewrite_response_headers header_bytes =
    rewrite_response_lines header_bytes (header_lines header_bytes)
