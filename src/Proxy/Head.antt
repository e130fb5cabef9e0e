-- ===== src/Proxy/Head.antt =====
-- `_read_http_head` of aws_light/proxy/proxy_server.py: the head and what follows it, from the chunks
-- that the reader gives. No chunk or an empty one is the end of the stream.
pub mod Whole
use aws_light.Prelude.{
  ℕ, Bool, true, false, Option, none, some, List, [], ◌∷◌, ◌++◌, ◌&&◌, ◌==◌, ltb, length, drop,
}
use aws_light.Proxy.Bytes.{Bytes}
use aws_light.Proxy.Http.{header_delimiter}

abbrev pub max_header_bytes : ℕ
max_header_bytes = 65536

unfoldable pub starts_with : Bytes → Bytes → Bool
starts_with [] b = true
starts_with (c ∷ p) [] = false
starts_with (c ∷ p) (d ∷ b) = c == d && starts_with p b

-- `buffer[:split_at]` and `buffer[split_at:]`, where the delimiter is there
unfoldable pub split_head : Bytes → Option (Bytes × Bytes)
unfolding starts_with
split_head [] = none
split_head (c ∷ buffer) = elim (starts_with header_delimiter (c ∷ buffer)) [
  | true ↦ some (header_delimiter, drop 4 (c ∷ buffer))
  | false ↦ elim (split_head buffer) [ none ↦ none | some (head, rest) ↦ some (c ∷ head, rest) ]
]

-- after the loop
unfoldable pub head_of : Bytes → Bytes × Bytes
unfolding split_head
head_of buffer = elim (split_head buffer) [ none ↦ (buffer, []) | some (head, rest) ↦ (head, rest) ]

-- the loop, from the buffer
unfoldable pub read_from : Bytes → List Bytes → Bytes × Bytes
unfolding head_of
read_from buffer [] = head_of buffer
read_from buffer ([] ∷ chunks) = head_of buffer
read_from buffer ((c ∷ chunk) ∷ chunks) = elim (split_head buffer) [
  | some (head, rest) ↦ (head, rest)
  | none ↦ elim (ltb max_header_bytes (length (buffer ++ c ∷ chunk))) [
    | true ↦ ([], [])
    | false ↦ read_from (buffer ++ c ∷ chunk) chunks
  ]
]

unfoldable pub read_http_head : List Bytes → Bytes × Bytes
unfolding read_from
read_http_head chunks = read_from [] chunks
