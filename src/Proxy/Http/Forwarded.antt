-- ===== src/Proxy/Http/Forwarded.antt =====
-- aws_light/proxy/proxy_server.py: what the head that the proxy sends upstream says of each header.
use aws_light.Prelude.{
  ℕ, ◌≡◌, refl, sym, ap, ◌∙◌, String, true, false, not, none, some, List, [], ◌∷◌, ◌++◌, arith, All,
  All-append, Bool-cases, Option-cases, inl, inr, if◌then◌else◌,
}
use mathlib.Core.Path.{subst}
use aws_light.Proxy.Bytes.{
  Bytes, encode, same, split, partition, crlf, lower, strip, lstrip, rstrip, is_space,
}
use aws_light.Proxy.Bytes.Lines.{IsLine, split-IsLine, split-join, has_crlf}
use aws_light.Proxy.Http.{
  hop_by_hop_headers, among, header_name, is_named, find_value, header_value, nonempty_lines,
  header_lines, keeps, kept, host_line, rewritten_request, rewrite_request_lines,
  rewrite_request_headers,
}

same→eq : (a b : Bytes) → same a b ≡ true → a ≡ b
unfolding same
same→eq [] [] h = refl
same→eq [] (d ∷ b) h = ground arith
same→eq (c ∷ a) [] h = ground arith
same→eq (c ∷ a) (d ∷ b) h = ground (arith, same→eq a b (ground arith))

nonempty_lines-IsLine : (lines : List Bytes) → All IsLine lines → All IsLine (nonempty_lines lines)
unfolding nonempty_lines
nonempty_lines-IsLine [] h = tt
nonempty_lines-IsLine ([] ∷ lines) h = nonempty_lines-IsLine lines (h.1)
nonempty_lines-IsLine ((c ∷ line) ∷ lines) h = (h.0, nonempty_lines-IsLine lines (h.1))

kept-IsLine : (names lines : List Bytes) → All IsLine lines → All IsLine (kept names lines)
unfolding kept
kept-IsLine names [] h = tt
kept-IsLine names (line ∷ lines) h = elim (Bool-cases (keeps names line)) [
  | inl e ↦ rw e (h.0, kept-IsLine names lines (h.1))
  | inr e ↦ rw e (kept-IsLine names lines (h.1))
]

find_value-append :
    (name : Bytes) (xs ys : List Bytes)
    → find_value name ys ≡ none
    → find_value name (xs ++ ys) ≡ find_value name xs
unfolding find_value
find_value-append name [] ys h = h
find_value-append name (x ∷ xs) ys h = ground (arith, find_value-append name xs ys h)

find_value-nonempty_lines :
    (name : Bytes) (lines : List Bytes)
    → find_value name (nonempty_lines lines) ≡ find_value name lines
unfolding find_value nonempty_lines is_named header_name partition
find_value-nonempty_lines name [] = refl
find_value-nonempty_lines name ([] ∷ lines) = find_value-nonempty_lines name lines
find_value-nonempty_lines name ((c ∷ line) ∷ lines) = rw (find_value-nonempty_lines name lines) refl

keeps-is_named :
    (name line : Bytes) (names : List Bytes)
    → is_named name line ≡ true
    → keeps names line ≡ not (among name names)
unfolding is_named keeps
keeps-is_named name line names h = elim (Option-cases (header_name line)) [
  | inl e ↦ ground (arith, e)
  | inr (other, e) ↦ ground (arith, e, same→eq other name)
]

find_value-kept :
    (name : Bytes) (names lines : List Bytes)
    → find_value name (kept names lines)
      ≡ (if among name names then none else find_value name lines)
unfolding find_value kept
find_value-kept name names [] = ground arith
find_value-kept name names (line ∷ lines) =
    ground (arith, find_value-kept name names lines, keeps-is_named name line names)

connection_close-IsLine : IsLine (encode "Connection: close")
unfolding has_crlf encode crlf
connection_close-IsLine = refl

rewritten_request-IsLine :
    (upstream_host : String) (upstream_port : ℕ) (lines : List Bytes)
    → IsLine (host_line upstream_host upstream_port)
    → All IsLine lines
    → All IsLine (rewritten_request upstream_host upstream_port lines)
unfolding rewritten_request has_crlf
rewritten_request-IsLine upstream_host upstream_port lines h all = (
  h,
  All-append IsLine _ _ (kept-IsLine (encode "host" ∷ hop_by_hop_headers) lines all)
      (connection_close-IsLine, tt),
)

find_value-blank : (name : Bytes) → find_value name ([] ∷ [] ∷ []) ≡ none
unfolding find_value is_named header_name partition
find_value-blank name = refl

-- The lines of the head sent upstream, by name.
find_value-rewritten :
    (name header_bytes line : Bytes) (upstream_host : String) (upstream_port : ℕ)
    (lines : List Bytes)
    → IsLine (host_line upstream_host upstream_port)
    → All IsLine (line ∷ lines)
    → header_value
        (rewrite_request_lines header_bytes upstream_host upstream_port (line ∷ lines))
        name
      ≡ find_value name (line ∷ rewritten_request upstream_host upstream_port lines)
unfolding header_value rewrite_request_lines
find_value-rewritten name header_bytes line upstream_host upstream_port lines h all =
    ap (find_value name) (
      split-join line (rewritten_request upstream_host upstream_port lines)
        (all.0, rewritten_request-IsLine upstream_host upstream_port lines h (all.1)))
    ∙ find_value-append name (line ∷ rewritten_request upstream_host upstream_port lines)
        ([] ∷ [] ∷ []) (find_value-blank name)

header_name-host_line :
    (upstream_host : String) (upstream_port : ℕ)
    → header_name (host_line upstream_host upstream_port) ≡ some (encode "host")
unfolding header_name host_line partition encode lower strip lstrip rstrip is_space
header_name-host_line upstream_host upstream_port = refl

header_value-lines :
    (name header_bytes : Bytes)
    → find_value name (header_lines header_bytes) ≡ header_value header_bytes name
unfolding header_lines header_value
header_value-lines name header_bytes = find_value-nonempty_lines name (split header_bytes)

header_lines-IsLine : (header_bytes : Bytes) → All IsLine (header_lines header_bytes)
unfolding header_lines
header_lines-IsLine header_bytes =
    nonempty_lines-IsLine (split header_bytes) (split-IsLine header_bytes)

is_named-host_line :
    (name : Bytes) (upstream_host : String) (upstream_port : ℕ)
    → is_named name (host_line upstream_host upstream_port) ≡ same (encode "host") name
unfolding is_named
is_named-host_line name upstream_host upstream_port =
    rw (header_name-host_line upstream_host upstream_port, is_named) refl

is_named-close :
    (name : Bytes) → is_named name (encode "Connection: close") ≡ same (encode "connection") name
unfolding is_named header_name encode partition lower strip lstrip rstrip is_space
is_named-close name = refl

-- What the lines after the first say of a header that is neither `host` nor `connection`.
find_value-others :
    (name : Bytes) (upstream_host : String) (upstream_port : ℕ) (lines : List Bytes)
    → same (encode "host") name ≡ false
    → same (encode "connection") name ≡ false
    → find_value name (rewritten_request upstream_host upstream_port lines)
      ≡ (if among name (encode "host" ∷ hop_by_hop_headers) then none else find_value name lines)
unfolding rewritten_request find_value
find_value-others name upstream_host upstream_port lines not_host not_close =
    rw (is_named-host_line name upstream_host upstream_port, not_host)
      (find_value-append name (kept (encode "host" ∷ hop_by_hop_headers) lines)
          (encode "Connection: close" ∷ []) (rw (is_named-close name, not_close) refl)
        ∙ find_value-kept name (encode "host" ∷ hop_by_hop_headers) lines)

find_value-skip :
    (name line : Bytes) (lines : List Bytes)
    → is_named name line ≡ false
    → find_value name (line ∷ lines) ≡ find_value name lines
unfolding find_value
find_value-skip name line lines h = ground (arith, h)

-- A header other than host and connection reaches the upstream with the client's value, and not at
-- all where its name is hop-by-hop, if the request line does not read as a header of this name and
-- the upstream's host holds no line end.
pub header_value-rewrite_request_headers :
    (name header_bytes line : Bytes) (lines : List Bytes) (upstream_host : String)
    (upstream_port : ℕ)
    → IsLine (host_line upstream_host upstream_port)
    → same (encode "host") name ≡ false
    → same (encode "connection") name ≡ false
    → header_lines header_bytes ≡ line ∷ lines
    → is_named name line ≡ false
    → header_value (rewrite_request_headers header_bytes upstream_host upstream_port) name ≡ (
        if among name (encode "host" ∷ hop_by_hop_headers)
        then none
        else header_value header_bytes name)
unfolding rewrite_request_headers
header_value-rewrite_request_headers name header_bytes line lines upstream_host upstream_port clean
      not_host not_close head not_first =
    let here : header_value header_bytes name ≡ find_value name lines =
      sym (header_value-lines name header_bytes)
      ∙ (ap (find_value name) head ∙ find_value-skip name line lines not_first) in
    ap (λ ls. header_value (rewrite_request_lines header_bytes upstream_host upstream_port ls) name)
      head
    ∙ (find_value-rewritten name header_bytes line upstream_host upstream_port lines clean
          (subst (All IsLine) head (header_lines-IsLine header_bytes))
        ∙ (find_value-skip name line _ not_first
            ∙ (find_value-others name upstream_host upstream_port lines not_host not_close
                ∙ rw (here) refl)))
