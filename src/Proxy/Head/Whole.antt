-- ===== src/Proxy/Head/Whole.antt =====
-- aws_light/proxy/proxy_server.py: the bytes that `_read_http_head` returns are those it read.
use aws_light.Prelude.{
  ℕ, ◌<◌, ltb→lt, length-append, ◌≡◌, refl, sym, ap, ◌∙◌, true, false, none, some, List, [], ◌∷◌,
  ◌++◌, ltb, length, drop, arith, Bool-cases, Option-cases, inl, inr,
}
use mathlib.Core.Path.{subst}
use mathlib.Core.List.{append_assoc, append-nil}
use aws_light.Proxy.Bytes.{Bytes}
use aws_light.Proxy.Http.{header_delimiter}
use aws_light.Proxy.Head.{
  max_header_bytes, starts_with, split_head, head_of, read_from, read_http_head,
}

starts_with-drop : (p b : Bytes) → starts_with p b ≡ true → p ++ drop (length p) b ≡ b
unfolding starts_with
starts_with-drop [] b h = refl
starts_with-drop (c ∷ p) [] h = ground arith
starts_with-drop (c ∷ p) (d ∷ b) h = ground (arith, starts_with-drop p b)

-- the bytes of a pair
abbrev pub both : Bytes × Bytes → Bytes
both r = r.0 ++ r.1

split_head-both : (b : Bytes) (r : Bytes × Bytes) → split_head b ≡ some r → both r ≡ b
unfolding split_head
split_head-both [] r h = ground arith
split_head-both (c ∷ b) r h = elim (Bool-cases (starts_with header_delimiter (c ∷ b))) [
  | inl e ↦ ground (arith, e, starts_with-drop header_delimiter (c ∷ b) e)
  | inr e ↦ elim (Option-cases (split_head b)) [
    | inl n ↦ ground (arith, e, n)
    | inr (r', n) ↦ ground (arith, e, n, split_head-both b r' n)
  ]
]

abbrev pub joined : List Bytes → Bytes
joined [] = []
joined (chunk ∷ chunks) = chunk ++ joined chunks

-- No delimiter stands in the bytes.
abbrev pub Undelimited : Bytes → Type 0
Undelimited b = (p s : Bytes) → b ≡ p ++ (header_delimiter ++ s) → ⊥

-- A delimiter stands at the end of the bytes, and none before.
abbrev pub Delimited : Bytes → Type 0
Delimited b =
    ((p : Bytes) × (b ≡ p ++ header_delimiter))
    × ((p s : Bytes) → b ≡ p ++ (header_delimiter ++ s) → s ≡ [])

absurd_bool : true ≡ false → ⊥
absurd_bool e = cc

starts_with-append : (p s : Bytes) → starts_with p (p ++ s) ≡ true
unfolding starts_with
starts_with-append [] s = refl
starts_with-append (c ∷ p) s = ground (arith, starts_with-append p s)

not_at_start :
    (b s : Bytes) → starts_with header_delimiter b ≡ false → b ≡ header_delimiter ++ s → ⊥
not_at_start b s e same =
    absurd_bool (
      sym (starts_with-append header_delimiter s)
      ∙ ap (starts_with header_delimiter) (sym same)
      ∙ e)

empty-Undelimited : Undelimited []
empty-Undelimited [] s e = cc
empty-Undelimited (x ∷ p) s e = cc

cons-Undelimited :
    (c : ℕ) (b : Bytes)
    → starts_with header_delimiter (c ∷ b) ≡ false
    → Undelimited b
    → Undelimited (c ∷ b)
cons-Undelimited c b e later [] s same = not_at_start (c ∷ b) s e same
cons-Undelimited c b e later (x ∷ p) s same = later p s (cc)

split_head-Undelimited : (b : Bytes) → split_head b ≡ none → Undelimited b
unfolding split_head
split_head-Undelimited [] e = empty-Undelimited
split_head-Undelimited (c ∷ b) e = elim (Bool-cases (starts_with header_delimiter (c ∷ b))) [
  | inl at_start ↦ absurd (ground (arith, at_start))
  | inr no_start ↦ elim (Option-cases (split_head b)) [
    | inl n ↦ cons-Undelimited c b no_start (split_head-Undelimited b n)
    | inr (r, n) ↦ absurd (ground (arith, no_start, n))
  ]
]

no_bytes : (s : Bytes) → length s ≡ 0 → s ≡ []
no_bytes [] e = refl
no_bytes (c ∷ s) e = absurd (omega (arith, e))

delimiter-Delimited : Delimited header_delimiter
delimiter-Delimited = (
  ([], refl),
  (λ p s same. no_bytes s (
      omega (
        arith,
        ap length same,
        length-append p (header_delimiter ++ s),
        length-append header_delimiter s,
      ))),
)

cons-Delimited :
    (c : ℕ) (head rest : Bytes)
    → starts_with header_delimiter (c ∷ (head ++ rest)) ≡ false
    → ((p s : Bytes) → head ≡ p ++ (header_delimiter ++ s) → s ≡ [])
    → (p s : Bytes) → c ∷ head ≡ p ++ (header_delimiter ++ s)
    → s ≡ []
cons-Delimited c head rest e later [] s same = absurd (
    not_at_start (c ∷ (head ++ rest)) (s ++ rest) e
      (ap (λ b. b ++ rest) same ∙ append_assoc header_delimiter s rest))
cons-Delimited c head rest e later (x ∷ p) s same = later p s (cc)

split_head-Delimited : (b : Bytes) (r : Bytes × Bytes) → split_head b ≡ some r → Delimited (r.0)
unfolding split_head
split_head-Delimited [] r h = absurd (ground arith)
split_head-Delimited (c ∷ b) r h = elim (Bool-cases (starts_with header_delimiter (c ∷ b))) [
  | inl e ↦
      let same : header_delimiter ≡ r.0 = ground (arith, e) in
      subst Delimited same delimiter-Delimited
  | inr e ↦ elim (Option-cases (split_head b)) [
    | inl n ↦ absurd (ground (arith, e, n))
    | inr (r', n) ↦
        let same : c ∷ r'.0 ≡ r.0 = ground (arith, e, n) in
        let ih = split_head-Delimited b r' n in
        let e' : starts_with header_delimiter (c ∷ (r'.0 ++ r'.1)) ≡ false =
          ap (λ l. starts_with header_delimiter (c ∷ l)) (split_head-both b r' n) ∙ e in
        subst Delimited same
          ((c ∷ ih.0.0, ap (λ l. c ∷ l) ih.0.1), cons-Delimited c (r'.0) (r'.1) e' ih.1)
  ]
]

-- The stream ends before these chunks.
abbrev pub IsEnd : List Bytes → Type 0
IsEnd [] = Unit
IsEnd ([] ∷ chunks) = Unit
IsEnd ((c ∷ chunk) ∷ chunks) = ⊥

-- What may be read from a stream after a buffer: nothing, where the stream is longer than a head may
-- be; the bytes up to the first delimiter and what was read after it; or all, without a delimiter.
pub data HeadRead (buffer : Bytes) (chunks : List Bytes) : Bytes × Bytes → Type 0 where
  too_long : max_header_bytes < length (buffer ++ joined chunks) → HeadRead buffer chunks ([], [])
  found :
      (read unread : List Bytes) (r : Bytes × Bytes)
      → chunks ≡ read ++ unread
      → Delimited (r.0)
      → both r ≡ buffer ++ joined read
      → HeadRead buffer chunks r
  ended :
      (read unread : List Bytes)
      → chunks ≡ read ++ unread
      → IsEnd unread
      → Undelimited (buffer ++ joined read)
      → HeadRead buffer chunks (buffer ++ joined read, [])

prepend :
    (buffer chunk : Bytes) (chunks : List Bytes) (r : Bytes × Bytes)
    → HeadRead (buffer ++ chunk) chunks r
    → HeadRead buffer (chunk ∷ chunks) r
prepend buffer chunk chunks r (too_long long) =
    too_long
      (subst (λ b. max_header_bytes < length b) (append_assoc buffer chunk (joined chunks)) long)
prepend buffer chunk chunks r (found read unread r' same delimited bytes) =
    found (chunk ∷ read) unread r' (ap (λ l. chunk ∷ l) same) delimited
      (bytes ∙ append_assoc buffer chunk (joined read))
prepend buffer chunk chunks r (ended read unread same end undelimited) =
    subst (λ b. HeadRead buffer (chunk ∷ chunks) (b, []))
      (sym (append_assoc buffer chunk (joined read)))
      (ended (chunk ∷ read) unread (ap (λ l. chunk ∷ l) same) end
        (subst Undelimited (append_assoc buffer chunk (joined read)) undelimited))

head_of-HeadRead :
    (buffer : Bytes) (chunks : List Bytes) → IsEnd chunks → HeadRead buffer chunks (head_of buffer)
unfolding head_of
head_of-HeadRead buffer chunks end = elim (Option-cases (split_head buffer)) [
  | inl e ↦
      rw (e, head_of)
        (subst (λ b. HeadRead buffer chunks (b, [])) (append-nil buffer)
          (ended [] chunks refl end
            (subst Undelimited (sym (append-nil buffer)) (split_head-Undelimited buffer e))))
  | inr (r, e) ↦
      rw (e, head_of)
        (found [] chunks r refl (split_head-Delimited buffer r e)
          (split_head-both buffer r e ∙ sym (append-nil buffer)))
]

read_from-HeadRead :
    (buffer : Bytes) (chunks : List Bytes) → HeadRead buffer chunks (read_from buffer chunks)
unfolding read_from
read_from-HeadRead buffer [] = head_of-HeadRead buffer [] tt
read_from-HeadRead buffer ([] ∷ chunks) = head_of-HeadRead buffer ([] ∷ chunks) tt
read_from-HeadRead buffer ((c ∷ chunk) ∷ chunks) = elim (Option-cases (split_head buffer)) [
  | inr (r, e) ↦
      let answer : r ≡ read_from buffer ((c ∷ chunk) ∷ chunks) = ground (arith, e) in
      subst (HeadRead buffer ((c ∷ chunk) ∷ chunks)) answer (
        found [] ((c ∷ chunk) ∷ chunks) r refl (split_head-Delimited buffer r e)
          (split_head-both buffer r e ∙ sym (append-nil buffer)))
  | inl e ↦ elim (Bool-cases (ltb max_header_bytes (length (buffer ++ c ∷ chunk)))) [
    | inl long ↦
        let answer : ◌≡◌ {A = Bytes × Bytes} ([], []) (read_from buffer ((c ∷ chunk) ∷ chunks)) =
          ground (arith, e, long) in
        subst (HeadRead buffer ((c ∷ chunk) ∷ chunks)) answer (
          too_long (
            omega (
              arith,
              ltb→lt _ _ long,
              length-append buffer (c ∷ chunk),
              length-append buffer (c ∷ chunk ++ joined chunks),
              length-append (c ∷ chunk) (joined chunks),
            )))
    | inr short ↦
        let answer : read_from (buffer ++ c ∷ chunk) chunks
            ≡ read_from buffer ((c ∷ chunk) ∷ chunks) =
          ground (arith, e, short) in
        subst (HeadRead buffer ((c ∷ chunk) ∷ chunks)) answer
          (prepend buffer (c ∷ chunk) chunks _ (read_from-HeadRead (buffer ++ c ∷ chunk) chunks))
  ]
]

-- Of the chunks of any stream either nothing is returned, and the stream is longer than a head may
-- be; or a head that ends with its first delimiter and the bytes after it, which together are the
-- bytes of the chunks read; or all bytes up to the end of the stream, which hold no delimiter,
-- with none after them.
pub read_http_head-Whole : (chunks : List Bytes) → HeadRead [] chunks (read_http_head chunks)
unfolding read_http_head
read_http_head-Whole chunks = read_from-HeadRead [] chunks
