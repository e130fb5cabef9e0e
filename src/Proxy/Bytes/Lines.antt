-- ===== src/Proxy/Bytes/Lines.antt =====
-- `split` at the line ends, and back by `join`.
use aws_light.Prelude.{
  ℕ, ◌≡◌, refl, ap, ◌∙◌, Bool, true, false, List, [], ◌∷◌, ◌++◌, ◌||◌, arith, All, Bool-cases, inl,
  inr,
}
use mathlib.Core.List.{append_assoc}
use aws_light.Proxy.Bytes.{Bytes, crlf, split, join, onto_first}

-- A line holds no line end.
unfoldable pub has_crlf : Bytes → Bool
has_crlf [] = false
has_crlf (c ∷ []) = false
has_crlf (c ∷ d ∷ b) = crlf c d || has_crlf (d ∷ b)

abbrev pub IsLine : Bytes → Type 0
IsLine line = has_crlf line ≡ false

split-crlf : (c d : ℕ) (b : Bytes) → crlf c d ≡ true → split (c ∷ d ∷ b) ≡ [] ∷ split b
unfolding split
split-crlf c d b h = rw (h, split) refl

split-other :
    (c d : ℕ) (b : Bytes) → crlf c d ≡ false → split (c ∷ d ∷ b) ≡ onto_first c (split (d ∷ b))
unfolding split
split-other c d b h = rw (h, split) refl

split-line_end :
    (line rest : Bytes) → IsLine line → split (line ++ 13 ∷ 10 ∷ rest) ≡ line ∷ split rest
unfolding has_crlf onto_first crlf
split-line_end [] rest h = split-crlf 13 10 rest refl
split-line_end (c ∷ []) rest h =
    split-other c 13 (10 ∷ rest) (ground arith) ∙ ap (onto_first c) (split-crlf 13 10 rest refl)
split-line_end (c ∷ d ∷ line) rest h =
    split-other c d (line ++ 13 ∷ 10 ∷ rest) (ground arith)
    ∙ ap (onto_first c) (split-line_end (d ∷ line) rest (ground arith))

-- the lines of `split`, of which the first starts as the bytes do
abbrev Starts : Bytes → List Bytes → Type 0
Starts b [] = ⊥
Starts b ([] ∷ lines) = Unit
Starts [] ((d ∷ line) ∷ lines) = ⊥
Starts (c ∷ b) ((d ∷ line) ∷ lines) = d ≡ c

onto_first-Starts : (c : ℕ) (b : Bytes) (lines : List Bytes) → Starts (c ∷ b) (onto_first c lines)
unfolding onto_first
onto_first-Starts c b [] = refl
onto_first-Starts c b (line ∷ lines) = refl

split-Starts : (b : Bytes) → Starts b (split b)
unfolding split
split-Starts [] = tt
split-Starts (c ∷ []) = refl
split-Starts (c ∷ d ∷ b) = elim (Bool-cases (crlf c d)) [
  | inl h ↦ rw (split-crlf c d b h) tt
  | inr h ↦ rw (split-other c d b h) (onto_first-Starts c (d ∷ b) (split (d ∷ b)))
]

onto_first-IsLine :
    (c d : ℕ) (b : Bytes) (lines : List Bytes)
    → crlf c d ≡ false
    → Starts (d ∷ b) lines
    → All IsLine lines
    → All IsLine (onto_first c lines)
unfolding onto_first has_crlf
onto_first-IsLine c d b [] h s all = (refl, tt)
onto_first-IsLine c d b ([] ∷ lines) h s all = (refl, all.1)
onto_first-IsLine c d b ((e ∷ line) ∷ lines) h s all = (ground arith, all.1)

-- The lines that `split` returns hold no line end.
pub split-IsLine : (b : Bytes) → All IsLine (split b)
unfolding has_crlf split
split-IsLine [] = (refl, tt)
split-IsLine (c ∷ []) = (refl, tt)
split-IsLine (c ∷ d ∷ b) = elim (Bool-cases (crlf c d)) [
  | inl h ↦ rw (split-crlf c d b h) (refl, split-IsLine b)
  | inr h ↦
      rw (split-other c d b h)
        (onto_first-IsLine c d b (split (d ∷ b)) h (split-Starts (d ∷ b)) (split-IsLine (d ∷ b)))
]

-- Lines that are joined, with an empty line at the end, are split into the same lines and two empty
-- ones.
pub split-join :
    (line : Bytes) (lines : List Bytes)
    → All IsLine (line ∷ lines)
    → split (join (line ∷ lines) ++ 13 ∷ 10 ∷ 13 ∷ 10 ∷ []) ≡ line ∷ lines ++ [] ∷ [] ∷ []
unfolding join crlf split
split-join line [] h =
    split-line_end line (13 ∷ 10 ∷ []) (h.0) ∙ ap (λ l. line ∷ l) (split-crlf 13 10 [] refl)
split-join line (next ∷ lines) h =
    ap split (append_assoc line (13 ∷ 10 ∷ join (next ∷ lines)) (13 ∷ 10 ∷ 13 ∷ 10 ∷ []))
    ∙ (split-line_end line (join (next ∷ lines) ++ 13 ∷ 10 ∷ 13 ∷ 10 ∷ []) (h.0)
        ∙ ap (λ l. line ∷ l) (split-join next lines (h.1)))
