-- ===== src/Proxy/Bytes.antt =====
-- The operations of Python's `bytes` that the proxy uses; a byte is a number.
pub mod Lines
use aws_light.Prelude.{
  ℕ, ◌+◌, ◌-◌, String, Bool, true, false, not, List, [], ◌∷◌, ◌++◌, ◌&&◌, ◌||◌, ◌==◌, leb,
  if◌then◌else◌, Option, none, some,
}
use Prim.Native.Char.{code}

abbrev pub Bytes : Type 0
Bytes = List ℕ

-- text.encode(), of an ASCII text
unfoldable pub encode : String → Bytes
encode String.[] = []
encode (String.◌∷◌ c s) = code c ∷ encode s

unfoldable pub same : Bytes → Bytes → Bool
same [] [] = true
same [] (_ ∷ _) = false
same (_ ∷ _) [] = false
same (c ∷ a) (d ∷ b) = c == d && same a b

-- b.lower()
unfoldable pub lower : Bytes → Bytes
lower [] = []
lower (c ∷ b) = (if leb 65 c && leb c 90 then c + 32 else c) ∷ lower b

-- the bytes that `strip` takes off
unfoldable pub is_space : ℕ → Bool
is_space c = c == 32 || (leb 9 c && leb c 13)

unfoldable pub lstrip : Bytes → Bytes
unfolding is_space
lstrip [] = []
lstrip (c ∷ b) = let rest = lstrip b in if is_space c then rest else c ∷ b

unfoldable pub rstrip : Bytes → Bytes
unfolding is_space
rstrip [] = []
rstrip (c ∷ b) = elim (rstrip b) [
  | [] ↦ if is_space c then [] else c ∷ []
  | d ∷ rest ↦ c ∷ d ∷ rest
]

-- b.strip()
unfoldable pub strip : Bytes → Bytes
strip b = rstrip (lstrip b)

unfoldable pub onto_first : ℕ → List Bytes → List Bytes
onto_first c [] = (c ∷ []) ∷ []
onto_first c (line ∷ lines) = (c ∷ line) ∷ lines

-- whether `\r\n` are these two bytes
unfoldable pub crlf : ℕ → ℕ → Bool
crlf c d = c == 13 && d == 10

-- b.split(b"\r\n")
unfoldable pub split : Bytes → List Bytes
unfolding crlf onto_first
split [] = [] ∷ []
split (c ∷ []) = (c ∷ []) ∷ []
split (c ∷ d ∷ b) = elim (crlf c d) [ true ↦ [] ∷ split b | false ↦ onto_first c (split (d ∷ b)) ]

-- b"\r\n".join(lines)
unfoldable pub join : List Bytes → Bytes
join [] = []
join (line ∷ []) = line
join (line ∷ next ∷ lines) = line ++ 13 ∷ 10 ∷ join (next ∷ lines)

-- b.split(b":", 1), where there is a colon
unfoldable pub partition : Bytes → Option (Bytes × Bytes)
partition [] = none
partition (c ∷ b) = elim (c == 58) [
  | true ↦ some ([], b)
  | false ↦ elim (partition b) [ none ↦ none | some (l, r) ↦ some (c ∷ l, r) ]
]
