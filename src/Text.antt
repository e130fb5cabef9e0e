-- ===== src/Text.antt =====
-- Text as the program builds it: f-strings, decimal numbers, and the `str` methods that it calls, over
-- ASCII letters.
use Prim.Native.Char.{Char, code}
use aws_light.Prelude.{
  ℕ, zero, suc, ◌+◌, ◌/◌, ◌%◌, String, ◌≡◌, refl, sym, ap, ◌∙◌, arith, Bool-cases, inl, inr, Option,
  none, some, List, [], ◌∷◌, Bool, ◌&&◌, ◌||◌, ltb, leb, ◌==◌, if◌then◌else◌,
}
use aws_light.Prelude.Int.{ℤ, pos, negsuc}
use mathlib.Core.Option.{some-injective}
use mathlib.Core.Path.{ap₂}
use text.Mathlib.TextEquality.{Char-path}
use Prim.Native.String.append
pub use Prim.Native.String.{◌++◌ as concat}

-- f"{a}{b}{c}"
unfoldable pub join : List String → String
join [] = ""
join (s ∷ rest) = concat s (join rest)

digit : ℕ → String
digit zero = "0"
digit (suc zero) = "1"
digit (suc (suc zero)) = "2"
digit (suc (suc (suc zero))) = "3"
digit (suc (suc (suc (suc zero)))) = "4"
digit (suc (suc (suc (suc (suc zero))))) = "5"
digit (suc (suc (suc (suc (suc (suc zero)))))) = "6"
digit (suc (suc (suc (suc (suc (suc (suc zero))))))) = "7"
digit (suc (suc (suc (suc (suc (suc (suc (suc zero)))))))) = "8"
digit _ = "9"

-- the digits of `n`, put before `rest`; a number has no more digits than its value and one
digits : ℕ → ℕ → String → String
digits zero n rest = rest
digits (suc fuel) n rest =
    let more = digits fuel (n / 10) (concat (digit (n % 10)) rest) in
    if ltb n 10 then concat (digit n) rest else more

-- str(n)
unfoldable pub decimal : ℕ → String
unfolding digits digit
decimal n = digits (n + 1) n ""

unfoldable pub decimal_ℤ : ℤ → String
decimal_ℤ (pos n) = decimal n
decimal_ℤ (negsuc n) = concat "-" (decimal (n + 1))

-- s[:n]
unfoldable pub first_characters : ℕ → String → String
first_characters zero s = ""
first_characters (suc n) String.[] = ""
first_characters (suc n) (String.◌∷◌ c s) = String.◌∷◌ c (first_characters n s)

-- s.removeprefix(p), where s.startswith(p)
unfoldable pub strip_prefix : String → String → Option String
strip_prefix String.[] s = some s
strip_prefix (String.◌∷◌ c p) String.[] = none
strip_prefix (String.◌∷◌ c p) (String.◌∷◌ d s) =
    let rest = strip_prefix p s in if code c == code d then rest else none

concat-nil : (t : String) → concat "" t ≡ t
concat-nil t = λ i. append.nil t i

concat-cons : (c : Char) (s t : String) → concat (String.◌∷◌ c s) t ≡ String.◌∷◌ c (concat s t)
concat-cons c s t = λ i. append.cons c s t i

pub strip_prefix_of_concat : (p s : String) → strip_prefix p (concat p s) ≡ some s
unfolding strip_prefix
strip_prefix_of_concat String.[] s = ap some (concat-nil s)
strip_prefix_of_concat (String.◌∷◌ c p) s =
    ap (strip_prefix (String.◌∷◌ c p)) (concat-cons c p s)
    ∙ ground (arith, strip_prefix_of_concat p s)

pub strip_prefix-concat : (p s r : String) → strip_prefix p s ≡ some r → s ≡ concat p r
unfolding strip_prefix
strip_prefix-concat String.[] s r h = some-injective _ _ h ∙ sym (concat-nil r)
strip_prefix-concat (String.◌∷◌ c p) String.[] r h = ground arith
strip_prefix-concat (String.◌∷◌ c p) (String.◌∷◌ d s) r h = elim (Bool-cases (code c == code d)) [
  | inl e ↦
      let h' : strip_prefix p s ≡ some r = ground (arith, e) in
      ap₂ String.◌∷◌ (sym (Char-path c d (ground (arith, e)))) (strip_prefix-concat p s r h')
      ∙ sym (concat-cons c p r)
  | inr e ↦ ground (arith, e)
]

decimal_runs : decimal 1024 ≡ "1024"
unfolding decimal
decimal_runs = refl

-- one character of `from` to the one at its place in `to`; others stay
translate_char : String → String → Char → Char
translate_char (String.◌∷◌ a from) (String.◌∷◌ b to) c =
    if code c == code a then b else translate_char from to c
translate_char _ _ c = c

translate : String → String → String → String
translate from to String.[] = ""
translate from to (String.◌∷◌ c s) = String.◌∷◌ (translate_char from to c) (translate from to s)

abbrev lower_letters : String
lower_letters = "abcdefghijklmnopqrstuvwxyz"

abbrev upper_letters : String
upper_letters = "ABCDEFGHIJKLMNOPQRSTUVWXYZ"

-- s.lower(), s.upper(), s.replace("-", "_")
unfoldable pub lower : String → String
unfolding translate translate_char
lower = translate upper_letters lower_letters

unfoldable pub upper : String → String
unfolding translate translate_char
upper = translate lower_letters upper_letters

unfoldable pub underscored : String → String
unfolding translate translate_char
underscored = translate "-" "_"

is_space : Char → Bool
is_space c = code c == 32 || (leb 9 (code c) && leb (code c) 13)

strip_left : String → String
strip_left String.[] = ""
strip_left (String.◌∷◌ c s) = let rest = strip_left s in if is_space c then rest else String.◌∷◌ c s

-- a character before a stripped end
before_end : Char → String → String
before_end c String.[] = if is_space c then "" else String.◌∷◌ c ""
before_end c s = String.◌∷◌ c s

strip_right : String → String
strip_right String.[] = ""
strip_right (String.◌∷◌ c s) = before_end c (strip_right s)

-- s.strip()
unfoldable pub strip : String → String
unfolding strip_left strip_right before_end is_space
strip s = strip_right (strip_left s)

strip_runs : lower (strip "  Bin-Pack ") ≡ "bin-pack"
unfolding strip lower
strip_runs = refl
