-- ===== src/Prelude/Action.antt =====
-- A coroutine of Python: it moves a state and returns a value or raises. What was written before a
-- raise stays written.
use mathlib.Core.List.{List, [], ◌∷◌}
use Prim.Native.Nat.{ℕ, zero, suc}
use aws_light.Prelude.Outcome.{Outcome, raised, returned}

abbrev pub Action : Type 0 → Type 0 → Type 0 → Type 0
Action W E A = W → Outcome E A × W

-- what follows a call
unfoldable pub next : {W E A B : Type 0} → (A → Action W E B) → Outcome E A × W → Outcome E B × W
next f (raised e, w) = (raised e, w)
next f (returned a, w) = f a w

abbrev pub pure : {W E A : Type 0} → A → Action W E A
pure a w = (returned a, w)

abbrev pub raise : {W E A : Type 0} → E → Action W E A
raise e w = (raised e, w)

infixl 5 ◌>>=◌ ◌>>◌
abbrev pub ◌>>=◌ : {W E A B : Type 0} → Action W E A → (A → Action W E B) → Action W E B
◌>>=◌ m f w = next f (m w)

abbrev pub ◌>>◌ : {W E A B : Type 0} → Action W E A → Action W E B → Action W E B
m >> k = m >>= λ _. k

abbrev pub gets : {W E A : Type 0} → (W → A) → Action W E A
gets f w = (returned (f w), w)

abbrev pub modify : {W E : Type 0} → (W → W) → Action W E (Unit {0})
modify f w = (returned tt, f w)

-- a loop with variables that each turn changes
unfoldable pub fold : {W E S X : Type 0} → (S → X → Action W E S) → S → List X → Action W E S
fold body s [] w = (returned s, w)
fold body s (x ∷ xs) w = next (λ s'. fold body s' xs) (body s x w)

-- a loop without
unfoldable pub each :
    {W E X : Type 0} → (X → Action W E (Unit {0})) → List X → Action W E (Unit {0})
each body [] w = (returned tt, w)
each body (x ∷ xs) w = next (λ _. each body xs) (body x w)

-- a loop that counts its turns
unfoldable pub times : {W E : Type 0} → Action W E (Unit {0}) → ℕ → Action W E (Unit {0})
times body zero w = (returned tt, w)
times body (suc n) w = next (λ _. times body n) (body w)
