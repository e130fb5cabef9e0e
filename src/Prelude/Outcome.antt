-- ===== src/Prelude/Outcome.antt =====
-- What a Python call ends in, where it can raise.

pub data Outcome {ℓ ℓ'} (E : Type ℓ) (A : Type ℓ') : Type (ℓ ⊔ ℓ') where
  raised : E → Outcome E A
  returned : A → Outcome E A

-- the value of a call after which comes another
unfoldable pub and_then {ℓ ℓ' ℓ''} :
    {E : Type ℓ} {A : Type ℓ'} {B : Type ℓ''} → Outcome E A → (A → Outcome E B) → Outcome E B
and_then (raised e) f = raised e
and_then (returned a) f = f a
