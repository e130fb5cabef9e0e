-- ===== src/Prelude/Hoare.antt =====
-- What a coroutine leaves: `Q` of its value where it returns, `R` where it raises. One rule for each way
-- to compose coroutines.
use mathlib.Core.List.{List, [], ◌∷◌}
use Prim.Native.Nat.{ℕ, zero, suc}
use aws_light.Prelude.Outcome.{Outcome, raised, returned}
use aws_light.Prelude.Action.{Action, next, fold, each, times}

unfoldable pub After : {W E A : Type 0} → (A → W → Type 0) → (W → Type 0) → Outcome E A × W → Type 0
After Q R (raised e, w) = R w
After Q R (returned a, w) = Q a w

-- from a state where `P` holds
abbrev pub Runs :
    {W E A : Type 0} → (W → Type 0) → Action W E A → (A → W → Type 0) → (W → Type 0) → Type 0
Runs P m Q R = (w : _) → P w → After Q R (m w)

abbrev pub Keeps : {W E A : Type 0} → (W → Type 0) → Action W E A → Type 0
Keeps I m = Runs I m (λ _. I) I

module _ {W E : Type 0} where
  pub After-next :
      {A B : Type 0} (Q : A → W → Type 0) (R : W → Type 0) (S : B → W → Type 0)
      (f : A → Action W E B) (done : Outcome E A × W)
      → After Q R done
      → ((a : A) → Runs (Q a) (f a) S R)
      → After S R (next f done)
  unfolding After next
  After-next Q R S f (raised e, w) h k = h
  After-next Q R S f (returned a, w) h k = k a w h

  pub Runs-then :
      {A B : Type 0} (P : W → Type 0) (Q : A → W → Type 0) (R : W → Type 0) (S : B → W → Type 0)
      (m : Action W E A) (f : A → Action W E B)
      → Runs P m Q R
      → ((a : A) → Runs (Q a) (f a) S R)
      → Runs P (λ w. next f (m w)) S R
  Runs-then P Q R S m f h k w p = After-next Q R S f (m w) (h w p) k

  pub Keeps-then :
      {A B : Type 0} (I : W → Type 0) (m : Action W E A) (f : A → Action W E B)
      → Keeps I m
      → ((a : A) → Keeps I (f a))
      → Keeps I (λ w. next f (m w))
  Keeps-then I m f h k w p = After-next (λ _. I) I (λ _. I) f (m w) (h w p) k

  pub After-any :
      {A : Type 0} (I : W → Type 0) (o : Outcome E A) (w : W) → I w → After (λ _. I) I (o, w)
  unfolding After
  After-any I (raised e) w p = p
  After-any I (returned a) w p = p

  -- the last state, whichever way it ends
  pub After-last :
      {A : Type 0} (I : W → Type 0) (done : Outcome E A × W) → After (λ _. I) I done → I (done.1)
  unfolding After
  After-last I (raised e, w) h = h
  After-last I (returned a, w) h = h

  pub After-map :
      {A : Type 0} (Q Q' : A → W → Type 0) (R R' : W → Type 0) (done : Outcome E A × W)
      → ((a : A) (w : W) → Q a w → Q' a w)
      → ((w : W) → R w → R' w)
      → After Q R done
      → After Q' R' done
  unfolding After
  After-map Q Q' R R' (raised e, w) q r h = r w h
  After-map Q Q' R R' (returned a, w) q r h = q a w h

  pub fold-Runs :
      {S X : Type 0} (R : W → Type 0) (I : S → W → Type 0) (body : S → X → Action W E S)
      → ((s : S) (x : X) → Runs (I s) (body s x) I R)
      → (s : S) (xs : List X) → Runs (I s) (fold body s xs) I R
  unfolding fold After
  fold-Runs R I body h s [] w p = p
  fold-Runs R I body h s (x ∷ xs) w p =
      After-next I R I (λ s'. fold body s' xs) (body s x w) (h s x w p)
        (λ s'. fold-Runs R I body h s' xs)

  pub each-Keeps :
      {X : Type 0} (I : W → Type 0) (body : X → Action W E (Unit {0}))
      → ((x : X) → Keeps I (body x))
      → (xs : List X) → Keeps I (each body xs)
  unfolding each After
  each-Keeps I body h [] w p = p
  each-Keeps I body h (x ∷ xs) w p =
      After-next (λ _. I) I (λ _. I) (λ _. each body xs) (body x w) (h x w p)
        (λ _. each-Keeps I body h xs)

  -- the property may follow what is done
  pub each-Runs :
      {X : Type 0} (R : W → Type 0) (I : List X → W → Type 0) (body : X → Action W E (Unit {0}))
      → ((x : X) (xs : List X) → Runs (I (x ∷ xs)) (body x) (λ _. I xs) R)
      → (xs : List X) → Runs (I xs) (each body xs) (λ _. I []) R
  unfolding each After
  each-Runs R I body h [] w p = p
  each-Runs R I body h (x ∷ xs) w p =
      After-next (λ _. I xs) R (λ _. I []) (λ _. each body xs) (body x w) (h x xs w p)
        (λ _. each-Runs R I body h xs)

  pub times-Runs :
      (R : W → Type 0) (I : ℕ → W → Type 0) (body : Action W E (Unit {0}))
      → ((n : ℕ) → Runs (I (suc n)) body (λ _. I n) R)
      → (n : ℕ) → Runs (I n) (times body n) (λ _. I 0) R
  unfolding times After
  times-Runs R I body h zero w p = p
  times-Runs R I body h (suc n) w p =
      After-next (λ _. I n) R (λ _. I 0) (λ _. times body n) (body w) (h n w p)
        (λ _. times-Runs R I body h n)
