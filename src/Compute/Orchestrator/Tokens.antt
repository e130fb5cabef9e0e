-- ===== src/Compute/Orchestrator/Tokens.antt =====
-- aws_light/compute/orchestrator.py: a token or a password, once drawn, stays.
use mathlib.Core.Path.{subst}
use aws_light.Prelude.{
  ℕ, String, ◌≡◌, ◌≢◌, refl, sym, ◌∙◌, ap, Option, none, some, Option-cases, inl, inr, arith,
  str_eq, eq_iff, ◌⊎◌, Bool-cases, true,
}
use aws_light.Prelude.Outcome.{Outcome, raised, returned}
use aws_light.Prelude.Action.{next}
use aws_light.Store.{IsStore}
use aws_light.Secrets
use aws_light.Secrets.{InvalidToken, IsFernet}
use aws_light.Secrets.Environment.{get_secret-create_secret}
use aws_light.Compute.Orchestrator.World.{Env, World, Failure}
use aws_light.Compute.Orchestrator.Environment.{
  outcome_of, get_secret, create_secret, token_urlsafe, kept_or_new, keep_secret, truthy,
}

Outcome-cases :
    {E A : Type 0} (o : Outcome E A) → ((e : E) × (o ≡ raised e)) ⊎ ((a : A) × (o ≡ returned a))
Outcome-cases (raised e) = inl (e, refl)
Outcome-cases (returned a) = inr (a, refl)

returned-injective :
    (a b : String) (o : Outcome Failure String) → o ≡ returned a → o ≡ returned b → a ≡ b
returned-injective a b o h k = let l = sym h ∙ k in ground (arith, l)

truthy_nonempty : (value : String) → value ≢ "" → truthy (some value) ≡ some value
unfolding truthy
truthy_nonempty value h = elim (Bool-cases (str_eq value "")) [
  | inl e ↦ absurd (h ((eq_iff value "").0 e))
  | inr e ↦ rw e refl
]

module _ (env : Env) (law : IsStore env.secret_store) (cipher : IsFernet env.fernet) where
  stored : World env → String → Outcome InvalidToken (Option String)
  stored w name = Secrets.get_secret env.secret_store env.fernet w.secrets_manager name

  -- a secret that is there is kept
  keep_secret-present :
      (name value : String) (n : ℕ) (w : World env) (found : Option String)
      → stored w name ≡ returned found
      → truthy found ≡ some value
      → keep_secret env name n w ≡ (returned value, w)
  unfolding keep_secret get_secret outcome_of kept_or_new next stored
  keep_secret-present name value n w found there kept = rw (there, kept) refl

  -- the world after a new secret was drawn
  drawn : String → ℕ → World env → World env
  drawn name n w =
      let token = env.randomness.token_urlsafe n w.random in
      record w {
        random = token.1;
        secrets_manager =
            Secrets.create_secret env.secret_store env.fernet w.secrets_manager name token.0;
      }

  keep_secret-absent :
      (name : String) (n : ℕ) (w : World env) (found : Option String)
      → stored w name ≡ returned found
      → truthy found ≡ none
      → keep_secret env name n w
        ≡ (returned (env.randomness.token_urlsafe n w.random).0, drawn name n w)
  unfolding keep_secret get_secret outcome_of kept_or_new next stored drawn create_secret
      token_urlsafe
  keep_secret-absent name n w found there missing = rw (there, missing) refl

  keep_secret-raised :
      (name : String) (n : ℕ) (w : World env) (e : InvalidToken) (value : String) (w' : World env)
      → stored w name ≡ raised e
      → keep_secret env name n w ≢ (returned value, w')
  unfolding keep_secret get_secret outcome_of kept_or_new next stored
  keep_secret-raised name n w e value w' there h =
      let first : (keep_secret env name n w).0 ≡ raised Failure.invalid_token = rw there refl in
      let other : (keep_secret env name n w).0 ≡ returned value = ap (λ p. p.0) h in cc

  drawn-stored :
      (name : String) (n : ℕ) (w : World env)
      → stored (drawn name n w) name ≡ returned (some (env.randomness.token_urlsafe n w.random).0)
  unfolding stored drawn
  drawn-stored name n w =
      let token = (env.randomness.token_urlsafe n w.random).0 in
      let same : str_eq name name ≡ true = (eq_iff name name).1 refl in
      get_secret-create_secret env.secret_store env.fernet law cipher w.secrets_manager name token
        name
      ∙ rw same refl

  found-again :
      (name : String) (n : ℕ) (w w' : World env) (value : String) (found : Option String)
      → (env.randomness.token_urlsafe n w.random).0 ≢ ""
      → keep_secret env name n w ≡ (returned value, w')
      → stored w name ≡ returned found
      → keep_secret env name n w' ≡ (returned value, w')
  found-again name n w w' value found drawable first there = elim (Option-cases (truthy found)) [
    | inl missing ↦
        let token = (env.randomness.token_urlsafe n w.random).0 in
        let absent = sym (keep_secret-absent name n w found there missing) ∙ first in
        let same : token ≡ value =
          returned-injective token value (keep_secret env name n w).0
            (ap (λ p. p.0) (keep_secret-absent name n w found there missing))
            (ap (λ p. p.0) first) in
        let after : drawn name n w ≡ w' = ap (λ p. p.1) absent in
        subst (λ u. keep_secret env name n u ≡ (returned value, u)) after
          (keep_secret-present name value n (drawn name n w) (some token) (drawn-stored name n w)
            (truthy_nonempty token drawable ∙ ap some same))
    | inr (kept, e) ↦
        let present = sym (keep_secret-present name kept n w found there e) ∙ first in
        let after : w ≡ w' = ap (λ p. p.1) present in
        subst (λ u. keep_secret env name n u ≡ (returned value, w')) after first
  ]

  -- A service token or database password that was answered is answered again, and changes nothing
  -- then, where the text that the random source draws for it is not empty, the store of secrets
  -- keeps its contract and Fernet decrypts what it encrypts.
  pub keep_secret_again :
      (name : String) (n : ℕ) (w w' : World env) (value : String)
      → (env.randomness.token_urlsafe n w.random).0 ≢ ""
      → keep_secret env name n w ≡ (returned value, w')
      → keep_secret env name n w' ≡ (returned value, w')
  keep_secret_again name n w w' value drawable first = elim (Outcome-cases (stored w name)) [
    | inl (e, there) ↦ absurd (keep_secret-raised name n w e value w' there first)
    | inr (found, there) ↦ found-again name n w w' value found drawable first there
  ]
