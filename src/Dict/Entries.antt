-- ===== src/Dict/Entries.antt =====
-- What the operations of a dictionary do to all of its entries.
use aws_light.Prelude.{
  String, ◌≡◌, ◌≢◌, some, [], ◌∷◌, arith, str_eq, eq_iff, All, Bool-cases, inl, inr,
}
use aws_light.Dict.{Dict, get, put, pop}

module _ {ℓ} {V : Type ℓ} where
  pub pop-put : (d : Dict V) (k : String) (v : V) → pop (put d k v) k ≡ pop d k
  unfolding put pop
  pop-put [] k v = ground (arith, eq_iff k k)
  pop-put ((j, w) ∷ d) k v = ground (arith, eq_iff k k, eq_iff j k, pop-put d k v)

module _ {ℓ κ μ} {V : Type ℓ} (P : String × V → Type κ) (Q : String × V → Type μ) where
  -- what holds of the entries at other keys holds of all that `pop` leaves
  pub All-pop :
      (d : Dict V) (k : String)
      → ((j : String) (v : V) → j ≢ k → P (j, v) → Q (j, v))
      → All P d
      → All Q (pop d k)
  unfolding pop
  All-pop [] k step h = tt
  All-pop ((j, v) ∷ d) k step h = elim (Bool-cases (str_eq j k)) [
    | inl e ↦ rw e (All-pop d k step h.1)
    | inr e ↦ rw e (step j v (ground (arith, eq_iff j k)) h.0, All-pop d k step h.1)
  ]

module _ {ℓ κ} {V : Type ℓ} (P : String × V → Type κ) where
  pub All-get : (d : Dict V) (k : String) (v : V) → get d k ≡ some v → All P d → P (k, v)
  unfolding get
  All-get [] k v e h = cc
  All-get ((j, w) ∷ d) k v e h = elim (Bool-cases (str_eq j k)) [
    | inl same ↦
        let p : j ≡ k = (eq_iff j k).0 same in
        let q : w ≡ v = ground arith in rw (← p) (rw (← q) h.0)
    | inr other ↦ All-get d k v (ground arith) h.1
  ]
