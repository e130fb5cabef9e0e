-- ===== src/Compute/Scheduler/Selection.antt =====
-- aws_light/compute/scheduler.py: which node is chosen.
use mathlib.Core.List.{Mem, mem-cons_self, mem-cons_of_mem}
use mathlib.Core.Path.{subst}
use mathlib.Core.Option.{some-injective}
use aws_light.Prelude.{
  ◌≤◌, ◌≡◌, ◌∙◌, ap, sym, refl, Bool, true, false, Option, none, some, List, [], ◌∷◌, arith, length,
  if◌then◌else◌, Bool-cases, inl, inr, ◌⊎◌, All, Option-cases,
}
use aws_light.Prelude.Int.{◌≤ℤ◌}
use aws_light.Models.{Amount, NodeState, available_cpu, available_memory_mb}
use aws_light.Compute.Scheduler.{
  fits, candidates, bin_pack_less, spread_less, least, min_by, Scheduler, bin_pack_scheduler,
  spread_scheduler, less, select_node,
}

-- A reflexive and transitive order that a test of `<` decides.
record Decides {ℓ κ} {A : Type ℓ} (R : A → A → Type κ) (lt : A → A → Bool) : Type (ℓ ⊔ κ) where
  reflexive : (x : A) → R x x
  transitive : (x y z : A) → R x y → R y z → R x z
  yes_less : (x y : A) → lt x y ≡ true → R x y
  no_less : (x y : A) → lt x y ≡ false → R y x

module _ {ℓ κ} {A : Type ℓ} (R : A → A → Type κ) (lt : A → A → Bool) (d : Decides R lt) where
  -- `least` is below its start and below all that it is compared with
  least-le : (best : A) (xs : List A) (m : A) → m ≡ least lt best xs → R m best × All (R m) xs
  unfolding least
  least-le best [] m e = (rw e (d.reflexive best), tt)
  least-le best (x ∷ xs) m e = elim (Bool-cases (lt x best)) [
    | inl p ↦
        let (below, all) = least-le x xs m (e ∙ ap (λ b. least lt (if b then x else best) xs) p) in
        (d.transitive m x best below (d.yes_less x best p), (below, all))
    | inr p ↦
        let (below, all) =
          least-le best xs m (e ∙ ap (λ b. least lt (if b then x else best) xs) p) in
        (below, (d.transitive m best x below (d.no_less x best p), all))
  ]

-- what holds of all that `least` compares holds of the one that it takes
pub least-All {ℓ κ} :
    {A : Type ℓ} (P : A → Type κ) (lt : A → A → Bool) (best : A) (xs : List A)
    → P best
    → All P xs
    → P (least lt best xs)
unfolding least
least-All P lt best [] h hs = h
least-All P lt best (x ∷ xs) h hs = elim (Bool-cases (lt x best)) [
  | inl p ↦ rw p (least-All P lt x xs hs.0 hs.1)
  | inr p ↦ rw p (least-All P lt best xs h hs.1)
]

All-Mem {ℓ} :
    {A : Type ℓ} (xs ys : List A) → ((a : A) → Mem a xs → Mem a ys) → All (λ a. Mem a ys) xs
All-Mem [] ys h = tt
All-Mem (x ∷ xs) ys h = (h x mem-cons_self, All-Mem xs ys (λ a m. h a (mem-cons_of_mem x m)))

-- the order of the bin-packing keys before the name: free CPU, then free memory
abbrev pub BinPackLe : NodeState → NodeState → Type 0
BinPackLe x y =
    (available_cpu x ≤ℤ available_cpu y)
    × (available_cpu y ≤ℤ available_cpu x → available_memory_mb x ≤ℤ available_memory_mb y)

-- the order of the spreading keys before the name: replicas, then CPU and memory in use
abbrev pub SpreadLe : NodeState → NodeState → Type 0
SpreadLe x y =
    (length x.replica_ids ≤ length y.replica_ids)
    × (length y.replica_ids ≤ length x.replica_ids
        → (x.usage.cpu_used ≤ℤ y.usage.cpu_used)
          × (y.usage.cpu_used ≤ℤ x.usage.cpu_used
              → x.usage.memory_used_mb ≤ℤ y.usage.memory_used_mb))

bin_pack-Decides : Decides BinPackLe bin_pack_less
unfolding bin_pack_less
bin_pack-Decides = record {
  reflexive = λ x. omega arith;
  transitive = λ x y z h k. ground arith;
  yes_less = λ x y h. ground arith;
  no_less = λ x y h. ground arith;
}

spread-Decides : Decides SpreadLe spread_less
unfolding spread_less
spread-Decides = record {
  reflexive = λ x. omega arith;
  transitive = λ x y z h k. ground arith;
  yes_less = λ x y h. ground arith;
  no_less = λ x y h. ground arith;
}

-- the order that a policy prefers nodes by
abbrev pub Prefers : Scheduler → NodeState → NodeState → Type 0
Prefers bin_pack_scheduler = BinPackLe
Prefers spread_scheduler = SpreadLe

Prefers-Decides : (s : Scheduler) → Decides (Prefers s) (less s)
unfolding less
Prefers-Decides bin_pack_scheduler = bin_pack-Decides
Prefers-Decides spread_scheduler = spread-Decides

module _ (cpu memory : Amount) where
  -- a node of the list that has room
  abbrev pub Usable : List NodeState → NodeState → Type 0
  Usable nodes n = Mem n nodes × (fits cpu memory n ≡ true)

  candidates-Usable :
      (xs ys : List NodeState)
      → ((a : NodeState) → Mem a xs → Mem a ys)
      → All (Usable ys) (candidates cpu memory xs)
  unfolding candidates
  candidates-Usable [] ys h = tt
  candidates-Usable (x ∷ xs) ys h =
      let rest = candidates-Usable xs ys (λ a m. h a (mem-cons_of_mem x m)) in
      elim (Bool-cases (fits cpu memory x)) [
        | inl p ↦ rw p ((h x mem-cons_self, p), rest)
        | inr p ↦ rw p rest
      ]

  -- what holds of the candidates holds of every node with room
  All-candidates :
      (P : NodeState → Type 0) (xs : List NodeState)
      → All P (candidates cpu memory xs)
      → All (λ n. fits cpu memory n ≡ true → P n) xs
  unfolding candidates
  All-candidates P [] h = tt
  All-candidates P (x ∷ xs) h = elim (Bool-cases (fits cpu memory x)) [
    | inl p ↦
        let h' : P x × All P (candidates cpu memory xs) = rw p at h in
        (λ _. h'.0, All-candidates P xs h'.1)
    | inr p ↦
        let h' : All P (candidates cpu memory xs) = rw p at h in (λ q. cc, All-candidates P xs h')
  ]

  candidates-nil :
      (xs : List NodeState)
      → candidates cpu memory xs ≡ []
      → All (λ n. fits cpu memory n ≡ false) xs
  unfolding candidates
  candidates-nil [] h = tt
  candidates-nil (x ∷ xs) h = (ground arith, candidates-nil xs (ground arith))

  -- What a scheduler answers: a node of the list with room for the request that it prefers to
  -- every other with room, or the error, exactly when no node has room.
  pub record Answers (s : Scheduler) (nodes : List NodeState) (result : Option NodeState)
      : Type 0 where
    pub error : result ≡ none → All (λ n. fits cpu memory n ≡ false) nodes
    pub chosen :
        (n : NodeState)
        → result ≡ some n
        → Usable nodes n × All (λ m. fits cpu memory m ≡ true → Prefers s n m) nodes

  pub select_node-Answers :
      (s : Scheduler) (nodes : List NodeState) → Answers s nodes (select_node s nodes cpu memory)
  unfolding select_node
  select_node-Answers s nodes =
      go (candidates cpu memory nodes) refl (candidates-Usable nodes nodes (λ a m. m))
    where
      go :
          (l : List NodeState)
          → candidates cpu memory nodes ≡ l
          → All (Usable nodes) l
          → Answers s nodes (min_by (less s) l)
      go [] e h = record { error = λ _. candidates-nil nodes e; chosen = λ n p. cc }
      go (x ∷ l) e h = record {
        error = λ p. cc;
        chosen = λ n p.
            let q : least (less s) x l ≡ n = some-injective _ _ p in
            let (below, all) = least-le (Prefers s) (less s) (Prefers-Decides s) x l n (sym q) in
            (
              subst (Usable nodes) q (least-All (Usable nodes) (less s) x l h.0 h.1),
              All-candidates (Prefers s n) nodes (subst (All (Prefers s n)) (sym e) (below, all)),
            );
      }

  -- What is right to answer: no node where none has room; else a node of the list that has room, and is
  -- at least as good, by the rule of the scheduler, as each other that has room.
  abbrev pub Best : Scheduler → List NodeState → Option NodeState → Type 0
  Best s nodes none = All (λ m. fits cpu memory m ≡ false) nodes
  Best s nodes (some n) =
      Usable nodes n × All (λ m. (fits cpu memory m ≡ false) ⊎ Prefers s n m) nodes

  choices :
      (s : Scheduler) (nodes : List NodeState) (n : NodeState)
      → All (λ m. fits cpu memory m ≡ true → Prefers s n m) nodes
      → All (λ m. (fits cpu memory m ≡ false) ⊎ Prefers s n m) nodes
  choices s [] n h = tt
  choices s (m ∷ nodes) n h = (
    elim (Bool-cases (fits cpu memory m)) [ inl e ↦ inr ((h.0) e) | inr e ↦ inl e ],
    choices s nodes n (h.1),
  )

  -- The scheduler answers a node of the list that has room and is at least as good, by the rule of
  -- the policy, as each other that has room, and no node exactly where none has room.
  pub select_node-Best :
      (s : Scheduler) (nodes : List NodeState) → Best s nodes (select_node s nodes cpu memory)
  select_node-Best s nodes =
      let answers = select_node-Answers s nodes in
      elim (Option-cases (select_node s nodes cpu memory)) [
        | inl e ↦ rw e (answers.error e)
        | inr (n, e) ↦
            let (usable, better) = answers.chosen n e in rw e (usable, choices s nodes n better)
      ]
