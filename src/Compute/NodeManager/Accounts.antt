-- ===== src/Compute/NodeManager/Accounts.antt =====
-- aws_light/compute/node_manager.py: all nodes together, and the placement that the scheduler chooses.
use mathlib.Core.Option.{some-injective}
use mathlib.Core.Option
use mathlib.Core.Path.{subst}
use aws_light.Prelude.{
  String, ◌≡◌, refl, sym, ◌∙◌, ap, Bool, true, none, some, List, [], ◌∷◌, arith, str_eq, eq_iff,
  Bool-cases, inl, inr, All,
}
use aws_light.Dict
use aws_light.Dict.{Dict, get-put}
use aws_light.Models.{Amount, NodeState}
use aws_light.Compute.Scheduler.{Scheduler, fits, candidates, min_by, less, select_node}
use aws_light.Compute.Scheduler.Selection.{least-All}
use aws_light.Compute.NodeManager.{NodeManager, allocate_on, allocate, get_all_nodes}
use aws_light.Compute.NodeManager.Accounting.{WithinCapacity, allocate_on-WithinCapacity}

-- no key twice
abbrev pub Unique {ℓ} : {V : Type ℓ} → Dict V → Type ℓ
Unique [] = Unit
Unique ((k, v) ∷ d) = (Dict.get d k ≡ none) × Unique d

module _ {V : Type 0} where
  put-Unique : (d : Dict V) (k : String) (v : V) → Unique d → Unique (Dict.put d k v)
  unfolding Dict.put Dict.get
  put-Unique [] k v h = (refl, tt)
  put-Unique ((j, w) ∷ d) k v h = elim (Bool-cases (str_eq j k)) [
    | inl e ↦ let same : j ≡ k = (eq_iff j k).0 e in rw e (ap (Dict.get d) (sym same) ∙ h.0, h.1)
    | inr e ↦
        rw e (ground (arith, get-put d k j v, eq_iff k j, eq_iff j k, h.0), put-Unique d k v h.1)
  ]

  put-All :
      (P : String × V → Type 0) (d : Dict V) (k : String) (v : V)
      → P (k, v)
      → All P d
      → All P (Dict.put d k v)
  unfolding Dict.put
  put-All P [] k v p h = (p, tt)
  put-All P ((j, w) ∷ d) k v p h = elim (Bool-cases (str_eq j k)) [
    | inl e ↦ rw e (p, h.1)
    | inr e ↦ rw e (h.0, put-All P d k v p h.1)
  ]

-- The nodes are stored under their names, and no more of any is in use than it has.
pub record Accounts (nodes : NodeManager) : Type 0 where
  pub unique : Unique nodes
  pub keyed : All (λ e. e.1.spec.node_id ≡ e.0) nodes
  pub within : All (λ e. WithinCapacity e.1) nodes

-- a node that is found under its own name, and is within its capacity
abbrev pub Listed : NodeManager → NodeState → Type 0
Listed nodes n = (Dict.get nodes n.spec.node_id ≡ some n) × WithinCapacity n

cons-Listed :
    (k : String) (m : NodeState) (nodes : NodeManager)
    → Dict.get nodes k ≡ none
    → (n : NodeState) → Listed nodes n
    → Listed ((k, m) ∷ nodes) n
unfolding Dict.get
cons-Listed k m nodes fresh n h = elim (Bool-cases (str_eq k n.spec.node_id)) [
  | inl e ↦
      let same : k ≡ n.spec.node_id = (eq_iff k n.spec.node_id).0 e in
      let missing : Dict.get nodes n.spec.node_id ≡ none = ap (Dict.get nodes) (sym same) ∙ fresh in
      cc
  | inr e ↦ (rw e h.0, h.1)
]

-- a property that another implies
All-implied :
    (P Q : NodeState → Type 0) (nodes : List NodeState)
    → ((n : NodeState) → P n → Q n)
    → All P nodes
    → All Q nodes
All-implied P Q [] f h = tt
All-implied P Q (n ∷ nodes) f h = (f n h.0, All-implied P Q nodes f h.1)

get_self : (k : String) (m : NodeState) (nodes : NodeManager) → Dict.get ((k, m) ∷ nodes) k ≡ some m
unfolding Dict.get
get_self k m nodes = ground (arith, eq_iff k k)

Accounts-Listed : (nodes : NodeManager) → Accounts nodes → All (Listed nodes) (get_all_nodes nodes)
unfolding get_all_nodes
Accounts-Listed [] h = tt
Accounts-Listed ((k, m) ∷ nodes) h =
    let rest : Accounts nodes = record {
      unique = h.unique.1;
      keyed = h.keyed.1;
      within = h.within.1;
    } in
    let found : Dict.get ((k, m) ∷ nodes) m.spec.node_id ≡ some m =
      ap (Dict.get ((k, m) ∷ nodes)) h.keyed.0 ∙ get_self k m nodes in
    (
      (found, h.within.0),
      All-implied (Listed nodes) (Listed ((k, m) ∷ nodes)) (Dict.values nodes)
          (cons-Listed k m nodes h.unique.0) (Accounts-Listed nodes rest),
    )

candidates-All :
    (P : NodeState → Type 0) (cpu memory : Amount) (nodes : List NodeState)
    → All P nodes
    → All (λ n. P n × (fits cpu memory n ≡ true)) (candidates cpu memory nodes)
unfolding candidates
candidates-All P cpu memory [] h = tt
candidates-All P cpu memory (n ∷ nodes) h = elim (Bool-cases (fits cpu memory n)) [
  | inl e ↦ rw e ((h.0, e), candidates-All P cpu memory nodes h.1)
  | inr e ↦ rw e (candidates-All P cpu memory nodes h.1)
]

min_by-All :
    (P : NodeState → Type 0) (lt : NodeState → NodeState → Bool) (nodes : List NodeState)
    (n : NodeState)
    → min_by lt nodes ≡ some n
    → All P nodes
    → P n
unfolding min_by
min_by-All P lt [] n e h = cc
min_by-All P lt (m ∷ nodes) n e h = subst P (some-injective _ _ e) (least-All P lt m nodes h.0 h.1)

-- The node that a scheduler chooses for a request.
pub record Chosen (nodes : NodeManager) (cpu memory : Amount) (n : NodeState) : Type 0 where
  pub found : Dict.get nodes n.spec.node_id ≡ some n
  pub within : WithinCapacity n
  pub room : fits cpu memory n ≡ true

pub select_node-Chosen :
    (scheduler : Scheduler) (nodes : NodeManager) (cpu memory : Amount) (n : NodeState)
    → Accounts nodes
    → select_node scheduler (get_all_nodes nodes) cpu memory ≡ some n
    → Chosen nodes cpu memory n
unfolding select_node
select_node-Chosen scheduler nodes cpu memory n h e =
    let best =
      min_by-All (λ m. Listed nodes m × (fits cpu memory m ≡ true)) (less scheduler)
        (candidates cpu memory (get_all_nodes nodes)) n e
        (candidates-All (Listed nodes) cpu memory (get_all_nodes nodes)
          (Accounts-Listed nodes h)) in
    record { found = best.0.0; within = best.0.1; room = best.1 }

allocate_on_name :
    (n : NodeState) (replica_id : String) (cpu memory : Amount)
    → (allocate_on n replica_id cpu memory).spec ≡ n.spec
unfolding allocate_on
allocate_on_name n replica_id cpu memory = ground arith

-- The placement on the chosen node is possible.
pub allocate-Accounts :
    (nodes : NodeManager) (n : NodeState) (replica_id : String) (cpu memory : Amount)
    → Accounts nodes
    → Chosen nodes cpu memory n
    → (after : NodeManager) × (allocate nodes n.spec.node_id replica_id cpu memory ≡ some after)
      × Accounts after
unfolding allocate
allocate-Accounts nodes n replica_id cpu memory h c =
    let id = n.spec.node_id in
    let placed = allocate_on n replica_id cpu memory in
    (
      Dict.put nodes id placed,
      ap (Option.map (λ m. Dict.put nodes id (allocate_on m replica_id cpu memory))) c.found,
      record {
        unique = put-Unique nodes id placed h.unique;
        keyed =
            put-All (λ e. e.1.spec.node_id ≡ e.0) nodes id placed
              (ap (λ spec. spec.node_id) (allocate_on_name n replica_id cpu memory)) h.keyed;
        within =
            put-All (λ e. WithinCapacity e.1) nodes id placed
              (allocate_on-WithinCapacity n replica_id cpu memory c.room c.within) h.within;
      },
    )
