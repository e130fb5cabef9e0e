-- ===== src/Proxy/LoadBalancer/Rotation.antt =====
-- aws_light/proxy/load_balancer.py: which replica a request is sent to.
use mathlib.Core.Option
use mathlib.Core.List.{Perm, perm_append_comm}
use mathlib.Core.Path.{subst}
use native.Mathlib.Nat.{
  mod-lt, add-mod-mod, add-mod_left, mul-add-mod_self_left, mod-eq_of_lt, div-add-mod,
}
use mathlib.Core.Option.{some-injective}
use aws_light.Prelude.{
  ℕ, zero, suc, ◌+◌, ◌-◌, ◌%◌, ◌<◌, ◌*◌, ◌/◌, ap, ◌∙◌, ◌↔◌, ◌≢◌, Option-cases, Bool-cases, inl, inr,
  String, ◌≡◌, refl, true, Option, none, some, List, [], ◌∷◌, ◌++◌, arith, eq_iff, length, take,
  drop, get_elem?, take-append-drop, All-append, All-take, All-drop, All,
}
use aws_light.Dict
use aws_light.Dict.{get-put}
use aws_light.Proxy.RoutingTable.{ReplicaEndpoint}
use aws_light.Proxy.LoadBalancer.{
  RoundRobinBalancer, healthy_endpoints, rotate, choose, healthy_replicas_for_request,
  next_healthy_replica, first,
}

abbrev counter : RoundRobinBalancer → String → ℕ
counter b s = Option.get_or (Dict.get b.counters s) 0

rotate-perm {ℓ} : {A : Type ℓ} (n : ℕ) (xs : List A) → Perm (rotate n xs) xs
unfolding rotate
rotate-perm n xs =
    subst (Perm (rotate n xs)) (take-append-drop n xs) (perm_append_comm (drop n xs) (take n xs))

first-drop :
    (n : ℕ) (xs ys : List ReplicaEndpoint)
    → n < length xs
    → first (some (drop n xs ++ ys)) ≡ get_elem? xs n
first-drop n [] ys h = absurd (omega arith)
first-drop zero (x ∷ xs) ys h = refl
first-drop (suc n) (x ∷ xs) ys h = first-drop n xs ys (omega arith)

healthy_endpoints-All :
    (l : List ReplicaEndpoint) → All (λ e. e.healthy ≡ true) (healthy_endpoints l)
unfolding healthy_endpoints
healthy_endpoints-All [] = tt
healthy_endpoints-All (e ∷ l) = elim (Bool-cases e.healthy) [
  | inl h ↦ rw h (refl, healthy_endpoints-All l)
  | inr h ↦ rw h (healthy_endpoints-All l)
]

All-rotate {ℓ κ} :
    {A : Type ℓ} (P : A → Type κ) (n : ℕ) (xs : List A) → All P xs → All P (rotate n xs)
unfolding rotate
All-rotate P n xs h = All-append P (drop n xs) (take n xs) (All-drop P n xs h) (All-take P n xs h)

-- one request: the replica of the counter's turn, and the counter goes on
choose-turn :
    (b : RoundRobinBalancer) (s : String) (l : List ReplicaEndpoint)
    → 0 < length l
    → (first (choose b s l).0 ≡ get_elem? l (counter b s % length l))
      × (counter (choose b s l).1 s ≡ counter b s + 1)
unfolding choose rotate
choose-turn b s [] h = absurd (omega arith)
choose-turn b s (e ∷ l) h = (
  first-drop (counter b s % length (e ∷ l)) (e ∷ l) _ (mod-lt (counter b s) h),
  ground (arith, get-put b.counters s s (counter b s + 1), eq_iff s s),
)

-- the balancer after a number of requests for one service
unfoldable pub after : ℕ → RoundRobinBalancer → String → List ReplicaEndpoint → RoundRobinBalancer
after zero b s endpoints = b
after (suc n) b s endpoints = after n (next_healthy_replica b s endpoints).1 s endpoints

turns :
    (n : ℕ) (b : RoundRobinBalancer) (s : String) (endpoints : List ReplicaEndpoint)
    → 0 < length (healthy_endpoints endpoints)
    → (next_healthy_replica (after n b s endpoints) s endpoints).0
      ≡ get_elem?
          (healthy_endpoints endpoints)
          ((counter b s + n) % length (healthy_endpoints endpoints))
unfolding after next_healthy_replica
turns zero b s endpoints h =
    let e : counter b s + 0 ≡ counter b s = omega arith in
    rw e ((choose-turn b s (healthy_endpoints endpoints) h).0)
turns (suc n) b s endpoints h =
    let b' = (next_healthy_replica b s endpoints).1 in
    let e : counter b s + suc n ≡ counter b' s + n =
      omega (arith, (choose-turn b s (healthy_endpoints endpoints) h).1) in
    rw e (turns n b' s endpoints h)

-- the request at which a replica has its turn
turn_of : (c n j : ℕ) → j < n → (c + (j + (n - c % n)) % n) % n ≡ j
turn_of c n j h =
    let r : c % n < n = mod-lt c (omega arith) in
    let e : c + (j + (n - c % n)) ≡ n * (c / n) + (n + j) = omega (arith, div-add-mod c n) in
    add-mod-mod c (j + (n - c % n)) n
    ∙ ap (λ m. m % n) e
    ∙ mul-add-mod_self_left n (c / n) (n + j)
    ∙ add-mod_left n j
    ∙ mod-eq_of_lt h

-- While the healthy replicas of a service stay the same, each is the first choice of one of the
-- next so many requests.
pub fair :
    (b : RoundRobinBalancer) (s : String) (endpoints : List ReplicaEndpoint) (j : ℕ)
    → j < length (healthy_endpoints endpoints)
    → (i : ℕ) × (i < length (healthy_endpoints endpoints))
      × ((next_healthy_replica (after i b s endpoints) s endpoints).0
          ≡ get_elem? (healthy_endpoints endpoints) j)
fair b s endpoints j h =
    let n = length (healthy_endpoints endpoints) in
    let c = counter b s in
    let i = (j + (n - c % n)) % n in
    (
      i,
      mod-lt _ (omega arith),
      turns i b s endpoints (omega arith)
          ∙ ap (get_elem? (healthy_endpoints endpoints)) (turn_of c n j h),
    )

-- What one request gets: every healthy replica, each as often as the table has it, and no other,
-- in an order that begins at the turn; or the error, exactly when none is healthy.
pub record Offers (endpoints : List ReplicaEndpoint) (result : Option (List ReplicaEndpoint))
    : Type 0 where
  pub error_iff : (result ≡ none) ↔ (healthy_endpoints endpoints ≡ [])
  pub all :
      (l : List ReplicaEndpoint)
      → result ≡ some l
      → Perm l (healthy_endpoints endpoints) × All (λ e. e.healthy ≡ true) l

pub healthy_replicas-Offers :
    (b : RoundRobinBalancer) (s : String) (endpoints : List ReplicaEndpoint)
    → Offers endpoints (healthy_replicas_for_request b s endpoints).0
unfolding healthy_replicas_for_request
healthy_replicas-Offers b s endpoints =
    go (healthy_endpoints endpoints) (healthy_endpoints-All endpoints) refl
  where
    go :
        (l : List ReplicaEndpoint)
        → All (λ e. e.healthy ≡ true) l
        → healthy_endpoints endpoints ≡ l
        → Offers endpoints (choose b s l).0
    go [] h e = record { error_iff = (λ _. e, λ _. refl); all = λ l p. cc }
    go (x ∷ l) h e = record {
      error_iff = (λ p. cc, λ p. cc (p, e));
      all = λ m p.
          let k = counter b s % length (x ∷ l) in
          let q : rotate k (x ∷ l) ≡ m = some-injective _ _ p in
          (
            subst (λ v. Perm v (healthy_endpoints endpoints)) q (rw e (rotate-perm k (x ∷ l))),
            subst (All (λ v. v.healthy ≡ true)) q (All-rotate _ k (x ∷ l) h),
          );
    }

-- What is right to answer for a request: an error where no endpoint is healthy, else all the healthy
-- ones, in some order.
abbrev pub Offered : List ReplicaEndpoint → Option (List ReplicaEndpoint) → Type 0
Offered endpoints none = healthy_endpoints endpoints ≡ []
Offered endpoints (some l) =
    (healthy_endpoints endpoints ≢ [])
    × Perm l (healthy_endpoints endpoints)
    × All (λ e. e.healthy ≡ true) l

-- healthy_replicas_for_request offers each healthy endpoint once and no other, and raises exactly
-- where none is healthy.
pub healthy_replicas-Offered :
    (b : RoundRobinBalancer) (s : String) (endpoints : List ReplicaEndpoint)
    → Offered endpoints (healthy_replicas_for_request b s endpoints).0
healthy_replicas-Offered b s endpoints =
    let offers = healthy_replicas-Offers b s endpoints in
    elim (Option-cases ((healthy_replicas_for_request b s endpoints).0)) [
      | inl e ↦ rw e ((offers.error_iff).0 e)
      | inr (l, e) ↦
          let (perm, healthy) = offers.all l e in
          rw e (λ empty. cc ((offers.error_iff).1 empty, e), perm, healthy)
    ]
