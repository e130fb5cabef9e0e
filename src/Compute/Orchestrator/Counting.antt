-- ===== src/Compute/Orchestrator/Counting.antt =====
-- aws_light/compute/orchestrator.py: the running and the stale replicas of a list that changes.
use aws_light.Prelude.{
  ℕ, ◌+◌, ◌≤◌, String, ◌≡◌, refl, sym, ◌∙◌, ap, true, List, [], ◌∷◌, ◌++◌, arith, eq_iff, length,
  take, drop, length-append, length-take, take-append-drop,
}
use mathlib.Core.Path.{ap₂}
use aws_light.Models.{ReplicaState}
use aws_light.Compute.Orchestrator.Replicas.{is_running, without}
use aws_light.Compute.Orchestrator.Reconcile.{running_replicas, stale_replicas}

-- the replicas that the removal of each of `xs` leaves
unfoldable pub without_all : List ReplicaState → List ReplicaState → List ReplicaState
unfolding without
without_all [] rs = rs
without_all (x ∷ xs) rs = without_all xs (without x.replica_id rs)

running-without :
    (id : String) (rs : List ReplicaState)
    → running_replicas (without id rs) ≡ without id (running_replicas rs)
unfolding running_replicas without
running-without id [] = refl
running-without id (r ∷ rs) = ground (arith, running-without id rs)

stale-without :
    (image id : String) (rs : List ReplicaState)
    → stale_replicas image (without id rs) ≡ without id (stale_replicas image rs)
unfolding stale_replicas without
stale-without image id [] = refl
stale-without image id (r ∷ rs) = ground (arith, stale-without image id rs)

pub running-without_all :
    (xs rs : List ReplicaState)
    → running_replicas (without_all xs rs) ≡ without_all xs (running_replicas rs)
unfolding without_all
running-without_all [] rs = refl
running-without_all (x ∷ xs) rs =
    running-without_all xs (without x.replica_id rs)
    ∙ ap (without_all xs) (running-without x.replica_id rs)

pub stale-without_all :
    (image : String) (xs rs : List ReplicaState)
    → stale_replicas image (without_all xs rs) ≡ without_all xs (stale_replicas image rs)
unfolding without_all
stale-without_all image [] rs = refl
stale-without_all image (x ∷ xs) rs =
    stale-without_all image xs (without x.replica_id rs)
    ∙ ap (without_all xs) (stale-without image x.replica_id rs)

without_comm :
    (a b : String) (rs : List ReplicaState) → without a (without b rs) ≡ without b (without a rs)
unfolding without
without_comm a b [] = refl
without_comm a b (r ∷ rs) = ground (arith, without_comm a b rs)

without_all-without :
    (xs : List ReplicaState) (id : String) (rs : List ReplicaState)
    → without_all xs (without id rs) ≡ without id (without_all xs rs)
unfolding without_all
without_all-without [] id rs = refl
without_all-without (x ∷ xs) id rs =
    ap (without_all xs) (without_comm x.replica_id id rs)
    ∙ without_all-without xs id (without x.replica_id rs)

pub without_all-nil : (xs : List ReplicaState) → without_all xs [] ≡ []
unfolding without_all without
without_all-nil [] = refl
without_all-nil (x ∷ xs) = without_all-nil xs

without-cons_self :
    (r : ReplicaState) (rs : List ReplicaState)
    → without r.replica_id (r ∷ rs) ≡ without r.replica_id rs
unfolding without
without-cons_self r rs = ground (arith, eq_iff r.replica_id r.replica_id)

pub without_all_self : (xs : List ReplicaState) → without_all xs xs ≡ []
unfolding without_all without
without_all_self [] = refl
without_all_self (x ∷ xs) =
    ap (without_all xs) (without-cons_self x xs)
    ∙ without_all-without xs x.replica_id xs
    ∙ ap (without x.replica_id) (without_all_self xs)

without-append :
    (id : String) (ls ms : List ReplicaState)
    → without id (ls ++ ms) ≡ without id ls ++ without id ms
unfolding without
without-append id [] ms = refl
without-append id (a ∷ ls) ms = ground (arith, without-append id ls ms)

without_all-append :
    (xs ls ms : List ReplicaState)
    → without_all xs (ls ++ ms) ≡ without_all xs ls ++ without_all xs ms
unfolding without_all
without_all-append [] ls ms = refl
without_all-append (x ∷ xs) ls ms =
    ap (without_all xs) (without-append x.replica_id ls ms)
    ∙ without_all-append xs (without x.replica_id ls) (without x.replica_id ms)

length-without : (id : String) (rs : List ReplicaState) → length (without id rs) ≤ length rs
unfolding without
length-without id [] = omega arith
length-without id (r ∷ rs) = ground (arith, length-without id rs)

pub length-without_all : (xs rs : List ReplicaState) → length (without_all xs rs) ≤ length rs
unfolding without_all
length-without_all [] rs = omega arith
length-without_all (x ∷ xs) rs =
    omega (arith, length-without_all xs (without x.replica_id rs), length-without x.replica_id rs)

-- The removal of all from the place `d` on leaves no more than `d`.
pub length-without_all-drop :
    (d : ℕ) (rs : List ReplicaState) → length (without_all (drop d rs) rs) ≤ d
length-without_all-drop d rs =
    let excess = drop d rs in
    let parts : without_all excess rs
        ≡ without_all excess (take d rs) ++ without_all excess excess =
      ap (without_all excess) (sym (take-append-drop d rs))
      ∙ without_all-append excess (take d rs) excess in
    let sizes =
      ap length parts
      ∙ length-append (without_all excess (take d rs)) (without_all excess excess)
      ∙ ap (λ l. length (without_all excess (take d rs)) + length l) (without_all_self excess) in
    omega (arith, sizes, length-without_all excess (take d rs), length-take d rs)

pub running-append :
    (ls ms : List ReplicaState)
    → running_replicas (ls ++ ms) ≡ running_replicas ls ++ running_replicas ms
unfolding running_replicas
running-append [] ms = refl
running-append (a ∷ ls) ms = ground (arith, running-append ls ms)

pub stale-append :
    (image : String) (ls ms : List ReplicaState)
    → stale_replicas image (ls ++ ms) ≡ stale_replicas image ls ++ stale_replicas image ms
unfolding stale_replicas
stale-append image [] ms = refl
stale-append image (a ∷ ls) ms = ground (arith, stale-append image ls ms)

running_one : (r : ReplicaState) → is_running r ≡ true → running_replicas (r ∷ []) ≡ r ∷ []
unfolding running_replicas
running_one r up = rw up refl

stale_one :
    (image : String) (r : ReplicaState) → r.image ≡ image → stale_replicas image (r ∷ []) ≡ []
unfolding stale_replicas
stale_one image r same = ground (arith, eq_iff r.image image)

-- one more replica of the wanted image
pub fresh-append :
    (image : String) (rs : List ReplicaState) (r : ReplicaState)
    → is_running r ≡ true
    → r.image ≡ image
    → stale_replicas image (running_replicas rs) ≡ []
    → stale_replicas image (running_replicas (rs ++ r ∷ [])) ≡ []
fresh-append image rs r up same fresh =
    let one : running_replicas (rs ++ r ∷ []) ≡ running_replicas rs ++ r ∷ [] =
      running-append rs (r ∷ []) ∙ ap (λ l. running_replicas rs ++ l) (running_one r up) in
    ap (stale_replicas image) one
    ∙ stale-append image (running_replicas rs) (r ∷ [])
    ∙ ap₂ ◌++◌ fresh (stale_one image r same)

pub length-running_append :
    (rs : List ReplicaState) (r : ReplicaState)
    → is_running r ≡ true
    → length (running_replicas (rs ++ r ∷ [])) ≡ length (running_replicas rs) + 1
length-running_append rs r up =
    ap length (running-append rs (r ∷ []) ∙ ap (λ l. running_replicas rs ++ l) (running_one r up))
    ∙ length-append (running_replicas rs) (r ∷ [])
