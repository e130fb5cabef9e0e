-- ===== src/Compute/Orchestrator/Dispatch.antt =====
-- aws_light/compute/orchestrator.py: which rollouts `_dispatch_pending_rollouts` starts.
use aws_light.Prelude.{
  ◌≡◌, refl, sym, true, false, List, [], ◌∷◌, arith, eq_iff, Bool-cases, inl, inr, String, All,
}
use mathlib.Core.Path.{subst}
use aws_light.Compute.NodeManager.{member}
use aws_light.Compute.Orchestrator.World.{RolloutState}
use aws_light.Compute.Orchestrator.Rollout.{startable, dispatch}

-- Each of the rollouts could start when all before it were executing.
unfoldable pub InTurn : List String → List RolloutState → Type 0
InTurn executing [] = Unit
InTurn executing (r ∷ rs) = (startable executing r ≡ true) × InTurn (r.deployment_id ∷ executing) rs

member-there :
    (id other : String) (ids : List String) → member id ids ≡ true → member id (other ∷ ids) ≡ true
unfolding member
member-there id other ids h = ground arith

member-dispatch :
    (id : String) (executing : List String) (rollouts : List RolloutState)
    → member id executing ≡ true
    → member id ((dispatch executing rollouts).1) ≡ true
unfolding dispatch
member-dispatch id executing [] h = h
member-dispatch id executing (r ∷ rs) h = elim (Bool-cases (startable executing r)) [
  | inl e ↦ rw e (
      member-dispatch id (r.deployment_id ∷ executing) rs
        (member-there id r.deployment_id executing h))
  | inr e ↦ rw e (member-dispatch id executing rs h)
]

-- a rollout that could not start still cannot
startable-dispatch :
    (r : RolloutState) (executing : List String) (rollouts : List RolloutState)
    → startable executing r ≡ false
    → startable ((dispatch executing rollouts).1) r ≡ false
unfolding startable
startable-dispatch r executing rollouts h = elim (Bool-cases (member r.deployment_id executing)) [
  | inl e ↦ ground (arith, member-dispatch r.deployment_id executing rollouts e)
  | inr e ↦ ground (arith, e)
]

-- one that has started cannot start again
startable_self :
    (r : RolloutState) (executing : List String) → startable (r.deployment_id ∷ executing) r ≡ false
unfolding startable member
startable_self r executing = ground (arith, eq_iff r.deployment_id r.deployment_id)

dispatch-started :
    (executing : List String) (r : RolloutState) (rs : List RolloutState)
    → startable executing r ≡ true
    → (dispatch executing (r ∷ rs)).1 ≡ (dispatch (r.deployment_id ∷ executing) rs).1
unfolding dispatch
dispatch-started executing r rs e = rw e refl

dispatch-passed :
    (executing : List String) (r : RolloutState) (rs : List RolloutState)
    → startable executing r ≡ false
    → (dispatch executing (r ∷ rs)).1 ≡ (dispatch executing rs).1
unfolding dispatch
dispatch-passed executing r rs e = rw e refl

abbrev NoneLeft : List RolloutState → List String → Type 0
NoneLeft rollouts executing = All (λ r. startable executing r ≡ false) rollouts

none_left :
    (executing : List String) (rollouts : List RolloutState)
    → NoneLeft rollouts ((dispatch executing rollouts).1)
none_left executing [] = tt
none_left executing (r ∷ rs) = elim (Bool-cases (startable executing r)) [
  | inl e ↦ subst (NoneLeft (r ∷ rs)) (sym (dispatch-started executing r rs e)) (
    startable-dispatch r (r.deployment_id ∷ executing) rs (startable_self r executing),
    none_left (r.deployment_id ∷ executing) rs,
  )
  | inr e ↦
      subst (NoneLeft (r ∷ rs)) (sym (dispatch-passed executing r rs e))
        (startable-dispatch r executing rs e, none_left executing rs)
]

dispatch_nothing :
    (executing : List String) (rollouts : List RolloutState)
    → All (λ r. startable executing r ≡ false) rollouts
    → dispatch executing rollouts ≡ ([], executing)
unfolding dispatch
dispatch_nothing executing [] h = refl
dispatch_nothing executing (r ∷ rs) h = rw h.0 (dispatch_nothing executing rs h.1)

dispatch-InTurn :
    (executing : List String) (rollouts : List RolloutState)
    → InTurn executing ((dispatch executing rollouts).0)
unfolding dispatch InTurn
dispatch-InTurn executing [] = tt
dispatch-InTurn executing (r ∷ rs) = elim (Bool-cases (startable executing r)) [
  | inl e ↦ rw e (e, dispatch-InTurn (r.deployment_id ∷ executing) rs)
  | inr e ↦ rw e (dispatch-InTurn executing rs)
]

-- What one round of the loop starts, and leaves for a second round over the same rollouts.
pub record StartsOnce (executing : List String) (rollouts : List RolloutState) : Type 0 where
  pub in_turn : InTurn executing ((dispatch executing rollouts).0)
  pub again :
      dispatch ((dispatch executing rollouts).1) rollouts ≡ ([], (dispatch executing rollouts).1)

-- One round of the rollout loop starts only rollouts that are pending and do not execute yet, no
-- identity twice, and a second round over the same rollouts starts none.
pub dispatch-StartsOnce :
    (executing : List String) (rollouts : List RolloutState) → StartsOnce executing rollouts
dispatch-StartsOnce executing rollouts = record {
  in_turn = dispatch-InTurn executing rollouts;
  again = dispatch_nothing _ rollouts (none_left executing rollouts);
}
