-- ===== src/Lifecycle/Graph.antt =====
-- The lifecycle graph as a relation, and the table of next states as its decision procedure.
use ai_driven_autonomous_no.Prelude.{◌≡◌, refl, ◌↔◌, Bool, true, false, arith}
use ai_driven_autonomous_no.Lifecycle.{
  OptimizationState, created, snapshotting, diagnosing, generating_candidates, ranking, calibrating,
  evaluating, admission, admitted, approval_pending, approved, deploying, deployed, monitoring,
  completed, rolled_back, rollback_blocked, failed, validate_transition,
}

-- The states from which no transition leads on.
abbrev pub is_terminal : OptimizationState → Bool
is_terminal completed = true
is_terminal rolled_back = true
is_terminal rollback_blocked = true
is_terminal failed = true
is_terminal _ = false

-- The states in which a deployed change may still be reversed.
pub data IsReversible : OptimizationState → Type 0 where
  deployed_change : IsReversible deployed
  monitored_change : IsReversible monitoring

infix 40 ◌⟶◌
pub data ◌⟶◌ : OptimizationState → OptimizationState → Type 0 where
  snapshot : created ⟶ snapshotting
  diagnose : snapshotting ⟶ diagnosing
  generate : diagnosing ⟶ generating_candidates
  rank : generating_candidates ⟶ ranking
  calibrate : ranking ⟶ calibrating
  evaluate : calibrating ⟶ evaluating
  decide : evaluating ⟶ admission
  admit : admission ⟶ admitted
  ask : admitted ⟶ approval_pending
  waive : admitted ⟶ approved
  approve : approval_pending ⟶ approved
  deploy : approved ⟶ deploying
  apply : deploying ⟶ deployed
  watch : deployed ⟶ monitoring
  finish : monitoring ⟶ completed
  no_candidate : generating_candidates ⟶ completed
  not_admitted : admission ⟶ completed
  reject : approval_pending ⟶ completed
  roll_back : {s : OptimizationState} → IsReversible s → s ⟶ rolled_back
  block : {s : OptimizationState} → IsReversible s → s ⟶ rollback_blocked
  fail : {s : OptimizationState} → is_terminal s ≡ false → s ⟶ failed

ruleset edges = (
  snapshot, diagnose, generate, rank, calibrate, evaluate, decide, admit, ask, waive, approve,
  deploy, apply, watch, finish, no_candidate, not_admitted, reject,
)

edge_of_valid : (s t : OptimizationState) → validate_transition s t ≡ true → s ⟶ t
unfolding validate_transition
edge_of_valid created t h = grind (arith, edges, fail)
edge_of_valid deployed t h = grind (arith, edges, roll_back, block, fail, deployed_change)
edge_of_valid monitoring t h = grind (arith, edges, roll_back, block, fail, monitored_change)
edge_of_valid _ t h = grind (arith, edges, fail)

valid_of_edge : {s t : OptimizationState} → s ⟶ t → validate_transition s t ≡ true
unfolding validate_transition
valid_of_edge snapshot = refl
valid_of_edge (roll_back deployed_change) = refl
valid_of_edge (roll_back monitored_change) = refl
valid_of_edge (block deployed_change) = refl
valid_of_edge (block monitored_change) = refl
valid_of_edge (fail {s} h) = ground arith
valid_of_edge _ = refl

-- The frozen table admits a transition exactly when the lifecycle graph has that edge: the seventeen
-- stages in order, the waiver of approval, the three early completions, the reversals of a deployed
-- or monitored change, and the failure of every state that is not terminal.
pub validate_transition-⟶ : (s t : OptimizationState) → (validate_transition s t ≡ true) ↔ (s ⟶ t)
validate_transition-⟶ s t = (edge_of_valid s t, valid_of_edge)
