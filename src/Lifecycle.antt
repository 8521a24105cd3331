-- ===== src/Lifecycle.antt =====
-- backend/app/state_machine/optimization.py: the lifecycle of one optimization request.
-- A method that mutates the machine returns the new machine beside its result, so that what a
-- caller is left with after an exception is written out.
pub mod Graph
pub mod Histories
mod Examples
use ai_driven_autonomous_no.Prelude.{ℕ, Bool, List, [], ◌∷◌, ◌++◌, ◌==◌, any, if◌then◌else◌}

pub data OptimizationState : Type 0 where
  created snapshotting diagnosing generating_candidates ranking calibrating : OptimizationState
  evaluating admission admitted approval_pending approved deploying : OptimizationState
  deployed monitoring completed rolled_back rollback_blocked failed : OptimizationState

-- The place of a state in the enumeration, by which members are compared.
unfoldable pub position : OptimizationState → ℕ
position created = 0
position snapshotting = 1
position diagnosing = 2
position generating_candidates = 3
position ranking = 4
position calibrating = 5
position evaluating = 6
position admission = 7
position admitted = 8
position approval_pending = 9
position approved = 10
position deploying = 11
position deployed = 12
position monitoring = 13
position completed = 14
position rolled_back = 15
position rollback_blocked = 16
position failed = 17

unfoldable pub same_state : OptimizationState → OptimizationState → Bool
unfolding position
same_state s t = position s == position t

-- `_NEXT_STATES`
unfoldable pub next_states : OptimizationState → List OptimizationState
next_states created = snapshotting ∷ failed ∷ []
next_states snapshotting = diagnosing ∷ failed ∷ []
next_states diagnosing = generating_candidates ∷ failed ∷ []
next_states generating_candidates = ranking ∷ completed ∷ failed ∷ []
next_states ranking = calibrating ∷ failed ∷ []
next_states calibrating = evaluating ∷ failed ∷ []
next_states evaluating = admission ∷ failed ∷ []
next_states admission = admitted ∷ completed ∷ failed ∷ []
next_states admitted = approval_pending ∷ approved ∷ failed ∷ []
next_states approval_pending = approved ∷ completed ∷ failed ∷ []
next_states approved = deploying ∷ failed ∷ []
next_states deploying = deployed ∷ failed ∷ []
next_states deployed = monitoring ∷ rolled_back ∷ rollback_blocked ∷ failed ∷ []
next_states monitoring = completed ∷ rolled_back ∷ rollback_blocked ∷ failed ∷ []
next_states completed = []
next_states rolled_back = []
next_states rollback_blocked = []
next_states failed = []

-- What `transition` returns, or the exception that it raises.
pub data Outcome : Type 0 where
  moved_to : OptimizationState → Outcome
  invalid_state_transition : (current next_state : OptimizationState) → Outcome

-- `next_state in _NEXT_STATES[current]`; where it fails `validate_transition` raises.
unfoldable pub validate_transition : OptimizationState → OptimizationState → Bool
unfolding same_state next_states
validate_transition current next_state = any (same_state next_state) (next_states current)

pub record OptimizationStateMachine : Type 0 where
  pub state : OptimizationState
  pub history : List OptimizationState

-- A machine with the defaults of its fields.
unfoldable pub fresh_machine : OptimizationStateMachine
fresh_machine = record { state = created; history = created ∷ [] }

unfoldable pub transition :
    OptimizationStateMachine → OptimizationState → OptimizationStateMachine × Outcome
transition m next_state =
    if validate_transition m.state next_state
    then (
      record { state = next_state; history = m.history ++ next_state ∷ [] },
      moved_to next_state,
    )
    else (m, invalid_state_transition m.state next_state)

-- A caller that requests one state after another, and goes on after a refusal.
unfoldable pub request_all :
    OptimizationStateMachine → List OptimizationState → OptimizationStateMachine
request_all m [] = m
request_all m (s ∷ requests) = request_all (transition m s).0 requests
