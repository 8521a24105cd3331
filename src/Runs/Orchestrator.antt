-- ===== src/Runs/Orchestrator.antt =====
-- backend/app/runs/orchestrator.py: one resume of a persisted run, up to the next boundary.
-- The services that the orchestrator is given act on the stored rows and on a world `W` of their own.
-- What one returns is beside the state that it leaves; `owned` says whether the lease is owned at each
-- of the checks of a resume, counted from zero.
use ai_driven_autonomous_no.Prelude.{ℕ, String, Bool, Option, none, some, if◌then◌else◌}
use ai_driven_autonomous_no.Lifecycle.{OptimizationState}
use ai_driven_autonomous_no.Runs.{RunCompletionReason, RunStore}
use ai_driven_autonomous_no.Runs.Transition.{
  transition_run, TransitionResult, transitioned, refused,
}

pub data OrchestrationOutcome : Type 0 where
  progressed blocked terminal : OrchestrationOutcome

pub record OrchestrationResult : Type 0 where
  pub outcome : OrchestrationOutcome
  pub result_status : OptimizationState
  pub blocker : Option String

-- The result of a resume, or the exception that it raises: a lost lease, an invariant error, or what
-- a service or a transition raised.
pub data Resume : Type 0 where
  resumed : OrchestrationResult → Resume
  lease_lost invariant_error raised : Resume

-- What a service returns, the text of its own error, or another exception.
pub data Answer (A : Type 0) : Type 0 where
  answers : A → Answer A
  declines : String → Answer A
  fails : Answer A

pub record OrchestratorState (W : Type 0) : Type 0 where
  pub store : RunStore
  pub world : W

abbrev pub Service : Type 0 → Type 0 → Type 0
Service W A = OrchestratorState W → OrchestratorState W × Answer A

pub record DiagnosisService (W : Type 0) : Type 0 where
  pub create_diagnosis : Service W Unit
  pub verify_diagnosis : OrchestratorState W → Bool

pub record AuthorityResult : Type 0 where
  pub authority_candidate_id : String
  pub candidate_fingerprint : String
  pub integrity_fingerprint : String
  pub automatic : Bool

-- What an approval is bound to.
pub record BoundRequest : Type 0 where
  pub bound_target_id : String
  pub bound_candidate_id : String
  pub bound_fingerprint : String
  pub evidence_hash : String

pub data MonitoringStatus : Type 0 where
  stable workload_shift_detected monitoring_rolled_back : MonitoringStatus
  monitoring_rollback_blocked : MonitoringStatus

pub record TargetRow : Type 0 where
  pub is_active : Bool
  pub target_state : String

-- The arguments of the constructor, and the rows of other tables that `_validate_created` reads. `R` is
-- the dictionary of admission requests.
pub record Services (W R : Type 0) : Type 0 where
  pub create_snapshot : Service W Unit
  pub verify_snapshot : OrchestratorState W → Bool
  pub diagnosis : Option (DiagnosisService W)
  pub candidate_generation : Option (Service W ℕ)
  pub candidate_ranking : Option (Service W Unit)
  pub evaluation : Option (String → Service W Unit)
  pub evaluation_executor : Option (Service W Unit)
  pub admission_decision : Option (R → Service W (Option String))
  pub admission_requests : Option (Service W R)
  pub authority : Option (Service W AuthorityResult)
  pub approvals : Option (BoundRequest → Service W Unit)
  pub deployment : Option ((ℕ → Bool) → Service W Unit)
  pub monitoring_executor : Option (Service W MonitoringStatus)
  pub target_of : W → String → Option TargetRow
  pub active_mapping : W → String → Option String
  pub initial_jobs : W → ℕ

unfoldable pub result : OrchestrationOutcome → OptimizationState → Option String → Resume
result outcome status blocker =
    resumed (record { outcome = outcome; result_status = status; blocker = blocker })

module _ {W : Type 0} where
  -- After `transition`: the run has progressed to the status of the row that it returns.
  unfoldable pub after_transition :
      OrchestratorState W
      → OrchestrationOutcome
      → Option String
      → RunStore × TransitionResult
      → OrchestratorState W × Resume
  after_transition state outcome blocker (store, transitioned row) =
      (record state { store = store }, result outcome row.status blocker)
  after_transition state outcome blocker (store, refused error) =
      (record state { store = store }, raised)

  unfoldable pub move_to :
      OrchestratorState W
      → OptimizationState
      → Option RunCompletionReason
      → OrchestratorState W × Resume
  move_to state next_state reason =
      after_transition state progressed none (transition_run state.store next_state reason)

  -- `ensure_lease_owned`, and what follows it.
  unfoldable pub leased :
      Bool → OrchestratorState W → OrchestratorState W × Resume → OrchestratorState W × Resume
  leased owned state next = if owned then next else (state, lease_lost)

  -- What follows a service whose own error is caught, or is not.
  unfoldable pub caught :
      {A : Type 0}
      → OptimizationState
      → OrchestratorState W × Answer A
      → (OrchestratorState W → A → OrchestratorState W × Resume)
      → OrchestratorState W × Resume
  caught status (state, answers a) next = next state a
  caught status (state, declines code) next = (state, result blocked status (some code))
  caught status (state, fails) next = (state, raised)

  unfoldable pub uncaught :
      {A : Type 0}
      → OrchestratorState W × Answer A
      → (OrchestratorState W → A → OrchestratorState W × Resume)
      → OrchestratorState W × Resume
  uncaught (state, answers a) next = next state a
  uncaught (state, declines code) next = (state, raised)
  uncaught (state, fails) next = (state, raised)

  -- A service that the constructor was not given blocks the run.
  unfoldable pub given :
      {A : Type 0}
      → OrchestratorState W
      → OptimizationState
      → String
      → Option A
      → (A → OrchestratorState W × Resume)
      → OrchestratorState W × Resume
  given state status code none next = (state, result blocked status (some code))
  given state status code (some service) next = next service
