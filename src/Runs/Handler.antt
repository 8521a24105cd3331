-- ===== src/Runs/Handler.antt =====
-- backend/app/worker/service.py: the handler of an optimization job, which resumes its run until there
-- is nothing more to do without a human or another service.
use ai_driven_autonomous_no.Prelude.{
  ℕ, zero, suc, String, Bool, false, not, Option, none, some, str_eq, if◌then◌else◌,
}
use ai_driven_autonomous_no.Lifecycle.{OptimizationState, approval_pending, same_state}
use ai_driven_autonomous_no.Lifecycle.Graph.{is_terminal}
use ai_driven_autonomous_no.Runs.Orchestrator.{
  OrchestratorState, Services, OrchestrationOutcome, Resume, resumed, lease_lost, invariant_error,
  raised, progressed, blocked, terminal,
}
use ai_driven_autonomous_no.Runs.Resume.{resume_run}

-- How a handler ends: it returns, or raises a permanent error, a transient block, a lost lease or
-- what the orchestrator raised.
pub data Handled : Type 0 where
  done run_id_required run_id_mismatch run_not_found invariant_failure : Handled
  unknown_job_kind orchestrator_required step_limit_exceeded lost raised_through : Handled
  transient_block : Option String → Handled

-- The run of a job, and the run that its payload names.
pub record HandledJob : Type 0 where
  pub run_id : Option String
  pub payload_run_id : Option String

unfoldable pub is_mismatch : Option String → String → Bool
is_mismatch none run_id = false
is_mismatch (some payload) run_id = not (str_eq payload run_id)

module _ {W : Type 0} where
  -- What follows a result: `again` is the rest of the loop.
  unfoldable pub after_result :
      Bool
      → OrchestratorState W
      → OrchestrationOutcome
      → OptimizationState
      → Option String
      → (OrchestratorState W → OrchestratorState W × Handled)
      → OrchestratorState W × Handled
  after_result held left terminal status blocker again = (left, done)
  after_result held left blocked status blocker again =
      if same_state status approval_pending then (left, done) else (left, transient_block blocker)
  after_result held left progressed status blocker again = if held then again left else (left, lost)

  unfoldable pub after_resume :
      Bool
      → OrchestratorState W × Resume
      → (OrchestratorState W → OrchestratorState W × Handled)
      → OrchestratorState W × Handled
  after_resume held (left, resumed r) again =
      after_result held left r.outcome r.result_status r.blocker again
  after_resume held (left, lease_lost) again = (left, lost)
  after_resume held (left, invariant_error) again = (left, invariant_failure)
  after_resume held (left, raised) again = (left, raised_through)

module _ {W R : Type 0} where
  -- `owned` says of each step whether the lease is owned at the checks within it, and `held` whether it
  -- is owned before the first step and after each.
  module _ (services : Services W R) (owned : ℕ → ℕ → Bool) (held : ℕ → Bool) where
    -- The loop, with the steps that are left of its limit.
    unfoldable pub handle_steps : ℕ → ℕ → OrchestratorState W → OrchestratorState W × Handled
    handle_steps zero step state = (state, step_limit_exceeded)
    handle_steps (suc left) step state =
        after_resume (held (suc step)) (resume_run services (owned step) state)
          (handle_steps left (suc step))

  -- The run of the job, and no orchestrator where the handler has none.
  module _ (services : Option (Services W R)) (owned : ℕ → ℕ → Bool) (held : ℕ → Bool) where
    unfoldable pub handle_with :
        Option (Services W R) → OrchestratorState W → OrchestratorState W × Handled
    handle_with none state = (state, orchestrator_required)
    handle_with (some given) state = handle_steps given owned held 32 0 state

    unfoldable pub handle_run : OrchestratorState W → OrchestratorState W × Handled
    handle_run state =
        if is_terminal state.store.row.status
        then (state, done)
        else if held 0
        then handle_with services state
        else (state, lost)

    unfoldable pub handle_job :
        OrchestratorState W
        → (String → Bool)
        → Option String
        → Option String
        → OrchestratorState W × Handled
    handle_job state exists none payload = (state, run_id_required)
    handle_job state exists (some run_id) payload =
        if is_mismatch payload run_id
        then (state, run_id_mismatch)
        else if exists run_id
        then handle_run state
        else (state, run_not_found)

    -- `OptimizationJobHandler.handle`, with the stored run and whether an id is its own.
    unfoldable pub handle :
        OrchestratorState W → (String → Bool) → HandledJob → OrchestratorState W × Handled
    handle state exists job = handle_job state exists job.run_id job.payload_run_id

    -- `JobDispatcher.dispatch`
    unfoldable pub dispatch :
        OrchestratorState W → (String → Bool) → String → HandledJob → OrchestratorState W × Handled
    dispatch state exists kind job =
        if str_eq kind "OPTIMIZATION" then handle state exists job else (state, unknown_job_kind)
