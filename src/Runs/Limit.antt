-- ===== src/Runs/Limit.antt =====
-- The handler of a job never runs into its limit of steps, and returns only where the run has ended or
-- waits for an approval.
use ai_driven_autonomous_no.Prelude.{
  ℕ, zero, suc, ◌+◌, ◌≤◌, ◌<◌, ◌≡◌, ◌⊎◌, inl, inr, String, Bool, true, Option, none, some, str_eq,
  if_cases, arith,
}
use ai_driven_autonomous_no.Lifecycle.{OptimizationState, approval_pending, same_state}
use ai_driven_autonomous_no.Lifecycle.Graph.{is_terminal}
use ai_driven_autonomous_no.Lifecycle.Histories.{progress}
use ai_driven_autonomous_no.Runs.Orchestrator.{
  OrchestratorState, Services, OrchestrationOutcome, Resume, resumed, lease_lost, invariant_error,
  raised, progressed, blocked, terminal,
}
use ai_driven_autonomous_no.Runs.Progress.{IsResumed, Fits, status_of}
use ai_driven_autonomous_no.Runs.Forward.{resume_run-IsResumed}
use ai_driven_autonomous_no.Runs.Orderly.{IsOrderly}
use ai_driven_autonomous_no.Runs.Handler.{
  Handled, done, step_limit_exceeded, HandledJob, is_mismatch, after_result, after_resume,
  handle_steps, handle_with, handle_run, handle_job, handle, dispatch,
}

waits_for_approval :
    (s : OptimizationState) → same_state s approval_pending ≡ true → s ≡ approval_pending
unfolding same_state
waits_for_approval s h = ground arith

module _ {W : Type 0} where
  -- A handler that returns leaves a run that has ended or waits for an approval.
  abbrev pub IsSettled : OrchestratorState W × Handled → Type 0
  IsSettled (left, done) =
      (is_terminal (status_of left) ≡ true) ⊎ (status_of left ≡ approval_pending)
  IsSettled (left, step_limit_exceeded) = ⊥
  IsSettled (left, _) = Unit

  after_result-IsSettled :
      (s : OptimizationState) (held : Bool) (left : OrchestratorState W)
      (outcome : OrchestrationOutcome) (status : OptimizationState) (blocker : Option String)
      (again : OrchestratorState W → OrchestratorState W × Handled)
      → status ≡ status_of left
      → Fits outcome s (status_of left)
      → (progress s < progress (status_of left) → IsSettled (again left))
      → IsSettled (after_result held left outcome status blocker again)
  unfolding after_result
  after_result-IsSettled s held left terminal status blocker again e h f = inl (rw (← (h.1)) (h.0))
  after_result-IsSettled s held left blocked status blocker again e h f =
      if_cases IsSettled (same_state status approval_pending)
        (λ waits. inr (rw (← e) (waits_for_approval status waits))) (λ other. tt)
  after_result-IsSettled s held left progressed status blocker again e h f =
      if_cases IsSettled held (λ owned. f h) (λ lost. tt)

  after_resume-IsSettled :
      (s : OptimizationState) (held : Bool) (answer : OrchestratorState W × Resume)
      (again : OrchestratorState W → OrchestratorState W × Handled)
      → IsResumed s answer
      → (progress s < progress (status_of answer.0) → IsSettled (again answer.0))
      → IsSettled (after_resume held answer again)
  unfolding after_resume
  after_resume-IsSettled s held (left, resumed r) again h f =
      after_result-IsSettled s held left r.outcome r.result_status r.blocker again h.0 h.1 f
  after_resume-IsSettled s held (left, lease_lost) again h f = tt
  after_resume-IsSettled s held (left, invariant_error) again h f = tt
  after_resume-IsSettled s held (left, raised) again h f = tt

module _ {W R : Type 0} (services : Services W R) (orderly : IsOrderly services)
    (owned : ℕ → ℕ → Bool) (held : ℕ → Bool) where
  -- Fourteen is the furthest that a status can be.
  steps_within : (s : OptimizationState) → progress s ≤ 14
  steps_within s = ground arith

  handle_steps-IsSettled :
      (fuel step : ℕ) (state : OrchestratorState W)
      → 14 < progress (status_of state) + fuel
      → IsSettled (handle_steps services owned held fuel step state)
  unfolding handle_steps
  handle_steps-IsSettled zero step state h =
      absurd (omega (arith, h, steps_within (status_of state)))
  handle_steps-IsSettled (suc fuel) step state h =
      after_resume-IsSettled (status_of state) (held (suc step)) _ _
        (resume_run-IsResumed services orderly (owned step) state)
        (λ further. handle_steps-IsSettled fuel (suc step) _ (omega (arith, h, further)))

  handle_run-IsSettled :
      (state : OrchestratorState W) → IsSettled (handle_run (some services) owned held state)
  unfolding handle_run handle_with
  handle_run-IsSettled state =
      if_cases IsSettled (is_terminal (status_of state)) (λ ended. inl ended)
        (λ open_run.
          if_cases IsSettled (held 0) (λ owned_now. handle_steps-IsSettled 32 0 state (omega arith))
            (λ lost_now. tt))

  handle_job-IsSettled :
      (state : OrchestratorState W) (exists : String → Bool) (run_id payload : Option String)
      → IsSettled (handle_job (some services) owned held state exists run_id payload)
  unfolding handle_job
  handle_job-IsSettled state exists none payload = tt
  handle_job-IsSettled state exists (some run_id) payload =
      if_cases IsSettled (is_mismatch payload run_id) (λ other. tt)
        (λ same.
          if_cases IsSettled (exists run_id) (λ found. handle_run-IsSettled state) (λ missing. tt))

  -- Whatever the services answer and whenever the lease is lost, with services that leave the status to
  -- the orchestrator and a deployment that moves the run on where it returns, the dispatch of a job never
  -- raises for its limit of 32 steps, and where it returns the run has ended or waits for an approval.
  pub dispatch-IsSettled :
      (state : OrchestratorState W) (exists : String → Bool) (kind : String) (job : HandledJob)
      → IsSettled (dispatch (some services) owned held state exists kind job)
  unfolding dispatch handle
  dispatch-IsSettled state exists kind job =
      if_cases IsSettled (str_eq kind "OPTIMIZATION")
        (λ known. handle_job-IsSettled state exists job.run_id job.payload_run_id) (λ unknown. tt)
