-- ===== src/Runs/Forward.antt =====
-- `OptimizationRunOrchestrator.run` of backend/app/runs/orchestrator.py moves a run forward.
use ai_driven_autonomous_no.Prelude.{
  ℕ, ◌≡◌, refl, sym, subst, ◌∙◌, inl, inr, Bool, none, some, if_cases,
}
use ai_driven_autonomous_no.Lifecycle.{
  OptimizationState, created, snapshotting, diagnosing, generating_candidates, ranking, calibrating,
  evaluating, admission, admitted, approval_pending, approved, deploying, deployed, monitoring,
  completed, rolled_back, rollback_blocked, failed,
}
use ai_driven_autonomous_no.Runs.{deployment_succeeded}
use ai_driven_autonomous_no.Runs.Orchestrator.{
  OrchestratorState, Services, Service, Answer, answers, declines, fails, AuthorityResult,
  BoundRequest, MonitoringStatus, stable, workload_shift_detected, monitoring_rolled_back,
  monitoring_rollback_blocked, progressed, result, uncaught,
}
use ai_driven_autonomous_no.Runs.Resume.{
  has_typed_action, binding_of, create_bound_approval, resume_admitted, resume_approved,
  after_monitoring, resume_monitoring, validate_created, resume_created, resume_at, resume_run,
}
use ai_driven_autonomous_no.Runs.Progress.{
  status_of, KeepsStatus, IsDeployable, MovesOn, IsFurther, IsResumed, move_to-IsResumed,
  ask-IsResumed, leased-IsResumed, given-IsResumed, uncaught-IsResumed,
}
use ai_driven_autonomous_no.Runs.Orderly.{
  IsOrderly, resume_snapshotting-IsResumed, resume_diagnosing-IsResumed,
  resume_generating-IsResumed, resume_ranking-IsResumed, resume_calibrating-IsResumed,
  resume_evaluating-IsResumed, resume_admission-IsResumed,
}

module _ {W R : Type 0} (services : Services W R) (orderly : IsOrderly services)
    (owned : ℕ → Bool) where
  create_bound_approval-KeepsStatus :
      (request : BoundRequest → Service W Unit) (authority : AuthorityResult)
      → ((b : BoundRequest) → KeepsStatus (request b))
      → KeepsStatus (create_bound_approval services owned request authority)
  unfolding create_bound_approval
  create_bound_approval-KeepsStatus request authority keeps state =
      if_cases (λ (r : OrchestratorState W × Answer Unit). status_of r.0 ≡ status_of state)
        (has_typed_action state.store authority.authority_candidate_id)
        {x = request (binding_of state.store.row authority) state} {y = (state, fails)}
        (λ typed. keeps (binding_of state.store.row authority) state) (λ untyped. refl)

  resume_admitted-IsResumed :
      (state : OrchestratorState W)
      → status_of state ≡ admitted
      → IsResumed admitted (resume_admitted services owned state)
  unfolding resume_admitted
  resume_admitted-IsResumed state e =
      given-IsResumed KeepsStatus admitted state _ services.authority _ e orderly.authorities
        (λ decide keeps.
          uncaught-IsResumed admitted (decide state) _ (keeps state ∙ e) (λ left authority kept.
            leased-IsResumed admitted (owned 1) left _ (
              if_cases (IsResumed admitted) authority.automatic
                (λ automatic. move_to-IsResumed admitted left approved none kept)
                (λ human.
                  given-IsResumed
                    (λ (f : BoundRequest → Service W Unit). (b : BoundRequest) → KeepsStatus (f b))
                    admitted left _ services.approvals _ kept orderly.asks
                    (λ request asks.
                      uncaught-IsResumed admitted
                        (create_bound_approval services owned request authority left) _
                        (create_bound_approval-KeepsStatus request authority asks left ∙ kept)
                        (λ asked a still. leased-IsResumed admitted (owned 2) asked _ (
                          ask-IsResumed admitted asked approval_pending
                            (some "WAITING_FOR_APPROVAL") still)))))))

  further-IsResumed :
      (s : OptimizationState) (answer : OrchestratorState W × Answer Unit)
      → IsFurther s answer
      → IsResumed s (uncaught answer (λ left _. (left, result progressed (status_of left) none)))
  unfolding uncaught result
  further-IsResumed s (left, answers a) h = (refl, h)
  further-IsResumed s (left, declines text) h = tt
  further-IsResumed s (left, fails) h = tt

  resume_approved-IsResumed :
      (s : OptimizationState) (state : OrchestratorState W)
      → status_of state ≡ s
      → IsDeployable s
      → IsResumed s (resume_approved services owned state)
  unfolding resume_approved
  resume_approved-IsResumed s state e ready = rw (← e) (
      given-IsResumed MovesOn (status_of state) state _ services.deployment _ refl
        orderly.deployments
        (λ deploy moves.
          further-IsResumed (status_of state) (deploy owned state)
            (moves owned state (subst IsDeployable (sym e) ready))))

  after_monitoring-IsResumed :
      (left : OrchestratorState W) (status : MonitoringStatus)
      → status_of left ≡ monitoring
      → IsResumed monitoring (after_monitoring services owned left status)
  unfolding after_monitoring
  after_monitoring-IsResumed left stable e =
      move_to-IsResumed monitoring left completed (some deployment_succeeded) e
  after_monitoring-IsResumed left workload_shift_detected e =
      move_to-IsResumed monitoring left completed (some deployment_succeeded) e
  after_monitoring-IsResumed left monitoring_rolled_back e =
      move_to-IsResumed monitoring left rolled_back none e
  after_monitoring-IsResumed left monitoring_rollback_blocked e =
      move_to-IsResumed monitoring left rollback_blocked none e

  resume_monitoring-IsResumed :
      (state : OrchestratorState W)
      → status_of state ≡ monitoring
      → IsResumed monitoring (resume_monitoring services owned state)
  unfolding resume_monitoring
  resume_monitoring-IsResumed state e =
      given-IsResumed KeepsStatus monitoring state _ services.monitoring_executor _ e
        orderly.observations
        (λ executor keeps.
          uncaught-IsResumed monitoring (executor state) _ (keeps state ∙ e) (λ left status kept.
            leased-IsResumed monitoring (owned 1) left _
              (after_monitoring-IsResumed left status kept)))

  resume_created-IsResumed :
      (state : OrchestratorState W)
      → status_of state ≡ created
      → IsResumed created (resume_created services owned state)
  unfolding resume_created
  resume_created-IsResumed state e =
      if_cases (IsResumed created) (validate_created services owned state)
        (λ valid.
          leased-IsResumed created (owned 1) state _
            (move_to-IsResumed created state snapshotting none e))
        (λ invalid. tt)

  resume_at-IsResumed :
      (s : OptimizationState) (state : OrchestratorState W)
      → status_of state ≡ s
      → IsResumed s (resume_at services owned s state)
  unfolding resume_at result
  resume_at-IsResumed created state e = resume_created-IsResumed state e
  resume_at-IsResumed snapshotting state e =
      resume_snapshotting-IsResumed services orderly owned state e
  resume_at-IsResumed diagnosing state e =
      resume_diagnosing-IsResumed services orderly owned state e
  resume_at-IsResumed generating_candidates state e =
      resume_generating-IsResumed services orderly owned state e
  resume_at-IsResumed ranking state e = resume_ranking-IsResumed services orderly owned state e
  resume_at-IsResumed calibrating state e =
      resume_calibrating-IsResumed services orderly owned state e
  resume_at-IsResumed evaluating state e =
      resume_evaluating-IsResumed services orderly owned state e
  resume_at-IsResumed admission state e = resume_admission-IsResumed services orderly owned state e
  resume_at-IsResumed admitted state e = resume_admitted-IsResumed state e
  resume_at-IsResumed approval_pending state e = (sym e, inl (sym e))
  resume_at-IsResumed approved state e = resume_approved-IsResumed approved state e (inl refl)
  resume_at-IsResumed deploying state e = resume_approved-IsResumed deploying state e (inr refl)
  resume_at-IsResumed deployed state e =
      leased-IsResumed deployed (owned 1) state _
        (move_to-IsResumed deployed state monitoring none e)
  resume_at-IsResumed monitoring state e = resume_monitoring-IsResumed state e
  resume_at-IsResumed completed state e = (sym e, (refl, sym e))
  resume_at-IsResumed rolled_back state e = (sym e, (refl, sym e))
  resume_at-IsResumed rollback_blocked state e = (sym e, (refl, sym e))
  resume_at-IsResumed failed state e = (sym e, (refl, sym e))

  -- With services that leave the status to it, and a deployment that moves the run on where it returns,
  -- the status in the result of a resume is the stored one: further along the lifecycle where the run
  -- has progressed, the same or the next one where it is blocked, and the same terminal one at the end.
  pub resume_run-IsResumed :
      (state : OrchestratorState W) → IsResumed (status_of state) (resume_run services owned state)
  unfolding resume_run
  resume_run-IsResumed state =
      leased-IsResumed (status_of state) (owned 0) state _
        (resume_at-IsResumed (status_of state) state refl)
