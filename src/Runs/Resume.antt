-- ===== src/Runs/Resume.antt =====
-- backend/app/runs/orchestrator.py: `OptimizationRunOrchestrator.run`, by the status of the run.
use ai_driven_autonomous_no.Prelude.{
  ℕ, String, Bool, false, not, ◌&&◌, ◌||◌, ◌==◌, Option, none, some, any, str_eq, if◌then◌else◌,
}
use ai_driven_autonomous_no.Lifecycle.{
  OptimizationState, created, snapshotting, diagnosing, generating_candidates, ranking, calibrating,
  evaluating, admission, admitted, approval_pending, approved, deploying, deployed, monitoring,
  completed, rolled_back, rollback_blocked,
}
use ai_driven_autonomous_no.Runs.{
  no_candidates, no_admitted_candidate, deployment_succeeded, RunRow, RunStore, is_absent,
}
use ai_driven_autonomous_no.Runs.Transition.{transition_run}
use ai_driven_autonomous_no.Runs.Orchestrator.{
  OrchestratorState, Services, Service, Answer, fails, AuthorityResult, BoundRequest, TargetRow,
  MonitoringStatus, stable, workload_shift_detected, monitoring_rolled_back,
  monitoring_rollback_blocked, Resume, invariant_error, progressed, blocked, terminal, result,
  after_transition, move_to, leased, caught, uncaught, given,
}

-- A candidate of the run with the id has an action.
unfoldable pub has_typed_action : RunStore → String → Bool
has_typed_action store id =
    any (λ c. str_eq c.id id && not (is_absent c.action_payload)) store.candidates

unfoldable pub binding_of : RunRow → AuthorityResult → BoundRequest
binding_of run authority = record {
  bound_target_id = run.target_id;
  bound_candidate_id = authority.authority_candidate_id;
  bound_fingerprint = authority.candidate_fingerprint;
  evidence_hash = authority.integrity_fingerprint;
}

module _ {W R : Type 0} (services : Services W R) (owned : ℕ → Bool) where
  unfoldable pub after_snapshot : OrchestratorState W → OrchestratorState W × Resume
  after_snapshot state =
      if is_absent state.store.row.workload_snapshot_id
      then (state, invariant_error)
      else if services.verify_snapshot state
      then leased (owned 2) state (move_to state diagnosing none)
      else (state, invariant_error)

  unfoldable pub resume_snapshotting : OrchestratorState W → OrchestratorState W × Resume
  resume_snapshotting state =
      if is_absent state.store.row.workload_snapshot_id
      then (leased (owned 1) state
          (caught snapshotting (services.create_snapshot state) (λ left _. after_snapshot left)))
      else after_snapshot state

  unfoldable pub resume_diagnosing : OrchestratorState W → OrchestratorState W × Resume
  resume_diagnosing state =
      given state diagnosing "DIAGNOSIS_SERVICE_UNAVAILABLE" services.diagnosis (λ service.
        leased (owned 1) state (
          caught diagnosing (service.create_diagnosis state) (λ left _.
            if service.verify_diagnosis left
            then leased (owned 2) left (move_to left generating_candidates none)
            else (left, invariant_error))))

  unfoldable pub resume_generating : OrchestratorState W → OrchestratorState W × Resume
  resume_generating state =
      given state generating_candidates "CANDIDATE_GENERATION_SERVICE_UNAVAILABLE"
        services.candidate_generation
        (λ service. leased (owned 1) state (
          caught generating_candidates (service state) (λ left count. leased (owned 2) left (
            if count == 0
            then move_to left completed (some no_candidates)
            else move_to left ranking none))))

  unfoldable pub resume_ranking : OrchestratorState W → OrchestratorState W × Resume
  resume_ranking state =
      given state ranking "CANDIDATE_RANKING_SERVICE_UNAVAILABLE" services.candidate_ranking
        (λ service. leased (owned 1) state (
          caught ranking (service state)
            (λ left _. leased (owned 2) left (move_to left calibrating none))))

  unfoldable pub profile_of : RunRow → String
  profile_of run = if str_eq run.deployment_mode "FULL_AUTONOMOUS" then "AUTONOMOUS" else "SMOKE"

  unfoldable pub resume_calibrating : OrchestratorState W → OrchestratorState W × Resume
  resume_calibrating state =
      given state calibrating "EVALUATION_SERVICE_UNAVAILABLE" services.evaluation (λ service.
        leased (owned 1) state (
          caught calibrating (service (profile_of state.store.row) state)
            (λ left _. leased (owned 2) left (move_to left evaluating none))))

  unfoldable pub resume_evaluating : OrchestratorState W → OrchestratorState W × Resume
  resume_evaluating state =
      given state evaluating "ISOLATED_BENCHMARK_EXECUTOR_REQUIRED" services.evaluation_executor
        (λ executor. leased (owned 1) state (
          uncaught (executor state)
            (λ left _. leased (owned 2) left (move_to left admission none))))

  unfoldable pub resume_admission : OrchestratorState W → OrchestratorState W × Resume
  resume_admission state =
      given state admission "ADMISSION_SERVICE_UNAVAILABLE" services.admission_decision (λ decide.
        given state admission "ADMISSION_SERVICE_UNAVAILABLE" services.admission_requests
          (λ requests_of. leased (owned 1) state (
            uncaught (requests_of state) (λ asked requests.
              uncaught (decide requests asked) (λ left selected. leased (owned 2) left (
                if is_absent selected
                then move_to left completed (some no_admitted_candidate)
                else move_to left admitted none))))))

  -- `_create_bound_approval`
  unfoldable pub create_bound_approval :
      (BoundRequest → Service W Unit)
      → AuthorityResult
      → OrchestratorState W
      → OrchestratorState W × Answer Unit
  create_bound_approval request authority state =
      if has_typed_action state.store authority.authority_candidate_id
      then request (binding_of state.store.row authority) state
      else (state, fails)

  unfoldable pub resume_admitted : OrchestratorState W → OrchestratorState W × Resume
  resume_admitted state =
      given state admitted "AUTHORITY_SERVICE_UNAVAILABLE" services.authority (λ decide.
        uncaught (decide state) (λ left authority. leased (owned 1) left (
          if authority.automatic
          then move_to left approved none
          else given left admitted "APPROVAL_SERVICE_UNAVAILABLE" services.approvals (λ request.
            uncaught (create_bound_approval request authority left) (λ asked _.
              leased (owned 2) asked (
                after_transition asked blocked (some "WAITING_FOR_APPROVAL")
                  (transition_run asked.store approval_pending none)))))))

  unfoldable pub resume_approved : OrchestratorState W → OrchestratorState W × Resume
  resume_approved state =
      given state state.store.row.status "DURABLE_DEPLOYMENT_SERVICE_UNAVAILABLE"
        services.deployment
        (λ deploy.
          uncaught (deploy owned state)
            (λ left _. (left, result progressed left.store.row.status none)))

  unfoldable pub after_monitoring :
      OrchestratorState W → MonitoringStatus → OrchestratorState W × Resume
  after_monitoring left stable = move_to left completed (some deployment_succeeded)
  after_monitoring left workload_shift_detected = move_to left completed (some deployment_succeeded)
  after_monitoring left monitoring_rolled_back = move_to left rolled_back none
  after_monitoring left monitoring_rollback_blocked = move_to left rollback_blocked none

  unfoldable pub resume_monitoring : OrchestratorState W → OrchestratorState W × Resume
  resume_monitoring state =
      given state monitoring "MONITORING_EVIDENCE_UNAVAILABLE" services.monitoring_executor
        (λ executor.
          uncaught (executor state)
            (λ left status. leased (owned 1) left (after_monitoring left status)))

  unfoldable pub is_active_target : Option TargetRow → Bool
  is_active_target none = false
  is_active_target (some t) = t.is_active && str_eq t.target_state "ACTIVE"

  -- A mapping is to another target, which is active.
  unfoldable pub is_valid_mapping : W → String → Option String → Bool
  is_valid_mapping world target_id none = false
  is_valid_mapping world target_id (some evaluation_id) =
      not (str_eq evaluation_id target_id)
      && is_active_target (services.target_of world evaluation_id)

  -- `_validate_created`
  unfoldable pub validate_created : OrchestratorState W → Bool
  validate_created state =
      let run = state.store.row in
      (str_eq run.deployment_mode "APPROVAL_CONTROLLED"
        || str_eq run.deployment_mode "FULL_AUTONOMOUS")
      && (is_active_target (services.target_of state.world run.target_id)
          && (is_valid_mapping state.world run.target_id
                (services.active_mapping state.world run.target_id)
              && (services.initial_jobs state.world == 1)))

  unfoldable pub resume_created : OrchestratorState W → OrchestratorState W × Resume
  resume_created state =
      if validate_created state
      then leased (owned 1) state (move_to state snapshotting none)
      else (state, invariant_error)

  unfoldable pub resume_at : OptimizationState → OrchestratorState W → OrchestratorState W × Resume
  resume_at created state = resume_created state
  resume_at snapshotting state = resume_snapshotting state
  resume_at diagnosing state = resume_diagnosing state
  resume_at generating_candidates state = resume_generating state
  resume_at ranking state = resume_ranking state
  resume_at calibrating state = resume_calibrating state
  resume_at evaluating state = resume_evaluating state
  resume_at admission state = resume_admission state
  resume_at admitted state = resume_admitted state
  resume_at approval_pending state =
      (state, result blocked approval_pending (some "WAITING_FOR_APPROVAL"))
  resume_at approved state = resume_approved state
  resume_at deploying state = resume_approved state
  resume_at deployed state = leased (owned 1) state (move_to state monitoring none)
  resume_at monitoring state = resume_monitoring state
  resume_at status state = (state, result terminal status none)

  -- `OptimizationRunOrchestrator.run` of a run that exists.
  unfoldable pub resume_run : OrchestratorState W → OrchestratorState W × Resume
  resume_run state = leased (owned 0) state (resume_at state.store.row.status state)
