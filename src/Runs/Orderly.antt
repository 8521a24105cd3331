-- ===== src/Runs/Orderly.antt =====
-- What the orchestrator relies on of its services, and a resume up to the admission under it.
use ai_driven_autonomous_no.Prelude.{ℕ, ◌≡◌, ◌∙◌, String, Bool, ◌==◌, Option, none, some, if_cases}
use ai_driven_autonomous_no.Lifecycle.{
  snapshotting, diagnosing, generating_candidates, ranking, calibrating, evaluating, admission,
  admitted, completed,
}
use ai_driven_autonomous_no.Runs.{no_candidates, no_admitted_candidate, is_absent}
use ai_driven_autonomous_no.Runs.Orchestrator.{
  OrchestratorState, Services, Service, DiagnosisService, BoundRequest, move_to,
}
use ai_driven_autonomous_no.Runs.Resume.{
  after_snapshot, resume_snapshotting, resume_diagnosing, resume_generating, resume_ranking,
  profile_of, resume_calibrating, resume_evaluating, resume_admission,
}
use ai_driven_autonomous_no.Runs.Progress.{
  WhereGiven, status_of, KeepsStatus, MovesOn, IsResumed, move_to-IsResumed, leased-IsResumed,
  given-IsResumed, caught-IsResumed, uncaught-IsResumed,
}

-- What the orchestrator relies on of its services: each writes its artifacts and leaves the status of
-- the run to the orchestrator, but for a deployment, which moves the run on where it returns.
pub record IsOrderly {W R : Type 0} (services : Services W R) : Type 0 where
  pub snapshots : KeepsStatus services.create_snapshot
  pub diagnoses :
      WhereGiven (λ (d : DiagnosisService W). KeepsStatus d.create_diagnosis) services.diagnosis
  pub generations : WhereGiven KeepsStatus services.candidate_generation
  pub rankings : WhereGiven KeepsStatus services.candidate_ranking
  pub evaluations :
      WhereGiven
        (λ (f : String → Service W Unit). (p : String) → KeepsStatus (f p))
        services.evaluation
  pub executions : WhereGiven KeepsStatus services.evaluation_executor
  pub decisions :
      WhereGiven
        (λ (f : R → Service W (Option String)). (r : R) → KeepsStatus (f r))
        services.admission_decision
  pub requests : WhereGiven KeepsStatus services.admission_requests
  pub authorities : WhereGiven KeepsStatus services.authority
  pub asks :
      WhereGiven
        (λ (f : BoundRequest → Service W Unit). (b : BoundRequest) → KeepsStatus (f b))
        services.approvals
  pub deployments : WhereGiven MovesOn services.deployment
  pub observations : WhereGiven KeepsStatus services.monitoring_executor

module _ {W R : Type 0} (services : Services W R) (orderly : IsOrderly services)
    (owned : ℕ → Bool) where
  after_snapshot-IsResumed :
      (state : OrchestratorState W)
      → status_of state ≡ snapshotting
      → IsResumed snapshotting (after_snapshot services owned state)
  unfolding after_snapshot
  after_snapshot-IsResumed state e =
      let P = IsResumed snapshotting in
      if_cases P (is_absent state.store.row.workload_snapshot_id) (λ absent. tt)
        (λ attached.
          if_cases P (services.verify_snapshot state)
            (λ intact.
              leased-IsResumed snapshotting (owned 2) state (move_to state diagnosing none)
                (move_to-IsResumed snapshotting state diagnosing none e))
            (λ broken. tt))

  pub resume_snapshotting-IsResumed :
      (state : OrchestratorState W)
      → status_of state ≡ snapshotting
      → IsResumed snapshotting (resume_snapshotting services owned state)
  unfolding resume_snapshotting
  resume_snapshotting-IsResumed state e =
      if_cases (IsResumed snapshotting) (is_absent state.store.row.workload_snapshot_id)
        (λ absent. leased-IsResumed snapshotting (owned 1) state _ (
          caught-IsResumed snapshotting (services.create_snapshot state)
            (λ left _. after_snapshot services owned left) (orderly.snapshots state ∙ e)
            (λ left a kept. after_snapshot-IsResumed left kept)))
        (λ attached. after_snapshot-IsResumed state e)

  pub resume_ranking-IsResumed :
      (state : OrchestratorState W)
      → status_of state ≡ ranking
      → IsResumed ranking (resume_ranking services owned state)
  unfolding resume_ranking
  resume_ranking-IsResumed state e =
      given-IsResumed KeepsStatus ranking state _ services.candidate_ranking _ e orderly.rankings
        (λ service keeps. leased-IsResumed ranking (owned 1) state _ (
          caught-IsResumed ranking (service state) _ (keeps state ∙ e) (λ left a kept.
            leased-IsResumed ranking (owned 2) left _
              (move_to-IsResumed ranking left calibrating none kept))))

  pub resume_diagnosing-IsResumed :
      (state : OrchestratorState W)
      → status_of state ≡ diagnosing
      → IsResumed diagnosing (resume_diagnosing services owned state)
  unfolding resume_diagnosing
  resume_diagnosing-IsResumed state e =
      given-IsResumed (λ (d : DiagnosisService W). KeepsStatus d.create_diagnosis) diagnosing state
        _ services.diagnosis _ e orderly.diagnoses
        (λ service keeps. leased-IsResumed diagnosing (owned 1) state _ (
          caught-IsResumed diagnosing (service.create_diagnosis state) _ (keeps state ∙ e)
            (λ left a kept.
              if_cases (IsResumed diagnosing) (service.verify_diagnosis left)
                (λ intact.
                  leased-IsResumed diagnosing (owned 2) left _
                    (move_to-IsResumed diagnosing left generating_candidates none kept))
                (λ broken. tt))))

  pub resume_generating-IsResumed :
      (state : OrchestratorState W)
      → status_of state ≡ generating_candidates
      → IsResumed generating_candidates (resume_generating services owned state)
  unfolding resume_generating
  resume_generating-IsResumed state e =
      let s = generating_candidates in
      given-IsResumed KeepsStatus s state _ services.candidate_generation _ e orderly.generations
        (λ service keeps. leased-IsResumed s (owned 1) state _ (
          caught-IsResumed s (service state) _ (keeps state ∙ e) (λ left count kept.
            leased-IsResumed s (owned 2) left _ (
              if_cases (IsResumed s) (count == 0)
                (λ zero. move_to-IsResumed s left completed (some no_candidates) kept)
                (λ more. move_to-IsResumed s left ranking none kept)))))

  pub resume_calibrating-IsResumed :
      (state : OrchestratorState W)
      → status_of state ≡ calibrating
      → IsResumed calibrating (resume_calibrating services owned state)
  unfolding resume_calibrating
  resume_calibrating-IsResumed state e =
      given-IsResumed (λ (f : String → Service W Unit). (p : String) → KeepsStatus (f p))
        calibrating state _ services.evaluation _ e orderly.evaluations
        (λ service keeps. leased-IsResumed calibrating (owned 1) state _ (
          caught-IsResumed calibrating (service (profile_of services owned state.store.row) state) _
            (keeps (profile_of services owned state.store.row) state ∙ e)
            (λ left a kept.
              leased-IsResumed calibrating (owned 2) left _
                (move_to-IsResumed calibrating left evaluating none kept))))

  pub resume_evaluating-IsResumed :
      (state : OrchestratorState W)
      → status_of state ≡ evaluating
      → IsResumed evaluating (resume_evaluating services owned state)
  unfolding resume_evaluating
  resume_evaluating-IsResumed state e =
      given-IsResumed KeepsStatus evaluating state _ services.evaluation_executor _ e
        orderly.executions
        (λ executor keeps. leased-IsResumed evaluating (owned 1) state _ (
          uncaught-IsResumed evaluating (executor state) _ (keeps state ∙ e) (λ left a kept.
            leased-IsResumed evaluating (owned 2) left _
              (move_to-IsResumed evaluating left admission none kept))))

  pub resume_admission-IsResumed :
      (state : OrchestratorState W)
      → status_of state ≡ admission
      → IsResumed admission (resume_admission services owned state)
  unfolding resume_admission
  resume_admission-IsResumed state e =
      given-IsResumed (λ (f : R → Service W (Option String)). (r : R) → KeepsStatus (f r)) admission
        state _ services.admission_decision _ e orderly.decisions
        (λ decide keeps.
          given-IsResumed KeepsStatus admission state _ services.admission_requests _ e
            orderly.requests
            (λ requests_of asks. leased-IsResumed admission (owned 1) state _ (
              uncaught-IsResumed admission (requests_of state) _ (asks state ∙ e)
                (λ asked requests kept.
                  uncaught-IsResumed admission (decide requests asked) _
                    (keeps requests asked ∙ kept)
                    (λ left selected still. leased-IsResumed admission (owned 2) left _ (
                      if_cases (IsResumed admission) (is_absent selected)
                        (λ nothing.
                          move_to-IsResumed admission left completed (some no_admitted_candidate)
                            still)
                        (λ chosen. move_to-IsResumed admission left admitted none still)))))))
