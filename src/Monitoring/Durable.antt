-- ===== src/Monitoring/Durable.antt =====
-- `DurableMonitoringService.monitor_for_run` of backend/app/monitoring/durable.py: the monitor without a
-- store, an audit row for each result, and an experience row for each outcome of a candidate.
-- The collection of the windows and the durable rollback are arguments. Of an experience the columns
-- are kept that vary.
use ai_driven_autonomous_no.Prelude.{
  String, Bool, ◌&&◌, Option, none, some, List, [], ◌∷◌, ◌++◌, any, str_eq, if◌then◌else◌,
}
use ai_driven_autonomous_no.Production.Rollback.{RollbackRequest, RollbackOutcome}
use ai_driven_autonomous_no.Runs.Orchestrator.{
  MonitoringStatus, stable, workload_shift_detected, monitoring_rolled_back,
  monitoring_rollback_blocked,
}
use ai_driven_autonomous_no.Monitoring.Records.{
  MonitorNumbers, MonitoringPolicy, MonitoringWindow, MonitoringResult, Monitored, monitored,
  monitor_raised, rollback_required,
}
use ai_driven_autonomous_no.Monitoring.Monitor.{monitor}

pub record AuditRow (F : Type 0) : Type 0 where
  pub audited_status : MonitoringStatus
  pub baseline_windows : List (MonitoringWindow F)
  pub observed_windows : List (MonitoringWindow F)
  pub audited_requirement : Bool

pub record ExperienceRow : Type 0 where
  pub experience_candidate_id : String
  pub experience_outcome : String
  pub monitoring_status : MonitoringStatus
  pub required : Bool
  pub rollback_outcome : Option RollbackOutcome

-- The rows of a run that the service reads and writes.
pub record MonitoringRows (F : Type 0) : Type 0 where
  pub audits : List (AuditRow F)
  pub artifact_candidate : Option String
  pub experiences : List ExperienceRow

pub data MonitoringAnswer (F : Type 0) : Type 0 where
  observed_run : MonitoringResult F → MonitoringAnswer F
  evidence_unavailable monitoring_raised : MonitoringAnswer F

unfoldable pub outcome_of : MonitoringStatus → String
outcome_of stable = "DEPLOYMENT_SUCCEEDED"
outcome_of workload_shift_detected = "DEPLOYMENT_SUCCEEDED"
outcome_of monitoring_rolled_back = "ROLLED_BACK"
outcome_of monitoring_rollback_blocked = "ROLLBACK_BLOCKED"

unfoldable pub is_experience : String → String → ExperienceRow → Bool
is_experience candidate outcome e =
    str_eq e.experience_candidate_id candidate && str_eq e.experience_outcome outcome

-- The opaque request of a rollback.
unfoldable pub durable_request : String → RollbackRequest
durable_request run_id = record {
  target_id = "durable";
  applied_ledger_entry_id = run_id;
  actor = "durable-monitor";
}

module _ {F : Type 0} where
  unfoldable pub experience_row : String → MonitoringResult F → ExperienceRow
  experience_row candidate r = record {
    experience_candidate_id = candidate;
    experience_outcome = outcome_of r.status;
    monitoring_status = r.status;
    required = rollback_required r.decision;
    rollback_outcome = r.rollback_result;
  }

  unfoldable pub with_experience :
      Option String → MonitoringResult F → List ExperienceRow → List ExperienceRow
  with_experience none r experiences = experiences
  with_experience (some candidate) r experiences =
      if any (is_experience candidate (outcome_of r.status)) experiences
      then experiences
      else experiences ++ experience_row candidate r ∷ []

  unfoldable pub audit_row : MonitoringResult F → AuditRow F
  audit_row r = record {
    audited_status = r.status;
    baseline_windows = r.baseline;
    observed_windows = r.observed;
    audited_requirement = rollback_required r.decision;
  }

  unfoldable pub record_result : MonitoringRows F → MonitoringResult F → MonitoringRows F
  record_result rows r = record rows {
    audits = rows.audits ++ audit_row r ∷ [];
    experiences = with_experience rows.artifact_candidate r rows.experiences;
  }

  unfoldable pub recorded :
      {S : Type 0}
      → MonitoringRows F
      → S × Monitored F
      → (S × MonitoringRows F) × MonitoringAnswer F
  recorded rows (s, monitored r) = ((s, record_result rows r), observed_run r)
  recorded rows (s, monitor_raised) = ((s, rows), monitoring_raised)

  module _ {S : Type 0} (n : MonitorNumbers F) (policy : MonitoringPolicy F)
      (coordinate : S → RollbackRequest → S × RollbackOutcome) where
    -- `none` for windows that could not be collected.
    unfoldable pub monitor_for_run :
        String
        → Option (List (MonitoringWindow F) × List (MonitoringWindow F))
        → S × MonitoringRows F
        → (S × MonitoringRows F) × MonitoringAnswer F
    monitor_for_run run_id none (s, rows) = ((s, rows), evidence_unavailable)
    monitor_for_run run_id (some (baseline, observed)) (s, rows) =
        recorded rows
          (monitor n coordinate none policy s baseline observed (some (durable_request run_id)))

    -- One call after another, as a job is tried again.
    unfoldable pub monitor_again :
        String
        → List (Option (List (MonitoringWindow F) × List (MonitoringWindow F)))
        → S × MonitoringRows F
        → S × MonitoringRows F
    monitor_again run_id [] state = state
    monitor_again run_id (collected ∷ more) state =
        monitor_again run_id more (monitor_for_run run_id collected state).0
