-- ===== src/Monitoring/Monitor.antt =====
-- `PostDeploymentMonitor.monitor` of backend/app/monitoring/post_deployment.py. The coordinator of the
-- rollback and the store of the evidence are arguments, as in its constructor.
use ai_driven_autonomous_no.Prelude.{Bool, not, Option, none, some, List, if◌then◌else◌}
use ai_driven_autonomous_no.Production.Rollback.{
  RollbackRequest, RollbackOutcome, rolled_back, rollback_blocked, rollback_raised,
}
use ai_driven_autonomous_no.Runs.Orchestrator.{
  stable, workload_shift_detected, monitoring_rolled_back, monitoring_rollback_blocked,
}
use ai_driven_autonomous_no.Monitoring.Records.{
  MonitorNumbers, Monitored, MonitoringDecision, MonitoringPolicy, MonitoringResult,
  MonitoringWindow, monitor_raised, monitored, rollback_required,
}
use ai_driven_autonomous_no.Monitoring.Decision.{decide_monitoring, valid_window_counts}

module _ {F : Type 0} (n : MonitorNumbers F) where
  module _ {S : Type 0} (coordinate : S → RollbackRequest → S × RollbackOutcome)
      (store : Option (S → MonitoringResult F → S × Bool)) where
    -- `_persist`; a store that did not return raised.
    unfoldable pub persist : S → MonitoringResult F → S × Monitored F
    persist s result = elim store [
      | none ↦ (s, monitored result)
      | some f ↦
          let (after, returned) = f s result in
          if returned then (after, monitored result) else (after, monitor_raised)
    ]

    abbrev pub after_rollback :
        List (MonitoringWindow F)
        → List (MonitoringWindow F)
        → MonitoringDecision
        → S × RollbackOutcome
        → S × Monitored F
    after_rollback baseline observed decision (s, rolled_back entry) = persist s (record {
      status = monitoring_rolled_back;
      baseline = baseline;
      observed = observed;
      decision = decision;
      rollback_result = some (rolled_back entry);
    })
    after_rollback baseline observed decision (s, rollback_blocked reasons) = persist s (record {
      status = monitoring_rollback_blocked;
      baseline = baseline;
      observed = observed;
      decision = decision;
      rollback_result = some (rollback_blocked reasons);
    })
    after_rollback baseline observed decision (s, rollback_raised) = (s, monitor_raised)

    abbrev pub request_rollback :
        S
        → List (MonitoringWindow F)
        → List (MonitoringWindow F)
        → MonitoringDecision
        → Option RollbackRequest
        → S × Monitored F
    request_rollback s baseline observed decision none = persist s (record {
      status = monitoring_rollback_blocked;
      baseline = baseline;
      observed = observed;
      decision = decision;
      rollback_result = none;
    })
    request_rollback s baseline observed decision (some request) =
        after_rollback baseline observed decision (coordinate s request)

    abbrev pub act_on :
        S
        → List (MonitoringWindow F)
        → List (MonitoringWindow F)
        → Option RollbackRequest
        → Option MonitoringDecision
        → S × Monitored F
    act_on s baseline observed request none = (s, monitor_raised)
    act_on s baseline observed request (some decision) =
        if not (rollback_required decision)
        then persist s (record {
          status = if decision.workload_shift then workload_shift_detected else stable;
          baseline = baseline;
          observed = observed;
          decision = decision;
          rollback_result = none;
        })
        else request_rollback s baseline observed decision request

    unfoldable pub monitor :
        MonitoringPolicy F
        → S
        → List (MonitoringWindow F)
        → List (MonitoringWindow F)
        → Option RollbackRequest
        → S × Monitored F
    monitor p s baseline observed request =
        if valid_window_counts n p baseline observed
        then act_on s baseline observed request (decide_monitoring n p baseline observed)
        else (s, monitor_raised)
