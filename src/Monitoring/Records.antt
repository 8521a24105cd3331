-- ===== src/Monitoring/Records.antt =====
-- The records of backend/app/monitoring/post_deployment.py, with a window's metrics. Floats are an abstract type.
use ai_driven_autonomous_no.Prelude.{ℕ, Bool, not, ◌&&◌, ◌||◌, Option, List, ltb}
use ai_driven_autonomous_no.WorkloadShift.{ShiftNumbers, Share}
use ai_driven_autonomous_no.Production.Rollback.{RollbackOutcome}
use ai_driven_autonomous_no.Runs.Orchestrator.{MonitoringStatus}

pub record MonitorNumbers (F : Type 0) : Type 0 where
  pub shift : ShiftNumbers F
  pub le : F → F → Bool
  pub lt : F → F → Bool
  pub zero_float : F
  pub infinity : F
  pub div : F → F → F
  pub count : ℕ → F
  -- `sum` of a list of floats
  pub sum : List F → F

pub record MetricSnapshot (F : Type 0) : Type 0 where
  pub p50_latency_ms : Option F
  pub p95_latency_ms : Option F
  pub p99_latency_ms : Option F
  pub throughput_per_second : F
  pub read_throughput_per_second : F
  pub write_throughput_per_second : F
  pub cpu_time_us : Option F
  pub memory_bytes : Option F
  pub disk_bytes : Option F
  pub disk_io_bytes : Option F
  pub network_io_bytes : Option F
  pub replication_lag_seconds : Option F
  pub documents_examined : ℕ
  pub documents_returned : ℕ
  pub keys_examined : ℕ
  pub lock_wait_ms : F
  pub error_count : ℕ
  pub timeout_count : ℕ

pub record MonitoringPolicy (F : Type 0) : Type 0 where
  pub baseline_seconds : ℕ
  pub monitoring_seconds : ℕ
  pub window_seconds : ℕ
  pub sustained_regression_windows : ℕ
  pub protected_p99_regression_ratio : F
  pub catastrophic_p99_ratio : F
  pub workload_tvd_threshold : F

pub record MonitoringWindow (F : Type 0) : Type 0 where
  pub metrics : MetricSnapshot F
  pub workload_distribution : List (Share F)
  pub replica_healthy : Bool

pub record MonitoringDecision : Type 0 where
  pub catastrophic_p99 : Bool
  pub new_errors : Bool
  pub new_timeouts : Bool
  pub replica_unhealthy : Bool
  pub sustained_protected_regression : Bool
  pub workload_comparable : Bool
  pub workload_shift : Bool

unfoldable pub rollback_required : MonitoringDecision → Bool
rollback_required d =
    d.catastrophic_p99
    || (d.new_errors
        || (d.new_timeouts
            || (d.replica_unhealthy
                || (d.sustained_protected_regression && d.workload_comparable))))

pub record MonitoringResult (F : Type 0) : Type 0 where
  pub status : MonitoringStatus
  pub baseline : List (MonitoringWindow F)
  pub observed : List (MonitoringWindow F)
  pub decision : MonitoringDecision
  pub rollback_result : Option RollbackOutcome

-- A result, or an exception.
pub data Monitored (F : Type 0) : Type 0 where
  monitored : MonitoringResult F → Monitored F
  monitor_raised : Monitored F

-- The checks of `PostDeploymentMonitor.__init__`.
unfoldable pub is_policy : {F : Type 0} → MonitoringPolicy F → Bool
is_policy p =
    not (ltb p.baseline_seconds p.window_seconds || ltb p.monitoring_seconds p.window_seconds)
    && not (ltb p.sustained_regression_windows 1)
