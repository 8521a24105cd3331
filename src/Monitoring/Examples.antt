-- ===== src/Monitoring/Examples.antt =====
-- Counting numbers as floats: a baseline of two windows, and a deployment that adds errors.
use ai_driven_autonomous_no.Prelude.{
  ◌≡◌, refl, ℕ, suc, ◌+◌, ◌-◌, ◌*◌, ◌/◌, true, Option, none, some, arith, List, [], ◌∷◌, leb, ltb,
}
use ai_driven_autonomous_no.Prelude.Dicts.{has}
use ai_driven_autonomous_no.WorkloadShift.{
  ShiftNumbers, total_variation_distance, validated_distribution, collect_shares,
}
use ai_driven_autonomous_no.Production.Rollback.{
  RollbackRequest, RollbackOutcome, rollback_blocked, target_mismatch,
}
use ai_driven_autonomous_no.Monitoring.Records.{
  MonitorNumbers, MetricSnapshot, MonitoringPolicy, MonitoringWindow, is_policy, rollback_required,
}
use ai_driven_autonomous_no.Monitoring.Decision.{
  valid_window_counts, decide_monitoring, decision_of, last_distance, ratio, average, baseline_p99,
}
use ai_driven_autonomous_no.Monitoring.Monitor.{monitor, persist}
use ai_driven_autonomous_no.Runs.Orchestrator.{monitoring_rollback_blocked}
use ai_driven_autonomous_no.Monitoring.Durable.{MonitoringRows, monitor_again}
use ai_driven_autonomous_no.Monitoring.Once.{IsOnce, IsKept, monitor_again-IsKept}
use ai_driven_autonomous_no.Monitoring.Outcomes.{IsMonitored, monitor-IsMonitored}

abbrev shift_naturals : ShiftNumbers ℕ
shift_naturals = record {
  zero_float = 0;
  one_float = 100;
  half = 1;
  add = λ x y. x + y;
  sub = λ x y. x - y;
  mul = λ x y. x * y;
  absolute = λ x. x;
  le = leb;
  sum_tolerance = 0;
  tolerance = 0;
  threshold = 20;
}

abbrev first : List ℕ → ℕ
first [] = 0
first (x ∷ xs) = x

abbrev naturals : MonitorNumbers ℕ
naturals = record {
  shift = shift_naturals;
  le = leb;
  lt = ltb;
  zero_float = 0;
  infinity = 1000;
  div = λ x y. x / y;
  count = λ k. 1;
  sum = first;
}

abbrev policy : MonitoringPolicy ℕ
policy = record {
  baseline_seconds = 120;
  monitoring_seconds = 180;
  window_seconds = 60;
  sustained_regression_windows = 3;
  protected_p99_regression_ratio = 2;
  catastrophic_p99_ratio = 3;
  workload_tvd_threshold = 20;
}

abbrev metrics : ℕ → ℕ → MetricSnapshot ℕ
metrics latency errors = record {
  p50_latency_ms = some latency;
  p95_latency_ms = some latency;
  p99_latency_ms = some latency;
  throughput_per_second = 1;
  read_throughput_per_second = 1;
  write_throughput_per_second = 0;
  cpu_time_us = none;
  memory_bytes = none;
  disk_bytes = none;
  disk_io_bytes = none;
  network_io_bytes = none;
  replication_lag_seconds = none;
  documents_examined = 10;
  documents_returned = 1;
  keys_examined = 0;
  lock_wait_ms = 0;
  error_count = errors;
  timeout_count = 0;
}

abbrev window : ℕ → ℕ → MonitoringWindow ℕ
window latency errors = record {
  metrics = metrics latency errors;
  workload_distribution = record { name = "find"; fraction = 100 } ∷ [];
  replica_healthy = true;
}

abbrev baseline : List (MonitoringWindow ℕ)
baseline = window 10 1 ∷ window 12 0 ∷ []

abbrev observed : List (MonitoringWindow ℕ)
observed = window 11 1 ∷ window 11 2 ∷ []

-- The state counts the calls.
abbrev coordinate : ℕ → RollbackRequest → ℕ × RollbackOutcome
coordinate calls request = (suc calls, rollback_blocked (target_mismatch ∷ []))

abbrev request : RollbackRequest
request = record { target_id = "target"; applied_ledger_entry_id = "entry"; actor = "monitor" }

policy_accepted : is_policy policy ≡ true
unfolding is_policy
policy_accepted = refl

rollback_called : (monitor naturals coordinate none policy 0 baseline observed (some request)).0 ≡ 1
unfolding monitor valid_window_counts decide_monitoring decision_of last_distance rollback_required
    persist total_variation_distance validated_distribution collect_shares ratio average
    baseline_p99 has
rollback_called = refl

monitor-IsMonitored_example :
    IsMonitored naturals policy coordinate baseline observed
      (some request)
      0
      (monitor naturals coordinate none policy 0 baseline observed (some request))
monitor-IsMonitored_example =
    monitor-IsMonitored naturals policy coordinate baseline observed (some request) 0
      policy_accepted

-- A blocked rollback of the candidate was experienced before.
abbrev rows : MonitoringRows ℕ
rows = record {
  audits = [];
  artifact_candidate = some "c1";
  experiences =
      record {
        experience_candidate_id = "c1";
        experience_outcome = "ROLLBACK_BLOCKED";
        monitoring_status = monitoring_rollback_blocked;
        required = true;
        rollback_outcome = none;
      }
      ∷ [];
}

rows-IsOnce : IsOnce rows.experiences
rows-IsOnce candidate outcome = ground arith

abbrev calls : List (Option (List (MonitoringWindow ℕ) × List (MonitoringWindow ℕ)))
calls = none ∷ some (baseline, observed) ∷ some (baseline, baseline) ∷ []

monitor_again-IsKept_example :
    IsKept rows (monitor_again naturals policy coordinate "run" calls (0, rows)).1
monitor_again-IsKept_example =
    monitor_again-IsKept naturals policy coordinate "run" calls 0 rows rows-IsOnce
