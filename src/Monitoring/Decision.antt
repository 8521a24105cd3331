-- ===== src/Monitoring/Decision.antt =====
-- `_decide` and `_validate_window_counts` of backend/app/monitoring/post_deployment.py.
use ai_driven_autonomous_no.Prelude.{
  ℕ, zero, suc, ◌-◌, ◌/◌, max, Bool, not, ◌&&◌, ◌||◌, Option, none, some, List, [], ◌∷◌, any, map,
  filter, length, last_or, leb, ltb, ◌==◌, if◌then◌else◌,
}
use ai_driven_autonomous_no.Monitoring.Records.{
  MonitorNumbers, MonitoringPolicy, MonitoringWindow, MonitoringDecision,
}
use ai_driven_autonomous_no.Prelude.Options.{◌>>=◌}
use ai_driven_autonomous_no.WorkloadShift.{total_variation_distance}

module _ {A : Type 0} where
  abbrev pub drop : ℕ → List A → List A
  drop zero xs = xs
  drop (suc k) [] = []
  drop (suc k) (x ∷ xs) = drop k xs

  -- xs[-k:] of a positive k
  abbrev pub last_items : ℕ → List A → List A
  last_items k xs = drop (length xs - k) xs

  -- xs[-1], and `none` for its IndexError
  abbrev pub last_item : List A → Option A
  last_item [] = none
  last_item (x ∷ xs) = some (last_or x xs)

abbrev pub highest_from : ℕ → List ℕ → ℕ
highest_from m [] = m
highest_from m (x ∷ xs) = highest_from (max m x) xs

-- `max` of counts, and `none` for its ValueError
abbrev pub highest : List ℕ → Option ℕ
highest [] = none
highest (x ∷ xs) = some (highest_from x xs)

module _ {F : Type 0} (n : MonitorNumbers F) where
  abbrev pub present : List (Option F) → List F
  present [] = []
  present (none ∷ values) = present values
  present (some x ∷ values) = x ∷ present values

  abbrev pub average_of : List F → F
  average_of [] = n.zero_float
  average_of (x ∷ xs) = n.div (n.sum (x ∷ xs)) (n.count (length (x ∷ xs)))

  unfoldable pub average : List (Option F) → F
  average values = average_of (present values)

  unfoldable pub ratio : Option F → F → F
  ratio none baseline = n.zero_float
  ratio (some value) baseline =
      if n.le baseline n.zero_float && n.lt n.zero_float value
      then n.infinity
      else if n.lt n.zero_float baseline
      then n.div value baseline
      else n.zero_float

  abbrev pub errors_of : MonitoringWindow F → ℕ
  errors_of w = w.metrics.error_count

  abbrev pub timeouts_of : MonitoringWindow F → ℕ
  timeouts_of w = w.metrics.timeout_count

  unfoldable pub baseline_p99 : List (MonitoringWindow F) → F
  baseline_p99 baseline = average (map (λ w. w.metrics.p99_latency_ms) baseline)

  -- A window's latency is a ratio or more of the baseline's.
  abbrev pub reaches : F → F → MonitoringWindow F → Bool
  reaches limit base w = n.le limit (ratio w.metrics.p99_latency_ms base)

  -- `_decide` after the calls that may raise: the highest counts of the baseline and the distance of the
  -- last workloads.
  unfoldable pub decision_of :
      MonitoringPolicy F
      → List (MonitoringWindow F)
      → List (MonitoringWindow F)
      → ℕ
      → ℕ
      → F
      → MonitoringDecision
  unfolding baseline_p99
  decision_of p baseline observed baseline_errors baseline_timeouts distance =
      let base = baseline_p99 baseline in
      let comparable = n.lt distance p.workload_tvd_threshold in
      let recent = last_items p.sustained_regression_windows observed in
      let regression_windows =
        length (filter (reaches p.protected_p99_regression_ratio base) recent) in
      record {
        catastrophic_p99 = any (reaches p.catastrophic_p99_ratio base) observed;
        new_errors = any (λ w. ltb baseline_errors (errors_of w)) observed;
        new_timeouts = any (λ w. ltb baseline_timeouts (timeouts_of w)) observed;
        replica_unhealthy = any (λ w. not w.replica_healthy) observed;
        sustained_protected_regression = leb p.sustained_regression_windows regression_windows;
        workload_comparable = comparable;
        workload_shift = not comparable;
      }

  -- The distance between the workloads of the last windows of two lists.
  unfoldable pub last_distance : List (MonitoringWindow F) → List (MonitoringWindow F) → Option F
  last_distance baseline observed = last_item baseline >>= λ before.
      last_item observed >>= λ latest.
      total_variation_distance n.shift before.workload_distribution latest.workload_distribution

  -- `_decide`, and `none` for an exception.
  unfoldable pub decide_monitoring :
      MonitoringPolicy F
      → List (MonitoringWindow F)
      → List (MonitoringWindow F)
      → Option MonitoringDecision
  unfolding decision_of last_distance
  decide_monitoring p baseline observed = highest (map errors_of baseline) >>= λ baseline_errors.
      highest (map timeouts_of baseline) >>= λ baseline_timeouts.
      last_distance baseline observed >>= λ distance.
      some (decision_of p baseline observed baseline_errors baseline_timeouts distance)

  -- `_validate_window_counts`: false for a ValueError, and for the ZeroDivisionError of a window of no
  -- length.
  unfoldable pub valid_window_counts :
      MonitoringPolicy F → List (MonitoringWindow F) → List (MonitoringWindow F) → Bool
  valid_window_counts p baseline observed =
      not (p.window_seconds == 0)
      && (not (ltb (length baseline) (p.baseline_seconds / p.window_seconds))
          && not (
              length observed == 0
              || ltb (p.monitoring_seconds / p.window_seconds) (length observed)))
