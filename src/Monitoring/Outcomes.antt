-- ===== src/Monitoring/Outcomes.antt =====
-- `PostDeploymentMonitor.monitor` of backend/app/monitoring/post_deployment.py without a store, as the
-- durable service builds it.
use ai_driven_autonomous_no.Prelude.{
  ◌≡◌, refl, ◌⊎◌, inl, inr, Bool, true, false, not, Option, none, some, List, ◌≤◌, length, arith,
  if◌then◌else◌, if_cases, not-false, Bool-cases, ltb, ◌<◌, ◌/◌,
}
use native.Mathlib.Nat.{div-lt_iff_lt-mul}
use ai_driven_autonomous_no.Production.Rollback.{
  RollbackRequest, RollbackOutcome, rolled_back, rollback_blocked, rollback_raised,
}
use ai_driven_autonomous_no.Runs.Orchestrator.{
  MonitoringStatus, stable, workload_shift_detected, monitoring_rolled_back,
  monitoring_rollback_blocked,
}
use ai_driven_autonomous_no.Monitoring.Records.{
  MonitorNumbers, MonitoringPolicy, MonitoringWindow, MonitoringDecision, rollback_required,
  Monitored, monitored, monitor_raised, is_policy,
}
use ai_driven_autonomous_no.Monitoring.Decision.{
  valid_window_counts, last_distance, decide_monitoring,
}
use ai_driven_autonomous_no.Monitoring.Monitor.{
  persist, after_rollback, request_rollback, act_on, monitor,
}
use ai_driven_autonomous_no.Monitoring.Decisions.{
  IsComparable, IsUnsafe, decide_unsafe, decide_shift, decide_none,
}

module _ {F S : Type 0} (n : MonitorNumbers F) (p : MonitoringPolicy F)
    (coordinate : S → RollbackRequest → S × RollbackOutcome)
    (baseline observed : List (MonitoringWindow F)) (request : Option RollbackRequest) (s : S) where
  abbrev Unsafe : Type 0
  Unsafe = IsUnsafe n p baseline observed

  -- The rollback was asked for, and answered with an outcome and a state.
  abbrev pub Answers : S → RollbackOutcome → Type 0
  Answers after outcome =
      (r : RollbackRequest) × (request ≡ some r) × (coordinate s r ≡ (after, outcome))

  -- What each status says of the windows, of the rollback and of the state that is left.
  abbrev pub Says : S → Option RollbackOutcome → MonitoringStatus → Type 0
  Says after outcome stable =
      (¬ Unsafe) × IsComparable n p baseline observed × (after ≡ s) × (outcome ≡ none)
  Says after outcome workload_shift_detected =
      (¬ Unsafe) × (¬ IsComparable n p baseline observed) × (after ≡ s) × (outcome ≡ none)
  Says after outcome monitoring_rolled_back =
      Unsafe
      × ((entry : _) × (outcome ≡ some (rolled_back entry)) × Answers after (rolled_back entry))
  Says after outcome monitoring_rollback_blocked =
      Unsafe
      × (((request ≡ none) × (after ≡ s) × (outcome ≡ none))
          ⊎ ((reasons : _) × (outcome ≡ some (rollback_blocked reasons))
              × Answers after (rollback_blocked reasons)))

  abbrev pub IsMonitored : S × Monitored F → Type 0
  IsMonitored (after, monitored r) =
      (r.baseline ≡ baseline) × (r.observed ≡ observed) × Says after r.rollback_result r.status
  IsMonitored (after, monitor_raised) =
      ((valid_window_counts n p baseline observed ≡ false) × (after ≡ s))
      ⊎ (((last_distance n baseline observed ≡ none) × (after ≡ s))
          ⊎ (Unsafe × Answers after rollback_raised))

  after_rollback-IsMonitored :
      (d : MonitoringDecision) (r : RollbackRequest) (answer : S × RollbackOutcome)
      → Unsafe
      → request ≡ some r
      → coordinate s r ≡ answer
      → IsMonitored (after_rollback n coordinate none baseline observed d answer)
  unfolding persist
  after_rollback-IsMonitored d r (after, rolled_back entry) bad asked answered =
      (refl, refl, (bad, (entry, refl, (r, asked, answered))))
  after_rollback-IsMonitored d r (after, rollback_blocked reasons) bad asked answered =
      (refl, refl, (bad, inr (reasons, refl, (r, asked, answered))))
  after_rollback-IsMonitored d r (after, rollback_raised) bad asked answered =
      inr (inr (bad, (r, asked, answered)))

  request_rollback-IsMonitored :
      (d : MonitoringDecision) (asked : Option RollbackRequest)
      → Unsafe
      → request ≡ asked
      → IsMonitored (request_rollback n coordinate none s baseline observed d asked)
  unfolding persist
  request_rollback-IsMonitored d none bad asked = (refl, refl, (bad, inl (asked, refl, refl)))
  request_rollback-IsMonitored d (some r) bad asked =
      after_rollback-IsMonitored d r (coordinate s r) bad asked refl

  quiet-IsMonitored :
      (shift : Bool) (d : MonitoringDecision)
      → ¬ Unsafe
      → (shift ≡ false → IsComparable n p baseline observed)
      → (shift ≡ true → ¬ IsComparable n p baseline observed)
      → IsMonitored (
          persist n coordinate none s (record {
            status = if shift then workload_shift_detected else stable;
            baseline = baseline;
            observed = observed;
            decision = d;
            rollback_result = none;
          }))
  unfolding persist
  quiet-IsMonitored true d safe near far = (refl, refl, (safe, far refl, refl, refl))
  quiet-IsMonitored false d safe near far = (refl, refl, (safe, near refl, refl, refl))

  act_on-IsMonitored :
      (1 ≤ length baseline)
      → (decided : Option MonitoringDecision) → decide_monitoring n p baseline observed ≡ decided
      → IsMonitored (act_on n coordinate none s baseline observed request decided)
  act_on-IsMonitored nonempty none h =
      inr (inl (decide_none n p baseline observed nonempty h, refl))
  act_on-IsMonitored nonempty (some d) h =
      let (unsafe_if, required_if) = decide_unsafe n p baseline observed d h in
      let (near, far) = decide_shift n p baseline observed d h in
      if_cases IsMonitored (not (rollback_required d))
        (λ calm.
          quiet-IsMonitored d.workload_shift d (λ bad. ground (arith, calm, required_if bad)) near
            far)
        (λ alarm. request_rollback-IsMonitored d request (unsafe_if (not-false _ alarm)) refl)

  -- A policy has at least one window in its baseline, and so has a baseline that passes the checks.
  baseline_window :
      is_policy p ≡ true → valid_window_counts n p baseline observed ≡ true → 1 ≤ length baseline
  unfolding is_policy valid_window_counts
  baseline_window ok valid =
      let windows = p.baseline_seconds / p.window_seconds in
      let positive : 0 < p.window_seconds = ground (arith, valid) in
      let long : p.window_seconds ≤ p.baseline_seconds = ground (arith, ok) in
      let fits : windows ≤ length baseline = ground (arith, valid) in
      elim (Bool-cases (ltb windows 1)) [
        | inl few ↦
            let short =
              (div-lt_iff_lt-mul {x = p.baseline_seconds} {y = 1} positive).0
                (ground (arith, few)) in
            omega (arith, short, long)
        | inr enough ↦ ground (arith, enough, fits)
      ]

  -- Under a policy that the constructor accepts, the monitor reports a stable deployment or a shift of
  -- the workload only where no window was unsafe, and asks for no rollback then; where a window, or the
  -- last windows together, were unsafe it is rolled back, or blocked with the rollback's reasons, or
  -- blocked for want of a request; it raises where the windows or the workloads are not valid, or the
  -- rollback raised.
  pub monitor-IsMonitored :
      is_policy p ≡ true → IsMonitored (monitor n coordinate none p s baseline observed request)
  unfolding monitor
  monitor-IsMonitored ok =
      if_cases IsMonitored (valid_window_counts n p baseline observed)
        (λ valid. act_on-IsMonitored (baseline_window ok valid) _ refl)
        (λ invalid. inl (invalid, refl))
