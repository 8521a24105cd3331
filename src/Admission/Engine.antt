-- ===== src/Admission/Engine.antt =====
-- `evaluate_candidate_admission` of backend/app/admission/statistics.py: the gates in their order.
use Prim.Native.String.{◌++◌ as text_append}
use ai_driven_autonomous_no.Prelude.{
  ℕ, zero, suc, max, min, String, Bool, true, false, not, ◌&&◌, ◌||◌, Option, none, some, List, [],
  ◌∷◌, ◌++◌, any, find, filter, map, ltb, ◌==◌, length, str_eq, if◌then◌else◌,
}
use ai_driven_autonomous_no.Prelude.Options.{◌>>=◌, ◌>>◌, guard}
use ai_driven_autonomous_no.Prelude.Dicts.{Dict, get, put, values}
use ai_driven_autonomous_no.Admission.{
  AdmissionStatus, admitted, rejected_safety_invariant, rejected_regression,
  rejected_no_meaningful_benefit, inconclusive_noise, inconclusive_environment,
  inconclusive_missing_metric, BenchmarkProfile, smoke, ProfileSettings, profile_settings,
  MetricEvaluationInput, MetricResult, AdmissionRequest, AdmissionResult,
}
use ai_driven_autonomous_no.Admission.Numbers.{Numbers}
use ai_driven_autonomous_no.Admission.Scores.{
  le, each, minimum_observations, calculate_transformed_minimum_benefit, estimate_required_pairs,
  margin_of, regression_scores, evaluate_non_regression, evaluate_primary_benefit,
}

-- x or y, of counts that may be absent: zero is false.
unfoldable pub or_count : Option ℕ → ℕ → ℕ
or_count none y = y
or_count (some zero) y = y
or_count (some (suc k)) y = suc k

-- max(x, *counts)
unfoldable pub greatest : ℕ → List ℕ → ℕ
greatest x [] = x
greatest x (k ∷ counts) = greatest (max x k) counts

abbrev shorter : ℕ → List ℕ → ℕ
shorter x [] = x
shorter x (k ∷ counts) = shorter (min x k) counts

-- min(counts, default=0)
unfoldable pub minimum : List ℕ → ℕ
minimum [] = 0
minimum (k ∷ counts) = shorter k counts

unfoldable pub is_smoke : BenchmarkProfile → Bool
is_smoke smoke = true
is_smoke _ = false

-- `benefit_passed` of a primary result; None is false.
unfoldable pub is_set : Option Bool → Bool
is_set none = false
is_set (some b) = b

module _ {F : Type 0} (n : Numbers F) (confidence : F) where
  -- The key of `required_by_metric`.
  unfoldable pub metric_id : MetricEvaluationInput F → String
  metric_id m =
      text_append m.metric_key
        (text_append "|" (text_append m.scope_type (text_append "|" m.scope_id)))

  unfoldable pub required_metrics : AdmissionRequest F → List (MetricEvaluationInput F)
  required_metrics request = filter (λ m. m.required && m.applicable) request.metrics

  unfoldable pub required_for_metric : ℕ → MetricEvaluationInput F → Option ℕ
  required_for_metric maximum m =
      margin_of n m >>= λ (r : F × F × F). estimate_required_pairs n m.aa_scores r.2 maximum

  unfoldable pub required_for_primary : ℕ → MetricEvaluationInput F → Option ℕ
  required_for_primary maximum m =
      calculate_transformed_minimum_benefit n m.policy.direction m.policy.minimum_benefit
      >>= λ margin. estimate_required_pairs n m.aa_scores margin maximum

  -- A dictionary of the metrics' ids, with the count that each has.
  unfoldable pub by_metric :
      (MetricEvaluationInput F → ℕ) → Dict ℕ → List (MetricEvaluationInput F) → Dict ℕ
  unfolding metric_id
  by_metric count d [] = d
  by_metric count d (m ∷ rest) = by_metric count (put d (metric_id m) (count m)) rest

  unfoldable pub is_missing : MetricEvaluationInput F → Bool
  is_missing m =
      (length m.baseline_values == 0) || not (length m.baseline_values == length m.candidate_values)

  abbrev pub needs : Option ℕ → ℕ
  needs none = 0
  needs (some k) = k

  -- Fewer pairs than the metric's entry asks for.
  unfoldable pub is_short : Dict ℕ → MetricEvaluationInput F → Bool
  unfolding metric_id
  is_short by m = ltb (length m.baseline_values) (needs (get by (metric_id m)))

  -- `paired_max_statistic_upper_bound`
  unfoldable pub excess_scores : MetricEvaluationInput F → Option (List F)
  excess_scores m = margin_of n m >>= λ (r : F × F × F).
      regression_scores n m >>= λ scores. some (map (λ x. n.sub x r.2) scores)

  unfoldable pub is_misaligned : ℕ → MetricEvaluationInput F → Bool
  is_misaligned pairs m =
      not (length m.baseline_values == pairs) || not (length m.candidate_values == pairs)

  unfoldable pub family_upper_bound : List (MetricEvaluationInput F) → String → ℕ → Option F
  family_upper_bound [] run_id samples = none
  family_upper_bound (m ∷ family) run_id samples =
      let pairs = length m.baseline_values in
      guard (not (ltb pairs minimum_observations || any (is_misaligned pairs) (m ∷ family)))
      >> (each excess_scores (m ∷ family) >>= λ excesses. some (
          n.family_percentile excesses samples
            (n.seed_of (text_append run_id "|family-max-bootstrap")) confidence))

  module _ (request : AdmissionRequest F) where
    abbrev pub settings : ProfileSettings
    settings = profile_settings request.profile

    abbrev pub actual_pairs : ℕ
    actual_pairs = minimum (map (λ m. length m.baseline_values) (required_metrics request))

    -- A result without measurements.
    abbrev pub stopped : ℕ → AdmissionStatus → String → AdmissionResult F
    stopped pairs status reason = record {
      required_pair_count = pairs;
      actual_pair_count = actual_pairs;
      status = status;
      reason_codes = reason ∷ [];
      protected_metric_results = [];
      primary_benefit_result = none;
      production_eligible = settings.production_eligible;
      family_wise_passed = none;
      family_wise_upper_bound = none;
    }

    abbrev pub measured :
        ℕ
        → AdmissionStatus
        → List String
        → List (MetricResult F)
        → MetricResult F
        → F
        → Bool
        → AdmissionResult F
    measured pairs status reasons protected primary bound family = record {
      required_pair_count = pairs;
      actual_pair_count = actual_pairs;
      status = status;
      reason_codes = reasons;
      protected_metric_results = protected;
      primary_benefit_result = some primary;
      production_eligible = settings.production_eligible;
      family_wise_passed = some family;
      family_wise_upper_bound = some bound;
    }

    -- The gates on the measurements.
    unfoldable pub decide : ℕ → List (MetricResult F) → MetricResult F → F → AdmissionResult F
    unfolding is_set le
    decide pairs protected primary bound =
        if any (λ r. not r.passed) protected || n.lt n.epsilon bound
        then measured pairs rejected_regression
            (if n.lt n.epsilon bound
              then "PROTECTED_METRIC_REGRESSION" ∷ "FAMILY_WISE_PROTECTION_FAILED" ∷ []
              else "PROTECTED_METRIC_REGRESSION" ∷ [])
            protected primary bound (le n bound n.epsilon)
        else if not (is_set primary.benefit_passed)
        then measured pairs rejected_no_meaningful_benefit ("PRIMARY_BENEFIT_NOT_PROVEN" ∷ [])
            protected primary bound true
        else measured pairs admitted [] protected primary bound true

    abbrev pub Measurements : Type 0
    Measurements = List (MetricResult F) × MetricResult F × F

    unfoldable pub measurements : MetricEvaluationInput F → Option Measurements
    measurements primary =
        let samples = settings.bootstrap_samples in
        each (evaluate_non_regression n request.evaluation_run_id samples confidence)
          (required_metrics request)
        >>= λ protected.
            evaluate_primary_benefit n request.evaluation_run_id samples confidence primary
            >>= λ benefit.
                family_upper_bound (required_metrics request) request.evaluation_run_id samples
                >>= λ bound. some (protected, benefit, bound)

    abbrev pub when_measured : ℕ → Option Measurements → AdmissionResult F
    when_measured pairs none = stopped pairs inconclusive_missing_metric "INVALID_METRIC_DATA"
    when_measured pairs (some (protected, benefit, bound)) = decide pairs protected benefit bound

    -- From the test on the candidate pairs on.
    unfoldable pub with_pairs : MetricEvaluationInput F → ℕ → Dict ℕ → AdmissionResult F
    with_pairs primary pairs by =
        if any (is_short by) (required_metrics request)
        then stopped pairs inconclusive_missing_metric "INSUFFICIENT_CANDIDATE_PAIRS"
        else when_measured pairs (measurements primary)

    -- What a profile other than SMOKE computes of the calibration: the metrics' counts, and the primary's.
    unfoldable pub requirements : MetricEvaluationInput F → ℕ → Option (List ℕ × ℕ)
    requirements primary maximum =
        each (required_for_metric maximum) (required_metrics request) >>= λ counts.
        required_for_primary maximum primary >>= λ count. some (counts, count)

    -- The second computation of the metrics' counts cannot raise where the first did not.
    abbrev pub calibrated_count : ℕ → MetricEvaluationInput F → ℕ
    calibrated_count maximum m = max minimum_observations (needs (required_for_metric maximum m))

    abbrev pub when_calibrated :
        MetricEvaluationInput F → ℕ → Option (List ℕ × ℕ) → AdmissionResult F
    when_calibrated primary maximum none =
        stopped 0 inconclusive_missing_metric "INVALID_METRIC_DATA"
    when_calibrated primary maximum (some (counts, count)) =
        let pairs =
          greatest minimum_observations
            (or_count settings.minimum_candidate_pairs 0 ∷ counts ++ count ∷ []) in
        if ltb maximum pairs
        then stopped pairs inconclusive_noise "AA_CALIBRATION_EXCEEDS_PROFILE_MAXIMUM"
        else with_pairs primary pairs
            (by_metric (calibrated_count maximum) [] (required_metrics request))

    abbrev pub by_profile : Dict ℕ
    by_profile =
        by_metric
          (λ m.
            max minimum_observations
              (or_count settings.candidate_pairs (or_count settings.minimum_candidate_pairs 0)))
          [] (required_metrics request)

    abbrev pub when_primary : Option (MetricEvaluationInput F) → AdmissionResult F
    when_primary none = stopped 0 inconclusive_missing_metric "PRIMARY_METRIC_MISSING"
    when_primary (some primary) =
        if is_smoke request.profile
        then with_pairs primary (greatest 0 (values by_profile)) by_profile
        else let maximum = or_count settings.maximum_candidate_pairs 0 in
          when_calibrated primary maximum (requirements primary maximum)

    unfoldable pub evaluate_candidate_admission : AdmissionResult F
    evaluate_candidate_admission =
        if not request.safety_invariants_safe
        then stopped 0 rejected_safety_invariant "SAFETY_INVARIANT_FAILED"
        else if not request.environment_valid
        then stopped 0 inconclusive_environment "ENVIRONMENT_MISMATCH"
        else if any is_missing (required_metrics request)
        then stopped 0 inconclusive_missing_metric "REQUIRED_METRIC_MISSING"
        else when_primary
            (find (λ m. str_eq m.metric_key request.primary_metric_key) (required_metrics request))
