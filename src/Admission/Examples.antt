-- ===== src/Admission/Examples.antt =====
-- The engine on natural numbers in place of floats: a metric that halves.
use ai_driven_autonomous_no.Prelude.{
  ◌≡◌, refl, ℕ, ◌+◌, ◌-◌, ◌*◌, ◌/◌, true, none, some, List, [], ◌∷◌, ltb, ◌==◌,
}
use ai_driven_autonomous_no.Admission.{
  MetricEvaluationInput, MetricPolicy, AdmissionRequest, lower_is_better, AdmissionResult,
  absolute_delta, autonomous, admitted, profile_settings,
}
use ai_driven_autonomous_no.Admission.Numbers.{Numbers}
use ai_driven_autonomous_no.Admission.Engine.{
  required_metrics, is_missing, is_smoke, with_pairs, by_metric, is_short, decide, measurements,
  or_count, excess_scores, family_upper_bound, greatest, is_misaligned, is_set, metric_id, minimum,
  required_for_metric, required_for_primary, requirements, evaluate_candidate_admission,
}
use ai_driven_autonomous_no.Admission.Scores.{
  minimum_observations, each, evaluate_non_regression, margin_of, calculate_baseline_reference,
  calculate_allowed_regression, calculate_transformed_regression_margin, regression_scores,
  transform_regression, paired_bootstrap_ci, evaluate_primary_benefit, transform_benefit,
  bootstrap_seed, calculate_transformed_minimum_benefit, estimate_required_pairs, finite_array,
  greater, is_log_ratio, is_lower, le, least, validate_value, zip,
}
use ai_driven_autonomous_no.Prelude.Dicts.{get, put, has, overwrite}
use ai_driven_autonomous_no.Admission.Soundness.{IsSound, evaluate_candidate_admission-IsSound}

abbrev first : List ℕ → ℕ
first [] = 0
first (x ∷ xs) = x

abbrev pub naturals : Numbers ℕ
naturals = record {
  lt = ltb;
  same = λ x y. x == y;
  is_finite = λ x. true;
  zero_float = 0;
  one_float = 10;
  add = λ x y. x + y;
  sub = λ x y. x - y;
  mul = λ x y. x * y;
  div = λ x y. x / y;
  neg = λ x. 0;
  log = λ x. some x;
  epsilon = 0;
  sentinel = 1000;
  mean = first;
  geometric_mean = first;
  calibrated = λ scores half. 3;
  resampled = λ scores samples seed confidence. (first scores, first scores, first scores);
  family_percentile = λ family samples seed confidence. 0;
  seed_of = λ s. 0;
  half = 0;
}

abbrev policy : MetricPolicy ℕ
policy = record {
  metric_key = "p95";
  direction = lower_is_better;
  comparison_mode = absolute_delta;
  relative_cap = none;
  absolute_cap = some 5;
  hard_upper_boundary = none;
  headroom_fraction = none;
  minimum_benefit = 1;
}

abbrev metric : MetricEvaluationInput ℕ
metric = record {
  metric_key = "p95";
  scope_type = "TARGET";
  scope_id = "t1";
  policy = policy;
  baseline_values = 100 ∷ 100 ∷ 100 ∷ [];
  candidate_values = 50 ∷ 50 ∷ 50 ∷ [];
  required = true;
  applicable = true;
  aa_scores = 0 ∷ 0 ∷ [];
}

abbrev pub request : AdmissionRequest ℕ
request = record {
  candidate_id = "c1";
  evaluation_run_id = "r1";
  profile = autonomous;
  primary_metric_key = "p95";
  metrics = metric ∷ [];
  environment_valid = true;
  safety_invariants_safe = true;
}

evaluate_candidate_admission-IsSound_example :
    IsSound naturals 95 request (evaluate_candidate_admission naturals 95 request)
evaluate_candidate_admission-IsSound_example =
    evaluate_candidate_admission-IsSound naturals 95 request

-- Three pairs are enough for an admission that itself asks for ten.
abbrev result : AdmissionResult ℕ
result = evaluate_candidate_admission naturals 95 request

three_pairs_are_admitted :
    (result.status ≡ admitted) × (result.required_pair_count ≡ 10) × (result.actual_pair_count ≡ 3)
unfolding evaluate_candidate_admission profile_settings required_metrics is_missing is_smoke
    with_pairs by_metric is_short decide measurements or_count excess_scores family_upper_bound
    greatest is_misaligned is_set metric_id minimum required_for_metric required_for_primary
    requirements minimum_observations each evaluate_non_regression margin_of
    calculate_baseline_reference calculate_allowed_regression
    calculate_transformed_regression_margin regression_scores transform_regression
    paired_bootstrap_ci evaluate_primary_benefit transform_benefit bootstrap_seed
    calculate_transformed_minimum_benefit estimate_required_pairs finite_array greater is_log_ratio
    is_lower le least validate_value zip get put has overwrite
three_pairs_are_admitted = (refl, refl, refl)
