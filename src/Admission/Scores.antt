-- ===== src/Admission/Scores.antt =====
-- backend/app/admission/statistics.py, down to the gates of one metric. `none` is a ValueError.
use Prim.Native.String.{◌++◌ as text_append}
use ai_driven_autonomous_no.Prelude.{
  ℕ, String, Bool, true, false, not, ◌&&◌, ◌||◌, Option, none, some, List, [], ◌∷◌, ◌++◌, any, all,
  ltb, ◌==◌, length, if◌then◌else◌,
}
use ai_driven_autonomous_no.Prelude.Options.{◌>>=◌, ◌>>◌, guard}
use ai_driven_autonomous_no.Admission.{
  MetricDirection, lower_is_better, ComparisonMode, log_ratio, absolute_delta, boolean_invariant,
  MetricPolicy, MetricEvaluationInput, MetricResult,
}
use ai_driven_autonomous_no.Admission.Numbers.{Numbers}

unfoldable pub is_lower : MetricDirection → Bool
is_lower lower_is_better = true
is_lower _ = false

unfoldable pub is_log_ratio : ComparisonMode → Bool
is_log_ratio log_ratio = true
is_log_ratio _ = false

unfoldable pub minimum_observations : ℕ
minimum_observations = 3

-- tuple(f(x) for x in xs), which raises where `f` does.
unfoldable pub each : {A B : Type 0} → (A → Option B) → List A → Option (List B)
each f [] = some []
each f (x ∷ xs) = let rest = each f xs in f x >>= λ y. rest >>= λ ys. some (y ∷ ys)

unfoldable pub zip : {A : Type 0} → List A → List A → List (A × A)
zip (x ∷ xs) (y ∷ ys) = (x, y) ∷ zip xs ys
zip _ _ = []

module _ {F : Type 0} (n : Numbers F) where
  -- x <= y of floats that are no NaN.
  unfoldable pub le : F → F → Bool
  le x y = n.lt x y || n.same x y

  -- `_validate_value`
  unfoldable pub validate_value : F → Option (Unit {0})
  validate_value x = guard (n.is_finite x && not (n.lt x n.zero_float))

  -- `_finite_array`
  unfoldable pub finite_array : List F → Option (List F)
  finite_array xs = guard (all (λ x. n.is_finite x) xs) >> some xs

  unfoldable pub transform_regression : F → F → MetricDirection → ComparisonMode → Option F
  unfolding validate_value is_lower
  transform_regression baseline candidate direction boolean_invariant =
      validate_value baseline
      >> (validate_value candidate
          >> some (if n.same baseline candidate then n.zero_float else n.one_float))
  transform_regression baseline candidate direction absolute_delta =
      validate_value baseline
      >> (validate_value candidate
          >> some
              (if is_lower direction then n.sub candidate baseline else n.sub baseline candidate))
  transform_regression baseline candidate direction log_ratio =
      validate_value baseline
      >> (validate_value candidate
          >> (if n.same baseline n.zero_float && n.same candidate n.zero_float
              then some n.zero_float
              else if n.same baseline n.zero_float
              then some (if is_lower direction then n.sentinel else n.neg n.sentinel)
              else if n.same candidate n.zero_float
              then some (if is_lower direction then n.neg n.sentinel else n.sentinel)
              else n.log (
                  if is_lower direction
                  then n.div candidate baseline
                  else n.div baseline candidate)))

  unfoldable pub transform_benefit : F → F → MetricDirection → Option F
  unfolding validate_value is_lower
  transform_benefit baseline candidate direction =
      validate_value baseline
      >> (validate_value candidate
          >> (if n.same baseline n.zero_float && n.same candidate n.zero_float
              then some n.zero_float
              else if n.same baseline n.zero_float
              then some (if is_lower direction then n.neg n.sentinel else n.sentinel)
              else if n.same candidate n.zero_float
              then some (if is_lower direction then n.sentinel else n.neg n.sentinel)
              else n.log (
                  if is_lower direction
                  then n.div baseline candidate
                  else n.div candidate baseline)))

  unfoldable pub calculate_baseline_reference : List F → ComparisonMode → Option F
  unfolding finite_array is_log_ratio
  calculate_baseline_reference values mode = finite_array values >>= λ array.
      guard (not (length array == 0))
      >> (if is_log_ratio mode
          then guard (not (any (λ x. n.lt x n.zero_float) array))
            >> some (
                if any (λ x. n.same x n.zero_float) array
                then n.zero_float
                else n.geometric_mean array)
          else some (n.mean array))

  -- Python's min of a list that is not empty, and max(x, y).
  unfoldable pub least : F → List F → F
  least x [] = x
  least x (y ∷ ys) = least (if n.lt y x then y else x) ys

  unfoldable pub greater : F → F → F
  greater x y = if n.lt x y then y else x

  abbrev pub when : {A B : Type 0} → Option A → (A → B) → List B
  when none f = []
  when (some a) f = f a ∷ []

  abbrev pub at_boundary : Option F → F → Bool
  at_boundary none reference = false
  at_boundary (some bound) reference = le bound reference

  abbrev pub headroom : Option F → Option F → F → List F
  headroom none fraction reference = []
  headroom (some bound) fraction reference =
      when fraction (λ f. n.mul f (greater (n.sub bound reference) n.zero_float))

  abbrev pub smallest : List F → Option F
  smallest [] = none
  smallest (x ∷ xs) = some (least x xs)

  unfoldable pub calculate_allowed_regression : F → MetricPolicy F → Option F
  unfolding le least greater
  calculate_allowed_regression reference policy =
      if at_boundary policy.hard_upper_boundary reference
      then some n.zero_float
      else smallest (
          when policy.relative_cap (λ cap. n.mul reference cap)
          ++ (when policy.absolute_cap (λ cap. cap)
              ++ headroom policy.hard_upper_boundary policy.headroom_fraction reference))

  abbrev pub log_margin : F → F → MetricDirection → Option F
  log_margin reference allowed direction =
      if le reference n.zero_float
      then some n.zero_float
      else if is_lower direction
      then n.log (n.div (n.add reference allowed) reference)
      else let minimum_candidate = n.sub reference allowed in
        guard (not (le minimum_candidate n.zero_float)) >> n.log (n.div reference minimum_candidate)

  unfoldable pub calculate_transformed_regression_margin : F → F → MetricPolicy F → Option F
  unfolding le is_lower
  calculate_transformed_regression_margin reference allowed policy = elim policy.comparison_mode [
    | absolute_delta ↦ some allowed
    | boolean_invariant ↦ some n.zero_float
    | log_ratio ↦ log_margin reference allowed policy.direction
  ]

  unfoldable pub calculate_transformed_minimum_benefit : MetricDirection → F → Option F
  unfolding is_lower
  calculate_transformed_minimum_benefit direction benefit =
      guard (n.lt n.zero_float benefit && n.lt benefit n.one_float)
      >> (if is_lower direction
          then n.log (n.div n.one_float (n.sub n.one_float benefit))
          else n.log (n.add n.one_float benefit))

  unfoldable pub estimate_required_pairs : List F → F → ℕ → Option ℕ
  unfolding le finite_array
  estimate_required_pairs aa_scores margin maximum_pairs =
      if le margin n.epsilon
      then some maximum_pairs
      else finite_array aa_scores >>= λ scores.
          guard (not (ltb (length scores) 2)) >> some (n.calibrated scores (n.mul n.half margin))

  unfoldable pub paired_bootstrap_ci : List F → ℕ → ℕ → F → Option (F × F × F)
  unfolding finite_array
  paired_bootstrap_ci scores samples seed confidence = finite_array scores >>= λ array.
      guard (not (length array == 0)) >> some (n.resampled array samples seed confidence)

  -- `_bootstrap_seed`
  unfoldable pub bootstrap_seed : String → MetricEvaluationInput F → ℕ
  bootstrap_seed run_id metric = n.seed_of (
      text_append run_id (
        text_append "|" (
          text_append metric.metric_key (
            text_append "|" (
              text_append metric.scope_type
                (text_append "|" (text_append metric.scope_id "|bootstrap")))))))

  unfoldable pub regression_scores : MetricEvaluationInput F → Option (List F)
  unfolding each zip
  regression_scores metric =
      each
        (λ (pair : F × F).
          transform_regression pair.0 pair.1 metric.policy.direction metric.policy.comparison_mode)
        (zip metric.baseline_values metric.candidate_values)

  -- The reference, the allowed regression and its margin.
  unfoldable pub margin_of : MetricEvaluationInput F → Option (F × F × F)
  margin_of metric =
      calculate_baseline_reference metric.baseline_values metric.policy.comparison_mode
      >>= λ reference. calculate_allowed_regression reference metric.policy >>= λ allowed.
          calculate_transformed_regression_margin reference allowed metric.policy >>= λ margin.
          some (reference, allowed, margin)

  module _ (run_id : String) (samples : ℕ) (confidence : F) where
    unfoldable pub evaluate_non_regression : MetricEvaluationInput F → Option (MetricResult F)
    evaluate_non_regression metric = margin_of metric >>= λ (m : F × F × F).
        regression_scores metric >>= λ scores.
        paired_bootstrap_ci scores samples (bootstrap_seed run_id metric) confidence
        >>= λ (ci : F × F × F). some (record {
          metric_key = metric.metric_key;
          baseline_reference = m.0;
          allowed_regression_original_units = m.1;
          allowed_regression_transformed = m.2;
          pair_count = length scores;
          point_estimate_transformed = ci.0;
          upper_confidence_bound = ci.2;
          lower_confidence_bound = ci.1;
          passed = le ci.2 (n.add m.2 n.epsilon);
          transformed_minimum_benefit = none;
          benefit_passed = none;
        })

    unfoldable pub evaluate_primary_benefit : MetricEvaluationInput F → Option (MetricResult F)
    evaluate_primary_benefit metric = evaluate_non_regression metric >>= λ protected.
        each (λ (pair : F × F). transform_benefit pair.0 pair.1 metric.policy.direction)
          (zip metric.baseline_values metric.candidate_values)
        >>= λ scores.
            paired_bootstrap_ci scores samples (bootstrap_seed run_id metric) confidence
            >>= λ (ci : F × F × F).
                calculate_transformed_minimum_benefit metric.policy.direction
                  metric.policy.minimum_benefit
                >>= λ threshold. some (record protected {
                  lower_confidence_bound = ci.1;
                  transformed_minimum_benefit = some threshold;
                  benefit_passed = some (le threshold (n.add ci.1 n.epsilon));
                })
