-- ===== src/Admission/Soundness.antt =====
-- What an admitted candidate has been shown to satisfy.
use ai_driven_autonomous_no.Prelude.{
  ℕ, ◌++◌, ◌≤◌, ◌≡◌, ◌≢◌, refl, sym, ap, ◌∙◌, ◌⊎◌, inl, inr, true, false, not, ◌||◌, Option, none,
  some, List, [], ◌∷◌, any, find, All, ltb, length, str_eq, arith, if_cases, not-false,
}
use ai_driven_autonomous_no.Prelude.Options.{>>=-eq-some}
use ai_driven_autonomous_no.Prelude.Dicts.{Dict}
use ai_driven_autonomous_no.Admission.{
  admitted, MetricEvaluationInput, MetricResult, AdmissionRequest, AdmissionResult,
}
use ai_driven_autonomous_no.Admission.Numbers.{Numbers}
use ai_driven_autonomous_no.Admission.Scores.{
  each, minimum_observations, evaluate_non_regression, evaluate_primary_benefit,
}
use ai_driven_autonomous_no.Admission.Engine.{
  is_smoke, or_count, greatest, requirements, is_set, required_metrics, is_missing, is_short,
  family_upper_bound, settings, decide, Measurements, measurements, when_measured, with_pairs,
  when_calibrated, when_primary, evaluate_candidate_admission,
}
use ai_driven_autonomous_no.Admission.Proven.{
  length-each, long_enough, All-passed, family-IsAligned, greatest-All, IsAligned, HasPairs,
  IsCalibrated, IsProven,
}

module _ {F : Type 0} (n : Numbers F) (confidence : F) where
  module _ (request : AdmissionRequest F) where
    abbrev required : List (MetricEvaluationInput F)
    required = required_metrics n confidence request

    -- A result with the status ADMITTED rests on every gate.
    abbrev pub IsSound : AdmissionResult F → Type 0
    IsSound result = (result.status ≢ admitted) ⊎ IsProven n confidence request

    measurements_complete :
        (primary : MetricEvaluationInput F) (protected : List (MetricResult F))
        (benefit : MetricResult F) (bound : F)
        → measurements n confidence request primary ≡ some (protected, benefit, bound)
        → (length protected ≡ length required)
          × ((pairs : ℕ) × (3 ≤ pairs) × All (IsAligned n confidence pairs) required)
    unfolding measurements
    measurements_complete primary protected benefit bound h =
        let samples = (settings n confidence request).bootstrap_samples in
        let (rs, first, rest) =
          >>=-eq-some
            (each (evaluate_non_regression n request.evaluation_run_id samples confidence) required)
            _ h in
        let (b, second, rest') =
          >>=-eq-some
            (evaluate_primary_benefit n request.evaluation_run_id samples confidence primary) _
            rest in
        let (u, third, done) =
          >>=-eq-some (family_upper_bound n confidence required request.evaluation_run_id samples) _
            rest' in
        let same : rs ≡ protected = cc in
        (
          ap length (sym same) ∙ length-each _ required rs first,
          family-IsAligned n confidence required request.evaluation_run_id samples u third,
        )

    module _ (safe : request.safety_invariants_safe ≡ true)
        (environment : request.environment_valid ≡ true) (primary : MetricEvaluationInput F)
        (is_primary : find (λ m. str_eq m.metric_key request.primary_metric_key) required
          ≡ some primary) where
      decide-IsSound :
          (by : Dict ℕ) (count : ℕ) (protected : List (MetricResult F)) (benefit : MetricResult F)
          (bound : F)
          → IsCalibrated n confidence request primary by
          → All (HasPairs n confidence by) required
          → measurements n confidence request primary ≡ some (protected, benefit, bound)
          → IsSound (decide n confidence request count protected benefit bound)
      unfolding decide
      decide-IsSound by count protected benefit bound calibrated sufficient h =
          if_cases IsSound (any (λ r. not r.passed) protected || n.lt n.epsilon bound)
            (λ regressed. inl (λ e. cc))
            (λ held.
              if_cases IsSound (not (is_set benefit.benefit_passed)) (λ useless. inl (λ e. cc))
                (λ useful.
                  let (complete, rest) = measurements_complete primary protected benefit bound h in
                  let (pairs, enough, lined) = rest in
                  inr (record {
                    safe = safe;
                    environment = environment;
                    primary = primary;
                    is_primary = is_primary;
                    protected = protected;
                    benefit = benefit;
                    bound = bound;
                    were_measured = h;
                    complete = complete;
                    no_regression = All-passed n confidence protected (ground arith);
                    no_family_regression = ground arith;
                    beneficial = not-false _ useful;
                    pairs = pairs;
                    enough = enough;
                    aligned_pairs = lined;
                    needed = by;
                    calibrated = calibrated;
                    sufficient = sufficient;
                  })))

      when_measured-IsSound :
          (by : Dict ℕ) (count : ℕ) (o : Option (Measurements n confidence request))
          → IsCalibrated n confidence request primary by
          → All (HasPairs n confidence by) required
          → measurements n confidence request primary ≡ o
          → IsSound (when_measured n confidence request count o)
      when_measured-IsSound by count none calibrated sufficient h = inl (λ e. cc)
      when_measured-IsSound by count (some (protected, benefit, bound)) calibrated sufficient h =
          decide-IsSound by count protected benefit bound calibrated sufficient h

      with_pairs-IsSound :
          (count : ℕ) (by : Dict ℕ)
          → IsCalibrated n confidence request primary by
          → IsSound (with_pairs n confidence request primary count by)
      unfolding with_pairs
      with_pairs-IsSound count by calibrated =
          if_cases IsSound (any (is_short n confidence by) required) (λ short. inl (λ e. cc))
            (λ long.
              when_measured-IsSound by count _ calibrated
                (long_enough n confidence by required long) refl)

      abbrev maximum : ℕ
      maximum = or_count (settings n confidence request).maximum_candidate_pairs 0

      when_calibrated-IsSound :
          (o : Option (List ℕ × ℕ))
          → is_smoke request.profile ≡ false
          → requirements n confidence request primary maximum ≡ o
          → IsSound (when_calibrated n confidence request primary maximum o)
      when_calibrated-IsSound none full required_counts = inl (λ e. cc)
      when_calibrated-IsSound (some (counts, count)) full required_counts =
          let limit =
            or_count (settings n confidence request).minimum_candidate_pairs 0 ∷ counts
            ++ count ∷ [] in
          if_cases IsSound (ltb maximum (greatest minimum_observations limit))
            (λ noisy. inl (λ e. cc))
            (λ quiet. with_pairs-IsSound (greatest minimum_observations limit) _ (
              inr (
                counts,
                count,
                full,
                required_counts,
                greatest-All minimum_observations limit maximum (ground arith),
                refl,
              )))

    when_primary-IsSound :
        (o : Option (MetricEvaluationInput F))
        → request.safety_invariants_safe ≡ true
        → request.environment_valid ≡ true
        → find (λ m. str_eq m.metric_key request.primary_metric_key) required ≡ o
        → IsSound (when_primary n confidence request o)
    when_primary-IsSound none safe environment found = inl (λ e. cc)
    when_primary-IsSound (some primary) safe environment found =
        if_cases IsSound (is_smoke request.profile)
          (λ quick. with_pairs-IsSound safe environment primary found _ _ (inl (quick, refl)))
          (λ full. when_calibrated-IsSound safe environment primary found _ full refl)

    -- An admission either has another status than ADMITTED, or the safety invariants and the environment
    -- hold, the primary metric is among the required ones, each of these was measured on the same three
    -- pairs or more, has the pairs that the profile or the calibration asks of it, and passed, no count
    -- of the calibration is above the profile's maximum (unless the profile is SMOKE), the family's bound
    -- is not above the tolerance, and the benefit passed.
    pub evaluate_candidate_admission-IsSound :
        IsSound (evaluate_candidate_admission n confidence request)
    unfolding evaluate_candidate_admission
    evaluate_candidate_admission-IsSound =
        if_cases IsSound (not request.safety_invariants_safe) (λ unsafe. inl (λ e. cc))
          (λ safe.
            if_cases IsSound (not request.environment_valid) (λ other. inl (λ e. cc))
              (λ same.
                if_cases IsSound (any (is_missing n confidence) required) (λ missing. inl (λ e. cc))
                  (λ there. when_primary-IsSound _ (not-false _ safe) (not-false _ same) refl)))
