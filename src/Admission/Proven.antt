-- ===== src/Admission/Proven.antt =====
-- What an admission rests on: the measurements, the pairs of each metric and the calibration.
use ai_driven_autonomous_no.Prelude.{
  ℕ, suc, max, ◌++◌, ◌≤◌, ◌≡◌, sym, ap, ◌∙◌, ◌⊎◌, String, Bool, true, false, not, ◌||◌, Option,
  some, List, [], ◌∷◌, any, find, All, ltb, length, str_eq, arith,
}
use ai_driven_autonomous_no.Prelude.Options.{guard, >>=-eq-some, guard-eq-some}
use ai_driven_autonomous_no.Prelude.Dicts.{Dict, get}
use ai_driven_autonomous_no.Admission.{MetricEvaluationInput, MetricResult, AdmissionRequest}
use ai_driven_autonomous_no.Admission.Numbers.{Numbers}
use ai_driven_autonomous_no.Admission.Scores.{each, minimum_observations}
use ai_driven_autonomous_no.Admission.Engine.{
  is_smoke, or_count, greatest, needs, metric_id, by_metric, by_profile, calibrated_count,
  requirements, is_set, required_metrics, is_short, is_misaligned, family_upper_bound, settings,
  measurements,
}

pub length-each :
    {A B : Type 0} (f : A → Option B) (xs : List A) (ys : List B)
    → each f xs ≡ some ys
    → length ys ≡ length xs
unfolding each
length-each f [] ys h = let e : [] ≡ ys = cc in ap length (sym e)
length-each f (x ∷ xs) ys h =
    let (y, here, rest) = >>=-eq-some (f x) _ h in
    let (zs, later, same) = >>=-eq-some (each f xs) _ rest in
    let e : (y ∷ zs) ≡ ys = cc in ap length (sym e) ∙ ap suc (length-each f xs zs later)

-- No entry fails a test.
none_fail :
    {A : Type 0} (test : A → Bool) (xs : List A)
    → any test xs ≡ false
    → All (λ x. test x ≡ false) xs
none_fail test [] h = tt
none_fail test (x ∷ xs) h = (ground arith, none_fail test xs (ground arith))

-- What bounds the greatest count bounds each.
pub greatest-All :
    (x : ℕ) (counts : List ℕ) (m : ℕ) → greatest x counts ≤ m → All (λ k. k ≤ m) (x ∷ counts)
unfolding greatest
greatest-All x [] m h = (h, tt)
greatest-All x (k ∷ counts) m h =
    let (both, rest) = greatest-All (max x k) counts m h in
    (omega (arith, both), (omega (arith, both), rest))

module _ {F : Type 0} (n : Numbers F) (confidence : F) where
  -- All measurements of the required metrics are of the same number of pairs.
  abbrev pub IsAligned : ℕ → MetricEvaluationInput F → Type 0
  IsAligned pairs m = (length m.baseline_values ≡ pairs) × (length m.candidate_values ≡ pairs)

  aligned :
      (pairs : ℕ) (ms : List (MetricEvaluationInput F))
      → any (is_misaligned n confidence pairs) ms ≡ false
      → All (IsAligned pairs) ms
  unfolding is_misaligned
  aligned pairs [] h = tt
  aligned pairs (m ∷ ms) h = ((ground arith, ground arith), aligned pairs ms (ground arith))

  -- A metric has the pairs that its entry asks for.
  abbrev pub HasPairs : Dict ℕ → MetricEvaluationInput F → Type 0
  HasPairs by m = needs n confidence (get by (metric_id n confidence m)) ≤ length m.baseline_values

  -- How many pairs the metrics need: under SMOKE what the profile asks for, and else what the calibration
  -- asks for, none of whose counts is above the profile's maximum.
  abbrev pub IsCalibrated : AdmissionRequest F → MetricEvaluationInput F → Dict ℕ → Type 0
  IsCalibrated request primary by =
      let limits = settings n confidence request in
      let maximum = or_count limits.maximum_candidate_pairs 0 in
      ((is_smoke request.profile ≡ true) × (by ≡ by_profile n confidence request))
      ⊎ ((counts : List ℕ) × (count : ℕ) × (is_smoke request.profile ≡ false)
          × (requirements n confidence request primary maximum ≡ some (counts, count))
          × All (λ k. k ≤ maximum)
              (minimum_observations ∷ or_count limits.minimum_candidate_pairs 0 ∷ counts
                ++ count ∷ [])
          × (by
              ≡ by_metric n confidence (calibrated_count n confidence request maximum) []
                  (required_metrics n confidence request)))

  -- Every gate on an admitted candidate.
  pub record IsProven (request : AdmissionRequest F) : Type 0 where
    pub safe : request.safety_invariants_safe ≡ true
    pub environment : request.environment_valid ≡ true
    pub primary : MetricEvaluationInput F
    pub is_primary :
        find
          (λ m. str_eq m.metric_key request.primary_metric_key)
          (required_metrics n confidence request)
        ≡ some primary
    pub protected : List (MetricResult F)
    pub benefit : MetricResult F
    pub bound : F
    pub were_measured : measurements n confidence request primary ≡ some (protected, benefit, bound)
    pub complete : length protected ≡ length (required_metrics n confidence request)
    pub no_regression : All (λ r. r.passed ≡ true) protected
    pub no_family_regression : n.lt n.epsilon bound ≡ false
    pub beneficial : is_set benefit.benefit_passed ≡ true
    pub pairs : ℕ
    pub enough : 3 ≤ pairs
    pub aligned_pairs : All (IsAligned pairs) (required_metrics n confidence request)
    pub needed : Dict ℕ
    pub calibrated : IsCalibrated request primary needed
    pub sufficient : All (HasPairs needed) (required_metrics n confidence request)

  pub long_enough :
      (by : Dict ℕ) (ms : List (MetricEvaluationInput F))
      → any (is_short n confidence by) ms ≡ false
      → All (HasPairs by) ms
  unfolding is_short
  long_enough by [] h = tt
  long_enough by (m ∷ ms) h = (ground arith, long_enough by ms (ground arith))

  pub All-passed :
      (rs : List (MetricResult F))
      → any (λ r. not r.passed) rs ≡ false
      → All (λ r. r.passed ≡ true) rs
  All-passed [] h = tt
  All-passed (r ∷ rs) h = (ground arith, All-passed rs (ground arith))

  pub family-IsAligned :
      (ms : List (MetricEvaluationInput F)) (run_id : String) (samples : ℕ) (bound : F)
      → family_upper_bound n confidence ms run_id samples ≡ some bound
      → (pairs : ℕ) × (3 ≤ pairs) × All (IsAligned pairs) ms
  unfolding family_upper_bound minimum_observations
  family-IsAligned [] run_id samples bound h = cc
  family-IsAligned (m ∷ ms) run_id samples bound h =
      let pairs = length m.baseline_values in
      let (u, fine, rest) =
        >>=-eq-some (guard (not (ltb pairs 3 || any (is_misaligned n confidence pairs) (m ∷ ms)))) _
          h in
      let ok = guard-eq-some _ fine in (pairs, ground arith, aligned pairs (m ∷ ms) (ground arith))
