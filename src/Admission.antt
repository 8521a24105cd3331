-- ===== src/Admission.antt =====
-- backend/app/admission: the statistical admission of a candidate.
-- This module holds the types of models.py and the profiles of policy.py. `F` is the type of floats.
pub mod Numbers
pub mod Scores
pub mod Engine
pub mod Proven
pub mod Soundness
pub mod Examples
use ai_driven_autonomous_no.Prelude.{ℕ, String, Bool, true, false, Option, none, some, List}

pub data AdmissionStatus : Type 0 where
  admitted rejected_safety_invariant rejected_regression : AdmissionStatus
  rejected_no_meaningful_benefit inconclusive_noise inconclusive_environment : AdmissionStatus
  inconclusive_missing_metric : AdmissionStatus

unfoldable pub is_admitted : AdmissionStatus → Bool
is_admitted admitted = true
is_admitted _ = false

pub data MetricDirection : Type 0 where
  lower_is_better higher_is_better zero_tolerance : MetricDirection

pub data ComparisonMode : Type 0 where
  log_ratio absolute_delta boolean_invariant : ComparisonMode

pub data BenchmarkProfile : Type 0 where
  smoke autonomous publication : BenchmarkProfile

-- Every profile has the confidence 0.95, the default of the bootstrap; it is a parameter of the engine.
pub record ProfileSettings : Type 0 where
  pub production_eligible : Bool
  pub warmup_seconds : ℕ
  pub measurement_seconds : ℕ
  pub bootstrap_samples : ℕ
  pub candidate_pairs : Option ℕ
  pub pilot_aa_pairs : Option ℕ
  pub minimum_candidate_pairs : Option ℕ
  pub maximum_candidate_pairs : Option ℕ

-- `PROFILES`
unfoldable pub profile_settings : BenchmarkProfile → ProfileSettings
profile_settings smoke = record {
  production_eligible = false;
  warmup_seconds = 5;
  measurement_seconds = 10;
  bootstrap_samples = 1000;
  candidate_pairs = some 3;
  pilot_aa_pairs = none;
  minimum_candidate_pairs = none;
  maximum_candidate_pairs = none;
}
profile_settings autonomous = record {
  production_eligible = true;
  warmup_seconds = 30;
  measurement_seconds = 60;
  bootstrap_samples = 10000;
  candidate_pairs = none;
  pilot_aa_pairs = some 10;
  minimum_candidate_pairs = some 10;
  maximum_candidate_pairs = some 30;
}
profile_settings publication = record {
  production_eligible = false;
  warmup_seconds = 60;
  measurement_seconds = 120;
  bootstrap_samples = 10000;
  candidate_pairs = none;
  pilot_aa_pairs = some 12;
  minimum_candidate_pairs = some 15;
  maximum_candidate_pairs = some 40;
}

pub record MetricPolicy (F : Type 0) : Type 0 where
  pub metric_key : String
  pub direction : MetricDirection
  pub comparison_mode : ComparisonMode
  pub relative_cap : Option F
  pub absolute_cap : Option F
  pub hard_upper_boundary : Option F
  pub headroom_fraction : Option F
  pub minimum_benefit : F

pub record MetricEvaluationInput (F : Type 0) : Type 0 where
  pub metric_key : String
  pub scope_type : String
  pub scope_id : String
  pub policy : MetricPolicy F
  pub baseline_values : List F
  pub candidate_values : List F
  pub required : Bool
  pub applicable : Bool
  pub aa_scores : List F

-- The fields that the gates read or compute; the others copy the metric's names and settings. The
-- failure reason is the one text where `passed` is false.
pub record MetricResult (F : Type 0) : Type 0 where
  pub metric_key : String
  pub baseline_reference : F
  pub allowed_regression_original_units : F
  pub allowed_regression_transformed : F
  pub pair_count : ℕ
  pub point_estimate_transformed : F
  pub upper_confidence_bound : F
  pub lower_confidence_bound : F
  pub passed : Bool
  pub transformed_minimum_benefit : Option F
  pub benefit_passed : Option Bool

pub record AdmissionRequest (F : Type 0) : Type 0 where
  pub candidate_id : String
  pub evaluation_run_id : String
  pub profile : BenchmarkProfile
  pub primary_metric_key : String
  pub metrics : List (MetricEvaluationInput F)
  pub environment_valid : Bool
  pub safety_invariants_safe : Bool

-- What the request says itself is not copied.
pub record AdmissionResult (F : Type 0) : Type 0 where
  pub required_pair_count : ℕ
  pub actual_pair_count : ℕ
  pub status : AdmissionStatus
  pub reason_codes : List String
  pub protected_metric_results : List (MetricResult F)
  pub primary_benefit_result : Option (MetricResult F)
  pub production_eligible : Bool
  pub family_wise_passed : Option Bool
  pub family_wise_upper_bound : Option F
