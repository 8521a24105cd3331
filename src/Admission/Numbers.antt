-- ===== src/Admission/Numbers.antt =====
-- The arithmetic that the admission stands on: Python's floats, `math` and NumPy.
-- None of them is code of the repository, so each operation is a field, and `none` is the ValueError
-- that it raises. A power that overflows in a calibration raises an OverflowError, which no handler of
-- the source catches; the calibration is taken not to.
use ai_driven_autonomous_no.Prelude.{ℕ, String, Bool, Option, List}

pub record Numbers (F : Type 0) : Type 0 where
  pub lt : F → F → Bool
  pub same : F → F → Bool
  pub is_finite : F → Bool
  pub zero_float : F
  pub one_float : F
  pub add : F → F → F
  pub sub : F → F → F
  pub mul : F → F → F
  pub div : F → F → F
  pub neg : F → F
  -- math.log
  pub log : F → Option F
  -- `EPSILON` and `ZERO_REGRESSION_SENTINEL`
  pub epsilon : F
  pub sentinel : F
  -- float(np.mean(array)) and float(np.exp(np.mean(np.log(array))))
  pub mean : List F → F
  pub geometric_mean : List F → F
  -- The calibration formula of `estimate_required_pairs`, of scores and a target half width.
  pub calibrated : List F → F → ℕ
  -- The mean of the scores with the lower and upper percentiles of the resampled means, of a sample
  -- count and a seed.
  pub resampled : List F → ℕ → ℕ → F → F × F × F
  -- The upper percentile of the resampled maxima of a family of scores.
  pub family_percentile : List (List F) → ℕ → ℕ → F → F
  -- int.from_bytes(sha256(...).digest()[:8], "big")
  pub seed_of : String → ℕ
  pub half : F
