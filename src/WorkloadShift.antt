-- ===== src/WorkloadShift.antt =====
-- backend/app/monitoring/workload_shift.py: sustained shifts of a workload's distribution.
-- Floats are an abstract type with the operations that are used. The sum over the union of two
-- dictionaries' keys is taken over the baseline's names and then the other observed names; a set has
-- no order of its own.
pub mod Episodes
mod Examples
use ai_driven_autonomous_no.Prelude.{
  ℕ, suc, String, Bool, true, false, not, ◌&&◌, ◌||◌, Option, none, some, List, [], ◌∷◌, ◌++◌, any,
  map, filter, leb, str_eq, if◌then◌else◌,
}
use ai_driven_autonomous_no.Prelude.Dicts.{Dict, get, has}

pub record ShiftNumbers (F : Type 0) : Type 0 where
  pub zero_float : F
  pub one_float : F
  pub half : F
  pub add : F → F → F
  pub sub : F → F → F
  pub mul : F → F → F
  pub absolute : F → F
  pub le : F → F → Bool
  -- 1e-9, 1e-12 and `TOTAL_VARIATION_THRESHOLD`
  pub sum_tolerance : F
  pub tolerance : F
  pub threshold : F

pub record Share (F : Type 0) : Type 0 where
  pub name : String
  pub fraction : F

pub record WorkloadShiftDecision (F : Type 0) : Type 0 where
  pub total_variation_distance : F
  pub consecutive_shift_windows : ℕ
  pub shift_detected : Bool
  pub reanalysis_requested : Bool

pub record WorkloadShiftDetector : Type 0 where
  pub consecutive : ℕ
  pub shift_episode_open : Bool

unfoldable pub new_detector : WorkloadShiftDetector
new_detector = record { consecutive = 0; shift_episode_open = false }

unfoldable pub consecutive_windows_required : ℕ
consecutive_windows_required = 3

-- The detector after a window whose distance reaches the threshold, or does not; and whether the shift
-- is detected, and a new analysis requested.
unfoldable pub observe_window : WorkloadShiftDetector → Bool → WorkloadShiftDetector × (Bool × Bool)
unfolding consecutive_windows_required
observe_window d reaches =
    let counted : WorkloadShiftDetector =
      if reaches
      then record d { consecutive = suc d.consecutive }
      else record { consecutive = 0; shift_episode_open = false } in
    let detected = leb consecutive_windows_required counted.consecutive in
    let requested = detected && not counted.shift_episode_open in
    (
      if requested then record counted { shift_episode_open = true } else counted,
      (detected, requested),
    )

module _ {F : Type 0} (n : ShiftNumbers F) where
  abbrev total : List F → F
  total [] = n.zero_float
  total (x ∷ xs) = n.add x (total xs)

  abbrev or_zero : Option F → F
  or_zero none = n.zero_float
  or_zero (some x) = x

  -- The loop of `_validated_distribution`; `none` is its ValueError.
  unfoldable pub collect_shares : Dict F → List (Share F) → Option (Dict F)
  collect_shares values [] = some values
  collect_shares values (s ∷ shares) =
      let rest = collect_shares (values ++ (s.name, s.fraction) ∷ []) shares in
      if str_eq s.name ""
        || (has values s.name || not (n.le n.zero_float s.fraction && n.le s.fraction n.one_float))
      then none
      else rest

  abbrev summed : Dict F → Option (Dict F)
  summed [] = some []
  summed (e ∷ values) =
      if n.le (n.absolute (n.sub (total (map (λ v. v.1) (e ∷ values))) n.one_float)) n.sum_tolerance
      then some (e ∷ values)
      else none

  abbrev checked : Option (Dict F) → Option (Dict F)
  checked none = none
  checked (some values) = summed values

  unfoldable pub validated_distribution : List (Share F) → Option (Dict F)
  unfolding collect_shares
  validated_distribution shares = checked (collect_shares [] shares)

  abbrev distance_between : Option (Dict F) → Option (Dict F) → Option F
  distance_between none observed = none
  distance_between (some baseline) none = none
  distance_between (some baseline) (some observed) =
      let names =
        map (λ v. v.0) baseline ++ map (λ v. v.0) (filter (λ v. not (has baseline v.0)) observed) in
      some (
        n.mul n.half (
          total (
            map
              (λ name.
                n.absolute (n.sub (or_zero (get baseline name)) (or_zero (get observed name))))
              names)))

  unfoldable pub total_variation_distance : List (Share F) → List (Share F) → Option F
  unfolding validated_distribution
  total_variation_distance baseline observed =
      distance_between (validated_distribution baseline) (validated_distribution observed)

  abbrev pub observe_distance :
      WorkloadShiftDetector → Option F → WorkloadShiftDetector × Option (WorkloadShiftDecision F)
  observe_distance d none = (d, none)
  observe_distance d (some distance) =
      let (after, verdict) = observe_window d (n.le n.threshold (n.add distance n.tolerance)) in
      let (detected, requested) = verdict in
      (
        after,
        some (record {
          total_variation_distance = distance;
          consecutive_shift_windows = after.consecutive;
          shift_detected = detected;
          reanalysis_requested = requested;
        }),
      )

  -- The request of a new analysis is the last field of the decision; the scheduler is taken to return.
  unfoldable pub observe :
      WorkloadShiftDetector
      → List (Share F)
      → List (Share F)
      → WorkloadShiftDetector × Option (WorkloadShiftDecision F)
  unfolding observe_window total_variation_distance
  observe d baseline observed = observe_distance d (total_variation_distance baseline observed)
