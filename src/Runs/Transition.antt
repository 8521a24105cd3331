-- ===== src/Runs/Transition.antt =====
-- backend/app/db/repositories.py: `RunRepository`, the persisted status of an optimization run and the
-- evidence that a transition asks of the other tables.
use ai_driven_autonomous_no.Prelude.{
  ℕ, String, Bool, true, false, not, ◌&&◌, ◌||◌, ◌==◌, Option, none, some, List, [], ◌∷◌, map, any,
  filter, str_eq, if◌then◌else◌,
}
use ai_driven_autonomous_no.Lifecycle.{
  OptimizationState, snapshotting, diagnosing, generating_candidates, ranking, calibrating,
  evaluating, admission, admitted, completed, same_state, validate_transition,
}
use ai_driven_autonomous_no.Runs.{
  RunCompletionReason, no_candidates, no_admitted_candidate, RunRow, PlanRow, EvaluationRow,
  AdmissionRow, RunStore, is_absent, same_set,
}

pub data TransitionError : Type 0 where
  run_does_not_exist invalid_transition snapshot_required diagnosis_required : TransitionError
  primary_metric_required generation_required ranking_required plan_required : TransitionError
  plan_required_before_admission evaluations_required selection_required : TransitionError
  completion_reason_required empty_generation_required empty_admission_required : TransitionError
  reason_only_for_completed : TransitionError

-- `current is s and desired is t`
unfoldable pub moves :
    OptimizationState → OptimizationState → OptimizationState → OptimizationState → Bool
unfolding same_state
moves current desired s t = same_state current s && same_state desired t

-- `count is None or count <= 0`
unfoldable pub has_no_candidates : Option ℕ → Bool
has_no_candidates none = true
has_no_candidates (some n) = n == 0

-- `generation != 0`, where a missing artifact is not zero
unfoldable pub is_not_zero : Option ℕ → Bool
is_not_zero none = true
is_not_zero (some n) = not (n == 0)

-- The candidates of the plan that have a completed evaluation.
unfoldable pub completed_of : List String → List EvaluationRow → List String
completed_of plan rows =
    map (λ r. r.candidate_id)
      (filter (λ r. any (str_eq r.candidate_id) plan && str_eq r.evaluation_status "COMPLETED")
        rows)

unfoldable pub lacks_evaluations : Option PlanRow → List EvaluationRow → Bool
unfolding completed_of same_set
lacks_evaluations none rows = false
lacks_evaluations (some plan) rows =
    let planned = plan.planned_candidate_ids in not (same_set (completed_of planned rows) planned)

unfoldable pub has_no_selection : Option AdmissionRow → Bool
unfolding is_absent
has_no_selection none = true
has_no_selection (some a) = is_absent a.selected_candidate_id

-- `admission is None or admission`
unfoldable pub is_not_empty_admission : Option AdmissionRow → Bool
is_not_empty_admission none = true
is_not_empty_admission (some a) = elim a.admitted_candidate_ids [ [] ↦ false | _ ∷ _ ↦ true ]

unfoldable pub is_no_candidates : Option RunCompletionReason → Bool
is_no_candidates (some no_candidates) = true
is_no_candidates _ = false

unfoldable pub is_no_admitted_candidate : Option RunCompletionReason → Bool
is_no_admitted_candidate (some no_admitted_candidate) = true
is_no_admitted_candidate _ = false

-- The guards of `transition` in their order, each with the exception that it raises.
unfoldable pub refusals :
    OptimizationState
    → RunStore
    → OptimizationState
    → Option RunCompletionReason
    → List (Bool × TransitionError)
unfolding moves same_state
refusals current store desired reason =
    let run = store.row in
    let completes = same_state desired completed in
    (not (validate_transition current desired), invalid_transition)
    ∷ (
      moves current desired snapshotting diagnosing && is_absent run.workload_snapshot_id,
      snapshot_required,
    )
    ∷ (
      moves current desired diagnosing generating_candidates && is_absent store.diagnosis_id,
      diagnosis_required,
    )
    ∷ (
      moves current desired ranking calibrating && is_absent run.primary_metric_key,
      primary_metric_required,
    )
    ∷ (
      moves current desired generating_candidates ranking
          && has_no_candidates store.candidate_count,
      generation_required,
    )
    ∷ (
      moves current desired ranking calibrating && is_absent store.ranking_artifact,
      ranking_required,
    )
    ∷ (
      moves current desired calibrating evaluating && is_absent store.evaluation_plan,
      plan_required,
    )
    ∷ (
      moves current desired evaluating admission && is_absent store.evaluation_plan,
      plan_required_before_admission,
    )
    ∷ (
      moves current desired evaluating admission
          && lacks_evaluations store.evaluation_plan store.evaluation_runs,
      evaluations_required,
    )
    ∷ (
      moves current desired admission admitted && has_no_selection store.admission_artifact,
      selection_required,
    )
    ∷ (completes && is_absent reason, completion_reason_required)
    ∷ (
      completes
          && same_state current generating_candidates
          && (is_not_zero store.candidate_count || not (is_no_candidates reason)),
      empty_generation_required,
    )
    ∷ (
      completes
          && same_state current admission
          && (is_not_empty_admission store.admission_artifact
              || not (is_no_admitted_candidate reason)),
      empty_admission_required,
    )
    ∷ (not completes && not (is_absent reason), reason_only_for_completed)
    ∷ []

-- The exception of the first guard that fires.
unfoldable pub first_error {ℓ} : {E : Type ℓ} → List (Bool × E) → Option E
first_error [] = none
first_error ((fires, error) ∷ rest) =
    let later = first_error rest in if fires then some error else later

-- The row that `transition` returns, or the exception that it raises.
pub data TransitionResult : Type 0 where
  transitioned : RunRow → TransitionResult
  refused : TransitionError → TransitionResult

unfoldable pub moved_row : RunRow → OptimizationState → Option RunCompletionReason → RunRow
moved_row row next_state reason = record row { status = next_state; completion_reason = reason }

unfoldable pub when_checked :
    RunStore
    → OptimizationState
    → Option RunCompletionReason
    → Option TransitionError
    → RunStore × TransitionResult
unfolding moved_row
when_checked store next_state reason none =
    let row = moved_row store.row next_state reason in
    (record store { row = row }, transitioned row)
when_checked store next_state reason (some error) = (store, refused error)

-- `RunRepository.transition` of a run that exists.
unfoldable pub transition_run :
    RunStore → OptimizationState → Option RunCompletionReason → RunStore × TransitionResult
transition_run store next_state reason =
    when_checked store next_state reason
      (first_error (refusals store.row.status store next_state reason))

-- A workload snapshot, of which the id and the target are read.
pub record SnapshotRow : Type 0 where
  pub snapshot_id : String
  pub snapshot_target_id : String

-- `RunRepository.attach_workload_snapshot`; nothing is returned where it raises.
unfoldable pub attach_workload_snapshot : RunStore → Option SnapshotRow → Option RunStore
unfolding same_state is_absent
attach_workload_snapshot store none = none
attach_workload_snapshot store (some snapshot) =
    let run = store.row in
    if not (same_state run.status snapshotting) || not (is_absent run.workload_snapshot_id)
    then none
    else if str_eq snapshot.snapshot_target_id run.target_id
    then some
        (record store { row = record run { workload_snapshot_id = some snapshot.snapshot_id } })
    else none
