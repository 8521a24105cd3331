-- ===== src/Runs/Services.antt =====
-- What the services of a run and its orchestrator may do to the stored rows, in any order:
-- backend/app/diagnosis/durable.py and candidates/durable.py store their artifacts once, and the other
-- operations are those of Transition and Selection.
use ai_driven_autonomous_no.Prelude.{
  if◌then◌else◌, String, Option, none, some, List, [], ◌∷◌, length,
}
use ai_driven_autonomous_no.Prelude.Dicts.{Dict}
use ai_driven_autonomous_no.Prelude.Options.{when_absent}
use ai_driven_autonomous_no.Admission.{AdmissionRequest}
use ai_driven_autonomous_no.Admission.Numbers.{Numbers}
use ai_driven_autonomous_no.Lifecycle.{OptimizationState, created, diagnosing, same_state}
use ai_driven_autonomous_no.Runs.{RunCompletionReason, RunStore, CandidateRow}
use ai_driven_autonomous_no.Runs.Transition.{SnapshotRow, transition_run, attach_workload_snapshot}
use ai_driven_autonomous_no.Runs.Selection.{
  create_ranking, create_plan, begin_evaluation, mark_complete, decide_admission,
}

-- The insert of a diagnosis, of which a run has one, while it is diagnosed; otherwise it raises.
unfoldable pub record_diagnosis : RunStore → String → RunStore
record_diagnosis store id =
    when_absent store.diagnosis_id
      (if same_state store.row.status diagnosing
        then record store { diagnosis_id = some id }
        else store)
      store

-- The insert of a generation and of its candidates, which a run has once.
unfoldable pub record_generation : RunStore → List CandidateRow → RunStore
record_generation store rows =
    when_absent store.candidate_count
      (record store { candidate_count = some (length rows); candidates = rows }) store

-- The stored rows of a run that has just been created.
unfoldable pub new_run : String → String → Option String → RunStore
new_run target_id deployment_mode primary_metric_key = record {
  row = record {
    target_id = target_id;
    status = created;
    deployment_mode = deployment_mode;
    workload_snapshot_id = none;
    primary_metric_key = primary_metric_key;
    completion_reason = none;
  };
  diagnosis_id = none;
  candidate_count = none;
  candidates = [];
  ranking_artifact = none;
  evaluation_plan = none;
  evaluation_runs = [];
  admission_artifact = none;
}

-- What is left after a service that may raise.
unfoldable pub or_kept : RunStore → Option RunStore → RunStore
or_kept store none = store
or_kept store (some left) = left

module _ {F : Type 0} (n : Numbers F) (confidence : F) (summary : String → String → String) where
  pub data Operation : Type 0 where
    moves_to : OptimizationState → Option RunCompletionReason → Operation
    attaches : Option SnapshotRow → Operation
    diagnoses : String → Operation
    generates : List CandidateRow → Operation
    ranks : String → (List (String × String) → List String) → Operation
    plans : (plan_id profile : String) → Operation
    measures : (candidate_id fingerprint : String) → Operation
    completes : String → Operation
    admits_by : Dict (AdmissionRequest F) → Operation

  unfoldable pub perform : RunStore → Operation → RunStore
  unfolding or_kept
  perform store (moves_to t reason) = (transition_run store t reason).0
  perform store (attaches snapshot) = or_kept store (attach_workload_snapshot store snapshot)
  perform store (diagnoses id) = record_diagnosis store id
  perform store (generates rows) = record_generation store rows
  perform store (ranks id rank_handles) =
      or_kept store (create_ranking summary rank_handles store id)
  perform store (plans id profile) = or_kept store (create_plan store id profile)
  perform store (measures id fingerprint) = begin_evaluation store id fingerprint
  perform store (completes id) = mark_complete store id
  perform store (admits_by requests) = or_kept store (decide_admission n confidence requests store)

  unfoldable pub perform_all : RunStore → List Operation → RunStore
  unfolding perform
  perform_all store [] = store
  perform_all store (operation ∷ rest) = perform_all (perform store operation) rest
