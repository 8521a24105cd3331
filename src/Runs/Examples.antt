-- ===== src/Runs/Examples.antt =====
-- The theorems about a run at a run with two candidates, and a handler with services that always answer.
use ai_driven_autonomous_no.Prelude.{
  ℕ, ◌≡◌, refl, ◌⊎◌, String, Bool, true, none, some, List, [], ◌∷◌, map, ltb, if◌then◌else◌,
  if_cases, arith,
}
use ai_driven_autonomous_no.Lifecycle.{position, diagnosing, snapshotting, ranking, deployed}
use ai_driven_autonomous_no.Lifecycle.Histories.{progress}
use ai_driven_autonomous_no.Lifecycle.Graph.{◌⟶◌}
use ai_driven_autonomous_no.Runs.{
  RunRow, RunStore, PlanRow, AdmissionRow, CandidateRow, is_absent, same_set, proposed_candidate,
}
use ai_driven_autonomous_no.Runs.Transition.{
  has_no_candidates, transition_run, transitioned, refused, moved_row, TransitionError,
}
use ai_driven_autonomous_no.Runs.Evidence.{Warrant, transition_run_outcomes}
use ai_driven_autonomous_no.Prelude.Dicts.{Dict, get, put, has, overwrite}
use ai_driven_autonomous_no.Runs.Selection.{
  create_ranking, new_ranking, load_summaries, summaries_of, received_order, is_exact_cover,
  handles_from, candidate_ids, digit, distinct, look_up_all, dict_of_zip, checked_order, decimal,
  decimal_within, pair_up, decide_admission,
}
use ai_driven_autonomous_no.Admission.{AdmissionRequest}
use ai_driven_autonomous_no.Admission.Examples.{naturals, request}
use ai_driven_autonomous_no.Runs.Admitted.{IsDecided, decide_admission-IsDecided}
use ai_driven_autonomous_no.Runs.Services.{
  new_run, perform_all, Operation, moves_to, attaches, diagnoses, generates, ranks, plans, measures,
  completes, admits_by,
}
use ai_driven_autonomous_no.Runs.Kept.{IsAttested}
use ai_driven_autonomous_no.Runs.Chain.{perform_all-IsAttested}
use ai_driven_autonomous_no.Runs.Orchestrator.{
  OrchestratorState, Services, Service, answers, declines,
}
use ai_driven_autonomous_no.Runs.Resume.{resume_run}
use ai_driven_autonomous_no.Runs.Progress.{IsResumed, IsFurther, IsDeployable, status_of}
use ai_driven_autonomous_no.Runs.Forward.{resume_run-IsResumed}
use ai_driven_autonomous_no.Runs.Orderly.{IsOrderly}

abbrev row : RunRow
row = record {
  target_id = "t1";
  status = ranking;
  deployment_mode = "FULL_AUTONOMOUS";
  workload_snapshot_id = some "w1";
  primary_metric_key = some "p95";
  completion_reason = none;
}

abbrev candidate : String → CandidateRow
candidate id = record {
  id = id;
  candidate_status = proposed_candidate;
  policy_classification = "AUTO_ELIGIBLE_AFTER_ADMISSION";
  action_payload = some "{}";
}

abbrev store : RunStore
store = record {
  row = row;
  diagnosis_id = some "d1";
  candidate_count = some 2;
  candidates = candidate "a" ∷ candidate "b" ∷ [];
  ranking_artifact = none;
  evaluation_plan = none;
  evaluation_runs = [];
  admission_artifact = none;
}

abbrev summary : String → String → String
summary payload policy = payload

-- A model that puts the second candidate first.
abbrev rank_handles : List (String × String) → List String
rank_handles handles = "C2" ∷ "C1" ∷ []

abbrev order : List String
order = "b" ∷ "a" ∷ []

abbrev ranked : RunStore
ranked = record store {
  ranking_artifact = some (record { ranking_id = "r1"; ordered_candidate_ids = order });
}

ranking_is_stored : create_ranking summary rank_handles store "r1" ≡ some ranked
unfolding create_ranking new_ranking load_summaries is_absent has_no_candidates summaries_of
    received_order is_exact_cover handles_from candidate_ids same_set digit distinct look_up_all get
    dict_of_zip put has overwrite checked_order decimal decimal_within pair_up
ranking_is_stored = refl

transition_run_outcomes_example :
    (((edge : ranking ⟶ ranking) × Warrant edge ranked none)
      × (transition_run ranked ranking none ≡ (
        record ranked { row = moved_row row ranking none },
        transitioned (moved_row row ranking none),
      )))
    ⊎ ((¬ ((edge : ranking ⟶ ranking) × Warrant edge ranked none))
        × ((error : TransitionError) × (transition_run ranked ranking none
              ≡ (ranked, refused error))))
transition_run_outcomes_example = transition_run_outcomes ranked ranking none

abbrev plan : PlanRow
plan = record { plan_id = "p1"; profile = "AUTONOMOUS"; planned_candidate_ids = order }

abbrev planned : RunStore
planned = record ranked { evaluation_plan = some plan }

abbrev requests : Dict (AdmissionRequest ℕ)
requests = ("a", request) ∷ ("b", request) ∷ []

requests_match : same_set (map (λ e. e.0) requests) order ≡ true
unfolding same_set
requests_match = refl

decide_admission-IsDecided_example :
    (left : RunStore) × (decide_admission naturals 95 requests planned ≡ some left)
    × ((a : AdmissionRow) × IsDecided naturals 95 requests planned left order a)
decide_admission-IsDecided_example =
    decide_admission-IsDecided naturals 95 requests planned plan refl refl requests_match

abbrev operations : List (Operation naturals 95 summary)
operations =
    moves_to snapshotting none
    ∷ attaches (some (record { snapshot_id = "w1"; snapshot_target_id = "t1" }))
    ∷ moves_to diagnosing none
    ∷ diagnoses "d1"
    ∷ generates (candidate "a" ∷ candidate "b" ∷ [])
    ∷ ranks "r1" rank_handles
    ∷ plans "p1" "AUTONOMOUS"
    ∷ measures "b" "env"
    ∷ completes "b"
    ∷ admits_by requests
    ∷ []

perform_all-IsAttested_example :
    IsAttested
      (perform_all naturals 95 summary (new_run "t1" "FULL_AUTONOMOUS" (some "p95")) operations)
perform_all-IsAttested_example =
    perform_all-IsAttested naturals 95 summary "t1" "FULL_AUTONOMOUS" (some "p95") operations

-- A deployment that only moves on a run that is not deployed yet.
abbrev deploy : (ℕ → Bool) → Service ℕ Unit
deploy owned state =
    if ltb (progress (status_of state)) 12
    then (
      record state {
        store = record state.store { row = record state.store.row { status = deployed } };
      },
      answers tt,
    )
    else (state, declines "RUN_NOT_APPROVED_FOR_DEPLOYMENT")

deploy-moves_on :
    (owned : ℕ → Bool) (state : OrchestratorState ℕ)
    → IsDeployable (status_of state)
    → IsFurther (status_of state) (deploy owned state)
unfolding position
deploy-moves_on owned state ready =
    if_cases (IsFurther (status_of state)) (ltb (progress (status_of state)) 12)
      (λ before. ground arith) (λ after. tt)

-- Every service but the benchmark executor is there.
abbrev services : Services ℕ ℕ
services = record {
  create_snapshot = λ state. (
    record state {
      store = record state.store {
        row = record state.store.row { workload_snapshot_id = some "w1" };
      };
    },
    answers tt,
  );
  verify_snapshot = λ state. true;
  diagnosis = some (record {
    create_diagnosis = λ state. (state, answers tt);
    verify_diagnosis = λ state. true;
  });
  candidate_generation = some (λ state. (state, answers 2));
  candidate_ranking = some (λ state. (state, answers tt));
  evaluation = some (λ profile state. (state, answers tt));
  evaluation_executor = none;
  admission_decision = some (λ requests state. (state, answers none));
  admission_requests = some (λ state. (state, answers 0));
  authority = none;
  approvals = none;
  deployment = some deploy;
  monitoring_executor = none;
  target_of = λ world id. some (record { is_active = true; target_state = "ACTIVE" });
  active_mapping = λ world id. some "t2";
  initial_jobs = λ world. 1;
}

services-IsOrderly : IsOrderly services
services-IsOrderly = record {
  snapshots = λ state. refl;
  diagnoses = λ state. refl;
  generations = λ state. refl;
  rankings = λ state. refl;
  evaluations = λ profile state. refl;
  executions = tt;
  decisions = λ requests state. refl;
  requests = λ state. refl;
  authorities = tt;
  asks = tt;
  deployments = deploy-moves_on;
  observations = tt;
}

abbrev start : OrchestratorState ℕ
start = record { store = store; world = 0 }

resume_run-IsResumed_example : IsResumed ranking (resume_run services (λ check. true) start)
resume_run-IsResumed_example =
    resume_run-IsResumed services services-IsOrderly (λ check. true) start
