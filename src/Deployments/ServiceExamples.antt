-- ===== src/Deployments/ServiceExamples.antt =====
-- A deployment of an approved run under an automatic authority, by a worker that survives eleven steps,
-- as the only service of an orchestrator but for snapshots.
use ai_driven_autonomous_no.Prelude.{
  inl, refl, ℕ, String, Bool, true, false, none, some, List, [], ◌∷◌,
}
use ai_driven_autonomous_no.Lifecycle.{approved, admitted}
use ai_driven_autonomous_no.Actions.{CreateIndexAction, ascending}
use ai_driven_autonomous_no.Adapter.{DatabaseAdapter, IndexSpec}
use ai_driven_autonomous_no.Authority.{
  Digests, AuthorityInputs, SelectedCandidate, BoundRow, signed_row, unsigned_row,
}
use ai_driven_autonomous_no.Authority.Fresh.{joined}
use ai_driven_autonomous_no.Runs.{RunStore}
use ai_driven_autonomous_no.Runs.Orchestrator.{OrchestratorState, Services, answers}
use ai_driven_autonomous_no.Runs.Orderly.{IsOrderly}
use ai_driven_autonomous_no.Runs.Handler.{HandledJob, dispatch}
use ai_driven_autonomous_no.Runs.Limit.{IsSettled}
use ai_driven_autonomous_no.Deployments.Service.{DeploymentWorld, BindingEvidence, deploy_service}
use ai_driven_autonomous_no.Deployments.Composed.{
  IsDeployment, with_deployment, deploy_service-IsDeployment, dispatch_deployments-IsSettled,
}

-- A target that is its list of indexes.
abbrev adapter : DatabaseAdapter (List IndexSpec)
adapter = record {
  list_namespaces = λ w. record { collection = "orders" } ∷ [];
  list_indexes = λ w n. w;
  create_index = λ w n i. (i ∷ w, true);
  drop_index = λ w n name. (w, false);
  get_query_settings_index_hint = λ w n shape. none;
  set_query_settings_index_hint = λ w n shape hint. (w, false);
}

abbrev action_of : BoundRow → CreateIndexAction
action_of b = record {
  database = "shop";
  collection = "orders";
  index_name = "optimizer_1";
  fields = record { field_name = "status"; direction = ascending } ∷ [];
  unique = false;
  expire_after_seconds = none;
  sparse = false;
  partial_filter_expression = none;
  text = false;
  wildcard = false;
  geo = false;
  hashed = false;
}

-- The index names of the examples are their digests.
abbrev action_digest : CreateIndexAction → String
action_digest a = a.index_name

abbrev digests : Digests
digests = record {
  sha256 = λ s. s;
  dump_identity = λ t. t.id;
  dump_security = λ c. "credential";
  dump_authority = λ f. f.candidate_fingerprint;
}

abbrev candidate : SelectedCandidate
candidate = record {
  selected_id = "c1";
  deterministic_fingerprint = some "f1";
  policy_classification = "AUTO_ELIGIBLE_AFTER_ADMISSION";
  action_type = "CREATE_INDEX";
}

abbrev inputs : AuthorityInputs
inputs = record {
  input_run_id = "run";
  run_status = admitted;
  run_mode = "FULL_AUTONOMOUS";
  selected = some candidate;
  eligible_admission = true;
  telemetry = some true;
  environment = record {
    target = record {
      id = "t1";
      connection_label = "primary";
      target_mode = "FULL_AUTONOMOUS";
      state = "ACTIVE";
      is_active = true;
    };
    capability = none;
    credential = none;
  };
}

abbrev evidence : BindingEvidence
evidence = record {
  joined = some (
      joined inputs candidate
        (signed_row digests inputs (unsigned_row inputs candidate "f1" true)));
  approvals = [];
  now = 5;
}

abbrev load : OrchestratorState (DeploymentWorld (List IndexSpec)) → BindingEvidence
load state = evidence

abbrev survived : (ℕ → Bool) → ℕ
survived owned = 11

abbrev store : RunStore
store = record {
  row = record {
    target_id = "t1";
    status = approved;
    deployment_mode = "FULL_AUTONOMOUS";
    workload_snapshot_id = none;
    primary_metric_key = none;
    completion_reason = none;
  };
  diagnosis_id = none;
  candidate_count = none;
  candidates = [];
  ranking_artifact = none;
  evaluation_plan = none;
  evaluation_runs = [];
  admission_artifact = none;
}

abbrev start : OrchestratorState (DeploymentWorld (List IndexSpec))
start = record {
  store = store;
  world = record { target = []; artifact = none; recovery = none; events = [] };
}

deploy_service-IsDeployment_example :
    IsDeployment digests evidence start
      (deploy_service adapter digests action_of action_digest load survived (λ check. true) start)
deploy_service-IsDeployment_example =
    deploy_service-IsDeployment adapter digests action_of action_digest load survived
      (λ check. true) start (inl refl)

abbrev services : Services (DeploymentWorld (List IndexSpec)) ℕ
services = record {
  create_snapshot = λ state. (state, answers tt);
  verify_snapshot = λ state. true;
  diagnosis = none;
  candidate_generation = none;
  candidate_ranking = none;
  evaluation = none;
  evaluation_executor = none;
  admission_decision = none;
  admission_requests = none;
  authority = none;
  approvals = none;
  deployment = none;
  monitoring_executor = none;
  target_of = λ world id. none;
  active_mapping = λ world id. none;
  initial_jobs = λ world. 1;
}

services-IsOrderly : IsOrderly services
services-IsOrderly = record {
  snapshots = λ state. refl;
  diagnoses = tt;
  generations = tt;
  rankings = tt;
  evaluations = tt;
  executions = tt;
  decisions = tt;
  requests = tt;
  authorities = tt;
  asks = tt;
  deployments = tt;
  observations = tt;
}

abbrev job : HandledJob
job = record { run_id = some "run"; payload_run_id = none }

dispatch_deployments-IsSettled_example : IsSettled (
    dispatch
      (some (with_deployment adapter digests action_of action_digest load survived services))
      (λ step check. true)
      (λ step. true)
      start
      (λ id. true)
      "OPTIMIZATION"
      job)
dispatch_deployments-IsSettled_example =
    dispatch_deployments-IsSettled adapter digests action_of action_digest load survived services
      services-IsOrderly (λ step check. true) (λ step. true) start (λ id. true) "OPTIMIZATION" job
