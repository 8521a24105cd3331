-- ===== src/Deployments/Examples.antt =====
-- A deployment on a target that lists one collection, interrupted in its mutation and before its end.
use ai_driven_autonomous_no.Prelude.{◌≡◌, refl, inl, true, false, none, List, [], ◌∷◌}
use ai_driven_autonomous_no.Lifecycle.{approved}
use ai_driven_autonomous_no.Actions.{CreateIndexAction, ascending}
use ai_driven_autonomous_no.Adapter.{DatabaseAdapter, IndexSpec, lists_namespace}
use ai_driven_autonomous_no.Production.{index_spec, same_keys, to_integer, current_state}
use ai_driven_autonomous_no.Runs.{RunStore}
use ai_driven_autonomous_no.Deployments.Records.{
  Site, BoundAction, DeploymentArtifact, completed_with, has_exact_index, is_exact,
}
use ai_driven_autonomous_no.Deployments.Durable.{deploy_for_run, deploy_again}
use ai_driven_autonomous_no.Deployments.Invariant.{CreatesOrNot, IsSafe, IsComplete}
use ai_driven_autonomous_no.Deployments.Complete.{deploy_again-IsSafe, deploy_for_run-IsComplete}

abbrev create_orders : CreateIndexAction
create_orders = record {
  database = "shop";
  collection = "orders";
  index_name = "optimizer_1";
  fields = record { field_name = "status"; direction = ascending } ∷ [];
  unique = false;
  expire_after_seconds = none;
  sparse = false;
  partial_filter_expression = none;
  text = false;
  wildcard = false;
  geo = false;
  hashed = false;
}

-- A target that is its list of indexes.
abbrev adapter : DatabaseAdapter (List IndexSpec)
adapter = record {
  list_namespaces = λ w. record { collection = "orders" } ∷ [];
  list_indexes = λ w n. w;
  create_index = λ w n i. (i ∷ w, true);
  drop_index = λ w n name. (w, false);
  get_query_settings_index_hint = λ w n shape. none;
  set_query_settings_index_hint = λ w n shape hint. (w, false);
}

abbrev bound : BoundAction
bound = record {
  selected_candidate_id = "c1";
  bound_fingerprint = "f1";
  action = create_orders;
  fingerprint = "a1";
}

abbrev store : RunStore
store = record {
  row = record {
    target_id = "t1";
    status = approved;
    deployment_mode = "FULL_AUTONOMOUS";
    workload_snapshot_id = none;
    primary_metric_key = none;
    completion_reason = none;
  };
  diagnosis_id = none;
  candidate_count = none;
  candidates = [];
  ranking_artifact = none;
  evaluation_plan = none;
  evaluation_runs = [];
  admission_artifact = none;
}

abbrev site : Site (List IndexSpec)
site = record { store = store; world = []; artifact = none; recovery = none; events = [] }

creation_works : CreatesOrNot adapter bound []
unfolding has_exact_index is_exact index_spec same_keys to_integer current_state lists_namespace
creation_works = inl refl

site-IsSafe : IsSafe adapter bound [] site
site-IsSafe = record {
  once = inl refl;
  artifact_fits = tt;
  recovery_fits = tt;
  status_fits = inl refl;
}

deploy_again-IsSafe_example :
    IsSafe adapter bound [] (deploy_again adapter bound (8 ∷ 11 ∷ 3 ∷ []) site)
deploy_again-IsSafe_example =
    deploy_again-IsSafe adapter bound [] creation_works (8 ∷ 11 ∷ 3 ∷ []) site site-IsSafe

deploy_for_run-IsComplete_example :
    (a : DeploymentArtifact) × ((deploy_for_run adapter bound 13
        (deploy_again adapter bound (8 ∷ 11 ∷ []) site)).1
      ≡ completed_with a)
    × IsComplete adapter bound []
        (deploy_for_run adapter bound 13 (deploy_again adapter bound (8 ∷ 11 ∷ []) site)).0
        a
    × IsSafe adapter bound []
        (deploy_for_run adapter bound 13 (deploy_again adapter bound (8 ∷ 11 ∷ []) site)).0
deploy_for_run-IsComplete_example =
    deploy_for_run-IsComplete adapter bound [] creation_works (8 ∷ 11 ∷ []) site site-IsSafe refl
