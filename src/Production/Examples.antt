-- ===== src/Production/Examples.antt =====
-- The production methods on the in-memory adapter, at concrete requests.
use ai_driven_autonomous_no.Prelude.{
  ◌+◌, ◌≡◌, refl, ◌⊎◌, String, true, false, none, some, List, [], ◌∷◌, text_le, arith,
}
use ai_driven_autonomous_no.Prelude.Dicts.{get, put, has, overwrite}
use ai_driven_autonomous_no.Prelude.Sorting.{sorted, insert_sorted}
use ai_driven_autonomous_no.Actions.{
  CreateIndexAction, SetQuerySettingsIndexHintAction, ascending, inverse_create, inverse_set_hint,
}
use ai_driven_autonomous_no.Admission.{admitted, is_admitted}
use ai_driven_autonomous_no.Autonomy.{
  full_autonomous, approval_controlled, approval_required, full_autonomous_action_types,
  is_full_autonomous,
}
use ai_driven_autonomous_no.Approvals.{
  is_approved, is_current, review, review_all, require_current_approval,
}
use ai_driven_autonomous_no.Approvals.Currency.{IsKeyed}
use ai_driven_autonomous_no.Approvals.Lifetime.{signed_flow}
use ai_driven_autonomous_no.Ledger.{append, hash, new_entry, payload, tip, verify_from, verify}
use ai_driven_autonomous_no.Adapter.{lists_namespace}
use ai_driven_autonomous_no.Adapter.Fake.{
  FakeTarget, fake_adapter, fake_adapter-IsCoherent, new_target, list_namespaces, list_indexes,
  create_index, in_key_order, overwrite_index, put_index, pop_setting, find_setting, is_setting,
  get_hint, set_hint,
}
use ai_driven_autonomous_no.Production.{
  Plant, Canonical, Entry, prepared, applied, LedgerState, index_state, hint_state, state_hash,
  current_state, only_has_keys, named, index_fingerprint, index_spec, same_keys, to_integer,
}
use ai_driven_autonomous_no.Production.Executor.{
  DeploymentRequest, Draws, index_present, verify_applied, intended_state, finish_deployment,
  apply_change, deploy_approved, after_approval, deploy,
}
use ai_driven_autonomous_no.Production.Executor.Gates.{IsUntouched, IsCleared, deploy_fails_closed}
use ai_driven_autonomous_no.Production.Executor.Success.{Leaves, deploy-Leaves}
use ai_driven_autonomous_no.Production.Rollback.{RollbackRequest, entry_with_id, rollback}
use ai_driven_autonomous_no.Production.Rollback.Safety.{IsSafe, rollback-IsSafe}
use ai_driven_autonomous_no.Production.QuerySettings.{
  QuerySettingsDeploymentRequest, QuerySettingsDeploymentResult, HintDeployment, deployed, hint_of,
  allowed_of, same_hint, same_optional, same_names, settings_state, indexes_exist, apply_hint,
  finish_hint, deploy_hint, rollback_hint, current_hint,
}
use ai_driven_autonomous_no.Production.QuerySettings
use ai_driven_autonomous_no.Production.QuerySettings.Gates
use ai_driven_autonomous_no.Production.QuerySettings.Success
use ai_driven_autonomous_no.Production.QuerySettings.RoundTrip.{Restores, rollback_hint-deploy_hint}

-- A digest that keeps the text, of dumps that keep a part of the value.
abbrev dump_state : LedgerState → String
dump_state (index_state s) = s.collection
dump_state (hint_state s) = s.query_shape_hash

abbrev c : Canonical
c = record {
  sha256 = λ s. s;
  dump_entry = λ p. p.actor;
  dump_state = dump_state;
  dump_index = λ i. i.name;
}

abbrev create_orders : CreateIndexAction
create_orders = record {
  database = "shop";
  collection = "orders";
  index_name = "optimizer_1";
  fields = record { field_name = "status"; direction = ascending } ∷ [];
  unique = false;
  expire_after_seconds = none;
  sparse = false;
  partial_filter_expression = none;
  text = false;
  wildcard = false;
  geo = false;
  hashed = false;
}

abbrev plant : Plant FakeTarget
plant = record {
  world = new_target (record { collection = "orders" } ∷ []);
  approvals = signed_flow 900 100 "a1" "ann" "create" "e1" "t1" 130;
  ledger = [];
}

abbrev draws : Draws
draws = record { first_id = "l1"; first_at = 210; second_id = "l2"; second_at = 211 }

abbrev request : DeploymentRequest
request = record {
  target_id = "t1";
  action_id = "create";
  action = create_orders;
  admission_status = admitted;
  production_eligible = true;
  evidence_hash = "e1";
  expected_state_hash = "orders";
  actor = "optimizer";
  deployment_mode = approval_controlled;
}

deploy_fails_closed_example :
    IsUntouched fake_adapter c plant (deploy fake_adapter c plant (λ i. 200 + i) draws request)
    ⊎ IsCleared fake_adapter c plant 200 request
deploy_fails_closed_example =
    deploy_fails_closed fake_adapter c plant (λ i. 200 + i) draws request 200 (refl, tt)
      (λ i. omega arith)

no_entries_verify : verify c.sha256 c.dump_entry [] ≡ true
unfolding verify
no_entries_verify = refl

deploy-Leaves_example :
    Leaves fake_adapter c [] request (deploy fake_adapter c plant (λ i. 200 + i) draws request)
deploy-Leaves_example =
    deploy-Leaves fake_adapter c plant (λ i. 200 + i) draws request no_entries_verify

abbrev deployed_plant : Plant FakeTarget
deployed_plant = (deploy fake_adapter c plant (λ i. 200 + i) draws request).0

deployed_plant_verifies : verify c.sha256 c.dump_entry deployed_plant.ledger ≡ true
unfolding deploy deploy_approved apply_change finish_deployment after_approval
    require_current_approval is_admitted approval_required state_hash current_state lists_namespace
    list_namespaces sorted new_target index_present list_indexes get create_index verify_applied
    only_has_keys named put has inverse_create in_key_order overwrite_index put_index is_approved
    is_current review review_all full_autonomous_action_types is_full_autonomous append hash
    new_entry payload tip overwrite insert_sorted text_le intended_state index_fingerprint
    index_spec same_keys to_integer verify verify_from
deployed_plant_verifies = refl

abbrev rollback_request : RollbackRequest
rollback_request = record { target_id = "t1"; applied_ledger_entry_id = "l2"; actor = "operator" }

-- Another client drops the index after the checks of the rollback.
abbrev dropped_between : FakeTarget → FakeTarget
dropped_between w = (fake_adapter.drop_index w (record { collection = "orders" }) "optimizer_1").0

rollback-IsSafe_example :
    IsSafe fake_adapter c dropped_between deployed_plant rollback_request
      (rollback fake_adapter c dropped_between deployed_plant "l3" 300 rollback_request)
rollback-IsSafe_example =
    rollback-IsSafe fake_adapter c dropped_between deployed_plant "l3" 300 rollback_request
      deployed_plant_verifies

abbrev hint_orders : SetQuerySettingsIndexHintAction
hint_orders = record {
  database = "shop";
  collection = "orders";
  query_shape_hash = "q1";
  allowed_indexes = "optimizer_1" ∷ [];
  previous_allowed_indexes = none;
}

abbrev hint_request : QuerySettingsDeploymentRequest
hint_request = record {
  target_id = "t1";
  action_id = "hint";
  action = hint_orders;
  evidence_hash = "e2";
  expected_state_hash = "q1";
  actor = "optimizer";
  deployment_mode = full_autonomous;
}

deployed-IsKeyed : IsKeyed deployed_plant.approvals
unfolding deploy deploy_approved apply_change finish_deployment after_approval
    require_current_approval is_admitted approval_required state_hash current_state lists_namespace
    list_namespaces sorted new_target index_present list_indexes get create_index verify_applied
    only_has_keys named put has inverse_create in_key_order overwrite_index put_index is_approved
    is_current review review_all full_autonomous_action_types is_full_autonomous append hash
    new_entry payload tip overwrite insert_sorted text_le intended_state index_fingerprint
    index_spec same_keys to_integer
deployed-IsKeyed = (refl, tt)

deploy_hint_fails_closed_example :
    QuerySettings.Gates.IsUntouched fake_adapter c deployed_plant
      (deploy_hint fake_adapter c deployed_plant (λ i. 400 + i) draws hint_request)
    ⊎ QuerySettings.Gates.IsCleared fake_adapter c deployed_plant 400 hint_request
deploy_hint_fails_closed_example =
    QuerySettings.Gates.deploy_hint_fails_closed fake_adapter c deployed_plant (λ i. 400 + i) draws
      hint_request 400 deployed-IsKeyed (λ i. omega arith)

deploy_hint-Leaves_example :
    QuerySettings.Success.Leaves fake_adapter c deployed_plant hint_request
      (deploy_hint fake_adapter c deployed_plant (λ i. 400 + i) draws hint_request)
deploy_hint-Leaves_example =
    QuerySettings.Success.deploy_hint-Leaves fake_adapter c deployed_plant (λ i. 400 + i) draws
      hint_request deployed_plant_verifies

abbrev hint_draws : Draws
hint_draws = record { first_id = "h1"; first_at = 410; second_id = "h2"; second_at = 411 }

abbrev hinted : Plant FakeTarget × HintDeployment
hinted = deploy_hint fake_adapter c deployed_plant (λ i. 400 + i) hint_draws hint_request

abbrev intent : List Entry × Entry
intent =
    QuerySettings.add_entry fake_adapter c deployed_plant.ledger "h1" 410
      (QuerySettings.evidence_of fake_adapter c hint_request prepared none none)

abbrev outcome : QuerySettingsDeploymentResult
outcome = record {
  prepared_entry = intent.1;
  applied_entry =
      (QuerySettings.add_entry fake_adapter c intent.0 "h2" 411 (
        QuerySettings.evidence_of fake_adapter c hint_request applied none
          (some (record { allowed_indexes = "optimizer_1" ∷ [] })))).1;
  resulting_state_hash = "q1";
}

hinted_returns : hinted ≡ (hinted.0, deployed outcome)
unfolding deploy deploy_approved apply_change finish_deployment after_approval
    require_current_approval is_admitted approval_required state_hash current_state lists_namespace
    list_namespaces sorted new_target index_present list_indexes get create_index verify_applied
    only_has_keys named put has inverse_create in_key_order overwrite_index put_index is_approved
    is_current review review_all full_autonomous_action_types is_full_autonomous append hash
    new_entry payload tip overwrite insert_sorted text_le intended_state index_fingerprint
    index_spec same_keys to_integer deploy_hint apply_hint finish_hint hint_of allowed_of same_hint
    same_optional same_names settings_state indexes_exist current_hint set_hint get_hint
    find_setting pop_setting is_setting inverse_set_hint
hinted_returns = refl

hinted_found :
    entry_with_id outcome.applied_entry.entry_id hinted.0.ledger ≡ some outcome.applied_entry
unfolding deploy deploy_approved apply_change finish_deployment after_approval
    require_current_approval is_admitted approval_required state_hash current_state lists_namespace
    list_namespaces sorted new_target index_present list_indexes get create_index verify_applied
    only_has_keys named put has inverse_create in_key_order overwrite_index put_index is_approved
    is_current review review_all full_autonomous_action_types is_full_autonomous append hash
    new_entry payload tip overwrite insert_sorted text_le intended_state index_fingerprint
    index_spec same_keys to_integer deploy_hint apply_hint finish_hint hint_of allowed_of same_hint
    same_optional same_names settings_state indexes_exist current_hint set_hint get_hint
    find_setting pop_setting is_setting inverse_set_hint
hinted_found = refl

hinted_restores :
    (QuerySettings.set_hint fake_adapter c hinted.0.world hint_orders
      (hint_of hint_orders.previous_allowed_indexes)).1
    ≡ true
unfolding set_hint hint_of
hinted_restores = refl

rollback_hint-deploy_hint_example :
    Restores fake_adapter c fake_adapter-IsCoherent hint_orders
      (current_hint fake_adapter c deployed_plant.world hint_orders)
      (rollback_hint fake_adapter c hinted.0 "h3" 500
        (record { target_id = "t1"; applied_ledger_entry_id = "h2"; actor = "operator" }))
unfolding append
rollback_hint-deploy_hint_example =
    rollback_hint-deploy_hint fake_adapter c fake_adapter-IsCoherent deployed_plant hinted.0
      (λ i. 400 + i) hint_draws hint_request outcome "h3" 500 "operator" deployed_plant_verifies
      hinted_returns hinted_found hinted_restores
