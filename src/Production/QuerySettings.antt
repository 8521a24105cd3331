-- ===== src/Production/QuerySettings.antt =====
-- `QuerySettingsExecutor` of backend/app/production/query_settings.py.
-- A method leaves a plant beside its result, as a deployment of Executor does, with the draws of its
-- two ledger entries. An action in the ledger passed the constructor's checks before it was written.
pub mod Gates
pub mod Success
pub mod RoundTrip
use ai_driven_autonomous_no.Prelude.{
  ℕ, String, Bool, true, false, not, ◌&&◌, Option, none, some, List, [], ◌∷◌, all, any, map, str_eq,
  if◌then◌else◌,
}
use ai_driven_autonomous_no.Actions.{SetQuerySettingsIndexHintAction, inverse_set_hint}
use ai_driven_autonomous_no.Autonomy.{DeploymentMode, approval_required}
use ai_driven_autonomous_no.Approvals.{ApprovalError, Result, ok, raise, require_current_approval}
use ai_driven_autonomous_no.Approvals
use ai_driven_autonomous_no.Ledger.{Evidence, append}
use ai_driven_autonomous_no.Adapter.{DatabaseAdapter, QuerySettingsIndexHint}
use ai_driven_autonomous_no.Production.{
  Plant, Canonical, Entry, HintState, LedgerState, LedgerAction, hint_state, hint_action,
  index_action, set_action, restore_action, rolled_back_hint, Phase, prepared, applied, state_hash,
}
use ai_driven_autonomous_no.Production.Executor.{Draws}
use ai_driven_autonomous_no.Production.Rollback.{entry_with_id}

pub record QuerySettingsDeploymentRequest : Type 0 where
  pub target_id : String
  pub action_id : String
  pub action : SetQuerySettingsIndexHintAction
  pub evidence_hash : String
  pub expected_state_hash : String
  pub actor : String
  pub deployment_mode : DeploymentMode

pub record QuerySettingsDeploymentResult : Type 0 where
  pub prepared_entry : Entry
  pub applied_entry : Entry
  pub resulting_state_hash : String

pub record QuerySettingsRollbackRequest : Type 0 where
  pub target_id : String
  pub applied_ledger_entry_id : String
  pub actor : String

pub data HintError : Type 0 where
  state_drift prior_mismatch indexes_missing result_mismatch adapter_failed : HintError
  applied_action_required invalid_action target_mismatch drift_blocks not_restored : HintError
  approval_refused : ApprovalError → HintError

pub data HintDeployment : Type 0 where
  deployed : QuerySettingsDeploymentResult → HintDeployment
  refused : HintError → HintDeployment

pub data HintRollback : Type 0 where
  restored : Entry → HintRollback
  raised : HintError → HintRollback

-- Equality of tuples of names, and of tuples that may be absent.
unfoldable pub same_names : List String → List String → Bool
same_names [] [] = true
same_names (x ∷ xs) (y ∷ ys) = let rest = same_names xs ys in str_eq x y && rest
same_names _ _ = false

unfoldable pub same_optional : Option (List String) → Option (List String) → Bool
unfolding same_names
same_optional none none = true
same_optional (some xs) (some ys) = same_names xs ys
same_optional _ _ = false

-- `_allowed_indexes`
unfoldable pub allowed_of : Option QuerySettingsIndexHint → Option (List String)
allowed_of none = none
allowed_of (some hint) = some hint.allowed_indexes

-- A hint has one field, so two hints are equal when their names are.
unfoldable pub same_hint : Option QuerySettingsIndexHint → Option QuerySettingsIndexHint → Bool
unfolding allowed_of same_optional
same_hint x y = same_optional (allowed_of x) (allowed_of y)

unfoldable pub hint_of : Option (List String) → Option QuerySettingsIndexHint
hint_of none = none
hint_of (some names) = some (record { allowed_indexes = names })

abbrev pub is_some : Option QuerySettingsIndexHint → Bool
is_some none = false
is_some (some hint) = true

-- `_state`
unfoldable pub settings_state :
    SetQuerySettingsIndexHintAction → Option QuerySettingsIndexHint → HintState
unfolding allowed_of
settings_state a hint = record {
  database = a.database;
  collection = a.collection;
  query_shape_hash = a.query_shape_hash;
  allowed_indexes = allowed_of hint;
}

abbrev pub settings_hash :
    Canonical → SetQuerySettingsIndexHintAction → Option QuerySettingsIndexHint → String
settings_hash c a hint = state_hash c (hint_state (settings_state a hint))

module _ {W : Type 0} (adapter : DatabaseAdapter W) (c : Canonical) where
  -- `_current_hint`
  unfoldable pub current_hint : W → SetQuerySettingsIndexHintAction → Option QuerySettingsIndexHint
  current_hint w a =
      adapter.get_query_settings_index_hint w (record { collection = a.collection })
        a.query_shape_hash

  -- The test of `_verify_indexes_exist`.
  unfoldable pub indexes_exist : W → SetQuerySettingsIndexHintAction → Bool
  indexes_exist w a =
      let names =
        map (λ i. i.name) (adapter.list_indexes w (record { collection = a.collection })) in
      all (λ wanted. any (str_eq wanted) names) a.allowed_indexes

  -- The arguments of `_append`.
  abbrev pub evidence_of :
      QuerySettingsDeploymentRequest
      → Phase
      → Option QuerySettingsIndexHint
      → Option QuerySettingsIndexHint
      → Evidence LedgerState LedgerAction
  evidence_of request phase before after =
      let a = request.action in
      record {
        before_state = hint_state (settings_state a before);
        intended_state = hint_state (settings_state a (hint_of (some a.allowed_indexes)));
        after_state = hint_state (settings_state a after);
        forward_action = hint_action phase request.target_id a;
        inverse_action = restore_action (inverse_set_hint a);
        evidence_hash = request.evidence_hash;
        actor = request.actor;
      }

  abbrev pub add_entry :
      List Entry → String → ℕ → Evidence LedgerState LedgerAction → List Entry × Entry
  add_entry = append c.sha256 c.dump_entry

  abbrev pub set_hint :
      W → SetQuerySettingsIndexHintAction → Option QuerySettingsIndexHint → W × Bool
  set_hint w a hint =
      adapter.set_query_settings_index_hint w (record { collection = a.collection })
        a.query_shape_hash hint

  -- After the update returned: read back, ledger, return.
  unfoldable pub finish_hint :
      Plant W
      → Draws
      → QuerySettingsDeploymentRequest
      → Option QuerySettingsIndexHint
      → Entry
      → Plant W × HintDeployment
  finish_hint p draws request before first =
      let actual = current_hint p.world request.action in
      if not (same_hint actual (hint_of (some request.action.allowed_indexes)))
      then (p, refused result_mismatch)
      else let (ledger, second) =
          add_entry p.ledger draws.second_id draws.second_at
            (evidence_of request applied before actual) in
        (
          record p { ledger = ledger },
          deployed (record {
            prepared_entry = first;
            applied_entry = second;
            resulting_state_hash = settings_hash c request.action actual;
          }),
        )

  -- After the approval: verify the indexes, ledger the intent, and set the hint.
  unfoldable pub apply_hint :
      Plant W
      → Draws
      → QuerySettingsDeploymentRequest
      → Option QuerySettingsIndexHint
      → Plant W × HintDeployment
  apply_hint p draws request before =
      if not (indexes_exist p.world request.action)
      then (p, refused indexes_missing)
      else let (ledger, first) =
          add_entry p.ledger draws.first_id draws.first_at
            (evidence_of request prepared before before) in
        let (world, returned) =
          set_hint p.world request.action (hint_of (some request.action.allowed_indexes)) in
        let changed : Plant W = record p { ledger = ledger; world = world } in
        if returned
        then finish_hint changed draws request before first
        else (changed, refused adapter_failed)

  abbrev pub hint_approved :
      Plant W
      → Draws
      → QuerySettingsDeploymentRequest
      → Option QuerySettingsIndexHint
      → Result Approvals.Approval
      → Plant W × HintDeployment
  hint_approved p draws request before (raise e) = (p, refused (approval_refused e))
  hint_approved p draws request before (ok approval) = apply_hint p draws request before

  -- A hint that is there already makes the approval of a human permanent.
  unfoldable pub deploy_hint :
      Plant W → (ℕ → ℕ) → Draws → QuerySettingsDeploymentRequest → Plant W × HintDeployment
  deploy_hint p now draws request =
      let before = current_hint p.world request.action in
      if not (str_eq (settings_hash c request.action before) request.expected_state_hash)
      then (p, refused state_drift)
      else if not (same_optional (allowed_of before) request.action.previous_allowed_indexes)
      then (p, refused prior_mismatch)
      else if approval_required request.deployment_mode "SET_QUERY_SETTINGS_INDEX_HINT"
          (is_some before)
      then (let (flow, granted) =
            require_current_approval p.approvals now request.action_id request.evidence_hash
              request.target_id in
          hint_approved (record p { approvals = flow }) draws request before granted)
      else apply_hint p draws request before

  -- After the checks of a rollback: restore, read back, ledger.
  unfoldable pub restore_hint :
      Plant W
      → String
      → ℕ
      → String
      → Entry
      → SetQuerySettingsIndexHintAction
      → Plant W × HintRollback
  restore_hint p entry_id at actor entry a =
      let current = current_hint p.world a in
      if not (same_optional (allowed_of current) (some a.allowed_indexes))
      then (p, raised drift_blocks)
      else let previous = hint_of a.previous_allowed_indexes in
        let (world, returned) = set_hint p.world a previous in
        let changed : Plant W = record p { world = world } in
        if not returned
        then (changed, raised adapter_failed)
        else if not (same_hint (current_hint world a) previous)
        then (changed, raised not_restored)
        else let (ledger, written) = add_entry p.ledger entry_id at (record {
          before_state = hint_state (settings_state a current);
          intended_state = hint_state (settings_state a previous);
          after_state = hint_state (settings_state a previous);
          forward_action = rolled_back_hint (inverse_set_hint a);
          inverse_action = set_action a;
          evidence_hash = entry.evidence_hash;
          actor = actor;
        }) in
          (record p { world = world; ledger = ledger }, restored written)

  -- The action of an applied entry. The dictionary of an index action fails the validation.
  unfoldable pub rollback_entry :
      Plant W
      → String
      → ℕ
      → QuerySettingsRollbackRequest
      → Entry
      → LedgerAction
      → Plant W × HintRollback
  rollback_entry p entry_id at request entry (hint_action applied target_id a) =
      if not (str_eq target_id request.target_id)
      then (p, raised target_mismatch)
      else restore_hint p entry_id at request.actor entry a
  rollback_entry p entry_id at request entry (index_action applied target_id fingerprint a) =
      (p, raised invalid_action)
  rollback_entry p entry_id at request entry _ = (p, raised applied_action_required)

  abbrev pub hint_found :
      Plant W → String → ℕ → QuerySettingsRollbackRequest → Option Entry → Plant W × HintRollback
  hint_found p entry_id at request none = (p, raised applied_action_required)
  hint_found p entry_id at request (some entry) =
      rollback_entry p entry_id at request entry entry.forward_action

  unfoldable pub rollback_hint :
      Plant W → String → ℕ → QuerySettingsRollbackRequest → Plant W × HintRollback
  rollback_hint p entry_id at request =
      hint_found p entry_id at request (entry_with_id request.applied_ledger_entry_id p.ledger)
