-- ===== src/Production/Executor.antt =====
-- `ProductionExecutor` of backend/app/production/executor.py.
-- A deployment draws two ids and times for its ledger entries. The plant that it leaves comes back
-- beside the result, so that what a raised error leaves behind is written out.
pub mod Gates
pub mod Success
use ai_driven_autonomous_no.Prelude.{
  ℕ, String, Bool, true, false, not, ◌&&◌, ◌||◌, List, ◌∷◌, [], ◌++◌, any, map, str_eq,
  if◌then◌else◌,
}
use ai_driven_autonomous_no.Actions.{CreateIndexAction, inverse_create}
use ai_driven_autonomous_no.Admission.{AdmissionStatus, is_admitted}
use ai_driven_autonomous_no.Autonomy.{DeploymentMode, approval_required}
use ai_driven_autonomous_no.Approvals.{ApprovalError, Result, ok, raise, require_current_approval}
use ai_driven_autonomous_no.Approvals
use ai_driven_autonomous_no.Ledger.{Evidence, append}
use ai_driven_autonomous_no.Adapter.{DatabaseAdapter}
use ai_driven_autonomous_no.Production.{
  Plant, Canonical, Entry, TargetState, LedgerState, LedgerAction, index_state, index_action,
  drop_action, Phase, prepared, applied, index_spec, named, only_has_keys, current_state,
  state_hash, index_fingerprint,
}

-- Of the admission result a deployment reads the status and the eligibility.
pub record DeploymentRequest : Type 0 where
  pub target_id : String
  pub action_id : String
  pub action : CreateIndexAction
  pub admission_status : AdmissionStatus
  pub production_eligible : Bool
  pub evidence_hash : String
  pub expected_state_hash : String
  pub actor : String
  pub deployment_mode : DeploymentMode

pub record DeploymentResult : Type 0 where
  pub prepared_entry : Entry
  pub applied_entry : Entry
  pub resulting_state_hash : String

pub data DeploymentError : Type 0 where
  not_eligible namespace_absent index_exists state_drift adapter_failed : DeploymentError
  result_mismatch : DeploymentError
  approval_refused : ApprovalError → DeploymentError

pub data Deployment : Type 0 where
  deployed : DeploymentResult → Deployment
  refused : DeploymentError → Deployment

-- The ids and times that the two appends of a deployment draw.
pub record Draws : Type 0 where
  pub first_id : String
  pub first_at : ℕ
  pub second_id : String
  pub second_at : ℕ

-- `_intended_state`
unfoldable pub intended_state : TargetState → CreateIndexAction → TargetState
intended_state before a = record before { indexes = before.indexes ++ index_spec a ∷ [] }

-- `_verify_applied`
unfoldable pub verify_applied : TargetState → CreateIndexAction → Bool
verify_applied s a = only_has_keys (named a.index_name s.indexes) (index_spec a).keys

-- The second test of `_verify_preconditions`.
unfoldable pub index_present : TargetState → CreateIndexAction → Bool
index_present s a = any (λ i. str_eq i.name a.index_name) s.indexes

module _ {W : Type 0} (adapter : DatabaseAdapter W) (c : Canonical) where
  abbrev pub state_of : Plant W → CreateIndexAction → TargetState
  state_of p a = current_state adapter p.world a.database a.collection

  -- The arguments of the two appends.
  abbrev pub evidence_of :
      DeploymentRequest → Phase → TargetState → TargetState → Evidence LedgerState LedgerAction
  evidence_of request phase before after = record {
    before_state = index_state before;
    intended_state = index_state (intended_state before request.action);
    after_state = index_state after;
    forward_action =
        index_action phase request.target_id (index_fingerprint c (index_spec request.action))
          request.action;
    inverse_action = drop_action (inverse_create request.action);
    evidence_hash = request.evidence_hash;
    actor = request.actor;
  }

  abbrev pub add_entry :
      List Entry → String → ℕ → Evidence LedgerState LedgerAction → List Entry × Entry
  add_entry = append c.sha256 c.dump_entry

  -- After the creation returned: verify, ledger, return.
  unfoldable pub finish_deployment :
      Plant W → Draws → DeploymentRequest → TargetState → Entry → Plant W × Deployment
  finish_deployment p draws request before first =
      let after = state_of p request.action in
      if not (verify_applied after request.action)
      then (p, refused result_mismatch)
      else let (ledger, second) =
          add_entry p.ledger draws.second_id draws.second_at
            (evidence_of request applied before after) in
        (
          record p { ledger = ledger },
          deployed (record {
            prepared_entry = first;
            applied_entry = second;
            resulting_state_hash = state_hash c (index_state after);
          }),
        )

  -- After the preconditions: ledger the intent, and create the index.
  unfoldable pub apply_change :
      Plant W → Draws → DeploymentRequest → TargetState → Plant W × Deployment
  apply_change p draws request before =
      let (ledger, first) =
        add_entry p.ledger draws.first_id draws.first_at
          (evidence_of request prepared before before) in
      let (world, returned) =
        adapter.create_index p.world (record { collection = request.action.collection })
          (index_spec request.action) in
      let changed : Plant W = record p { ledger = ledger; world = world } in
      if returned
      then finish_deployment changed draws request before first
      else (changed, refused adapter_failed)

  -- After the approval: verify the state and the preconditions.
  unfoldable pub deploy_approved : Plant W → Draws → DeploymentRequest → Plant W × Deployment
  deploy_approved p draws request =
      let before = state_of p request.action in
      if not (str_eq (state_hash c (index_state before)) request.expected_state_hash)
      then (p, refused state_drift)
      else if not before.namespace_exists
      then (p, refused namespace_absent)
      else if index_present before request.action
      then (p, refused index_exists)
      else apply_change p draws request before

  unfoldable pub after_approval :
      Plant W → Draws → DeploymentRequest → Result Approvals.Approval → Plant W × Deployment
  after_approval p draws request (raise e) = (p, refused (approval_refused e))
  after_approval p draws request (ok approval) = deploy_approved p draws request

  -- `now` gives the clock's readings while the approvals are looked through.
  unfoldable pub deploy : Plant W → (ℕ → ℕ) → Draws → DeploymentRequest → Plant W × Deployment
  deploy p now draws request =
      if not (is_admitted request.admission_status) || not request.production_eligible
      then (p, refused not_eligible)
      else if approval_required request.deployment_mode "CREATE_INDEX" false
      then (let (flow, granted) =
            require_current_approval p.approvals now request.action_id request.evidence_hash
              request.target_id in
          after_approval (record p { approvals = flow }) draws request granted)
      else deploy_approved p draws request
