-- ===== src/Deployments/Records.antt =====
-- The rows and the local state of backend/app/production/durable.py and
-- backend/app/recovery/durable.py.
use ai_driven_autonomous_no.Prelude.{
  String, Bool, true, false, ◌&&◌, ◌==◌, Option, List, filter, length, str_eq,
}
use ai_driven_autonomous_no.Actions.{CreateIndexAction}
use ai_driven_autonomous_no.Adapter.{IndexSpec}
use ai_driven_autonomous_no.Production.{TargetState, index_spec, same_keys}
use ai_driven_autonomous_no.Runs.{RunStore}

pub data ArtifactStatus : Type 0 where
  intent_recorded applied : ArtifactStatus

-- The row of `deployment_artifacts`; the inverse action is determined by the action.
pub record DeploymentArtifact : Type 0 where
  pub candidate_id : String
  pub candidate_fingerprint : String
  pub action_fingerprint : String
  pub artifact_status : ArtifactStatus
  pub before_state : TargetState
  pub after_state : Option TargetState

pub data RecoveryState : Type 0 where
  recovery_intent execution_started execution_confirmed : RecoveryState

-- The row of `production_action_recovery` under the idempotency key of the run's action.
pub record RecoveryRow : Type 0 where
  pub expected_fingerprint : String
  pub recovery_state : RecoveryState

-- The entries that a deployment appends to the ledger; the bound action determines their other fields.
pub data LedgerEvent : Type 0 where
  deployment_intent : (before intended_state : TargetState) → LedgerEvent
  deployment_applied : (before intended_state after : TargetState) → LedgerEvent

-- The rows of one run, and the target.
pub record Site (W : Type 0) : Type 0 where
  pub store : RunStore
  pub world : W
  pub artifact : Option DeploymentArtifact
  pub recovery : Option RecoveryRow
  pub events : List LedgerEvent

-- What `_load_bound_action` hands on, with the fingerprint of the action.
pub record BoundAction : Type 0 where
  pub selected_candidate_id : String
  pub bound_fingerprint : String
  pub action : CreateIndexAction
  pub fingerprint : String

pub data DeploymentFailure : Type 0 where
  binding_drift run_not_approved external_state_drift run_not_deploying : DeploymentFailure
  intent_missing effect_unverified transition_refused mutation_raised : DeploymentFailure

-- How an attempt ends: with the artifact, an exception, or a worker that stopped before its end.
pub data Attempt : Type 0 where
  completed_with : DeploymentArtifact → Attempt
  failed_with : DeploymentFailure → Attempt
  stopped : Attempt

-- A site, and the local variables of `_deploy_locked`.
pub record Frame (W : Type 0) : Type 0 where
  pub site : Site W
  pub before : TargetState
  pub intent_created : Bool
  pub confirmed : Bool
  pub after : TargetState

-- A step goes on, or ends the attempt.
abbrev pub Step : Type 0 → Type 0
Step W = Frame W → Frame W × Option Attempt

unfoldable pub is_exact : CreateIndexAction → IndexSpec → Bool
is_exact action i =
    str_eq i.name (index_spec action).name && same_keys i.keys (index_spec action).keys

-- `_has_exact_index`
unfoldable pub has_exact_index : TargetState → CreateIndexAction → Bool
has_exact_index state action = length (filter (is_exact action) state.indexes) == 1

unfoldable pub is_applied : ArtifactStatus → Bool
is_applied intent_recorded = false
is_applied applied = true

unfoldable pub is_bound : BoundAction → DeploymentArtifact → Bool
is_bound bound a =
    str_eq a.candidate_id bound.selected_candidate_id
    && (str_eq a.candidate_fingerprint bound.bound_fingerprint
        && str_eq a.action_fingerprint bound.fingerprint)

unfoldable pub is_confirmed : RecoveryState → Bool
is_confirmed execution_confirmed = true
is_confirmed _ = false
