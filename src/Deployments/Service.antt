-- ===== src/Deployments/Service.antt =====
-- `DurableDeploymentService.deploy_for_run` of backend/app/production/durable.py as the deployment that
-- backend/app/runs/orchestrator.py is given: the bound action is loaded and then deployed.
-- The joins that the load reads, the parsing of an action's payload and the digest of an action are
-- parameters; `survived` says how many steps an attempt makes while its lease is owned.
use ai_driven_autonomous_no.Prelude.{ℕ, String, Bool, Option, List}
use ai_driven_autonomous_no.Actions.{CreateIndexAction}
use ai_driven_autonomous_no.Adapter.{DatabaseAdapter}
use ai_driven_autonomous_no.Authority.{
  Digests, ApprovalRow, BoundRow, BoundResult, bound_to, not_bound, load_bound_action,
}
use ai_driven_autonomous_no.Runs.Orchestrator.{OrchestratorState, Service, Answer, answers, fails}
use ai_driven_autonomous_no.Deployments.Records.{
  DeploymentArtifact, RecoveryRow, LedgerEvent, Site, BoundAction, Attempt, completed_with,
  failed_with, stopped,
}
use ai_driven_autonomous_no.Deployments.Durable.{deploy_for_run}

-- The target with the rows of deployments.
pub record DeploymentWorld (W : Type 0) : Type 0 where
  pub target : W
  pub artifact : Option DeploymentArtifact
  pub recovery : Option RecoveryRow
  pub events : List LedgerEvent

-- What `_load_bound_action` reads.
pub record BindingEvidence : Type 0 where
  pub joined : Option BoundRow
  pub approvals : List ApprovalRow
  pub now : ℕ

-- What an attempt returns to the orchestrator; an exception of its own, and a lost lease, are raised.
unfoldable pub answer_of : Attempt → Answer Unit
answer_of (completed_with a) = answers tt
answer_of (failed_with failure) = fails
answer_of stopped = fails

unfoldable pub bound_action :
    (BoundRow → CreateIndexAction) → (CreateIndexAction → String) → BoundRow → BoundAction
bound_action action_of action_digest b = record {
  selected_candidate_id = b.selected_candidate_id;
  bound_fingerprint = b.authority.authority_candidate_fingerprint;
  action = action_of b;
  fingerprint = action_digest (action_of b);
}

unfoldable pub loaded : Digests → BindingEvidence → BoundResult
loaded digests evidence = load_bound_action digests evidence.joined evidence.approvals evidence.now

module _ {W : Type 0} where
  abbrev pub site_of : OrchestratorState (DeploymentWorld W) → Site W
  site_of state = record {
    store = state.store;
    world = state.world.target;
    artifact = state.world.artifact;
    recovery = state.world.recovery;
    events = state.world.events;
  }

  abbrev pub with_rows : Site W → OrchestratorState (DeploymentWorld W)
  with_rows s = record {
    store = s.store;
    world = record {
      target = s.world;
      artifact = s.artifact;
      recovery = s.recovery;
      events = s.events;
    };
  }

  unfoldable pub answered : Site W × Attempt → OrchestratorState (DeploymentWorld W) × Answer Unit
  answered (s, attempt) = (with_rows s, answer_of attempt)

  module _ (adapter : DatabaseAdapter W) (digests : Digests)
      (action_of : BoundRow → CreateIndexAction) (action_digest : CreateIndexAction → String)
      (load : OrchestratorState (DeploymentWorld W) → BindingEvidence)
      (survived : (ℕ → Bool) → ℕ) where
    unfoldable pub deploy_bound :
        (ℕ → Bool)
        → OrchestratorState (DeploymentWorld W)
        → BoundResult
        → OrchestratorState (DeploymentWorld W) × Answer Unit
    deploy_bound owned state (bound_to b) = answered (
        deploy_for_run adapter (bound_action action_of action_digest b) (survived owned)
          (site_of state))
    deploy_bound owned state (not_bound error) = (state, fails)

    -- Where the lock of the target is not available the attempt survives no step, and raises.
    unfoldable pub deploy_service : (ℕ → Bool) → Service (DeploymentWorld W) Unit
    deploy_service owned state = deploy_bound owned state (loaded digests (load state))
