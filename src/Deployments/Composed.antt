-- ===== src/Deployments/Composed.antt =====
-- The durable deployment as a service of the orchestrator: it changes nothing unless the evidence of the
-- run authorises it, and moves the run on where it returns.
use ai_driven_autonomous_no.Prelude.{
  ℕ, ◌≡◌, refl, ◌⊎◌, inl, inr, String, Bool, none, some, arith, Option-cases,
}
use ai_driven_autonomous_no.Lifecycle.{deployed, position}
use ai_driven_autonomous_no.Actions.{CreateIndexAction}
use ai_driven_autonomous_no.Adapter.{DatabaseAdapter}
use ai_driven_autonomous_no.Authority.{
  Digests, BoundRow, BindingError, authority_binding_missing, bound_to, not_bound,
  load_bound_action,
}
use ai_driven_autonomous_no.Authority.Binding.{IsAuthorised, load_bound_action_outcomes}
use ai_driven_autonomous_no.Runs.Orchestrator.{OrchestratorState, Answer, answers, declines, fails}
use ai_driven_autonomous_no.Runs.Progress.{status_of, IsDeployable, IsFurther, MovesOn}
use ai_driven_autonomous_no.Runs.Orchestrator.{Services}
use ai_driven_autonomous_no.Runs.Orderly.{IsOrderly}
use ai_driven_autonomous_no.Runs.Handler.{HandledJob, dispatch}
use ai_driven_autonomous_no.Runs.Limit.{IsSettled, dispatch-IsSettled}
use ai_driven_autonomous_no.Deployments.Records.{
  Attempt, completed_with, failed_with, stopped, Frame,
}
use ai_driven_autonomous_no.Deployments.Durable.{
  state_of, deploy_steps, run_steps, start_frame, deploy_for_run,
}
use ai_driven_autonomous_no.Deployments.Service.{
  DeploymentWorld, BindingEvidence, site_of, answer_of, bound_action, loaded, answered,
  deploy_bound, deploy_service,
}
use ai_driven_autonomous_no.Deployments.Landing.{Lands, attempt-Lands}

-- The loaded row exists and authorises its deployment.
abbrev pub AuthorisedBy : Digests → BindingEvidence → Type 0
AuthorisedBy digests evidence =
    (b : BoundRow) × (evidence.joined ≡ some b)
    × IsAuthorised digests b evidence.approvals evidence.now

module _ {W : Type 0} where
  -- What a deployment says of the run, by what it returns. The evidence is what it loaded.
  abbrev pub IsDeployment :
      Digests
      → BindingEvidence
      → OrchestratorState (DeploymentWorld W)
      → OrchestratorState (DeploymentWorld W) × Answer Unit
      → Type 0
  IsDeployment digests evidence state (left, answers u) =
      AuthorisedBy digests evidence × (status_of left ≡ deployed)
  IsDeployment digests evidence state (left, declines text) = ⊥
  IsDeployment digests evidence state (left, fails) = AuthorisedBy digests evidence ⊎ (left ≡ state)

loaded_outcomes :
    (digests : Digests) (evidence : BindingEvidence)
    → (AuthorisedBy digests evidence × ((b : BoundRow) × (loaded digests evidence ≡ bound_to b)))
      ⊎ ((error : BindingError) × (loaded digests evidence ≡ not_bound error))
unfolding loaded load_bound_action
loaded_outcomes digests evidence = elim (Option-cases evidence.joined) [
  | inl missing ↦ inr (authority_binding_missing, rw missing refl)
  | inr (b, joined) ↦ elim (load_bound_action_outcomes digests b evidence.approvals evidence.now) [
    | inl (authorised, e) ↦ inl ((b, joined, authorised), (b, rw joined e))
    | inr (other, (error, e)) ↦ inr (error, rw joined e)
  ]
]

module _ {W : Type 0} (adapter : DatabaseAdapter W) (digests : Digests)
    (action_of : BoundRow → CreateIndexAction) (action_digest : CreateIndexAction → String)
    (load : OrchestratorState (DeploymentWorld W) → BindingEvidence)
    (survived : (ℕ → Bool) → ℕ) where
  answered-IsDeployment :
      (state : OrchestratorState (DeploymentWorld W)) (r : Frame W × Attempt)
      → AuthorisedBy digests (load state)
      → Lands r
      → IsDeployment digests (load state) state (answered (r.0.site, r.1))
  unfolding answered answer_of
  answered-IsDeployment state (f, completed_with a) authorised landed = (authorised, landed)
  answered-IsDeployment state (f, failed_with failure) authorised landed = inl authorised
  answered-IsDeployment state (f, stopped) authorised landed = inl authorised

  deploy_bound-IsDeployment :
      (owned : ℕ → Bool) (state : OrchestratorState (DeploymentWorld W)) (b : BoundRow)
      → AuthorisedBy digests (load state)
      → IsDeployable (status_of state)
      → IsDeployment digests (load state) state (
          deploy_bound adapter digests action_of action_digest load survived owned state
            (bound_to b))
  unfolding deploy_bound deploy_for_run start_frame
  deploy_bound-IsDeployment owned state b authorised ready =
      let bound = bound_action action_of action_digest b in
      let f = start_frame (state_of adapter bound) (site_of state) in
      answered-IsDeployment state (run_steps (survived owned) (deploy_steps adapter bound) f)
        authorised (attempt-Lands adapter bound (survived owned) f ready)

  -- A deployment of an approved run, or of one that is being deployed, returns only where the loaded
  -- evidence authorises the action, and leaves the run deployed then; where it raises, the evidence
  -- authorises the action or nothing is changed.
  pub deploy_service-IsDeployment :
      (owned : ℕ → Bool) (state : OrchestratorState (DeploymentWorld W))
      → IsDeployable (status_of state)
      → IsDeployment digests
          (load state)
          state
          (deploy_service adapter digests action_of action_digest load survived owned state)
  unfolding deploy_service deploy_bound
  deploy_service-IsDeployment owned state ready = elim (loaded_outcomes digests (load state)) [
    | inl (authorised, (b, e)) ↦ rw e (deploy_bound-IsDeployment owned state b authorised ready)
    | inr (error, e) ↦ rw e (inr refl)
  ]

  moved_on :
      (digests : Digests) (evidence : BindingEvidence)
      (state : OrchestratorState (DeploymentWorld W))
      (r : OrchestratorState (DeploymentWorld W) × Answer Unit)
      → IsDeployable (status_of state)
      → IsDeployment digests evidence state r
      → IsFurther (status_of state) r
  unfolding position
  moved_on digests evidence state (left, answers u) (inl e) h = rw (e, h.1) (omega arith)
  moved_on digests evidence state (left, answers u) (inr e) h = rw (e, h.1) (omega arith)
  moved_on digests evidence state (left, declines text) ready h = tt
  moved_on digests evidence state (left, fails) ready h = tt

  deploy_service-MovesOn :
      MovesOn (deploy_service adapter digests action_of action_digest load survived)
  deploy_service-MovesOn owned state ready =
      moved_on digests (load state) state
        (deploy_service adapter digests action_of action_digest load survived owned state) ready
        (deploy_service-IsDeployment owned state ready)

  -- The services of an orchestrator whose deployment is this one.
  abbrev pub with_deployment :
      {R : Type 0} → Services (DeploymentWorld W) R → Services (DeploymentWorld W) R
  with_deployment services = record services {
    deployment = some (deploy_service adapter digests action_of action_digest load survived);
  }

  with_deployment-IsOrderly :
      {R : Type 0} (services : Services (DeploymentWorld W) R)
      → IsOrderly (record services { deployment = none })
      → IsOrderly (with_deployment services)
  with_deployment-IsOrderly services h = record {
    snapshots = h.snapshots;
    diagnoses = h.diagnoses;
    generations = h.generations;
    rankings = h.rankings;
    evaluations = h.evaluations;
    executions = h.executions;
    decisions = h.decisions;
    requests = h.requests;
    authorities = h.authorities;
    asks = h.asks;
    deployments = deploy_service-MovesOn;
    observations = h.observations;
  }

  -- With the durable deployment, and other services that leave the status to the orchestrator, the
  -- dispatch of a job never raises for its limit of 32 steps, wherever leases are lost and deployments
  -- are interrupted, and where it returns the run has ended or waits for an approval.
  pub dispatch_deployments-IsSettled :
      {R : Type 0} (services : Services (DeploymentWorld W) R)
      → IsOrderly (record services { deployment = none })
      → (owned : ℕ → ℕ → Bool) (held : ℕ → Bool) (state : OrchestratorState (DeploymentWorld W))
        (exists : String → Bool) (kind : String) (job : HandledJob)
      → IsSettled (dispatch (some (with_deployment services)) owned held state exists kind job)
  dispatch_deployments-IsSettled services h owned held state exists kind job =
      dispatch-IsSettled (with_deployment services) (with_deployment-IsOrderly services h) owned
        held state exists kind job
