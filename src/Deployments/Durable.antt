-- ===== src/Deployments/Durable.antt =====
-- The steps of `DurableDeploymentService` of backend/app/production/durable.py, with those of
-- `DurableRecovery` of backend/app/recovery/durable.py. The lock of the target is held through an attempt.
use ai_driven_autonomous_no.Prelude.{
  ℕ, zero, suc, Bool, true, false, not, ◌&&◌, Option, none, some, List, [], ◌∷◌, ◌++◌, str_eq,
  if◌then◌else◌,
}
use ai_driven_autonomous_no.Lifecycle.{OptimizationState, approved, deploying, deployed, same_state}
use ai_driven_autonomous_no.Adapter.{DatabaseAdapter}
use ai_driven_autonomous_no.Production.{TargetState, index_spec, current_state}
use ai_driven_autonomous_no.Runs.{RunStore}
use ai_driven_autonomous_no.Runs.Transition.{
  transition_run, TransitionResult, transitioned, refused,
}
use ai_driven_autonomous_no.Deployments.Records.{
  Attempt, BoundAction, DeploymentArtifact, DeploymentFailure, Frame, LedgerEvent, RecoveryRow,
  Site, Step, applied, binding_drift, completed_with, deployment_applied, deployment_intent,
  effect_unverified, execution_confirmed, execution_started, external_state_drift, failed_with,
  has_exact_index, intent_missing, intent_recorded, is_applied, is_bound, is_confirmed,
  mutation_raised, recovery_intent, run_not_approved, run_not_deploying, stopped,
  transition_refused,
}

module _ {W : Type 0} where
  abbrev pub fail : Frame W → DeploymentFailure → Frame W × Option Attempt
  fail f failure = (f, some (failed_with failure))

  abbrev pub proceed : Frame W → Frame W × Option Attempt
  proceed f = (f, none)

  abbrev pub with_site : Frame W → Site W → Frame W
  with_site f s = record f { site = s }

  -- After `RunRepository.transition`.
  unfoldable pub after_transition_of :
      Frame W → RunStore × TransitionResult → Frame W × Option Attempt
  after_transition_of f (store, transitioned row) =
      proceed (with_site f (record f.site { store = store }))
  after_transition_of f (store, refused error) = fail f transition_refused

  unfoldable pub transition_to : Frame W → OptimizationState → Frame W × Option Attempt
  transition_to f t = after_transition_of f (transition_run f.site.store t none)

  abbrev pub status_at : Frame W → OptimizationState
  status_at f = f.site.store.row.status

  module _ (adapter : DatabaseAdapter W) (bound : BoundAction) where
    abbrev pub state_of : W → TargetState
    state_of w = current_state adapter w bound.action.database bound.action.collection

    abbrev pub has_effect : W → Bool
    has_effect w = has_exact_index (state_of w) bound.action

    abbrev pub create : W → W × Bool
    create w =
        adapter.create_index w (record { collection = bound.action.collection })
          (index_spec bound.action)

    unfoldable pub read_before : Step W
    read_before f = proceed (record f { before = state_of f.site.world })

    abbrev pub new_artifact : TargetState → DeploymentArtifact
    new_artifact before = record {
      candidate_id = bound.selected_candidate_id;
      candidate_fingerprint = bound.bound_fingerprint;
      action_fingerprint = bound.fingerprint;
      artifact_status = intent_recorded;
      before_state = before;
      after_state = none;
    }

    unfoldable pub store_intent_at : Frame W → Option DeploymentArtifact → Frame W × Option Attempt
    store_intent_at f none = proceed (record f {
      site = record f.site { artifact = some (new_artifact f.before) };
      intent_created = true;
    })
    store_intent_at f (some a) =
        if is_bound bound a
        then proceed (record f { intent_created = false })
        else fail f binding_drift

    -- `_intent`
    unfoldable pub store_intent : Step W
    store_intent f = store_intent_at f f.site.artifact

    -- The status that the source tests was loaded with the bound action, before the lock was acquired; here
    -- it is that of the row, which no other attempt changes between the two.
    unfoldable pub enter_deploying : Step W
    enter_deploying f =
        if same_state (status_at f) approved
        then transition_to f deploying
        else if same_state (status_at f) deploying
        then proceed f
        else if same_state (status_at f) deployed
        then proceed f
        else fail f run_not_approved

    -- The attempt ends with the artifact once the run is deployed.
    unfoldable pub ended : DeploymentArtifact → Frame W × Option Attempt → Frame W × Option Attempt
    ended a (f, none) = (f, some (completed_with a))
    ended a (f, some attempt) = (f, some attempt)

    unfoldable pub reconcile : Frame W → DeploymentArtifact → Frame W × Option Attempt
    reconcile f a =
        if not (has_exact_index f.before bound.action)
        then fail f external_state_drift
        else if same_state (status_at f) deploying
        then ended a (transition_to f deployed)
        else if same_state (status_at f) deployed
        then (f, some (completed_with a))
        else fail f run_not_deploying

    unfoldable pub reconcile_at : Frame W → Option DeploymentArtifact → Frame W × Option Attempt
    reconcile_at f none = proceed f
    reconcile_at f (some a) = if is_applied a.artifact_status then reconcile f a else proceed f

    -- An artifact that is applied already is only verified.
    unfoldable pub reconcile_applied : Step W
    reconcile_applied f = reconcile_at f f.site.artifact

    unfoldable pub recovery_or_new : Option RecoveryRow → RecoveryRow
    recovery_or_new none = record {
      expected_fingerprint = bound.fingerprint;
      recovery_state = recovery_intent;
    }
    recovery_or_new (some r) = r

    -- `DurableRecovery.record_intent`
    unfoldable pub record_recovery : Step W
    record_recovery f =
        proceed (with_site f (record f.site { recovery = some (recovery_or_new f.site.recovery) }))

    -- `_intended`
    unfoldable pub intended : TargetState → TargetState
    intended before = record before { indexes = before.indexes ++ index_spec bound.action ∷ [] }

    unfoldable pub append_event : Frame W → LedgerEvent → Frame W × Option Attempt
    append_event f event =
        proceed (with_site f (record f.site { events = f.site.events ++ event ∷ [] }))

    -- `_append_intent`, for the attempt that created the artifact.
    unfoldable pub append_intent : Step W
    append_intent f =
        if f.intent_created
        then append_event f (deployment_intent f.before (intended f.before))
        else proceed f

    -- The first transaction of `execute_or_recover`.
    unfoldable pub start_at : Frame W → Option RecoveryRow → Frame W × Option Attempt
    start_at f none = fail f intent_missing
    start_at f (some r) =
        if is_confirmed r.recovery_state
        then proceed (record f { confirmed = true })
        else proceed (record f {
          site = record f.site {
            recovery = some (record r { recovery_state = execution_started });
          };
          confirmed = false;
        })

    unfoldable pub start_execution : Step W
    start_execution f = start_at f f.site.recovery

    unfoldable pub mutated : Frame W → W × Bool → Frame W × Option Attempt
    mutated f (w, returned) =
        let left = with_site f (record f.site { world = w }) in
        if returned then proceed left else fail left mutation_raised

    unfoldable pub expects : Option RecoveryRow → Bool
    expects none = false
    expects (some r) = str_eq r.expected_fingerprint bound.fingerprint

    -- The mutation, where its exact effect is not observed.
    unfoldable pub apply_mutation : Step W
    apply_mutation f =
        if f.confirmed
        then proceed f
        else if expects f.site.recovery && has_effect f.site.world
        then proceed f
        else mutated f (create f.site.world)

    unfoldable pub confirm_row : Option RecoveryRow → Option RecoveryRow
    confirm_row none = none
    confirm_row (some r) = some (record r { recovery_state = execution_confirmed })

    -- The last transaction of `execute_or_recover`.
    unfoldable pub confirm_execution : Step W
    confirm_execution f =
        if f.confirmed
        then proceed f
        else proceed (with_site f (record f.site { recovery = confirm_row f.site.recovery }))

    unfoldable pub verify_after : Step W
    verify_after f =
        if has_effect f.site.world
        then proceed (record f { after = state_of f.site.world })
        else fail f effect_unverified

    abbrev pub marked : TargetState → DeploymentArtifact → DeploymentArtifact
    marked after a = record a { artifact_status = applied; after_state = some after }

    unfoldable pub mark_row : TargetState → Option DeploymentArtifact → Option DeploymentArtifact
    mark_row after none = none
    mark_row after (some a) = some (marked after a)

    -- `_mark_applied`
    unfoldable pub mark_applied : Step W
    mark_applied f =
        proceed (with_site f (record f.site { artifact = mark_row f.after f.site.artifact }))

    -- `_append_applied`
    unfoldable pub append_applied : Step W
    append_applied f = append_event f (deployment_applied f.before (intended f.before) f.after)

    unfoldable pub returned_at : Frame W → Option DeploymentArtifact → Frame W × Option Attempt
    returned_at f none = fail f intent_missing
    returned_at f (some a) =
        if same_state (status_at f) deploying
        then ended a (transition_to f deployed)
        else (f, some (completed_with a))

    unfoldable pub finish_attempt : Step W
    finish_attempt f = returned_at f f.site.artifact

    -- `_deploy_locked`
    unfoldable pub deploy_steps : List (Step W)
    deploy_steps =
        read_before ∷ store_intent ∷ enter_deploying ∷ reconcile_applied ∷ record_recovery
        ∷ append_intent ∷ start_execution ∷ apply_mutation ∷ confirm_execution ∷ verify_after
        ∷ mark_applied ∷ append_applied ∷ finish_attempt ∷ []

  -- After a step: the next ones, where it does not end the attempt.
  unfoldable pub go_on :
      Frame W × Option Attempt → (Frame W → Frame W × Attempt) → Frame W × Attempt
  go_on (f, none) rest = rest f
  go_on (f, some attempt) rest = (f, attempt)

  -- The steps, of which the worker survives so many.
  unfoldable pub run_steps : ℕ → List (Step W) → Frame W → Frame W × Attempt
  run_steps zero steps f = (f, stopped)
  run_steps (suc survived) [] f = (f, stopped)
  run_steps (suc survived) (step ∷ steps) f = go_on (step f) (run_steps survived steps)

  unfoldable pub start_frame : (W → TargetState) → Site W → Frame W
  start_frame state_of s = record {
    site = s;
    before = state_of s.world;
    intent_created = false;
    confirmed = false;
    after = state_of s.world;
  }

  module _ (adapter : DatabaseAdapter W) (bound : BoundAction) where
    -- `DurableDeploymentService.deploy_for_run` with the lock, by a worker that survives so many steps.
    unfoldable pub deploy_for_run : ℕ → Site W → Site W × Attempt
    deploy_for_run survived s =
        let (f, attempt) =
          run_steps survived (deploy_steps adapter bound)
            (start_frame (state_of adapter bound) s) in
        (f.site, attempt)

    -- One attempt after another, by workers that survive so many steps each.
    unfoldable pub deploy_again : List ℕ → Site W → Site W
    deploy_again [] s = s
    deploy_again (survived ∷ rest) s = deploy_again rest (deploy_for_run survived s).0
