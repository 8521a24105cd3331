-- ===== src/Deployments/Landing.antt =====
-- An attempt of a deployment that completes leaves its run deployed, whatever was stored before it.
use ai_driven_autonomous_no.Prelude.{
  ℕ, zero, suc, ◌≡◌, refl, inl, inr, Bool, not, ◌&&◌, Option, none, some, List, [], ◌∷◌, All,
  if_cases,
}
use ai_driven_autonomous_no.Lifecycle.{deploying, deployed}
use ai_driven_autonomous_no.Adapter.{DatabaseAdapter}
use ai_driven_autonomous_no.Runs.Transition.{moved_row}
use ai_driven_autonomous_no.Runs.Evidence.{transition_run_outcomes}
use ai_driven_autonomous_no.Deployments.Steps.{tests_approved, tests_deploying}
use ai_driven_autonomous_no.Runs.Progress.{IsDeployable}
use ai_driven_autonomous_no.Deployments.Records.{
  DeploymentArtifact, RecoveryRow, BoundAction, Attempt, completed_with, effect_unverified, Frame,
  Step, is_applied, is_bound, is_confirmed, has_exact_index,
}
use ai_driven_autonomous_no.Deployments.Durable.{
  status_at, state_of, has_effect, create, expects, proceed, fail, transition_to,
  after_transition_of, read_before, store_intent, store_intent_at, enter_deploying, ended,
  reconcile, reconcile_at, reconcile_applied, record_recovery, append_intent, start_at,
  start_execution, apply_mutation, mutated, confirm_execution, verify_after, mark_applied,
  append_applied, append_event, returned_at, finish_attempt, deploy_steps, run_steps, go_on,
}

module _ {W : Type 0} where
  -- An attempt that completes leaves a deployed run.
  abbrev pub Lands : Frame W × Attempt → Type 0
  Lands (f, completed_with a) = status_at f ≡ deployed
  Lands (f, _) = Unit

  abbrev After : (Frame W → Type 0) → Frame W × Option Attempt → Type 0
  After Q (f, none) = Q f
  After Q (f, some attempt) = Lands (f, attempt)

  abbrev Deployable : Frame W → Type 0
  Deployable f = IsDeployable (status_at f)

  abbrev InProgress : Frame W → Type 0
  InProgress f = status_at f ≡ deploying

  go_on-Lands :
      (Q : Frame W → Type 0) (answer : Frame W × Option Attempt)
      (rest : Frame W → Frame W × Attempt)
      → After Q answer
      → ((left : Frame W) → Q left → Lands (rest left))
      → Lands (go_on answer rest)
  unfolding go_on
  go_on-Lands Q (f, none) rest h next = next f h
  go_on-Lands Q (f, some attempt) rest h next = h

  -- Steps that keep the run in progress, up to one that ends the attempt.
  run_steps-Lands :
      (survived : ℕ) (steps : List (Step W)) (f : Frame W)
      → All (λ step. (left : Frame W) → InProgress left → After InProgress (step left)) steps
      → InProgress f
      → Lands (run_steps survived steps f)
  unfolding run_steps
  run_steps-Lands zero steps f each h = tt
  run_steps-Lands (suc survived) [] f each h = tt
  run_steps-Lands (suc survived) (step ∷ steps) f each h =
      go_on-Lands InProgress (step f) (run_steps survived steps) (each.0 f h)
        (λ left k. run_steps-Lands survived steps left each.1 k)

  -- A transition of a run in progress to deployed ends the attempt where it is made.
  ended-Lands :
      (adapter : DatabaseAdapter W) (bound : BoundAction) (f : Frame W) (a : DeploymentArtifact)
      → After InProgress (ended adapter bound a (transition_to f deployed))
  unfolding ended transition_to after_transition_of moved_row
  ended-Lands adapter bound f a = elim (transition_run_outcomes f.site.store deployed none) [
    | inl (made, e) ↦ rw e refl
    | inr (other, (error, e)) ↦ rw e tt
  ]

  module _ (adapter : DatabaseAdapter W) (bound : BoundAction) where
    reconcile_at-Lands :
        (f : Frame W) (o : Option DeploymentArtifact)
        → InProgress f
        → After InProgress (reconcile_at adapter bound f o)
    unfolding reconcile_at reconcile
    reconcile_at-Lands f none e = e
    reconcile_at-Lands f (some a) e =
        let P = After InProgress in
        let (other, same) = tests_deploying (status_at f) e in
        if_cases P (is_applied a.artifact_status)
          (λ marked.
            if_cases P (not (has_exact_index f.before bound.action)) (λ drifted. tt)
              (λ seen. rw same (ended-Lands adapter bound f a)))
          (λ open_row. e)

    start_at-Lands :
        (f : Frame W) (o : Option RecoveryRow)
        → InProgress f
        → After InProgress (start_at adapter bound f o)
    unfolding start_at
    start_at-Lands f none e = tt
    start_at-Lands f (some r) e =
        if_cases (After InProgress) (is_confirmed r.recovery_state) (λ known. e) (λ unknown. e)

    mutated-Lands :
        (f : Frame W) (made : W × Bool)
        → InProgress f
        → After InProgress (mutated adapter bound f made)
    unfolding mutated
    mutated-Lands f (w, returned) e =
        if_cases (After InProgress) returned (λ made. e) (λ raised. tt)

    returned_at-Lands :
        (f : Frame W) (o : Option DeploymentArtifact)
        → InProgress f
        → After InProgress (returned_at adapter bound f o)
    unfolding returned_at
    returned_at-Lands f none e = tt
    returned_at-Lands f (some a) e =
        let (other, same) = tests_deploying (status_at f) e in
        rw same (ended-Lands adapter bound f a)

    apply_mutation-Lands :
        (f : Frame W) → InProgress f → After InProgress (apply_mutation adapter bound f)
    unfolding apply_mutation
    apply_mutation-Lands f e =
        let P = After InProgress in
        let w = f.site.world in
        if_cases P f.confirmed (λ known. e)
          (λ unknown.
            if_cases P (expects adapter bound f.site.recovery && has_effect adapter bound w)
              {x = proceed f} {y = mutated adapter bound f (create adapter bound w)} (λ seen. e)
              (λ unseen. mutated-Lands f (create adapter bound w) e))

    verify_after-Lands :
        (f : Frame W) → InProgress f → After InProgress (verify_after adapter bound f)
    unfolding verify_after
    verify_after-Lands f e =
        if_cases (After InProgress) (has_effect adapter bound f.site.world)
          {x = proceed (record f { after = state_of adapter bound f.site.world })}
          {y = fail f effect_unverified} (λ seen. e) (λ unseen. tt)

    late_steps : List (Step W)
    late_steps =
        reconcile_applied adapter bound
        ∷ record_recovery adapter bound
        ∷ append_intent adapter bound
        ∷ start_execution adapter bound
        ∷ apply_mutation adapter bound
        ∷ confirm_execution adapter bound
        ∷ verify_after adapter bound
        ∷ mark_applied adapter bound
        ∷ append_applied adapter bound
        ∷ finish_attempt adapter bound
        ∷ []

    late_steps-Lands :
        All (λ step. (left : Frame W) → InProgress left → After InProgress (step left)) late_steps
    unfolding late_steps reconcile_applied record_recovery append_intent append_event
        start_execution confirm_execution mark_applied append_applied finish_attempt
    late_steps-Lands =
        let P = After InProgress in
        (
          (λ f e. reconcile_at-Lands f f.site.artifact e),
          (
            (λ f e. e),
            (
              (λ f e. if_cases P f.intent_created (λ created. e) (λ kept. e)),
              (
                (λ f e. start_at-Lands f f.site.recovery e),
                (
                  apply_mutation-Lands,
                  (
                    (λ f e. if_cases P f.confirmed (λ known. e) (λ unknown. e)),
                    (
                      verify_after-Lands,
                      (
                        (λ f e. e),
                        ((λ f e. e), ((λ f e. returned_at-Lands f f.site.artifact e), tt)),
                      ),
                    ),
                  ),
                ),
              ),
            ),
          ),
        )

    store_intent_at-Deployable :
        (f : Frame W) (o : Option DeploymentArtifact)
        → Deployable f
        → After Deployable (store_intent_at adapter bound f o)
    unfolding store_intent_at
    store_intent_at-Deployable f none ready = ready
    store_intent_at-Deployable f (some a) ready =
        if_cases (After Deployable) (is_bound bound a) (λ same. ready) (λ other. tt)

    enter_deploying-InProgress :
        (f : Frame W) → Deployable f → After InProgress (enter_deploying adapter bound f)
    unfolding enter_deploying transition_to after_transition_of moved_row
    enter_deploying-InProgress f (inl e) =
        rw (tests_approved (status_at f) e)
          (elim (transition_run_outcomes f.site.store deploying none) [
            | inl (made, moved) ↦ rw moved refl
            | inr (other, (error, moved)) ↦ rw moved tt
          ])
    enter_deploying-InProgress f (inr e) =
        let (other, same) = tests_deploying (status_at f) e in rw (other, same) e

    rest_of-Lands :
        (survived : ℕ) (f : Frame W)
        → Deployable f
        → Lands (run_steps survived (enter_deploying adapter bound ∷ late_steps) f)
    unfolding run_steps
    rest_of-Lands zero f ready = tt
    rest_of-Lands (suc survived) f ready =
        go_on-Lands InProgress (enter_deploying adapter bound f) (run_steps survived late_steps)
          (enter_deploying-InProgress f ready)
          (λ left e. run_steps-Lands survived late_steps left late_steps-Lands e)

    stored-Lands :
        (survived : ℕ) (f : Frame W)
        → Deployable f
        → Lands (
            run_steps survived
              (store_intent adapter bound ∷ enter_deploying adapter bound ∷ late_steps)
              f)
    unfolding run_steps store_intent
    stored-Lands zero f ready = tt
    stored-Lands (suc survived) f ready =
        go_on-Lands Deployable (store_intent adapter bound f) _
          (store_intent_at-Deployable f f.site.artifact ready) (rest_of-Lands survived)

    pub attempt-Lands :
        (survived : ℕ) (f : Frame W)
        → Deployable f
        → Lands (run_steps survived (deploy_steps adapter bound) f)
    unfolding run_steps deploy_steps late_steps read_before
    attempt-Lands zero f ready = tt
    attempt-Lands (suc survived) f ready =
        go_on-Lands Deployable (read_before adapter bound f) _ ready (stored-Lands survived)
