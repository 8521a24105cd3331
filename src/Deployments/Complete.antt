-- ===== src/Deployments/Complete.antt =====
-- A deployment that is interrupted and tried again creates its index at most once, and completes.
use ai_driven_autonomous_no.Prelude.{
  ℕ, zero, suc, ◌<◌, ◌≡◌, refl, sym, subst, true, Option, none, some, List, [], ◌∷◌, length, arith,
}
use ai_driven_autonomous_no.Adapter.{DatabaseAdapter}
use ai_driven_autonomous_no.Deployments.Records.{
  DeploymentArtifact, Site, BoundAction, Attempt, completed_with, failed_with, stopped, Frame, Step,
}
use ai_driven_autonomous_no.Deployments.Durable.{
  state_of, create, read_before, store_intent, enter_deploying, reconcile_at, reconcile_applied,
  record_recovery, append_intent, start_at, start_execution, apply_mutation, confirm_execution,
  verify_after, mark_applied, append_applied, returned_at, finish_attempt, deploy_steps, run_steps,
  go_on, start_frame, deploy_for_run, deploy_again,
}
use ai_driven_autonomous_no.Deployments.Invariant.{
  CreatesOrNot, IsSafe, IsComplete, IsEnd, IsAfter, AtStart, IsRead, HasIntent, IsEntered, IsOpen,
  HasRecovery, IsStarted, IsMutated, IsMarked, Never,
}
use ai_driven_autonomous_no.Deployments.Steps.{
  read_before-IsAfter, store_intent_at-IsAfter, enter_deploying-IsAfter, reconcile_at-IsAfter,
}
use ai_driven_autonomous_no.Deployments.Recorded.{
  record_recovery-IsAfter, append_intent-IsAfter, start_at-IsAfter, append_applied-IsAfter,
}
use ai_driven_autonomous_no.Deployments.Effects.{
  apply_mutation-IsAfter, confirm_execution-IsAfter, verify_after-IsAfter, mark_applied-IsAfter,
  returned_at-IsAfter,
}

module _ {W : Type 0} (adapter : DatabaseAdapter W) (bound : BoundAction) (w : W)
    (works : CreatesOrNot adapter bound w) where
  abbrev After : (Frame W → Type 0) → Frame W × Option Attempt → Type 0
  After = IsAfter adapter bound w

  abbrev Safe : Frame W → Type 0
  Safe f = IsSafe adapter bound w f.site

  -- Steps each of which takes its condition to that of the next, and of which the last ends the attempt.
  data Chain : (Frame W → Type 0) → List (Step W) → Type 1 where
    last : Chain (Never adapter bound w) []
    link :
        {P : Frame W → Type 0} (Q : Frame W → Type 0) (step : Step W) {steps : List (Step W)}
        → ((f : Frame W) → P f → Safe f)
        → ((f : Frame W) → P f → After Q (step f))
        → Chain Q steps
        → Chain P (step ∷ steps)

  -- A worker only stops where it does not survive all steps.
  abbrev EndsIn : ℕ → ℕ → Frame W × Attempt → Type 0
  EndsIn survived count (f, stopped) = Safe f × (survived < count)
  EndsIn survived count (f, attempt) = Safe f × IsEnd adapter bound w f.site attempt

  one_more :
      (survived count : ℕ) (f : Frame W) (attempt : Attempt)
      → EndsIn survived count (f, attempt)
      → EndsIn (suc survived) (suc count) (f, attempt)
  one_more survived count f stopped h = (h.0, omega (arith, h.1))
  one_more survived count f (completed_with a) h = h
  one_more survived count f (failed_with failure) h = h

  ended_now :
      (survived count : ℕ) (f : Frame W) (attempt : Attempt)
      → Safe f × IsEnd adapter bound w f.site attempt
      → EndsIn survived count (f, attempt)
  ended_now survived count f stopped h = absurd (h.1)
  ended_now survived count f (completed_with a) h = h
  ended_now survived count f (failed_with failure) h = h

  go_on-EndsIn :
      (Q : Frame W → Type 0) (survived count : ℕ) (answer : Frame W × Option Attempt)
      (rest : Frame W → Frame W × Attempt)
      → After Q answer
      → ((left : Frame W) → Q left → EndsIn survived count (rest left))
      → EndsIn (suc survived) (suc count) (go_on answer rest)
  unfolding go_on
  go_on-EndsIn Q survived count (f, none) rest h next =
      one_more survived count (rest f).0 (rest f).1 (next f h)
  go_on-EndsIn Q survived count (f, some attempt) rest h next =
      ended_now (suc survived) (suc count) f attempt h

  run_steps-EndsIn :
      (survived : ℕ) {P : Frame W → Type 0} (steps : List (Step W)) (f : Frame W)
      → Chain P steps
      → P f
      → EndsIn survived (length steps) (run_steps survived steps f)
  unfolding run_steps
  run_steps-EndsIn zero [] f last h = absurd h
  run_steps-EndsIn zero (step ∷ steps) f (link Q _ safe next chain) h = (safe f h, omega arith)
  run_steps-EndsIn (suc survived) [] f last h = absurd h
  run_steps-EndsIn (suc survived) (step ∷ steps) f (link Q _ safe next chain) h =
      go_on-EndsIn Q survived (length steps) (step f) (run_steps survived steps) (next f h)
        (λ left k. run_steps-EndsIn survived steps left chain k)

  stored-IsAfter :
      (f : Frame W)
      → IsRead adapter bound w f
      → After (HasIntent adapter bound w) (store_intent adapter bound f)
  unfolding store_intent
  stored-IsAfter f h = store_intent_at-IsAfter adapter bound w works f f.site.artifact refl h

  reconciled-IsAfter :
      (f : Frame W)
      → IsEntered adapter bound w f
      → After (IsOpen adapter bound w) (reconcile_applied adapter bound f)
  unfolding reconcile_applied
  reconciled-IsAfter f ((read, (a, present)), status) =
      subst (λ o. After (IsOpen adapter bound w) (reconcile_at adapter bound f o)) (sym present)
        (reconcile_at-IsAfter adapter bound w works f a present ((read, (a, present)), status))

  IsStarted-IsAfter :
      (f : Frame W)
      → HasRecovery adapter bound w f
      → After (IsStarted adapter bound w) (start_execution adapter bound f)
  unfolding start_execution
  IsStarted-IsAfter f (open_row, (r, present)) =
      subst (λ o. After (IsStarted adapter bound w) (start_at adapter bound f o)) (sym present)
        (start_at-IsAfter adapter bound w works f r present (open_row, (r, present)))

  finished-IsAfter :
      (f : Frame W)
      → IsMarked adapter bound w f
      → After (Never adapter bound w) (finish_attempt adapter bound f)
  unfolding finish_attempt
  finished-IsAfter f (((h, ((a, present), status)), found), done) =
      subst (λ o. After (Never adapter bound w) (returned_at adapter bound f o)) (sym present)
        (returned_at-IsAfter adapter bound w works f a present
          (((h, ((a, present), status)), found), done))

  late_steps : List (Step W)
  late_steps =
      record_recovery adapter bound
      ∷ append_intent adapter bound
      ∷ start_execution adapter bound
      ∷ apply_mutation adapter bound
      ∷ confirm_execution adapter bound
      ∷ verify_after adapter bound
      ∷ mark_applied adapter bound
      ∷ append_applied adapter bound
      ∷ finish_attempt adapter bound
      ∷ []

  late_steps-Chain : Chain (IsOpen adapter bound w) late_steps
  unfolding late_steps
  late_steps-Chain =
      link (HasRecovery adapter bound w) (record_recovery adapter bound) (λ f h. h.0)
        (record_recovery-IsAfter adapter bound w works)
        (link (HasRecovery adapter bound w) (append_intent adapter bound) (λ f h. h.0.0)
          (append_intent-IsAfter adapter bound w works)
          (link (IsStarted adapter bound w) (start_execution adapter bound) (λ f h. h.0.0)
            IsStarted-IsAfter
            (link (IsMutated adapter bound w) (apply_mutation adapter bound) (λ f h. h.0.0.0)
              (apply_mutation-IsAfter adapter bound w works)
              (link (IsMutated adapter bound w) (confirm_execution adapter bound) (λ f h. h.0.0)
                (confirm_execution-IsAfter adapter bound w works)
                (link (IsMutated adapter bound w) (verify_after adapter bound) (λ f h. h.0.0)
                  (verify_after-IsAfter adapter bound w works)
                  (link (IsMarked adapter bound w) (mark_applied adapter bound) (λ f h. h.0.0)
                    (mark_applied-IsAfter adapter bound w works)
                    (link (IsMarked adapter bound w) (append_applied adapter bound) (λ f h. h.0.0.0)
                      (append_applied-IsAfter adapter bound w works)
                      (link (Never adapter bound w) (finish_attempt adapter bound) (λ f h. h.0.0.0)
                        finished-IsAfter last))))))))

  deploy_steps-Chain : Chain (AtStart adapter bound w) (deploy_steps adapter bound)
  unfolding deploy_steps late_steps
  deploy_steps-Chain =
      link (IsRead adapter bound w) (read_before adapter bound) (λ f h. h)
        (read_before-IsAfter adapter bound w works)
        (link (HasIntent adapter bound w) (store_intent adapter bound) (λ f h. h.0) stored-IsAfter
          (link (IsEntered adapter bound w) (enter_deploying adapter bound) (λ f h. h.0.0)
            (enter_deploying-IsAfter adapter bound w works)
            (link (IsOpen adapter bound w) (reconcile_applied adapter bound) (λ f h. h.0.0.0)
              reconciled-IsAfter late_steps-Chain)))

  Safe-end : (survived count : ℕ) (r : Frame W × Attempt) → EndsIn survived count r → Safe r.0
  Safe-end survived count (f, stopped) h = h.0
  Safe-end survived count (f, completed_with a) h = h.0
  Safe-end survived count (f, failed_with failure) h = h.0

  abbrev attempt_at : ℕ → Site W → Frame W × Attempt
  attempt_at survived s =
      run_steps survived (deploy_steps adapter bound) (start_frame (state_of adapter bound) s)

  attempt-EndsIn :
      (survived : ℕ) (s : Site W)
      → IsSafe adapter bound w s
      → EndsIn survived 13 (attempt_at survived s)
  unfolding start_frame deploy_steps
  attempt-EndsIn survived s h =
      run_steps-EndsIn survived (deploy_steps adapter bound)
        (start_frame (state_of adapter bound) s) deploy_steps-Chain h

  -- Where the creation of the index has its effect, even if it raises, or raises and leaves the target
  -- as it was: from rows and a target that fit, any attempts, by workers that stop wherever they do,
  -- leave the target as it was or as one creation of the index leaves it, an artifact of the bound
  -- action that is applied only where the index is there, and a run that is deployed only with an
  -- applied artifact.
  pub deploy_again-IsSafe :
      (attempts : List ℕ) (s : Site W)
      → IsSafe adapter bound w s
      → IsSafe adapter bound w (deploy_again adapter bound attempts s)
  unfolding deploy_again deploy_for_run
  deploy_again-IsSafe [] s h = h
  deploy_again-IsSafe (survived ∷ rest) s h =
      deploy_again-IsSafe rest (deploy_for_run adapter bound survived s).0
        (Safe-end survived 13 (attempt_at survived s) (attempt-EndsIn survived s h))

  completed_end :
      (r : Frame W × Attempt)
      → EndsIn 13 13 r
      → (create adapter bound w).1 ≡ true
      → (a : DeploymentArtifact) × (r.1 ≡ completed_with a)
        × IsComplete adapter bound w r.0.site a
        × IsSafe adapter bound w r.0.site
  completed_end (f, stopped) h returns = absurd (omega (arith, h.1))
  completed_end (f, completed_with a) h returns = (a, refl, h.1, h.0)
  completed_end (f, failed_with failure) h returns = absurd (cc (h.1, returns))

  -- Where the creation of the index returns and has its effect, an attempt that is not interrupted
  -- completes after any interrupted ones: it returns the stored artifact as applied, the run is deployed,
  -- and the index was created at most once and is there.
  pub deploy_for_run-IsComplete :
      (attempts : List ℕ) (s : Site W)
      → IsSafe adapter bound w s
      → (create adapter bound w).1 ≡ true
      → let r = deploy_for_run adapter bound 13 (deploy_again adapter bound attempts s) in
        (a : DeploymentArtifact) × (r.1 ≡ completed_with a)
        × IsComplete adapter bound w r.0 a
        × IsSafe adapter bound w r.0
  unfolding deploy_for_run
  deploy_for_run-IsComplete attempts s h returns =
      completed_end (attempt_at 13 (deploy_again adapter bound attempts s))
        (attempt-EndsIn 13 (deploy_again adapter bound attempts s)
          (deploy_again-IsSafe attempts s h))
        returns
