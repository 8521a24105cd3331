-- ===== src/Deployments/Steps.antt =====
-- Each step of a deployment takes what holds before it to what holds before the next.
use ai_driven_autonomous_no.Prelude.{
  ◌≡◌, refl, sym, ap, ◌∙◌, subst, ◌⊎◌, inl, inr, true, false, Option, none, some, eq_refl, if_cases,
}
use ai_driven_autonomous_no.Lifecycle.{OptimizationState, approved, deploying, deployed, same_state}
use ai_driven_autonomous_no.Lifecycle.Graph.{◌⟶◌, deploy, apply}
use ai_driven_autonomous_no.Adapter.{DatabaseAdapter}
use ai_driven_autonomous_no.Runs.{RunStore}
use ai_driven_autonomous_no.Runs.Transition.{moved_row}
use ai_driven_autonomous_no.Runs.Evidence.{Warrant, transition_run_outcomes}
use ai_driven_autonomous_no.Deployments.Records.{
  DeploymentArtifact, BoundAction, Attempt, Frame, has_exact_index, is_applied, is_bound,
}
use ai_driven_autonomous_no.Deployments.Durable.{
  after_transition_of, transition_to, status_at, read_before, store_intent_at, new_artifact,
  enter_deploying, ended, reconcile, reconcile_at, marked,
}
use ai_driven_autonomous_no.Deployments.Invariant.{
  CreatesOrNot, effect, ArtifactFits, IsAppliedRow, StatusFits, IsSafe, IsAfter, AtStart, IsRead,
  HasIntent, IsEntered, IsOpen,
}

deploy_edge :
    (s : OptimizationState) (store : RunStore)
    → s ≡ approved
    → (edge : s ⟶ deploying) × Warrant edge store none
deploy_edge s store e = rw e (deploy, refl)

apply_edge :
    (s : OptimizationState) (store : RunStore)
    → s ≡ deploying
    → (edge : s ⟶ deployed) × Warrant edge store none
apply_edge s store e = rw e (apply, refl)

pub tests_approved : (s : OptimizationState) → s ≡ approved → same_state s approved ≡ true
unfolding same_state
tests_approved s e = rw e refl

pub tests_deploying :
    (s : OptimizationState)
    → s ≡ deploying
    → (same_state s approved ≡ false) × (same_state s deploying ≡ true)
unfolding same_state
tests_deploying s e = rw e (refl, refl)

tests_deployed :
    (s : OptimizationState)
    → s ≡ deployed
    → (same_state s approved ≡ false)
      × (same_state s deploying ≡ false)
      × (same_state s deployed ≡ true)
unfolding same_state
tests_deployed s e = rw e (refl, refl, refl)

apart : (s : OptimizationState) → s ≡ deployed → s ≡ approved → ⊥
apart s e f = cc

module _ {W : Type 0} where
  -- The frame after a transition.
  abbrev pub moved : Frame W → OptimizationState → Frame W
  moved f t = record f {
    site = record f.site {
      store = record f.site.store { row = moved_row f.site.store.row t none };
    };
  }

  -- A transition that the lifecycle allows is made.
  transition_to-made :
      (f : Frame W) (t : OptimizationState)
      → ((edge : status_at f ⟶ t) × Warrant edge f.site.store none)
      → transition_to f t ≡ (moved f t, none)
  unfolding transition_to after_transition_of
  transition_to-made f t allowed = elim (transition_run_outcomes f.site.store t none) [
    | inl (made, e) ↦ rw e refl
    | inr (other, e) ↦ absurd (other allowed)
  ]

module _ {W : Type 0} (adapter : DatabaseAdapter W) (bound : BoundAction) (w : W)
    (works : CreatesOrNot adapter bound w) where
  abbrev After : (Frame W → Type 0) → Frame W × Option Attempt → Type 0
  After = IsAfter adapter bound w

  pub read_before-IsAfter :
      (f : Frame W)
      → AtStart adapter bound w f
      → After (IsRead adapter bound w) (read_before adapter bound f)
  unfolding read_before
  read_before-IsAfter f h = (
    record {
      once = h.once;
      artifact_fits = h.artifact_fits;
      recovery_fits = h.recovery_fits;
      status_fits = h.status_fits;
    },
    refl,
  )

  new_status :
      (s : OptimizationState) (a : DeploymentArtifact) (o : Option DeploymentArtifact)
      → o ≡ none
      → StatusFits adapter bound w s o
      → StatusFits adapter bound w s (some a)
  new_status s a none e (inl h) = inl h
  new_status s a none e (inr (inl h)) = inr (inl h)
  new_status s a none e (inr (inr (d, never))) = absurd never
  new_status s a (some b) e h = cc

  pub store_intent_at-IsAfter :
      (f : Frame W) (o : Option DeploymentArtifact)
      → f.site.artifact ≡ o
      → IsRead adapter bound w f
      → After (HasIntent adapter bound w) (store_intent_at adapter bound f o)
  unfolding store_intent_at is_bound is_applied
  store_intent_at-IsAfter f none e (h, read) = (
    (
      record {
        once = h.once;
        artifact_fits = (
          rw
              (
                eq_refl bound.selected_candidate_id,
                eq_refl bound.bound_fingerprint,
                eq_refl bound.fingerprint,
              )
              refl,
          inl refl,
        );
        recovery_fits = h.recovery_fits;
        status_fits =
            new_status f.site.store.row.status (new_artifact adapter bound f.before) f.site.artifact
              e h.status_fits;
      },
      read,
    ),
    (new_artifact adapter bound f.before, refl),
  )
  store_intent_at-IsAfter f (some a) e (h, read) =
      let fits : ArtifactFits adapter bound w (some a) f.site.world =
        subst (λ o. ArtifactFits adapter bound w o f.site.world) e h.artifact_fits in
      rw (fits.0) (
        (
          record {
            once = h.once;
            artifact_fits = h.artifact_fits;
            recovery_fits = h.recovery_fits;
            status_fits = h.status_fits;
          },
          read,
        ),
        (a, e),
      )

  IsSafe-moved :
      (f : Frame W) (t : OptimizationState)
      → StatusFits adapter bound w t f.site.artifact
      → IsSafe adapter bound w f.site
      → IsSafe adapter bound w (moved f t).site
  unfolding moved_row
  IsSafe-moved f t status h = record {
    once = h.once;
    artifact_fits = h.artifact_fits;
    recovery_fits = h.recovery_fits;
    status_fits = status;
  }

  pub enter_deploying-IsAfter :
      (f : Frame W)
      → HasIntent adapter bound w f
      → After (IsEntered adapter bound w) (enter_deploying adapter bound f)
  unfolding enter_deploying moved_row
  enter_deploying-IsAfter f ((h, read), (a, present)) = elim h.status_fits [
    | inl e ↦
        rw
          (
            tests_approved (status_at f) e,
            transition_to-made f deploying (deploy_edge (status_at f) f.site.store e),
          )
          (((IsSafe-moved f deploying (inr (inl refl)) h, read), (a, present)), inl refl)
    | inr (inl e) ↦
        let (other, same) = tests_deploying (status_at f) e in
        rw (other, same) (((h, read), (a, present)), inl e)
    | inr (inr (e, marked)) ↦
        let (other, earlier, same) = tests_deployed (status_at f) e in
        rw (other, earlier, same) (((h, read), (a, present)), inr e)
  ]

  pub ended-IsAfter :
      (Q : Frame W → Type 0) (f : Frame W) (a : DeploymentArtifact)
      → f.site.artifact ≡ some a
      → is_applied a.artifact_status ≡ true
      → effect adapter bound w f.site.world ≡ true
      → IsSafe adapter bound w f.site
      → status_at f ≡ deploying
      → After Q (ended adapter bound a (transition_to f deployed))
  unfolding ended moved_row
  ended-IsAfter Q f a present marked there h e =
      let row_marked : IsAppliedRow adapter bound w f.site.artifact =
        subst (λ o. IsAppliedRow adapter bound w o) (sym present) marked in
      rw (transition_to-made f deployed (apply_edge (status_at f) f.site.store e)) (
        IsSafe-moved f deployed (inr (inr (refl, row_marked))) h,
        record { stored = present; is_marked = marked; status = refl; there = there },
      )

  applied_effect :
      (a : DeploymentArtifact) (v : W)
      → ArtifactFits adapter bound w (some a) v
      → is_applied a.artifact_status ≡ true
      → effect adapter bound w v ≡ true
  applied_effect a v (binding, inl open_row) marked = cc
  applied_effect a v (binding, inr there) marked = there

  -- A run whose artifact is not applied is not deployed.
  open_status :
      (s : OptimizationState) (a : DeploymentArtifact) (o : Option DeploymentArtifact)
      → o ≡ some a
      → is_applied a.artifact_status ≡ false
      → (s ≡ deploying) ⊎ (s ≡ deployed)
      → StatusFits adapter bound w s o
      → s ≡ deploying
  open_status s a none e open_row status h = cc
  open_status s a (some b) e open_row (inl status) h = status
  open_status s a (some b) e open_row (inr status) (inl h) = absurd (apart s status h)
  open_status s a (some b) e open_row (inr status) (inr (inl h)) = h
  open_status s a (some b) e open_row (inr status) (inr (inr (d, marked))) = cc

  pub reconcile_at-IsAfter :
      (f : Frame W) (a : DeploymentArtifact)
      → f.site.artifact ≡ some a
      → IsEntered adapter bound w f
      → After (IsOpen adapter bound w) (reconcile_at adapter bound f (some a))
  unfolding reconcile_at reconcile
  reconcile_at-IsAfter f a present (((h, read), intent), status) =
      let fits : ArtifactFits adapter bound w (some a) f.site.world =
        subst (λ o. ArtifactFits adapter bound w o f.site.world) present h.artifact_fits in
      if_cases (After (IsOpen adapter bound w)) (is_applied a.artifact_status)
        (λ marked.
          let there = applied_effect a f.site.world fits marked in
          let seen : has_exact_index f.before bound.action ≡ true =
            ap (λ b. has_exact_index b bound.action) read ∙ there in
          elim status [
            | inl e ↦
                let (other, same) = tests_deploying (status_at f) e in
                rw (seen, same)
                  (ended-IsAfter (IsOpen adapter bound w) f a present marked there h e)
            | inr e ↦
                let (other, earlier, same) = tests_deployed (status_at f) e in
                rw (seen, earlier, same)
                  (h, record { stored = present; is_marked = marked; status = e; there = there })
          ])
        (λ open_row. (
          h,
          (
            (a, present),
            open_status (status_at f) a f.site.artifact present open_row status h.status_fits,
          ),
        ))
