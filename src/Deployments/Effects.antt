-- ===== src/Deployments/Effects.antt =====
-- The steps of a deployment from its mutation to its end.
use ai_driven_autonomous_no.Prelude.{
  ◌≡◌, refl, sym, ap, ◌∙◌, subst, ◌⊎◌, inl, inr, Bool, true, false, ◌&&◌, Option, none, some,
  if_cases, arith, and_true,
}
use ai_driven_autonomous_no.Lifecycle.{deploying}
use ai_driven_autonomous_no.Adapter.{DatabaseAdapter}
use ai_driven_autonomous_no.Production.{TargetState}
use ai_driven_autonomous_no.Deployments.Records.{
  DeploymentArtifact, RecoveryRow, Site, BoundAction, Attempt, Frame, is_applied, is_bound,
}
use ai_driven_autonomous_no.Deployments.Durable.{
  status_at, has_effect, create, mutated, expects, apply_mutation, confirm_row, confirm_execution,
  verify_after, marked, mark_row, mark_applied, returned_at,
}
use ai_driven_autonomous_no.Deployments.Invariant.{
  CreatesOrNot, effect, IsOnce, ArtifactFits, RecoveryFits, IsAppliedRow, IsSafe, IsAfter,
  IsStarted, IsMutated, IsMarked, Never,
}
use ai_driven_autonomous_no.Deployments.Steps.{tests_deploying, ended-IsAfter}

module _ {W : Type 0} (adapter : DatabaseAdapter W) (bound : BoundAction) (w : W)
    (works : CreatesOrNot adapter bound w) where
  abbrev After : (Frame W → Type 0) → Frame W × Option Attempt → Type 0
  After = IsAfter adapter bound w

  abbrev There : W → Type 0
  There v = effect adapter bound w v ≡ true

  artifact_at :
      (o : Option DeploymentArtifact) (v u : W)
      → There u
      → ArtifactFits adapter bound w o v
      → ArtifactFits adapter bound w o u
  artifact_at none v u found h = tt
  artifact_at (some a) v u found h = (h.0, inr found)

  recovery_at :
      (o : Option RecoveryRow) (v u : W)
      → There u
      → RecoveryFits adapter bound w o v
      → RecoveryFits adapter bound w o u
  recovery_at none v u found h = tt
  recovery_at (some r) v u found h = (h.0, inr found)

  effect_of_confirmed :
      (f : Frame W)
      → f.confirmed ≡ true
      → (f.confirmed ≡ false) ⊎ There f.site.world
      → There f.site.world
  effect_of_confirmed f sure (inl unsure) = cc
  effect_of_confirmed f sure (inr found) = found

  absent_effect :
      (o : Option RecoveryRow) (r : RecoveryRow) (v : W)
      → o ≡ some r
      → RecoveryFits adapter bound w o v
      → (expects adapter bound o && effect adapter bound w v) ≡ false
      → effect adapter bound w v ≡ false
  unfolding expects
  absent_effect none r v e h unseen = cc
  absent_effect (some q) r v e h unseen = ground (arith, h.0)

  unapplied : (v : W) → IsOnce adapter bound w v → effect adapter bound w v ≡ false → v ≡ w
  unapplied v (inl here) unseen = here
  unapplied v (inr there_already) unseen = elim works [
    | inl creates ↦
        let seen : effect adapter bound w v ≡ true =
          ap (λ u. effect adapter bound w u) there_already ∙ creates in
        cc
    | inr nothing ↦ there_already ∙ nothing.0
  ]

  IsSafe-at :
      (s : Site W) (v : W)
      → v ≡ s.world
      → IsSafe adapter bound w s
      → IsSafe adapter bound w (record s { world = v })
  IsSafe-at s v same h = record {
    once = subst (IsOnce adapter bound w) (sym same) h.once;
    artifact_fits = subst (ArtifactFits adapter bound w s.artifact) (sym same) h.artifact_fits;
    recovery_fits = subst (RecoveryFits adapter bound w s.recovery) (sym same) h.recovery_fits;
    status_fits = h.status_fits;
  }

  After-creation :
      (f : Frame W) (answer : W × Bool)
      → create adapter bound w ≡ answer
      → f.site.world ≡ w
      → IsSafe adapter bound w f.site
      → ((a : DeploymentArtifact) × (f.site.artifact ≡ some a)) × (status_at f ≡ deploying)
      → After (IsMutated adapter bound w) (mutated adapter bound f answer)
  unfolding mutated
  After-creation f (v, returned) e before h open_row = elim works [
    | inl creates ↦
        let made : v ≡ (create adapter bound w).0 = sym (ap (λ a. a.0) e) in
        let found : There v = ap (λ u. effect adapter bound w u) made ∙ creates in
        let safe : IsSafe adapter bound w (record f.site { world = v }) = record {
          once = inr made;
          artifact_fits = artifact_at f.site.artifact f.site.world v found h.artifact_fits;
          recovery_fits = recovery_at f.site.recovery f.site.world v found h.recovery_fits;
          status_fits = h.status_fits;
        } in
        if_cases (After (IsMutated adapter bound w)) returned (λ done. ((safe, open_row), found))
          (λ raised. (safe, ap (λ a. a.1) e ∙ raised))
    | inr nothing ↦
        let same : v ≡ f.site.world = sym (ap (λ a. a.0) e) ∙ nothing.0 ∙ sym before in
        let raised : returned ≡ false = sym (ap (λ a. a.1) e) ∙ nothing.1 in
        rw raised (IsSafe-at f.site v same h, nothing.1)
  ]

  mutated-IsAfter :
      (f : Frame W)
      → IsSafe adapter bound w f.site
      → ((a : DeploymentArtifact) × (f.site.artifact ≡ some a)) × (status_at f ≡ deploying)
      → effect adapter bound w f.site.world ≡ false
      → After
          (IsMutated adapter bound w)
          (mutated adapter bound f (create adapter bound f.site.world))
  mutated-IsAfter f h open_row unseen =
      let before = unapplied f.site.world h.once unseen in
      After-creation f (create adapter bound f.site.world)
        (ap (λ v. create adapter bound v) (sym before)) before h open_row

  -- The mutation only runs where its effect is not there, which is at the target as it was.
  pub apply_mutation-IsAfter :
      (f : Frame W)
      → IsStarted adapter bound w f
      → After (IsMutated adapter bound w) (apply_mutation adapter bound f)
  unfolding apply_mutation
  apply_mutation-IsAfter f (((h, open_row), (r, present)), confirmed) =
      if_cases (After (IsMutated adapter bound w)) f.confirmed
        (λ sure. ((h, open_row), effect_of_confirmed f sure confirmed))
        (λ unsure.
          if_cases (After (IsMutated adapter bound w))
            (expects adapter bound f.site.recovery && effect adapter bound w f.site.world)
            (λ seen. (
              (h, open_row),
              (and_true (expects adapter bound f.site.recovery)
                  (effect adapter bound w f.site.world) seen).1,
            ))
            (λ unseen.
              mutated-IsAfter f h open_row
                (absent_effect f.site.recovery r f.site.world present h.recovery_fits unseen)))

  confirmed_fits :
      (o : Option RecoveryRow) (v : W)
      → There v
      → RecoveryFits adapter bound w o v
      → RecoveryFits adapter bound w (confirm_row adapter bound o) v
  unfolding confirm_row
  confirmed_fits none v found h = tt
  confirmed_fits (some r) v found h = (h.0, inr found)

  mark_present :
      (after : TargetState) (o : Option DeploymentArtifact) (a : DeploymentArtifact)
      → o ≡ some a
      → mark_row adapter bound after o ≡ some (marked adapter bound after a)
  unfolding mark_row
  mark_present after o a e = rw e refl

  is_marked_row :
      (after : TargetState) (a : DeploymentArtifact)
      → is_applied (marked adapter bound after a).artifact_status ≡ true
  unfolding is_applied
  is_marked_row after a = refl

  marked_fits :
      (after : TargetState) (a : DeploymentArtifact) (v : W)
      → There v
      → ArtifactFits adapter bound w (some a) v
      → ArtifactFits adapter bound w (some (marked adapter bound after a)) v
  unfolding is_bound
  marked_fits after a v found h = (h.0, inr found)

  pub confirm_execution-IsAfter :
      (f : Frame W)
      → IsMutated adapter bound w f
      → After (IsMutated adapter bound w) (confirm_execution adapter bound f)
  unfolding confirm_execution
  confirm_execution-IsAfter f ((h, open_row), found) =
      if_cases (After (IsMutated adapter bound w)) f.confirmed (λ sure. ((h, open_row), found))
        (λ unsure. (
          (
            record {
              once = h.once;
              artifact_fits = h.artifact_fits;
              recovery_fits = confirmed_fits f.site.recovery f.site.world found h.recovery_fits;
              status_fits = h.status_fits;
            },
            open_row,
          ),
          found,
        ))

  pub verify_after-IsAfter :
      (f : Frame W)
      → IsMutated adapter bound w f
      → After (IsMutated adapter bound w) (verify_after adapter bound f)
  unfolding verify_after
  verify_after-IsAfter f ((h, open_row), found) =
      if_cases (After (IsMutated adapter bound w)) (has_effect adapter bound f.site.world)
        (λ seen. ((h, open_row), found)) (λ unseen. absurd (cc (found, unseen)))

  pub mark_applied-IsAfter :
      (f : Frame W)
      → IsMutated adapter bound w f
      → After (IsMarked adapter bound w) (mark_applied adapter bound f)
  unfolding mark_applied
  mark_applied-IsAfter f ((h, ((a, present), status)), found) =
      let same : mark_row adapter bound f.after f.site.artifact
          ≡ some (marked adapter bound f.after a) =
        mark_present f.after f.site.artifact a present in
      (
        (
          (
            record {
              once = h.once;
              artifact_fits =
                  subst (λ o. ArtifactFits adapter bound w o f.site.world) (sym same)
                    (marked_fits f.after a f.site.world found (
                      subst (λ o. ArtifactFits adapter bound w o f.site.world) present
                        h.artifact_fits));
              recovery_fits = h.recovery_fits;
              status_fits = inr (inl status);
            },
            ((marked adapter bound f.after a, same), status),
          ),
          found,
        ),
        subst (λ o. IsAppliedRow adapter bound w o) (sym same) (is_marked_row f.after a),
      )

  pub returned_at-IsAfter :
      (f : Frame W) (a : DeploymentArtifact)
      → f.site.artifact ≡ some a
      → IsMarked adapter bound w f
      → After (Never adapter bound w) (returned_at adapter bound f (some a))
  unfolding returned_at
  returned_at-IsAfter f a present (((h, (intent, status)), found), done) =
      let (other, same) = tests_deploying (status_at f) status in
      let is_done : is_applied a.artifact_status ≡ true =
        subst (λ o. IsAppliedRow adapter bound w o) present done in
      rw same (
        ended-IsAfter adapter bound w works (Never adapter bound w) f a present is_done found h
          status)
