-- ===== src/Deployments/Invariant.antt =====
-- Every step of a deployment keeps what is known of the rows of the run and of the target.
use ai_driven_autonomous_no.Prelude.{◌≡◌, ◌⊎◌, Bool, true, false, Option, none, some, str_eq}
use ai_driven_autonomous_no.Lifecycle.{OptimizationState, approved, deploying, deployed}
use ai_driven_autonomous_no.Adapter.{DatabaseAdapter}
use ai_driven_autonomous_no.Deployments.Records.{
  DeploymentArtifact, RecoveryRow, Site, BoundAction, Attempt, completed_with, failed_with, stopped,
  Frame, is_applied, is_bound, is_confirmed,
}
use ai_driven_autonomous_no.Deployments.Durable.{status_at, state_of, has_effect, create}

module _ {W : Type 0} (adapter : DatabaseAdapter W) (bound : BoundAction) (w : W) where
  abbrev pub effect : W → Bool
  effect v = has_effect adapter bound v

  -- The creation either has its effect, whether it returns or raises, or it raises and leaves the target
  -- as it was.
  abbrev pub CreatesOrNot : Type 0
  CreatesOrNot =
      (effect (create adapter bound w).0 ≡ true)
      ⊎ (((create adapter bound w).0 ≡ w) × ((create adapter bound w).1 ≡ false))

  -- The target as it was, or as one creation of the index leaves it.
  abbrev pub IsOnce : W → Type 0
  IsOnce v = (v ≡ w) ⊎ (v ≡ (create adapter bound w).0)

  -- An artifact is of the bound action, and is applied only where the index is there.
  abbrev pub ArtifactFits : Option DeploymentArtifact → W → Type 0
  ArtifactFits none v = Unit
  ArtifactFits (some a) v =
      (is_bound bound a ≡ true) × ((is_applied a.artifact_status ≡ false) ⊎ (effect v ≡ true))

  abbrev pub RecoveryFits : Option RecoveryRow → W → Type 0
  RecoveryFits none v = Unit
  RecoveryFits (some r) v =
      (str_eq r.expected_fingerprint bound.fingerprint ≡ true)
      × ((is_confirmed r.recovery_state ≡ false) ⊎ (effect v ≡ true))

  abbrev pub IsAppliedRow : Option DeploymentArtifact → Type 0
  IsAppliedRow none = ⊥
  IsAppliedRow (some a) = is_applied a.artifact_status ≡ true

  -- A deployed run has an applied artifact.
  abbrev pub StatusFits : OptimizationState → Option DeploymentArtifact → Type 0
  StatusFits s a = (s ≡ approved) ⊎ ((s ≡ deploying) ⊎ ((s ≡ deployed) × IsAppliedRow a))

  pub record IsSafe (s : Site W) : Type 0 where
    pub once : IsOnce s.world
    pub artifact_fits : ArtifactFits s.artifact s.world
    pub recovery_fits : RecoveryFits s.recovery s.world
    pub status_fits : StatusFits s.store.row.status s.artifact

  -- A completed attempt leaves the run deployed, its artifact applied and the index in the target.
  pub record IsComplete (s : Site W) (a : DeploymentArtifact) : Type 0 where
    pub stored : s.artifact ≡ some a
    pub is_marked : is_applied a.artifact_status ≡ true
    pub status : s.store.row.status ≡ deployed
    pub there : effect s.world ≡ true

  -- A step only fails where the creation itself raises, and never stops by itself.
  abbrev pub IsEnd : Site W → Attempt → Type 0
  IsEnd s (completed_with a) = IsComplete s a
  IsEnd s (failed_with failure) = (create adapter bound w).1 ≡ false
  IsEnd s stopped = ⊥

  abbrev pub IsAfter : (Frame W → Type 0) → Frame W × Option Attempt → Type 0
  IsAfter Q (f, none) = Q f
  IsAfter Q (f, some attempt) = IsSafe f.site × IsEnd f.site attempt

  -- What holds before each step.
  abbrev pub AtStart : Frame W → Type 0
  AtStart f = IsSafe f.site

  abbrev pub IsRead : Frame W → Type 0
  IsRead f = IsSafe f.site × (f.before ≡ state_of adapter bound f.site.world)

  abbrev pub HasIntent : Frame W → Type 0
  HasIntent f = IsRead f × ((a : DeploymentArtifact) × (f.site.artifact ≡ some a))

  abbrev pub IsEntered : Frame W → Type 0
  IsEntered f = HasIntent f × ((status_at f ≡ deploying) ⊎ (status_at f ≡ deployed))

  abbrev pub IsOpen : Frame W → Type 0
  IsOpen f =
      IsSafe f.site
      × (((a : DeploymentArtifact) × (f.site.artifact ≡ some a)) × (status_at f ≡ deploying))

  abbrev pub HasRecovery : Frame W → Type 0
  HasRecovery f = IsOpen f × ((r : RecoveryRow) × (f.site.recovery ≡ some r))

  abbrev pub IsStarted : Frame W → Type 0
  IsStarted f = HasRecovery f × ((f.confirmed ≡ false) ⊎ (effect f.site.world ≡ true))

  abbrev pub IsMutated : Frame W → Type 0
  IsMutated f = IsOpen f × (effect f.site.world ≡ true)

  abbrev pub IsMarked : Frame W → Type 0
  IsMarked f = IsMutated f × IsAppliedRow f.site.artifact

  abbrev pub Never : Frame W → Type 0
  Never f = ⊥
