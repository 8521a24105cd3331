-- ===== src/Deployments/Recorded.antt =====
-- The steps of a deployment that write the recovery row and the ledger.
use ai_driven_autonomous_no.Prelude.{
  ◌≡◌, refl, subst, inl, inr, true, Option, none, some, [], ◌∷◌, ◌++◌, eq_refl, if_cases,
}
use ai_driven_autonomous_no.Adapter.{DatabaseAdapter}
use ai_driven_autonomous_no.Deployments.Records.{
  RecoveryRow, LedgerEvent, BoundAction, Attempt, deployment_intent, deployment_applied,
  execution_started, Frame, is_confirmed,
}
use ai_driven_autonomous_no.Deployments.Durable.{
  recovery_or_new, record_recovery, append_event, intended, append_intent, start_at, append_applied,
}
use ai_driven_autonomous_no.Deployments.Invariant.{
  CreatesOrNot, effect, RecoveryFits, IsSafe, IsAfter, IsOpen, HasRecovery, IsStarted, IsMarked,
}

module _ {W : Type 0} (adapter : DatabaseAdapter W) (bound : BoundAction) (w : W)
    (works : CreatesOrNot adapter bound w) where
  abbrev After : (Frame W → Type 0) → Frame W × Option Attempt → Type 0
  After = IsAfter adapter bound w

  abbrev There : W → Type 0
  There v = effect adapter bound w v ≡ true

  recovery_or_new_fits :
      (r : Option RecoveryRow) (v : W)
      → RecoveryFits adapter bound w r v
      → RecoveryFits adapter bound w (some (recovery_or_new adapter bound r)) v
  unfolding recovery_or_new is_confirmed
  recovery_or_new_fits none v h = (eq_refl bound.fingerprint, inl refl)
  recovery_or_new_fits (some r) v h = h

  pub record_recovery-IsAfter :
      (f : Frame W)
      → IsOpen adapter bound w f
      → After (HasRecovery adapter bound w) (record_recovery adapter bound f)
  unfolding record_recovery
  record_recovery-IsAfter f (h, (intent, status)) = (
    (
      record {
        once = h.once;
        artifact_fits = h.artifact_fits;
        recovery_fits = recovery_or_new_fits f.site.recovery f.site.world h.recovery_fits;
        status_fits = h.status_fits;
      },
      (intent, status),
    ),
    (recovery_or_new adapter bound f.site.recovery, refl),
  )

  IsSafe-events :
      (f : Frame W) (event : LedgerEvent)
      → IsSafe adapter bound w f.site
      → IsSafe adapter bound w (record f.site { events = f.site.events ++ event ∷ [] })
  IsSafe-events f event h = record {
    once = h.once;
    artifact_fits = h.artifact_fits;
    recovery_fits = h.recovery_fits;
    status_fits = h.status_fits;
  }

  pub append_intent-IsAfter :
      (f : Frame W)
      → HasRecovery adapter bound w f
      → After (HasRecovery adapter bound w) (append_intent adapter bound f)
  unfolding append_intent append_event
  append_intent-IsAfter f ((h, open_row), row) =
      if_cases (After (HasRecovery adapter bound w)) f.intent_created
        (λ new. (
          (
            IsSafe-events f (deployment_intent f.before (intended adapter bound f.before)) h,
            open_row,
          ),
          row,
        ))
        (λ old. ((h, open_row), row))

  confirmed_effect :
      (r : RecoveryRow) (v : W)
      → RecoveryFits adapter bound w (some r) v
      → is_confirmed r.recovery_state ≡ true
      → There v
  confirmed_effect r v (expected, inl unconfirmed) e = cc
  confirmed_effect r v (expected, inr found) e = found

  pub start_at-IsAfter :
      (f : Frame W) (r : RecoveryRow)
      → f.site.recovery ≡ some r
      → HasRecovery adapter bound w f
      → After (IsStarted adapter bound w) (start_at adapter bound f (some r))
  unfolding start_at is_confirmed
  start_at-IsAfter f r present ((h, open_row), row) =
      let fits : RecoveryFits adapter bound w (some r) f.site.world =
        subst (λ o. RecoveryFits adapter bound w o f.site.world) present h.recovery_fits in
      if_cases (After (IsStarted adapter bound w)) (is_confirmed r.recovery_state)
        (λ confirmed. (((h, open_row), row), inr (confirmed_effect r f.site.world fits confirmed)))
        (λ unconfirmed. (
          (
            (
              record {
                once = h.once;
                artifact_fits = h.artifact_fits;
                recovery_fits = (fits.0, inl refl);
                status_fits = h.status_fits;
              },
              open_row,
            ),
            (record r { recovery_state = execution_started }, refl),
          ),
          inl refl,
        ))

  pub append_applied-IsAfter :
      (f : Frame W)
      → IsMarked adapter bound w f
      → After (IsMarked adapter bound w) (append_applied adapter bound f)
  unfolding append_applied append_event
  append_applied-IsAfter f (((h, open_row), found), done) = (
    (
      (
        IsSafe-events f (deployment_applied f.before (intended adapter bound f.before) f.after) h,
        open_row,
      ),
      found,
    ),
    done,
  )
