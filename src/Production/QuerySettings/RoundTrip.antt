-- ===== src/Production/QuerySettings/RoundTrip.antt =====
-- The rollback of a hint deployment restores the hint that it replaced.
use ai_driven_autonomous_no.Prelude.{ℕ, ◌≡◌, refl, subst, String, true, Option, some, List, eq_refl}
use ai_driven_autonomous_no.Actions.{SetQuerySettingsIndexHintAction}
use ai_driven_autonomous_no.Ledger.{append, verify}
use ai_driven_autonomous_no.Adapter.{DatabaseAdapter, QuerySettingsIndexHint, IsCoherent}
use ai_driven_autonomous_no.Production.{Plant, Canonical, Entry, LedgerAction, hint_action, applied}
use ai_driven_autonomous_no.Production.Executor.{Draws}
use ai_driven_autonomous_no.Production.Rollback.{entry_with_id}
use ai_driven_autonomous_no.Production.QuerySettings.{
  QuerySettingsDeploymentRequest, QuerySettingsDeploymentResult, QuerySettingsRollbackRequest,
  deployed, HintRollback, restored, same_hint, allowed_of, hint_of, current_hint, set_hint,
  restore_hint, rollback_entry, rollback_hint, deploy_hint,
}
use ai_driven_autonomous_no.Production.QuerySettings.Gates.{same_optional_refl}
use ai_driven_autonomous_no.Production.QuerySettings.Success.{
  IsDeployed, Leaves, deploy_hint-Leaves,
}

same_hint_refl : (x : Option QuerySettingsIndexHint) → same_hint x x ≡ true
unfolding same_hint
same_hint_refl x = same_optional_refl (allowed_of x)

allowed_of-hint_of : (names : List String) → allowed_of (hint_of (some names)) ≡ some names
unfolding hint_of allowed_of
allowed_of-hint_of names = refl

module _ {W : Type 0} (adapter : DatabaseAdapter W) (c : Canonical)
    (coherent : IsCoherent adapter) where
  -- The rollback returned, and the hint for the action is `hint`.
  abbrev pub Restores :
      SetQuerySettingsIndexHintAction
      → Option QuerySettingsIndexHint
      → Plant W × HintRollback
      → Type 0
  Restores a hint r =
      ((written : Entry) × (r.1 ≡ restored written)) × (current_hint adapter c r.0.world a ≡ hint)

  current_hint-set_hint :
      (w : W) (a : SetQuerySettingsIndexHintAction) (hint : Option QuerySettingsIndexHint)
      → (set_hint adapter c w a hint).1 ≡ true
      → current_hint adapter c (set_hint adapter c w a hint).0 a ≡ hint
  unfolding current_hint
  current_hint-set_hint w a hint done =
      coherent.set_get w (record { collection = a.collection }) a.query_shape_hash hint done

  restore_hint-Restores :
      (p : Plant W) (id : String) (at : ℕ) (actor : String) (entry : Entry)
      (a : SetQuerySettingsIndexHintAction)
      → current_hint adapter c p.world a ≡ hint_of (some a.allowed_indexes)
      → (set_hint adapter c p.world a (hint_of a.previous_allowed_indexes)).1 ≡ true
      → Restores a
          (hint_of a.previous_allowed_indexes)
          (restore_hint adapter c p id at actor entry a)
  unfolding restore_hint append
  restore_hint-Restores p id at actor entry a in_place done =
      let read = current_hint-set_hint p.world a (hint_of a.previous_allowed_indexes) done in
      rw
        (
          in_place,
          allowed_of-hint_of a.allowed_indexes,
          same_optional_refl (some a.allowed_indexes),
          done,
          read,
          same_hint_refl (hint_of a.previous_allowed_indexes),
        )
        ((_, refl), read)

  rollback_entry-Restores :
      (p : Plant W) (id : String) (at : ℕ) (actor target entry_id : String) (entry : Entry)
      (forward : LedgerAction) (a : SetQuerySettingsIndexHintAction)
      → forward ≡ hint_action applied target a
      → current_hint adapter c p.world a ≡ hint_of (some a.allowed_indexes)
      → (set_hint adapter c p.world a (hint_of a.previous_allowed_indexes)).1 ≡ true
      → Restores a (hint_of a.previous_allowed_indexes) (
          rollback_entry adapter c p id at
            (record { target_id = target; applied_ledger_entry_id = entry_id; actor = actor })
            entry
            forward)
  unfolding rollback_entry
  rollback_entry-Restores p id at actor target entry_id entry forward a was in_place done =
      rw (was, eq_refl target) (restore_hint-Restores p id at actor entry a in_place done)

  -- On a coherent adapter, where a hint deployment from a ledger that verifies returned `d`, and the
  -- id of its applied entry finds that entry, the rollback of the entry returns if the adapter's update
  -- does, and the hint is then what it was before the deployment.
  pub rollback_hint-deploy_hint :
      (p q : Plant W) (now : ℕ → ℕ) (draws : Draws) (request : QuerySettingsDeploymentRequest)
      (d : QuerySettingsDeploymentResult) (id : String) (at : ℕ) (actor : String)
      → verify c.sha256 c.dump_entry p.ledger ≡ true
      → deploy_hint adapter c p now draws request ≡ (q, deployed d)
      → entry_with_id d.applied_entry.entry_id q.ledger ≡ some d.applied_entry
      → (set_hint adapter c q.world request.action
          (hint_of request.action.previous_allowed_indexes)).1
        ≡ true
      → Restores request.action (current_hint adapter c p.world request.action) (
          rollback_hint adapter c q id at (record {
            target_id = request.target_id;
            applied_ledger_entry_id = d.applied_entry.entry_id;
            actor = actor;
          }))
  unfolding rollback_hint
  rollback_hint-deploy_hint p q now draws request d id at actor v returned found done =
      let left : IsDeployed adapter c p request q d =
        (subst (Leaves adapter c p request) returned
          (deploy_hint-Leaves adapter c p now draws request v)).1 in
      let ask : QuerySettingsRollbackRequest = record {
        target_id = request.target_id;
        applied_ledger_entry_id = d.applied_entry.entry_id;
        actor = actor;
      } in
      let forward = d.applied_entry.forward_action in
      let undone =
        rollback_entry-Restores q id at actor request.target_id d.applied_entry.entry_id
          d.applied_entry forward request.action left.done left.in_place done in
      rw found (
        subst
          (λ h.
            Restores request.action h
              (rollback_entry adapter c q id at ask d.applied_entry forward))
          left.prior undone)
