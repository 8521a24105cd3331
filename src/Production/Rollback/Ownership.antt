-- ===== src/Production/Rollback/Ownership.antt =====
-- What the checks of a rollback establish: the ledger owns the index, and the target has not drifted.
use ai_driven_autonomous_no.Prelude.{
  ◌≡◌, refl, ap, ◌∙◌, String, Bool, true, not, Option, none, some, List, [], ◌∷◌, ◌++◌, str_eq,
  eq_iff, arith, if_cases, not-false,
}
use ai_driven_autonomous_no.Actions.{CreateIndexAction}
use ai_driven_autonomous_no.Adapter.{DatabaseAdapter}
use ai_driven_autonomous_no.Production.{
  Canonical, Entry, LedgerAction, index_state, index_action, hint_action, drop_action,
  restore_action, set_action, rolled_back_index, rolled_back_hint, prepared, applied, index_spec,
  named, only_has_keys, current_state, state_hash,
}
use ai_driven_autonomous_no.Production.Rollback.{
  RollbackReason, index_spec_mismatch, fingerprint_mismatch, relevant_drift_detected,
  target_mismatch, current_fingerprint, is_fingerprint, unless, verify_index, verify_ownership,
}

module _ {W : Type 0} (adapter : DatabaseAdapter W) (c : Canonical) where
  -- The entry is an applied CREATE_INDEX action for the target, the index that it created is there
  -- with its keys and its fingerprint, alone under its name, and the collection is in the state that the
  -- entry recorded.
  pub record IsOwned (w : W) (target : String) (entry : Entry) (a : CreateIndexAction)
      : Type 0 where
    pub fingerprint : String
    pub was_applied : entry.forward_action ≡ index_action applied target fingerprint a
    pub there : (current_state adapter w a.database a.collection).namespace_exists ≡ true
    pub intact :
        only_has_keys
          (named a.index_name (current_state adapter w a.database a.collection).indexes)
          (index_spec a).keys
        ≡ true
    pub printed :
        current_fingerprint c
          (named a.index_name (current_state adapter w a.database a.collection).indexes)
        ≡ some fingerprint
    pub undrifted :
        state_hash c (index_state (current_state adapter w a.database a.collection))
        ≡ state_hash c entry.after_state

  append_nil : (xs ys : List RollbackReason) → xs ++ ys ≡ [] → (xs ≡ []) × (ys ≡ [])
  append_nil [] ys h = (refl, h)
  append_nil (x ∷ xs) ys h = cc

  unless_nil : (b : Bool) (reason : RollbackReason) → unless b reason ≡ [] → b ≡ true
  unless_nil b reason h = ground arith

  is_print : (o : Option String) (print : String) → is_fingerprint o print ≡ true → o ≡ some print
  is_print none print h = cc
  is_print (some current) print h = ap some ((eq_iff current print).0 h)

  verify_index-IsOwned :
      (w : W) (entry : Entry) (target fingerprint : String) (a : CreateIndexAction)
      → entry.forward_action ≡ index_action applied target fingerprint a
      → verify_index adapter c w entry fingerprint a ≡ []
      → IsOwned w target entry a
  unfolding verify_index
  verify_index-IsOwned w entry target fingerprint a was =
      let state = current_state adapter w a.database a.collection in
      if_cases (λ reasons. reasons ≡ [] → IsOwned w target entry a) (not state.namespace_exists)
        (λ gone h. cc)
        (λ there h.
          let (keys, rest) =
            append_nil
              (unless (only_has_keys (named a.index_name state.indexes) (index_spec a).keys)
                index_spec_mismatch)
              _ h in
          let (print, drift) =
            append_nil
              (unless
                (is_fingerprint (current_fingerprint c (named a.index_name state.indexes))
                  fingerprint)
                fingerprint_mismatch)
              _ rest in
          record {
            fingerprint = fingerprint;
            was_applied = was;
            there = not-false _ there;
            intact = unless_nil _ index_spec_mismatch keys;
            printed = is_print _ fingerprint (unless_nil _ fingerprint_mismatch print);
            undrifted = (eq_iff _ _).0 (unless_nil _ relevant_drift_detected drift);
          })

  pub verify_ownership-IsOwned :
      (w : W) (entry : Entry) (forward : LedgerAction) (target : String)
      → entry.forward_action ≡ forward
      → verify_ownership adapter c w entry forward target ≡ []
      → (a : CreateIndexAction) × (fingerprint : String) × (forward
          ≡ index_action applied target fingerprint a)
        × IsOwned w target entry a
  unfolding verify_ownership
  verify_ownership-IsOwned w entry (index_action applied target' fingerprint a) target was h =
      let (same, checked) = append_nil (unless (str_eq target' target) target_mismatch) _ h in
      let e : target' ≡ target = (eq_iff target' target).0 (unless_nil _ target_mismatch same) in
      (
        a,
        fingerprint,
        ap (λ t. index_action applied t fingerprint a) e,
        verify_index-IsOwned w entry target fingerprint a
            (was ∙ ap (λ t. index_action applied t fingerprint a) e) checked,
      )
  verify_ownership-IsOwned w entry (index_action prepared target' fingerprint a) target was h = cc
  verify_ownership-IsOwned w entry (hint_action phase target' a) target was h = cc
  verify_ownership-IsOwned w entry (drop_action a) target was h = cc
  verify_ownership-IsOwned w entry (restore_action a) target was h = cc
  verify_ownership-IsOwned w entry (set_action a) target was h = cc
  verify_ownership-IsOwned w entry (rolled_back_index a) target was h = cc
  verify_ownership-IsOwned w entry (rolled_back_hint a) target was h = cc
