-- ===== src/Production/Rollback.antt =====
-- `OwnedIndexRollbacker` of backend/app/rollback/owned_index.py. It takes no lock: `between` is what other
-- clients do to the target after the checks and before the rollback acts.
pub mod Ownership
pub mod Safety
use ai_driven_autonomous_no.Prelude.{
  ℕ, String, Bool, true, false, not, Option, none, some, List, [], ◌∷◌, ◌++◌, any, find, str_eq,
  if◌then◌else◌,
}
use ai_driven_autonomous_no.Actions.{CreateIndexAction, inverse_create}
use ai_driven_autonomous_no.Ledger.{Evidence, append}
use ai_driven_autonomous_no.Adapter.{DatabaseAdapter, IndexSpec}
use ai_driven_autonomous_no.Production.{
  Plant, Canonical, Entry, TargetState, LedgerState, LedgerAction, index_state, index_action,
  drop_action, rolled_back_index, Phase, prepared, applied, index_spec, named, only_has_keys,
  current_state, state_hash, index_fingerprint,
}

pub data RollbackReason : Type 0 where
  ledger_ownership_missing target_mismatch namespace_mismatch index_spec_mismatch : RollbackReason
  fingerprint_mismatch relevant_drift_detected resulting_state_mismatch : RollbackReason

pub record RollbackRequest : Type 0 where
  pub target_id : String
  pub applied_ledger_entry_id : String
  pub actor : String

-- `RollbackResult`, or the exception of an adapter call that did not return.
pub data RollbackOutcome : Type 0 where
  rolled_back : Entry → RollbackOutcome
  rollback_blocked : List RollbackReason → RollbackOutcome
  rollback_raised : RollbackOutcome

abbrev pub entry_with_id : String → List Entry → Option Entry
entry_with_id id ledger = find (λ e. str_eq e.entry_id id) ledger

-- `matching[0]`'s fingerprint where exactly one index matches, and none otherwise.
unfoldable pub current_fingerprint : Canonical → List IndexSpec → Option String
current_fingerprint c (i ∷ []) = some (index_fingerprint c i)
current_fingerprint c _ = none

abbrev pub is_fingerprint : Option String → String → Bool
is_fingerprint none print = false
is_fingerprint (some current) print = str_eq current print

abbrev pub unless : Bool → RollbackReason → List RollbackReason
unless ok reason = if ok then [] else reason ∷ []

-- The plant at which a rollback acts whose checks found nothing.
abbrev pub met : {W : Type 0} → (W → W) → Plant W → Plant W
met between p = record p { world = between p.world }

module _ {W : Type 0} (adapter : DatabaseAdapter W) (c : Canonical) where
  -- The checks of `_verify_ownership` from the namespace on.
  unfoldable pub verify_index : W → Entry → String → CreateIndexAction → List RollbackReason
  verify_index w entry fingerprint a =
      let state = current_state adapter w a.database a.collection in
      if not state.namespace_exists
      then namespace_mismatch ∷ []
      else let matching = named a.index_name state.indexes in
        unless (only_has_keys matching (index_spec a).keys) index_spec_mismatch
        ++ (unless (is_fingerprint (current_fingerprint c matching) fingerprint)
              fingerprint_mismatch
            ++ unless (str_eq (state_hash c (index_state state)) (state_hash c entry.after_state))
                relevant_drift_detected)

  -- `_verify_ownership`. Only an applied CREATE_INDEX action is owned.
  unfoldable pub verify_ownership : W → Entry → LedgerAction → String → List RollbackReason
  verify_ownership w entry (index_action applied target_id fingerprint a) target =
      unless (str_eq target_id target) target_mismatch ++ verify_index w entry fingerprint a
  verify_ownership w entry _ target = ledger_ownership_missing ∷ []

  -- After the checks: drop the index of the action, verify, ledger.
  unfoldable pub remove_owned :
      Plant W
      → String
      → ℕ
      → String
      → Entry
      → LedgerAction
      → CreateIndexAction
      → Plant W × RollbackOutcome
  remove_owned p entry_id at actor entry forward a =
      let before = current_state adapter p.world a.database a.collection in
      let (world, returned) =
        adapter.drop_index p.world (record { collection = a.collection }) a.index_name in
      let after = current_state adapter world a.database a.collection in
      if not returned
      then (record p { world = world }, rollback_raised)
      else if any (λ i. str_eq i.name a.index_name) after.indexes
      then (record p { world = world }, rollback_blocked (resulting_state_mismatch ∷ []))
      else let (ledger, written) = append c.sha256 c.dump_entry p.ledger entry_id at (record {
        before_state = index_state before;
        intended_state = index_state after;
        after_state = index_state after;
        forward_action = rolled_back_index (inverse_create a);
        inverse_action = forward;
        evidence_hash = entry.evidence_hash;
        actor = actor;
      }) in
        (record p { world = world; ledger = ledger }, rolled_back written)

  -- A rollback whose checks found nothing acts on the fields of the action.
  unfoldable pub remove_checked :
      Plant W → String → ℕ → String → Entry → LedgerAction → Plant W × RollbackOutcome
  remove_checked p entry_id at actor entry (index_action phase target_id fingerprint a) =
      remove_owned p entry_id at actor entry (index_action phase target_id fingerprint a) a
  remove_checked p entry_id at actor entry _ = (p, rollback_raised)

  abbrev pub when_owned :
      (W → W)
      → Plant W
      → String
      → ℕ
      → String
      → Entry
      → List RollbackReason
      → Plant W × RollbackOutcome
  when_owned between p entry_id at actor entry [] =
      remove_checked (met between p) entry_id at actor entry entry.forward_action
  when_owned between p entry_id at actor entry (reason ∷ more) =
      (p, rollback_blocked (reason ∷ more))

  abbrev pub when_found :
      (W → W) → Plant W → String → ℕ → RollbackRequest → Option Entry → Plant W × RollbackOutcome
  when_found between p entry_id at request none =
      (p, rollback_blocked (ledger_ownership_missing ∷ []))
  when_found between p entry_id at request (some entry) =
      when_owned between p entry_id at request.actor entry
        (verify_ownership p.world entry entry.forward_action request.target_id)

  -- `entry_id` and `at` are drawn by the append of the rollback.
  unfoldable pub rollback :
      (W → W) → Plant W → String → ℕ → RollbackRequest → Plant W × RollbackOutcome
  rollback between p entry_id at request =
      when_found between p entry_id at request
        (entry_with_id request.applied_ledger_entry_id p.ledger)
