-- ===== src/Ledger.antt =====
-- backend/app/ledger/chain.py: the append-only action ledger, chained by SHA-256.
-- The JSON-shaped states and actions of an entry are of any types `S` and `A` here: the ledger only
-- stores, hashes and returns them, and since values do not change, the copies that `_freeze_mapping`
-- makes are the values themselves. `json.dumps` of a payload and `hashlib.sha256(...).hexdigest()`
-- are parameters; so are the id that `uuid4` draws and the time of an append.
pub mod Chain
mod Examples
use ai_driven_autonomous_no.Prelude.{
  ℕ, String, Bool, true, false, ◌||◌, not, List, [], ◌∷◌, ◌++◌, last_or, map, str_eq, if◌then◌else◌,
}

pub record LedgerEntry (S A : Type 0) : Type 0 where
  pub entry_id : String
  pub created_at : ℕ
  pub before_state : S
  pub intended_state : S
  pub after_state : S
  pub forward_action : A
  pub inverse_action : A
  pub evidence_hash : String
  pub actor : String
  pub previous_ledger_hash : String
  pub current_ledger_hash : String

-- The dictionary that `_hash` serializes: all of an entry but its own hash.
pub record Payload (S A : Type 0) : Type 0 where
  pub entry_id : String
  pub created_at : ℕ
  pub before_state : S
  pub intended_state : S
  pub after_state : S
  pub forward_action : A
  pub inverse_action : A
  pub evidence_hash : String
  pub actor : String
  pub previous_ledger_hash : String

-- The arguments of `append`.
pub record Evidence (S A : Type 0) : Type 0 where
  pub before_state : S
  pub intended_state : S
  pub after_state : S
  pub forward_action : A
  pub inverse_action : A
  pub evidence_hash : String
  pub actor : String

abbrev pub genesis_hash : String
genesis_hash = "0000000000000000000000000000000000000000000000000000000000000000"

module _ {S A : Type 0} where
  unfoldable pub payload : LedgerEntry S A → Payload S A
  payload e = record {
    entry_id = e.entry_id;
    created_at = e.created_at;
    before_state = e.before_state;
    intended_state = e.intended_state;
    after_state = e.after_state;
    forward_action = e.forward_action;
    inverse_action = e.inverse_action;
    evidence_hash = e.evidence_hash;
    actor = e.actor;
    previous_ledger_hash = e.previous_ledger_hash;
  }

module _ {S A : Type 0} (sha256 : String → String) (dumps : Payload S A → String) where
  -- `_hash`
  unfoldable pub hash : LedgerEntry S A → String
  unfolding payload
  hash e = sha256 (dumps (payload e))

  -- `self._entries[-1].current_ledger_hash if self._entries else GENESIS_HASH`
  unfoldable pub tip : List (LedgerEntry S A) → String
  tip entries = last_or genesis_hash (map (λ e. e.current_ledger_hash) entries)

  unfoldable pub new_entry : String → String → ℕ → Evidence S A → LedgerEntry S A
  unfolding hash
  new_entry previous entry_id created_at evidence =
      let entry : LedgerEntry S A = record {
        entry_id = entry_id;
        created_at = created_at;
        before_state = evidence.before_state;
        intended_state = evidence.intended_state;
        after_state = evidence.after_state;
        forward_action = evidence.forward_action;
        inverse_action = evidence.inverse_action;
        evidence_hash = evidence.evidence_hash;
        actor = evidence.actor;
        previous_ledger_hash = previous;
        current_ledger_hash = "";
      } in
      record entry { current_ledger_hash = hash entry }

  unfoldable pub append :
      List (LedgerEntry S A) → String → ℕ → Evidence S A → List (LedgerEntry S A) × LedgerEntry S A
  unfolding tip new_entry
  append entries entry_id created_at evidence =
      let entry = new_entry (tip entries) entry_id created_at evidence in
      (entries ++ entry ∷ [], entry)

  -- The loop of `verify`, from a previous hash.
  unfoldable pub verify_from : String → List (LedgerEntry S A) → Bool
  unfolding hash
  verify_from previous [] = true
  verify_from previous (e ∷ rest) =
      let later = verify_from e.current_ledger_hash rest in
      if not (str_eq e.previous_ledger_hash previous) || not (str_eq e.current_ledger_hash (hash e))
      then false
      else later

  unfoldable pub verify : List (LedgerEntry S A) → Bool
  unfolding verify_from
  verify entries = verify_from genesis_hash entries
