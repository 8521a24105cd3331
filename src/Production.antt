-- ===== src/Production.antt =====
-- backend/app/production/executor.py, backend/app/rollback/owned_index.py and
-- backend/app/production/query_settings.py: the changes of a target, gated, ledgered and reversible.
-- This module holds what the three share: the evidence that they write to the ledger, with the
-- source's dictionaries as records and a constructor for each shape of an action dictionary, and the
-- plant that they act on. `json.dumps` of each kind of value and the SHA-256 digest are fields of
-- `Canonical`. A target's lock is held from the first check to the end of a method, so a method is
-- one step of the plant.
pub mod Executor
pub mod Rollback
pub mod QuerySettings
mod Examples
use ai_driven_autonomous_no.Prelude.{
  ℕ, ℤ, pos, negsuc, String, Bool, true, false, Option, none, some, List, [], ◌∷◌, map, filter,
  str_eq, ◌==◌, if◌then◌else◌, ◌&&◌,
}
use ai_driven_autonomous_no.Actions.{
  Direction, ascending, descending, IndexField, CreateIndexAction, DropIndexAction,
  SetQuerySettingsIndexHintAction, RestoreQuerySettingsIndexHintAction,
}
use ai_driven_autonomous_no.Ledger.{LedgerEntry, Payload}
use ai_driven_autonomous_no.Approvals.{ApprovalFlow}
use ai_driven_autonomous_no.Adapter.{Namespace, IndexSpec, DatabaseAdapter, lists_namespace}

-- The dictionary of `_current_state`.
pub record TargetState : Type 0 where
  pub database : String
  pub collection : String
  pub namespace_exists : Bool
  pub indexes : List IndexSpec

-- The dictionary of `_state` in query_settings.py.
pub record HintState : Type 0 where
  pub database : String
  pub collection : String
  pub query_shape_hash : String
  pub allowed_indexes : Option (List String)

pub data LedgerState : Type 0 where
  index_state : TargetState → LedgerState
  hint_state : HintState → LedgerState

pub data Phase : Type 0 where
  prepared applied : Phase

-- Forward and inverse actions as they are written to the ledger. The two with a phase carry the
-- target, and an index action its fingerprint; a rollback writes the phase ROLLED_BACK.
pub data LedgerAction : Type 0 where
  index_action : Phase → (target_id fingerprint : String) → CreateIndexAction → LedgerAction
  hint_action : Phase → (target_id : String) → SetQuerySettingsIndexHintAction → LedgerAction
  drop_action : DropIndexAction → LedgerAction
  restore_action : RestoreQuerySettingsIndexHintAction → LedgerAction
  set_action : SetQuerySettingsIndexHintAction → LedgerAction
  rolled_back_index : DropIndexAction → LedgerAction
  rolled_back_hint : RestoreQuerySettingsIndexHintAction → LedgerAction

abbrev pub Entry : Type 0
Entry = LedgerEntry LedgerState LedgerAction

pub record Canonical : Type 0 where
  pub sha256 : String → String
  pub dump_entry : Payload LedgerState LedgerAction → String
  pub dump_state : LedgerState → String
  pub dump_index : IndexSpec → String

-- `W` is the state of the target.
pub record Plant (W : Type 0) : Type 0 where
  pub world : W
  pub approvals : ApprovalFlow
  pub ledger : List Entry

unfoldable pub to_integer : Direction → ℤ
to_integer ascending = pos 1
to_integer descending = negsuc 0

-- The `IndexSpec` of an action.
unfoldable pub index_spec : CreateIndexAction → IndexSpec
unfolding to_integer
index_spec a = record {
  name = a.index_name;
  keys = map (λ f. (f.field_name, to_integer f.direction)) a.fields;
}

-- Equality of key lists, pair by pair.
abbrev same_integer : ℤ → ℤ → Bool
same_integer (pos m) (pos n) = m == n
same_integer (negsuc m) (negsuc n) = m == n
same_integer _ _ = false

unfoldable pub same_keys : List (String × ℤ) → List (String × ℤ) → Bool
same_keys [] [] = true
same_keys ((f, d) ∷ xs) ((g, e) ∷ ys) =
    let rest = same_keys xs ys in str_eq f g && (same_integer d e && rest)
same_keys _ _ = false

unfoldable pub named : String → List IndexSpec → List IndexSpec
named name indexes = filter (λ i. str_eq i.name name) indexes

-- Exactly one index has the name, and it has the keys.
unfoldable pub only_has_keys : List IndexSpec → List (String × ℤ) → Bool
unfolding same_keys
only_has_keys (i ∷ []) keys = same_keys i.keys keys
only_has_keys _ keys = false

module _ {W : Type 0} (adapter : DatabaseAdapter W) where
  -- `_current_state`
  unfoldable pub current_state : W → (database collection : String) → TargetState
  current_state w database collection =
      let exists = lists_namespace (adapter.list_namespaces w) collection in
      record {
        database = database;
        collection = collection;
        namespace_exists = exists;
        indexes =
            if exists then adapter.list_indexes w (record { collection = collection }) else [];
      }

unfoldable pub state_hash : Canonical → LedgerState → String
state_hash c s = c.sha256 (c.dump_state s)

unfoldable pub index_fingerprint : Canonical → IndexSpec → String
index_fingerprint c i = c.sha256 (c.dump_index i)
