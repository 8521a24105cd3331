-- ===== src/Adapter.antt =====
-- backend/app/adapters/contracts.py: the typed operations that the optimizer may perform on a target.
-- `W` is the state of the target. An operation that changes it returns the new state and whether it
-- returned; it raised where that is false.
pub mod Fake
use ai_driven_autonomous_no.Prelude.{
  ℤ, String, Bool, true, false, ◌≡◌, Option, none, some, List, any, str_eq,
}

pub record Namespace : Type 0 where
  pub collection : String

pub record IndexSpec : Type 0 where
  pub name : String
  pub keys : List (String × ℤ)

pub record QuerySettingsIndexHint : Type 0 where
  pub allowed_indexes : List String

pub record DatabaseAdapter (W : Type 0) : Type 0 where
  pub list_namespaces : W → List Namespace
  pub list_indexes : W → Namespace → List IndexSpec
  pub create_index : W → Namespace → IndexSpec → W × Bool
  pub drop_index : W → Namespace → String → W × Bool
  pub get_query_settings_index_hint : W → Namespace → String → Option QuerySettingsIndexHint
  pub set_query_settings_index_hint :
      W → Namespace → String → Option QuerySettingsIndexHint → W × Bool

-- `namespace in namespaces`
unfoldable pub lists_namespace : List Namespace → String → Bool
lists_namespace namespaces collection = any (λ n. str_eq n.collection collection) namespaces

-- What the contract's operations promise of each other; the code relies on no more.
pub record IsCoherent {W : Type 0} (a : DatabaseAdapter W) : Type 0 where
  -- What was set is read back, and nothing is read after a removal.
  pub set_get :
      (w : W) (n : Namespace) (shape : String) (hint : Option QuerySettingsIndexHint)
      → (a.set_query_settings_index_hint w n shape hint).1 ≡ true
      → a.get_query_settings_index_hint (a.set_query_settings_index_hint w n shape hint).0 n shape
        ≡ hint
  -- A dropped index is not listed, and a drop after the creation of a new index undoes it.
  pub drop_create :
      (w : W) (n : Namespace) (i : IndexSpec)
      → any (λ j. str_eq j.name i.name) (a.list_indexes w n) ≡ false
      → (a.create_index w n i).1 ≡ true
      → let w' = (a.create_index w n i).0 in
        (a.drop_index w' n i.name).1 ≡ true
        → a.list_indexes (a.drop_index w' n i.name).0 n ≡ a.list_indexes w n
