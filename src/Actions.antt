-- ===== src/Actions.antt =====
-- backend/app/actions/schemas.py: the typed actions and the checks that their construction makes.
-- A record of these types is what a caller passes to a constructor; `validate_*` is the check that
-- pydantic makes of the declared constraints and validators, and the source's objects are the
-- records that pass it. A `Literal` field with one value is not stored.
pub mod Bounds
mod Examples
use ai_driven_autonomous_no.Prelude.{
  ℕ, ℤ, String, Bool, true, false, ◌&&◌, Option, none, some, List, [], ◌∷◌, ◌++◌, all, leb, length,
  text_length, if◌then◌else◌,
}

-- `Literal[-1, 1]`
pub data Direction : Type 0 where
  descending ascending : Direction

pub record IndexField : Type 0 where
  pub field_name : String
  pub direction : Direction

pub record DropIndexAction : Type 0 where
  pub database : String
  pub collection : String
  pub index_name : String

-- A partial filter expression is a document that is only tested for its presence.
pub record CreateIndexAction : Type 0 where
  pub database : String
  pub collection : String
  pub index_name : String
  pub fields : List IndexField
  pub unique : Bool
  pub expire_after_seconds : Option ℤ
  pub sparse : Bool
  pub partial_filter_expression : Option (List (String × String))
  pub text : Bool
  pub wildcard : Bool
  pub geo : Bool
  pub hashed : Bool

pub record RestoreQuerySettingsIndexHintAction : Type 0 where
  pub database : String
  pub collection : String
  pub query_shape_hash : String
  pub allowed_indexes : Option (List String)

pub record SetQuerySettingsIndexHintAction : Type 0 where
  pub database : String
  pub collection : String
  pub query_shape_hash : String
  pub allowed_indexes : List String
  pub previous_allowed_indexes : Option (List String)

-- `Field(min_length=..., max_length=...)` of a text, and of a tuple.
abbrev pub text_within : ℕ → ℕ → String → Bool
text_within lo hi s = leb lo (text_length s) && leb (text_length s) hi

abbrev pub items_within {ℓ} : {A : Type ℓ} → ℕ → ℕ → List A → Bool
items_within lo hi xs = leb lo (length xs) && leb (length xs) hi

abbrev is_some {ℓ} : {A : Type ℓ} → Option A → Bool
is_some none = false
is_some (some a) = true

unfoldable pub validate_index_field : IndexField → Bool
validate_index_field f = text_within 1 255 f.field_name

unfoldable pub validate_drop_index : DropIndexAction → Bool
validate_drop_index a =
    text_within 1 63 a.database
    && (text_within 1 255 a.collection && text_within 1 255 a.index_name)

-- The names that `enforce_autonomous_restrictions` finds enabled.
unfoldable pub enabled_variants : CreateIndexAction → List String
enabled_variants a =
    (if a.unique then "unique" ∷ [] else [])
    ++ ((if is_some a.expire_after_seconds then "TTL" ∷ [] else [])
        ++ ((if a.sparse then "sparse" ∷ [] else [])
            ++ ((if is_some a.partial_filter_expression then "partial" ∷ [] else [])
                ++ ((if a.text then "text" ∷ [] else [])
                    ++ ((if a.wildcard then "wildcard" ∷ [] else [])
                        ++ ((if a.geo then "geo" ∷ [] else [])
                            ++ (if a.hashed then "hashed" ∷ [] else [])))))))

unfoldable pub enforce_autonomous_restrictions : CreateIndexAction → Bool
unfolding enabled_variants
enforce_autonomous_restrictions a = elim (enabled_variants a) [ [] ↦ true | _ ↦ false ]

unfoldable pub validate_create_index : CreateIndexAction → Bool
unfolding validate_index_field enforce_autonomous_restrictions
validate_create_index a =
    text_within 1 63 a.database
    && (text_within 1 255 a.collection
        && (text_within 1 255 a.index_name
            && (items_within 1 5 a.fields
                && (all validate_index_field a.fields && enforce_autonomous_restrictions a))))

-- `CreateIndexAction.inverse`
unfoldable pub inverse_create : CreateIndexAction → DropIndexAction
inverse_create a = record {
  database = a.database;
  collection = a.collection;
  index_name = a.index_name;
}

abbrev hint_within : Option (List String) → Bool
hint_within none = true
hint_within (some names) = items_within 1 5 names

unfoldable pub validate_set_hint : SetQuerySettingsIndexHintAction → Bool
validate_set_hint a =
    text_within 1 63 a.database
    && (text_within 1 255 a.collection
        && (text_within 1 255 a.query_shape_hash
            && (items_within 1 5 a.allowed_indexes && hint_within a.previous_allowed_indexes)))

unfoldable pub validate_restore_hint : RestoreQuerySettingsIndexHintAction → Bool
validate_restore_hint a =
    text_within 1 63 a.database
    && (text_within 1 255 a.collection
        && (text_within 1 255 a.query_shape_hash && hint_within a.allowed_indexes))

-- `SetQuerySettingsIndexHintAction.inverse`
unfoldable pub inverse_set_hint :
    SetQuerySettingsIndexHintAction → RestoreQuerySettingsIndexHintAction
inverse_set_hint a = record {
  database = a.database;
  collection = a.collection;
  query_shape_hash = a.query_shape_hash;
  allowed_indexes = a.previous_allowed_indexes;
}
