-- ===== src/Actions/Bounds.antt =====
-- What a validated action satisfies, and that its inverse is always a valid action.
use ai_driven_autonomous_no.Prelude.{
  ◌≤◌, ◌≡◌, refl, true, false, none, length, all, and_true, arith,
}
use ai_driven_autonomous_no.Actions.{
  CreateIndexAction, SetQuerySettingsIndexHintAction, validate_create_index, validate_drop_index,
  enforce_autonomous_restrictions, text_within, items_within, validate_index_field, inverse_create,
  validate_set_hint, validate_restore_hint, inverse_set_hint,
}

-- An index of none of the forbidden kinds.
pub record IsPlain (a : CreateIndexAction) : Type 0 where
  pub not_unique : a.unique ≡ false
  pub no_ttl : a.expire_after_seconds ≡ none
  pub not_sparse : a.sparse ≡ false
  pub not_partial : a.partial_filter_expression ≡ none
  pub not_text : a.text ≡ false
  pub not_wildcard : a.wildcard ≡ false
  pub not_geo : a.geo ≡ false
  pub not_hashed : a.hashed ≡ false

restrictions-IsPlain :
    (a : CreateIndexAction) → enforce_autonomous_restrictions a ≡ true → IsPlain a
unfolding enforce_autonomous_restrictions
restrictions-IsPlain a h = ground arith

-- A CREATE_INDEX action that can be constructed has between one and five fields and is of none of
-- the forbidden kinds, and its inverse is a DROP_INDEX action that can be constructed too, of the
-- index of that name on the same collection of the same database.
pub create_index-IsPlain :
    (a : CreateIndexAction)
    → validate_create_index a ≡ true
    → (1 ≤ length a.fields)
      × (length a.fields ≤ 5)
      × IsPlain a
      × (validate_drop_index (inverse_create a) ≡ true)
      × ((inverse_create a).database ≡ a.database)
      × ((inverse_create a).collection ≡ a.collection)
      × ((inverse_create a).index_name ≡ a.index_name)
unfolding validate_create_index validate_drop_index inverse_create
create_index-IsPlain a h =
    let (database, h₁) = and_true (text_within 1 63 a.database) _ h in
    let (collection, h₂) = and_true (text_within 1 255 a.collection) _ h₁ in
    let (name, h₃) = and_true (text_within 1 255 a.index_name) _ h₂ in
    let (count, h₄) = and_true (items_within 1 5 a.fields) _ h₃ in
    let (fields, plain) = and_true (all validate_index_field a.fields) _ h₄ in
    (
      ground arith,
      ground arith,
      restrictions-IsPlain a plain,
      rw (database, collection) name,
      refl,
      refl,
      refl,
    )

-- The inverse of a query-settings action that can be constructed can be constructed too, and it
-- restores exactly the hint that was there before.
set_hint-inverse :
    (a : SetQuerySettingsIndexHintAction)
    → validate_set_hint a ≡ true
    → (validate_restore_hint (inverse_set_hint a) ≡ true)
      × ((inverse_set_hint a).allowed_indexes ≡ a.previous_allowed_indexes)
      × ((inverse_set_hint a).query_shape_hash ≡ a.query_shape_hash)
unfolding validate_set_hint validate_restore_hint inverse_set_hint
set_hint-inverse a h = ground arith
