-- ===== src/Actions/Examples.antt =====
-- Two valid actions, and the theorems at them.
use ai_driven_autonomous_no.Prelude.{◌≤◌, ◌≡◌, refl, true, false, none, some, [], ◌∷◌, length}
use ai_driven_autonomous_no.Actions.{
  CreateIndexAction, SetQuerySettingsIndexHintAction, ascending, validate_create_index,
  validate_drop_index, inverse_create, validate_set_hint,
}
use ai_driven_autonomous_no.Actions.Bounds.{IsPlain, create_index-IsPlain}

abbrev pub create_orders : CreateIndexAction
create_orders = record {
  database = "shop";
  collection = "orders";
  index_name = "optimizer_1";
  fields = record { field_name = "status"; direction = ascending } ∷ [];
  unique = false;
  expire_after_seconds = none;
  sparse = false;
  partial_filter_expression = none;
  text = false;
  wildcard = false;
  geo = false;
  hashed = false;
}

create_orders_valid : validate_create_index create_orders ≡ true
unfolding validate_create_index
create_orders_valid = refl

create_index-IsPlain_example :
    (1 ≤ length create_orders.fields)
    × (length create_orders.fields ≤ 5)
    × IsPlain create_orders
    × (validate_drop_index (inverse_create create_orders) ≡ true)
    × ((inverse_create create_orders).database ≡ "shop")
    × ((inverse_create create_orders).collection ≡ "orders")
    × ((inverse_create create_orders).index_name ≡ "optimizer_1")
create_index-IsPlain_example = create_index-IsPlain create_orders create_orders_valid

abbrev hint_orders : SetQuerySettingsIndexHintAction
hint_orders = record {
  database = "shop";
  collection = "orders";
  query_shape_hash = "q1";
  allowed_indexes = "optimizer_1" ∷ [];
  previous_allowed_indexes = some ("_id_" ∷ []);
}

hint_orders_valid : validate_set_hint hint_orders ≡ true
unfolding validate_set_hint
hint_orders_valid = refl
