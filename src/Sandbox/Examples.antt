-- ===== src/Sandbox/Examples.antt =====
-- An evaluation on the in-memory adapter.
use ai_driven_autonomous_no.Prelude.{pos, ◌≡◌, refl, true, false, none, some, [], ◌∷◌, any, str_eq}
use ai_driven_autonomous_no.Prelude.Dicts.{get}
use ai_driven_autonomous_no.Prelude.Sorting.{sorted, insert_sorted}
use ai_driven_autonomous_no.Actions.{CreateIndexAction, ascending}
use ai_driven_autonomous_no.Adapter.Fake.{
  FakeTarget, fake_adapter, fake_adapter-IsCoherent, new_target, list_indexes, in_key_order,
  create_index, drop_index,
}
use ai_driven_autonomous_no.Production.{index_spec}
use ai_driven_autonomous_no.Sandbox.{Callbacks, ResourceBudget, EvaluationState, evaluate}
use ai_driven_autonomous_no.Sandbox.Cleanup.{IsClean, evaluate-IsClean}
use ai_driven_autonomous_no.Sandbox.Isolation.{IsSound, IsCertified, evaluate-IsSound}

abbrev candidate : CreateIndexAction
candidate = record {
  database = "shop";
  collection = "orders";
  index_name = "optimizer_1";
  fields = record { field_name = "status"; direction = ascending } ∷ [];
  unique = false;
  expire_after_seconds = none;
  sparse = false;
  partial_filter_expression = none;
  text = false;
  wildcard = false;
  geo = false;
  hashed = false;
}

abbrev copy : EvaluationState
copy = record {
  source_dataset_fingerprint = "d1";
  evaluation_dataset_fingerprint = "d1";
  source_topology_identity = "rs0";
  evaluation_topology_identity = "rs1";
  free_disk_bytes = 1000;
}

abbrev calls : Callbacks FakeTarget
calls = record {
  copy_and_verify = λ w. (w, some copy);
  estimate_index_bytes = λ a. some (pos 100);
  benchmark = λ w. (w, some "measured");
  admit = λ result. some "ADMITTED";
}

abbrev target : FakeTarget
target = new_target (record { collection = "orders" } ∷ [])

abbrev budget : ResourceBudget
budget = record { maximum_index_bytes = 500; minimum_free_disk_bytes = 200 }

no_index :
    any
      (λ i. str_eq i.name candidate.index_name)
      (fake_adapter.list_indexes target (record { collection = "orders" }))
    ≡ false
unfolding list_indexes new_target get in_key_order sorted insert_sorted
no_index = refl

is_created :
    (fake_adapter.create_index target (record { collection = "orders" }) (index_spec candidate)).1
    ≡ true
unfolding create_index
is_created = refl

is_dropped :
    (fake_adapter.drop_index
      (fake_adapter.create_index target (record { collection = "orders" }) (index_spec candidate)).0
      (record { collection = "orders" })
      "optimizer_1").1
    ≡ true
unfolding drop_index
is_dropped = refl

evaluate-IsClean_example :
    IsClean fake_adapter calls fake_adapter-IsCoherent candidate target
      (evaluate fake_adapter calls target "production" "evaluation" candidate budget)
evaluate-IsClean_example =
    evaluate-IsClean fake_adapter calls fake_adapter-IsCoherent candidate target "production"
      "evaluation" budget refl no_index is_created is_dropped (λ v. refl)

evaluate-IsSound_example :
    IsSound fake_adapter calls candidate
      (IsCertified fake_adapter calls candidate target "production" "evaluation" budget)
      (evaluate fake_adapter calls target "production" "evaluation" candidate budget)
evaluate-IsSound_example =
    evaluate-IsSound fake_adapter calls candidate target "production" "evaluation" budget
