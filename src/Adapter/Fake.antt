-- ===== src/Adapter/Fake.antt =====
-- backend/app/adapters/fake.py: the in-memory adapter, and that it is coherent.
use ai_driven_autonomous_no.Prelude.{
  ◌≡◌, refl, ◌∙◌, sym, String, Bool, true, false, ◌&&◌, Option, none, some, List, [], ◌∷◌, ◌++◌,
  any, map, str_eq, eq_refl, text_le, arith, if◌then◌else◌,
}
use ai_driven_autonomous_no.Prelude.Dicts.{Dict, get, put, get-put}
use ai_driven_autonomous_no.Prelude.Sorting.{sorted, any-sorted}
use ai_driven_autonomous_no.Adapter.{
  Namespace, IndexSpec, QuerySettingsIndexHint, DatabaseAdapter, IsCoherent,
}

-- A query setting with its key, the pair of a collection and a shape hash.
pub record Setting : Type 0 where
  pub collection : String
  pub shape : String
  pub hint : QuerySettingsIndexHint

-- The indexes of a collection are a dictionary under the names that the indexes themselves carry.
pub record FakeTarget : Type 0 where
  pub indexes : Dict (List IndexSpec)
  pub query_settings : List Setting

abbrev pub or_empty : Option (List IndexSpec) → List IndexSpec
or_empty none = []
or_empty (some d) = d

-- `FakeDatabaseAdapter(namespaces)`
unfoldable pub new_target : List Namespace → FakeTarget
new_target namespaces = record {
  indexes = map (λ n. (n.collection, [])) namespaces;
  query_settings = [];
}

abbrev pub has_name : String → List IndexSpec → Bool
has_name name specs = any (λ j. str_eq j.name name) specs

-- An assignment under the name of an index.
unfoldable pub overwrite_index : IndexSpec → List IndexSpec → List IndexSpec
overwrite_index i [] = []
overwrite_index i (j ∷ specs) = (if str_eq j.name i.name then i else j) ∷ overwrite_index i specs

unfoldable pub put_index : IndexSpec → List IndexSpec → List IndexSpec
unfolding overwrite_index
put_index i specs = if has_name i.name specs then overwrite_index i specs else specs ++ i ∷ []

-- pop(index_name, None)
unfoldable pub pop_index : String → List IndexSpec → List IndexSpec
pop_index name [] = []
pop_index name (j ∷ specs) =
    let rest = pop_index name specs in if str_eq j.name name then rest else j ∷ rest

-- The values of a dictionary in the order of its sorted keys.
unfoldable pub in_key_order : List IndexSpec → List IndexSpec
in_key_order specs = sorted (λ x y. text_le x.name y.name) specs

unfoldable pub list_namespaces : FakeTarget → List Namespace
list_namespaces w = map (λ c. record { collection = c }) (sorted text_le (map (λ e. e.0) w.indexes))

unfoldable pub list_indexes : FakeTarget → Namespace → List IndexSpec
unfolding in_key_order
list_indexes w n = in_key_order (or_empty (get w.indexes n.collection))

unfoldable pub create_index : FakeTarget → Namespace → IndexSpec → FakeTarget × Bool
create_index w n i =
    let held = or_empty (get w.indexes n.collection) in
    (record w { indexes = put w.indexes n.collection (put_index i held) }, true)

-- A drop in a collection that is not there works on a new dictionary, which is thrown away.
abbrev pub drop_held : FakeTarget → Namespace → String → Option (List IndexSpec) → FakeTarget
drop_held w n name none = w
drop_held w n name (some held) = record w {
  indexes = put w.indexes n.collection (pop_index name held);
}

unfoldable pub drop_index : FakeTarget → Namespace → String → FakeTarget × Bool
drop_index w n name = (drop_held w n name (get w.indexes n.collection), true)

unfoldable pub is_setting : String → String → Setting → Bool
is_setting collection shape s = str_eq s.collection collection && str_eq s.shape shape

unfoldable pub find_setting : String → String → List Setting → Option QuerySettingsIndexHint
unfolding is_setting
find_setting collection shape [] = none
find_setting collection shape (s ∷ rest) =
    if is_setting collection shape s then some s.hint else find_setting collection shape rest

-- pop(key, None)
unfoldable pub pop_setting : String → String → List Setting → List Setting
unfolding is_setting
pop_setting collection shape [] = []
pop_setting collection shape (s ∷ rest) =
    let others = pop_setting collection shape rest in
    if is_setting collection shape s then others else s ∷ others

unfoldable pub get_hint : FakeTarget → Namespace → String → Option QuerySettingsIndexHint
unfolding find_setting
get_hint w n shape = find_setting n.collection shape w.query_settings

-- The order of the settings is never read, so an assignment may put its entry first.
unfoldable pub set_hint :
    FakeTarget → Namespace → String → Option QuerySettingsIndexHint → FakeTarget × Bool
unfolding pop_setting
set_hint w n shape none =
    (record w { query_settings = pop_setting n.collection shape w.query_settings }, true)
set_hint w n shape (some hint) =
    let setting : Setting = record { collection = n.collection; shape = shape; hint = hint } in
    (record w { query_settings = setting ∷ pop_setting n.collection shape w.query_settings }, true)

abbrev pub fake_adapter : DatabaseAdapter FakeTarget
fake_adapter = record {
  list_namespaces = list_namespaces;
  list_indexes = list_indexes;
  create_index = create_index;
  drop_index = drop_index;
  get_query_settings_index_hint = get_hint;
  set_query_settings_index_hint = set_hint;
}

find-pop :
    (collection shape : String) (settings : List Setting)
    → find_setting collection shape (pop_setting collection shape settings) ≡ none
unfolding find_setting pop_setting
find-pop collection shape [] = refl
find-pop collection shape (s ∷ rest) = ground (arith, find-pop collection shape rest)

set_get :
    (w : FakeTarget) (n : Namespace) (shape : String) (hint : Option QuerySettingsIndexHint)
    → get_hint (set_hint w n shape hint).0 n shape ≡ hint
unfolding get_hint set_hint
set_get w n shape none = find-pop n.collection shape w.query_settings
set_get w n shape (some hint) = rw (eq_refl n.collection, eq_refl shape)

pop_absent :
    (name : String) (specs : List IndexSpec)
    → has_name name specs ≡ false
    → pop_index name specs ≡ specs
unfolding pop_index
pop_absent name [] h = refl
pop_absent name (j ∷ specs) h = ground (arith, pop_absent name specs)

pop-append :
    (i : IndexSpec) (specs : List IndexSpec)
    → has_name i.name specs ≡ false
    → pop_index i.name (specs ++ i ∷ []) ≡ specs
unfolding pop_index
pop-append i [] h = rw (eq_refl i.name)
pop-append i (j ∷ specs) h = ground (arith, pop-append i specs)

drop_create :
    (w : FakeTarget) (n : Namespace) (i : IndexSpec)
    → has_name i.name (list_indexes w n) ≡ false
    → list_indexes (drop_index (create_index w n i).0 n i.name).0 n ≡ list_indexes w n
unfolding list_indexes drop_index create_index put_index
drop_create w n i absent =
    let held = or_empty (get w.indexes n.collection) in
    let new : has_name i.name held ≡ false =
      sym (any-sorted (λ x y. text_le x.name y.name) (λ j. str_eq j.name i.name) held) ∙ absent in
    rw (new, get-put, eq_refl n.collection, get-put, eq_refl n.collection, pop-append i held new)
      refl

-- The fake adapter keeps the contract's promises.
pub fake_adapter-IsCoherent : IsCoherent fake_adapter
fake_adapter-IsCoherent = record {
  set_get = λ w n shape hint done. set_get w n shape hint;
  drop_create = λ w n i absent done dropped. drop_create w n i absent;
}
