-- ===== src/Candidates.antt =====
-- backend/app/candidates/index_generator.py: the deterministic generator of index candidates.
-- `json.dumps` of the fingerprint's payload and `sha256(...).hexdigest()` are parameters. A result
-- `none` is the `ValidationError` of an action schema that refuses its fields.
pub mod Collected
pub mod Keys
pub mod Order
mod Examples
use Prim.Native.String.{◌++◌ as text_append}
use ai_driven_autonomous_no.Prelude.{
  ℕ, zero, suc, ℤ, pos, negsuc, pos_part, neg_part, ◌+◌, String, Bool, true, false, not, ◌&&◌, ◌||◌,
  Option, none, some, List, [], ◌∷◌, ◌++◌, any, map, leb, ltb, ◌==◌, length, str_eq, text_le,
  text_take, if◌then◌else◌,
}
use ai_driven_autonomous_no.Prelude.Sorting.{sorted}
use ai_driven_autonomous_no.Prelude.Options.{◌>>=◌, ◌>>◌, guard}
use ai_driven_autonomous_no.Actions.{
  Direction, ascending, descending, IndexField, CreateIndexAction, validate_index_field,
  validate_create_index,
}

pub record FindQueryShape : Type 0 where
  pub query_shape_hash : String
  pub database : String
  pub collection : String
  pub equality_fields : List String
  pub sort_fields : List (String × ℤ)
  pub range_fields : List String

pub record IndexCandidate : Type 0 where
  pub candidate_fingerprint : String
  pub pattern_name : String
  pub action : CreateIndexAction

-- The dictionary that `_fingerprint` serializes.
pub record FingerprintPayload : Type 0 where
  pub collection : String
  pub database : String
  pub keys : List (String × ℤ)
  pub pattern_name : String
  pub query_shape_hash : String

-- set(xs), with one of each text.
unfoldable pub distinct : List String → List String
distinct [] = []
distinct (x ∷ xs) = let rest = distinct xs in if any (str_eq x) rest then rest else x ∷ rest

-- The order of Python's pairs of a text and an integer.
unfoldable pub pair_le : String × ℤ → String × ℤ → Bool
pair_le (s, d) (t, e) =
    if str_eq s t then leb (pos_part d + neg_part e) (pos_part e + neg_part d) else text_le s t

-- tuple((field, 1) for field in sorted(set(fields)))
unfoldable pub ascending_group : List String → List (String × ℤ)
unfolding distinct
ascending_group fields = map (λ f. (f, pos 1)) (sorted text_le (distinct fields))

-- The body of the loop: a field that was seen is skipped. The state is `seen_fields` and `keys`.
unfoldable pub collect_one :
    List String × List (String × ℤ) → String × ℤ → List String × List (String × ℤ)
collect_one state (f, d) =
    if any (str_eq f) state.0 then state else (f ∷ state.0, state.1 ++ (f, d) ∷ [])

-- One group of the loop.
unfoldable pub collect :
    List String × List (String × ℤ) → List (String × ℤ) → List String × List (String × ℤ)
unfolding collect_one
collect state [] = state
collect state (key ∷ group) = collect (collect_one state key) group

unfoldable pub collected_keys : FindQueryShape → List (String × ℤ)
unfolding ascending_group pair_le collect
collected_keys shape =
    let after_equality = collect ([], []) (ascending_group shape.equality_fields) in
    let after_sort = collect after_equality (sorted pair_le shape.sort_fields) in
    (collect after_sort (ascending_group shape.range_fields)).1

unfoldable pub parse_direction : ℤ → Option Direction
parse_direction (pos n) = if n == 1 then some ascending else none
parse_direction (negsuc n) = if n == 0 then some descending else none

-- `IndexField(field=..., direction=...)` of each key.
unfoldable pub index_fields : List (String × ℤ) → Option (List IndexField)
unfolding parse_direction validate_index_field
index_fields [] = some []
index_fields ((f, d) ∷ keys) = do
  direction ← parse_direction d
  guard (validate_index_field (record { field_name = f; direction = direction }))
  rest ← index_fields keys
  some (record { field_name = f; direction = direction } ∷ rest)

abbrev pub is_empty {ℓ} : {A : Type ℓ} → List A → Bool
is_empty [] = true
is_empty (x ∷ xs) = false

abbrev pub candidate_action : FindQueryShape → String → List IndexField → CreateIndexAction
candidate_action shape print fields = record {
  database = shape.database;
  collection = shape.collection;
  index_name = text_append "optimizer_" (text_take 16 print);
  fields = fields;
  unique = false;
  expire_after_seconds = none;
  sparse = false;
  partial_filter_expression = none;
  text = false;
  wildcard = false;
  geo = false;
  hashed = false;
}

module _ (sha256 : String → String) (dumps : FingerprintPayload → String) where
  unfoldable pub fingerprint : FindQueryShape → String → List (String × ℤ) → String
  fingerprint shape pattern_name keys = sha256 (
      dumps (record {
        collection = shape.collection;
        database = shape.database;
        keys = keys;
        pattern_name = pattern_name;
        query_shape_hash = shape.query_shape_hash;
      }))

  -- From the frozen keys on.
  unfoldable pub candidate_of : FindQueryShape → List (String × ℤ) → Option IndexCandidate
  candidate_of shape keys = do
    let print = fingerprint shape "EQUALITY_SORT_RANGE" keys
    fields ← index_fields keys
    guard (validate_create_index (candidate_action shape print fields))
    some (record {
      candidate_fingerprint = print;
      pattern_name = "EQUALITY_SORT_RANGE";
      action = candidate_action shape print fields;
    })

  unfoldable pub generate : FindQueryShape → Option (List IndexCandidate)
  generate shape =
      let keys = collected_keys shape in
      if is_empty keys || ltb 5 (length keys)
      then some []
      else (do candidate ← candidate_of shape keys; some (candidate ∷ []))
