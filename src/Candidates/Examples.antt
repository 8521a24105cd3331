-- ===== src/Candidates/Examples.antt =====
-- The generator at a shape with an equality field and a compound sort.
use mathlib.Core.List.Perm
use ai_driven_autonomous_no.Prelude.{
  ℤ, pos, negsuc, ◌<◌, ◌≡◌, refl, ◌⊎◌, String, some, List, [], ◌∷◌, length, true,
}
use ai_driven_autonomous_no.Prelude.Sorting.{sorted}
use ai_driven_autonomous_no.Prelude.{text_le}
use ai_driven_autonomous_no.Actions.{validate_create_index}
use ai_driven_autonomous_no.Candidates.{
  FindQueryShape, IndexCandidate, FingerprintPayload, collected_keys, candidate_of, generate,
  fingerprint, index_fields,
}
use ai_driven_autonomous_no.Candidates.Collected.{IsKeysOf}
use ai_driven_autonomous_no.Candidates.Keys.{field_keys, generate_sound}
use ai_driven_autonomous_no.Candidates.Order.{generate_forgets_sort_order}

abbrev sha256 : String → String
sha256 s = s

abbrev dumps : FingerprintPayload → String
dumps p = p.query_shape_hash

-- find({status: ...}).sort({created: -1, amount: 1})
abbrev shape : FindQueryShape
shape = record {
  query_shape_hash = "q1";
  database = "shop";
  collection = "orders";
  equality_fields = "status" ∷ "status" ∷ [];
  sort_fields = ("created", negsuc 0) ∷ ("amount", pos 1) ∷ [];
  range_fields = "status" ∷ [];
}

shape_keys :
    collected_keys shape ≡ ("status", pos 1) ∷ ("amount", pos 1) ∷ ("created", negsuc 0) ∷ []
unfolding collected_keys sorted text_le
shape_keys = refl

abbrev swapped : List (String × ℤ)
swapped = ("amount", pos 1) ∷ ("created", negsuc 0) ∷ []

generate_forgets_sort_order_example :
    generate sha256 dumps shape ≡ generate sha256 dumps (record shape { sort_fields = swapped })
generate_forgets_sort_order_example =
    generate_forgets_sort_order sha256 dumps shape swapped
      (Perm.swap ("amount", pos 1) ("created", negsuc 0) [])

abbrev candidates : List IndexCandidate
candidates = elim (generate sha256 dumps shape) [ some cs ↦ cs | _ ↦ [] ]

shape_generates : generate sha256 dumps shape ≡ some candidates
unfolding generate candidate_of fingerprint collected_keys sorted text_le index_fields
    validate_create_index
shape_generates = refl

generate_sound_example :
    ((candidates ≡ []) × ((collected_keys shape ≡ []) ⊎ (5 < length (collected_keys shape))))
    ⊎ ((c : IndexCandidate) × (candidates ≡ c ∷ [])
        × (validate_create_index c.action ≡ true)
        × (field_keys c.action.fields ≡ collected_keys shape)
        × IsKeysOf shape (field_keys c.action.fields)
        × (c.action.collection ≡ "orders")
        × (c.action.database ≡ "shop"))
generate_sound_example = generate_sound sha256 dumps shape shape_generates
