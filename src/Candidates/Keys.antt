-- ===== src/Candidates/Keys.antt =====
-- The candidates of the generator: over the collected keys, with their directions.
use ai_driven_autonomous_no.Prelude.{
  ℤ, pos, negsuc, ◌<◌, ◌≡◌, refl, sym, ap, subst, ◌∙◌, ◌⊎◌, inl, inr, String, true, ◌||◌, some,
  List, [], ◌∷◌, map, length, ltb, arith, Bool-cases,
}
use ai_driven_autonomous_no.Prelude.Options.{guard, >>=-eq-some, guard-eq-some}
use ai_driven_autonomous_no.Actions.{
  Direction, ascending, descending, IndexField, CreateIndexAction, validate_create_index,
  validate_index_field,
}
use ai_driven_autonomous_no.Candidates.{
  FindQueryShape, IndexCandidate, FingerprintPayload, collected_keys, index_fields, fingerprint,
  candidate_action, candidate_of, generate, is_empty, parse_direction,
}
use ai_driven_autonomous_no.Candidates.Collected.{IsKeysOf, collected_keys-IsKeysOf}

-- The number that MongoDB writes for a direction.
abbrev pub signed : Direction → ℤ
signed ascending = pos 1
signed descending = negsuc 0

-- The names and directions of the fields of an action.
abbrev pub field_keys : List IndexField → List (String × ℤ)
field_keys fields = map (λ x. (x.field_name, signed x.direction)) fields

parse_direction-signed :
    (d : ℤ) (direction : Direction) → parse_direction d ≡ some direction → signed direction ≡ d
unfolding parse_direction
parse_direction-signed (pos n) ascending h = ap pos (ground (arith, h))
parse_direction-signed (pos n) descending h = absurd (ground (arith, h))
parse_direction-signed (negsuc n) ascending h = absurd (ground (arith, h))
parse_direction-signed (negsuc n) descending h = ap negsuc (ground (arith, h))

index_fields-keys :
    (keys : List (String × ℤ)) {fields : List IndexField}
    → index_fields keys ≡ some fields
    → field_keys fields ≡ keys
unfolding index_fields
index_fields-keys [] h = ground arith
index_fields-keys ((f, d) ∷ keys) h =
    let (direction, parsed, h₁) = >>=-eq-some (parse_direction d) _ h in
    let (_, _, h₂) =
      >>=-eq-some (guard (validate_index_field (record { field_name = f; direction = direction })))
        _ h₁ in
    let (rest, tail, h₃) = >>=-eq-some (index_fields keys) _ h₂ in
    let same = parse_direction-signed d direction parsed in
    ground (arith, same, index_fields-keys keys tail)

no_keys :
    (keys : List (String × ℤ))
    → (is_empty keys || ltb 5 (length keys)) ≡ true
    → (keys ≡ []) ⊎ (5 < length keys)
no_keys [] h = inl refl
no_keys (k ∷ keys) h = inr (ground arith)

module _ (sha256 : String → String) (dumps : FingerprintPayload → String) where
  candidate_of_sound :
      (shape : FindQueryShape) (keys : List (String × ℤ)) {c : IndexCandidate}
      → candidate_of sha256 dumps shape keys ≡ some c
      → (validate_create_index c.action ≡ true)
        × (field_keys c.action.fields ≡ keys)
        × (c.action.collection ≡ shape.collection)
        × (c.action.database ≡ shape.database)
  unfolding candidate_of
  candidate_of_sound shape keys {c} h =
      let (fields, built, h₁) = >>=-eq-some (index_fields keys) _ h in
      let action =
        candidate_action shape (fingerprint sha256 dumps shape "EQUALITY_SORT_RANGE" keys) fields in
      let (_, passed, h₂) = >>=-eq-some (guard (validate_create_index action)) _ h₁ in
      let valid = guard-eq-some (validate_create_index action) passed in
      let same : action ≡ c.action = ground arith in
      (
        subst (λ a. validate_create_index a ≡ true) same valid,
        ap (λ (a : CreateIndexAction). field_keys a.fields) (sym same)
            ∙ index_fields-keys keys built,
        ap (λ (a : CreateIndexAction). a.collection) (sym same),
        ap (λ (a : CreateIndexAction). a.database) (sym same),
      )

  -- Where the generator does not raise it returns nothing, because the shape has no field or more
  -- than five, or one candidate, whose action is valid and for the shape's collection. The keys of its
  -- fields are the collected ones in their order: no name stands twice, the names are those of the
  -- equality, sort and range fields and no others, and each key is an ascending one of an equality or
  -- range field or a sort field with its own direction.
  pub generate_sound :
      (shape : FindQueryShape) {cs : List IndexCandidate}
      → generate sha256 dumps shape ≡ some cs
      → ((cs ≡ []) × ((collected_keys shape ≡ []) ⊎ (5 < length (collected_keys shape))))
        ⊎ ((c : IndexCandidate) × (cs ≡ c ∷ [])
            × (validate_create_index c.action ≡ true)
            × (field_keys c.action.fields ≡ collected_keys shape)
            × IsKeysOf shape (field_keys c.action.fields)
            × (c.action.collection ≡ shape.collection)
            × (c.action.database ≡ shape.database))
  unfolding generate
  generate_sound shape h =
      let keys = collected_keys shape in
      elim (Bool-cases (is_empty keys || ltb 5 (length keys))) [
        | inl none_fit ↦ inl (ground arith, no_keys keys none_fit)
        | inr fit ↦
            let (c, built, one) =
              >>=-eq-some (candidate_of sha256 dumps shape keys) _ (rw fit at h) in
            let (valid, same_keys, same_collection, same_database) =
              candidate_of_sound shape keys built in
            inr (
              c,
              ground arith,
              valid,
              same_keys,
              subst (IsKeysOf shape) (sym same_keys) (collected_keys-IsKeysOf shape),
              same_collection,
              same_database,
            )
      ]
