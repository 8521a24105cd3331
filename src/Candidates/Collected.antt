-- ===== src/Candidates/Collected.antt =====
-- The keys that the generator collects: each field of the shape once, with its direction.
use ai_driven_autonomous_no.Prelude.{
  ℤ, pos, All, Any, All-Any, All-map, All-append, if_cases, eq_refl, ◌≡◌, refl, sym, ◌∙◌, ◌⊎◌, inl,
  inr, String, Bool, true, false, ◌||◌, List, [], ◌∷◌, ◌++◌, any, map, str_eq, eq_iff, text_le,
  arith, Bool-cases,
}
use ai_driven_autonomous_no.Prelude.Sorting.{sorted, All-sorted, any-sorted}
use ai_driven_autonomous_no.Candidates.{
  FindQueryShape, distinct, pair_le, ascending_group, collect, collect_one, collected_keys,
}

abbrev pub occurs : String → List String → Bool
occurs f names = any (str_eq f) names

abbrev pub names : List (String × ℤ) → List String
names keys = map (λ k. k.0) keys

-- No text stands twice.
abbrev pub IsDistinct : List String → Type 0
IsDistinct [] = Unit
IsDistinct (f ∷ rest) = (occurs f rest ≡ false) × IsDistinct rest

occurs-distinct : (f : String) (xs : List String) → occurs f (distinct xs) ≡ occurs f xs
unfolding distinct
occurs-distinct f [] = refl
occurs-distinct f (x ∷ xs) = ground (arith, occurs-distinct f xs, occurs-distinct x xs, eq_iff f x)

occurs-names-ones :
    (f : String) (xs : List String) → occurs f (names (map (λ x. (x, pos 1)) xs)) ≡ occurs f xs
occurs-names-ones f [] = refl
occurs-names-ones f (x ∷ xs) = rw (occurs-names-ones f xs)

occurs-names :
    (f : String) (keys : List (String × ℤ)) → occurs f (names keys) ≡ any (λ k. str_eq f k.0) keys
occurs-names f [] = refl
occurs-names f (k ∷ keys) = rw (occurs-names f keys)

occurs-ascending_group :
    (f : String) (xs : List String) → occurs f (names (ascending_group xs)) ≡ occurs f xs
unfolding ascending_group
occurs-ascending_group f xs =
    occurs-names-ones f (sorted text_le (distinct xs))
    ∙ any-sorted text_le (str_eq f) (distinct xs)
    ∙ occurs-distinct f xs

names-append :
    (keys : List (String × ℤ)) (k : String × ℤ) → names (keys ++ k ∷ []) ≡ names keys ++ k.0 ∷ []
names-append [] k = refl
names-append (j ∷ keys) k = rw (names-append keys k)

occurs-append :
    (f g : String) (xs : List String) → occurs f (xs ++ g ∷ []) ≡ (occurs f xs || str_eq f g)
occurs-append f g [] = ground arith
occurs-append f g (x ∷ xs) = rw (occurs-append f g xs) (ground arith)

IsDistinct-append :
    (g : String) (xs : List String)
    → occurs g xs ≡ false
    → IsDistinct xs
    → IsDistinct (xs ++ g ∷ [])
IsDistinct-append g [] new d = (refl, tt)
IsDistinct-append g (x ∷ xs) new d = (
  occurs-append x g xs ∙ ground (arith, eq_iff x g, eq_iff g x),
  IsDistinct-append g xs (ground arith) d.1,
)

-- The state of the loop: what was seen are the names of the keys, and they are distinct.
record IsCollected (state : List String × List (String × ℤ)) : Type 0 where
  same : (f : String) → occurs f state.0 ≡ occurs f (names state.1)
  apart : IsDistinct (names state.1)

-- What a state has after one more key, or a group of them.
abbrev Extends :
    List String × List (String × ℤ) → List String × List (String × ℤ) → List (String × ℤ) → Type 0
Extends state state' group =
    IsCollected state'
    × ((f : String)
        → occurs f (names state'.1) ≡ (occurs f (names state.1) || occurs f (names group)))

collect_one-Extends :
    (state : List String × List (String × ℤ)) (g : String) (d : ℤ)
    → IsCollected state
    → Extends state (collect_one state (g, d)) ((g, d) ∷ [])
unfolding collect_one
collect_one-Extends state g d h = elim (Bool-cases (occurs g state.0)) [
  | inl old ↦ rw old (h, λ f. ground (arith, h.same g, eq_iff f g))
  | inr new ↦ rw new (
    record {
      same = λ f.
          rw (names-append state.1 (g, d), occurs-append f g (names state.1), h.same f)
            (ground arith);
      apart =
          rw (names-append state.1 (g, d))
            (IsDistinct-append g (names state.1) (sym (h.same g) ∙ new) h.apart);
    },
    λ f. rw (names-append state.1 (g, d), occurs-append f g (names state.1)) (ground arith),
  )
]

collect-Extends :
    (state : List String × List (String × ℤ)) (group : List (String × ℤ))
    → IsCollected state
    → Extends state (collect state group) group
unfolding collect
collect-Extends state [] h = (h, λ f. ground arith)
collect-Extends state ((g, d) ∷ group) h =
    let (h₁, one) = collect_one-Extends state g d h in
    let (h₂, more) = collect-Extends (collect_one state (g, d)) group h₁ in
    (h₂, λ f. more f ∙ ground (arith, one f))

occurs-sort_group :
    (f : String) (keys : List (String × ℤ))
    → occurs f (names (sorted pair_le keys)) ≡ occurs f (names keys)
occurs-sort_group f keys =
    occurs-names f (sorted pair_le keys)
    ∙ any-sorted pair_le (λ k. str_eq f k.0) keys
    ∙ sym (occurs-names f keys)

or_assoc : (a b c : Bool) → ((a || b) || c) ≡ (a || (b || c))
or_assoc a b c = ground arith

-- The keys of a shape name each field of the shape once: a text is the name of a key exactly if it
-- is an equality field, the name of a sort field or a range field, and no name stands twice.
collected_keys_cover :
    (shape : FindQueryShape)
    → ((f : String)
        → occurs f (names (collected_keys shape)) ≡ (
            occurs f shape.equality_fields
            || (occurs f (names shape.sort_fields) || occurs f shape.range_fields)))
      × IsDistinct (names (collected_keys shape))
unfolding collected_keys
collected_keys_cover shape =
    let sort_group = sorted pair_le shape.sort_fields in
    let (h₁, eqs) =
      collect-Extends ([], []) (ascending_group shape.equality_fields)
        (record { same = λ f. refl; apart = tt }) in
    let (h₂, sorts) =
      collect-Extends (collect ([], []) (ascending_group shape.equality_fields)) sort_group h₁ in
    let (h₃, ranges) =
      collect-Extends
        (collect (collect ([], []) (ascending_group shape.equality_fields)) sort_group)
        (ascending_group shape.range_fields) h₂ in
    (
      (λ f.
          rw
            (
              ranges f,
              sorts f,
              eqs f,
              occurs-ascending_group f shape.equality_fields,
              occurs-ascending_group f shape.range_fields,
              occurs-sort_group f shape.sort_fields,
            )
            (or_assoc (occurs f shape.equality_fields) (occurs f (names shape.sort_fields))
              (occurs f shape.range_fields))),
      h₃.apart,
    )

-- A key of a shape: an ascending one of an equality or range field, or a sort field with its direction.
abbrev pub IsKeyOf : FindQueryShape → String × ℤ → Type 0
IsKeyOf shape k =
    ((k.1 ≡ pos 1) × ((occurs k.0 shape.equality_fields || occurs k.0 shape.range_fields) ≡ true))
    ⊎ Any (λ s. s ≡ k) shape.sort_fields

-- The keys of a shape: of each field once, and of no other.
pub record IsKeysOf (shape : FindQueryShape) (keys : List (String × ℤ)) : Type 0 where
  pub covers :
      (f : String)
      → occurs f (names keys) ≡ (
          occurs f shape.equality_fields
          || (occurs f (names shape.sort_fields) || occurs f shape.range_fields))
  pub apart : IsDistinct (names keys)
  pub directed : All (IsKeyOf shape) keys

collect_one-All :
    (P : String × ℤ → Type 0) (state : List String × List (String × ℤ)) (k : String × ℤ)
    → P k
    → All P state.1
    → All P (collect_one state k).1
unfolding collect_one
collect_one-All P state (g, d) p h =
    if_cases (λ (s : List String × List (String × ℤ)). All P s.1) (any (str_eq g) state.0)
      (λ old. h) (λ new. All-append P state.1 ((g, d) ∷ []) h (p, tt))

collect-All :
    (P : String × ℤ → Type 0) (state : List String × List (String × ℤ)) (group : List (String × ℤ))
    → All P group
    → All P state.1
    → All P (collect state group).1
unfolding collect
collect-All P state [] p h = h
collect-All P state (k ∷ group) p h =
    collect-All P (collect_one state k) group p.1 (collect_one-All P state k p.0 h)

each_occurs : (xs : List String) → All (λ x. occurs x xs ≡ true) xs
each_occurs [] = tt
each_occurs (x ∷ xs) = (
  ground (arith, eq_refl x),
  All-map (λ y. occurs y xs ≡ true) (λ y. occurs y (x ∷ xs) ≡ true) xs (λ y h. ground (arith, h))
      (each_occurs xs),
)

All-ones :
    (P : String × ℤ → Type 0) (xs : List String)
    → All (λ x. P (x, pos 1)) xs
    → All P (map (λ x. (x, pos 1)) xs)
All-ones P [] h = tt
All-ones P (x ∷ xs) h = (h.0, All-ones P xs h.1)

-- The keys of a group are ascending, and of its fields.
ascending_group-All :
    (P : String × ℤ → Type 0) (xs : List String)
    → ((x : String) → occurs x xs ≡ true → P (x, pos 1))
    → All P (ascending_group xs)
unfolding ascending_group
ascending_group-All P xs each =
    let fields = sorted text_le (distinct xs) in
    All-ones P fields (
      All-map (λ x. occurs x fields ≡ true) (λ x. P (x, pos 1)) fields
        (λ x h.
          each x
            (sym (occurs-distinct x xs) ∙ sym (any-sorted text_le (str_eq x) (distinct xs)) ∙ h))
        (each_occurs fields))

pub collected_keys-IsKeysOf : (shape : FindQueryShape) → IsKeysOf shape (collected_keys shape)
unfolding collected_keys
collected_keys-IsKeysOf shape =
    let sort_group = sorted pair_le shape.sort_fields in
    let P = IsKeyOf shape in
    let after_equality = collect ([], []) (ascending_group shape.equality_fields) in
    let (covers, apart) = collected_keys_cover shape in
    record {
      covers = covers;
      apart = apart;
      directed =
          collect-All P (collect after_equality sort_group) (ascending_group shape.range_fields)
            (ascending_group-All P shape.range_fields (λ x h. inl (refl, ground (arith, h))))
            (collect-All P after_equality sort_group
              (All-sorted pair_le P shape.sort_fields (
                All-map (λ k. Any (λ s. s ≡ k) shape.sort_fields) P shape.sort_fields (λ k h. inr h)
                  (All-Any shape.sort_fields)))
              (collect-All P ([], []) (ascending_group shape.equality_fields)
                (ascending_group-All P shape.equality_fields (λ x h. inl (refl, ground (arith, h))))
                tt));
    }
