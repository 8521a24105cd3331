-- ===== src/Candidates/Order.antt =====
-- The order of a shape's fields does not reach the candidate.
use mathlib.Core.List.{Perm}
use mathlib.Core.HLevel.{hedberg}
use ai_driven_autonomous_no.Prelude.{
  ℤ, ◌≡◌, ap, ◌⊎◌, String, true, List, [], eq_iff, text_le_total, text_le_trans, text_le_antisymm,
  text_discrete, arith,
}
use ai_driven_autonomous_no.Prelude.Sorting.{sorted, sorted-eq_of_perm}
use ai_driven_autonomous_no.Candidates.{
  FindQueryShape, FingerprintPayload, pair_le, collect, ascending_group, collected_keys,
  candidate_of, generate, fingerprint,
}

pair_le_total : (x y : String × ℤ) → (pair_le x y ≡ true) ⊎ (pair_le y x ≡ true)
unfolding pair_le
pair_le_total (s, d) (t, e) = ground (arith, text_le_total s t, eq_iff s t, eq_iff t s)

pair_le_trans : (x y z : String × ℤ) → pair_le x y ≡ true → pair_le y z ≡ true → pair_le x z ≡ true
unfolding pair_le
pair_le_trans (s, d) (t, e) (u, f) h k =
    ground (arith, text_le_trans s t u, text_le_antisymm s t, eq_iff s t, eq_iff t u, eq_iff s u)

pair_le_antisymm : (x y : String × ℤ) → pair_le x y ≡ true → pair_le y x ≡ true → x ≡ y
unfolding pair_le
pair_le_antisymm (s, d) (t, e) h k = ground (arith, text_le_antisymm s t, eq_iff s t, eq_iff t s)

pair_set : IsSet (String × ℤ)
pair_set = hlevel (hedberg text_discrete)

sorted_pairs : {xs ys : List (String × ℤ)} → Perm xs ys → sorted pair_le xs ≡ sorted pair_le ys
sorted_pairs p = sorted-eq_of_perm pair_le pair_le_total pair_le_trans pair_le_antisymm pair_set p

same_keys :
    (shape : FindQueryShape) (other : List (String × ℤ))
    → Perm shape.sort_fields other
    → collected_keys shape ≡ collected_keys (record shape { sort_fields = other })
unfolding collected_keys
same_keys shape other p =
    ap
      (λ group.
        (collect (collect (collect ([], []) (ascending_group shape.equality_fields)) group)
          (ascending_group shape.range_fields)).1)
      (sorted_pairs p)

-- Sort fields with the same pairs of a field and a direction give the same candidates, whatever
-- order the query sorts by: the generator puts the sort fields in the order of their names.
pub generate_forgets_sort_order :
    (sha256 : String → String) (dumps : FingerprintPayload → String) (shape : FindQueryShape)
    (other : List (String × ℤ))
    → Perm shape.sort_fields other
    → generate sha256 dumps shape ≡ generate sha256 dumps (record shape { sort_fields = other })
unfolding generate candidate_of fingerprint
generate_forgets_sort_order sha256 dumps shape other p = rw (same_keys shape other p)
