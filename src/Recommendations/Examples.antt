-- ===== src/Recommendations/Examples.antt =====
-- The advisors at concrete proposals.
use ai_driven_autonomous_no.Prelude.{◌≡◌, refl, ◌⊎◌, pos, true, false, some, List, [], ◌∷◌, All}
use ai_driven_autonomous_no.Recommendations.Configuration.{
  IsAdvice, recommend_setting, recommend_setting-IsAdvice,
}
use ai_driven_autonomous_no.Recommendations.Rewrite.{
  ResultDocument, QueryResult, rejected_safety_invariant, recommend_rewrite, IsEquivalent,
  recommend_rewrite-IsEquivalent,
}
use ai_driven_autonomous_no.Recommendations.Observed.{
  ObservedIndex, IndexCleanupRecommendation, recommend_cleanup, is_invalid, repeats, by_name,
  candidates_of, recommendations_of,
}
use ai_driven_autonomous_no.Recommendations.Cleanup.{
  IsJustifiedCleanup, recommend_cleanup-justified,
}

recommend_setting-IsAdvice_example :
    IsAdvice "evaluation_sample_count"
      (pos 200)
      []
      (recommend_setting "evaluation_sample_count" (pos 200) [])
recommend_setting-IsAdvice_example =
    recommend_setting-IsAdvice "evaluation_sample_count" (pos 200) []

abbrev first : ResultDocument
first = record { document_identity = "1"; canonical_hash = "a" }

abbrev second : ResultDocument
second = record { document_identity = "2"; canonical_hash = "b" }

abbrev baseline : QueryResult
baseline = record { documents = first ∷ second ∷ []; ordering_required = false }

abbrev swapped : QueryResult
swapped = record { documents = second ∷ first ∷ []; ordering_required = false }

recommend_rewrite-IsEquivalent_example :
    ((recommend_rewrite "hint" baseline swapped).status ≡ rejected_safety_invariant)
    ⊎ IsEquivalent baseline swapped
recommend_rewrite-IsEquivalent_example = recommend_rewrite-IsEquivalent "hint" baseline swapped

abbrev indexes : List ObservedIndex
indexes =
    record {
      name = "_id_";
      keys = ("_id", pos 1) ∷ [];
      observed_use_count = 0;
      optimizer_owned = false;
    }
    ∷ record {
      name = "optimizer_1";
      keys = ("status", pos 1) ∷ [];
      observed_use_count = 0;
      optimizer_owned = true;
    }
    ∷ []

abbrev recommendations : List IndexCleanupRecommendation
recommendations = recommendations_of (candidates_of indexes) (by_name (candidates_of indexes))

indexes_are_valid : recommend_cleanup indexes ≡ some recommendations
unfolding recommend_cleanup is_invalid repeats
indexes_are_valid = refl

recommend_cleanup-justified_example : All (IsJustifiedCleanup indexes) recommendations
recommend_cleanup-justified_example =
    recommend_cleanup-justified indexes recommendations indexes_are_valid
