-- ===== src/Recommendations/Observed.antt =====
-- backend/app/recommendations/index_cleanup.py: indexes that may be removable, as advice only.
use ai_driven_autonomous_no.Prelude.{
  ℕ, ℤ, String, Bool, true, false, not, ◌&&◌, ◌||◌, Option, none, some, List, [], ◌∷◌, ◌++◌, any,
  filter, map, take, length, ltb, ◌==◌, str_eq, text_le, if◌then◌else◌,
}
use ai_driven_autonomous_no.Prelude.Sorting.{sorted}
use ai_driven_autonomous_no.Production.{same_keys}

pub data CleanupReason : Type 0 where
  unused duplicate redundant_prefix stale_optimizer_owned : CleanupReason

-- A use count is the sum of observations; one below zero is refused by the source.
pub record ObservedIndex : Type 0 where
  pub name : String
  pub keys : List (String × ℤ)
  pub observed_use_count : ℕ
  pub optimizer_owned : Bool

pub record IndexCleanupRecommendation : Type 0 where
  pub index_name : String
  pub reasons : List CleanupReason
  pub optimizer_owned : Bool

abbrev has_no_keys : List (String × ℤ) → Bool
has_no_keys [] = true
has_no_keys (k ∷ keys) = false

-- A name stands twice.
unfoldable pub repeats : List ObservedIndex → Bool
repeats [] = false
repeats (i ∷ indexes) =
    let rest = repeats indexes in any (λ j. str_eq j.name i.name) indexes || rest

-- The test of `_validate_indexes`.
unfoldable pub is_invalid : List ObservedIndex → Bool
unfolding repeats
is_invalid indexes = repeats indexes || any (λ i. str_eq i.name "" || has_no_keys i.keys) indexes

unfoldable pub by_name : List ObservedIndex → List ObservedIndex
by_name indexes = sorted (λ i j. text_le i.name j.name) indexes

-- groups.setdefault(index.keys, []).append(index)
unfoldable pub add_to_groups : ObservedIndex → List (List ObservedIndex) → List (List ObservedIndex)
add_to_groups i [] = (i ∷ []) ∷ []
add_to_groups i ([] ∷ groups) = [] ∷ add_to_groups i groups
add_to_groups i ((j ∷ group) ∷ groups) =
    let rest = add_to_groups i groups in
    if same_keys j.keys i.keys then (j ∷ group ++ i ∷ []) ∷ groups else (j ∷ group) ∷ rest

unfoldable pub grouped : List ObservedIndex → List (List ObservedIndex) → List (List ObservedIndex)
unfolding add_to_groups
grouped [] groups = groups
grouped (i ∷ indexes) groups = grouped indexes (add_to_groups i groups)

-- `_duplicate_groups`
unfoldable pub duplicate_groups : List ObservedIndex → List (List ObservedIndex)
unfolding grouped by_name
duplicate_groups indexes = map by_name (filter (λ g. ltb 1 (length g)) (grouped indexes []))

abbrev pub after_first : List ObservedIndex → List ObservedIndex
after_first [] = []
after_first (i ∷ group) = group

unfoldable pub is_duplicate : List ObservedIndex → ObservedIndex → Bool
unfolding duplicate_groups
is_duplicate candidates i =
    any (λ g. any (λ j. str_eq j.name i.name) (after_first g)) (duplicate_groups candidates)

unfoldable pub is_redundant_prefix : List ObservedIndex → ObservedIndex → Bool
is_redundant_prefix candidates shorter =
    any
      (λ longer.
        not (same_keys shorter.keys longer.keys)
        && (ltb (length shorter.keys) (length longer.keys)
            && same_keys (take (length shorter.keys) longer.keys) shorter.keys))
      candidates

-- The reasons of one index in the order of their values.
unfoldable pub reasons_of : List ObservedIndex → ObservedIndex → List CleanupReason
reasons_of candidates i =
    (if is_duplicate candidates i then duplicate ∷ [] else [])
    ++ ((if is_redundant_prefix candidates i then redundant_prefix ∷ [] else [])
        ++ ((if (i.observed_use_count == 0) && i.optimizer_owned
              then stale_optimizer_owned ∷ []
              else [])
            ++ (if i.observed_use_count == 0 then unused ∷ [] else [])))

abbrev pub has_reasons : List CleanupReason → Bool
has_reasons [] = false
has_reasons (r ∷ reasons) = true

unfoldable pub recommendations_of :
    List ObservedIndex → List ObservedIndex → List IndexCleanupRecommendation
recommendations_of candidates [] = []
recommendations_of candidates (i ∷ indexes) =
    let rest = recommendations_of candidates indexes in
    if has_reasons (reasons_of candidates i)
    then record {
      index_name = i.name;
      reasons = reasons_of candidates i;
      optimizer_owned = i.optimizer_owned;
    }
      ∷ rest
    else rest

abbrev pub candidates_of : List ObservedIndex → List ObservedIndex
candidates_of indexes = filter (λ i. not (str_eq i.name "_id_")) indexes

-- `none` is the ValueError of the validation.
unfoldable pub recommend_cleanup : List ObservedIndex → Option (List IndexCleanupRecommendation)
unfolding is_invalid by_name recommendations_of
recommend_cleanup indexes =
    if is_invalid indexes
    then none
    else some (recommendations_of (candidates_of indexes) (by_name (candidates_of indexes)))
