-- ===== src/Recommendations/Cleanup.antt =====
-- What justifies a recommendation of backend/app/recommendations/index_cleanup.py.
use ai_driven_autonomous_no.Prelude.{
  inl, inr, Bool-cases, ◌∙◌, ◌<◌, and_true, sym, ◌≡◌, refl, subst, Bool, true, false, not, ◌&&◌,
  some, List, [], ◌∷◌, any, take, length, ltb, ◌==◌, All, Any, All-Any, ◌↔◌, str_eq, text_le, arith,
  if_cases,
}
use ai_driven_autonomous_no.Prelude.Sorting.{All-sorted}
use ai_driven_autonomous_no.Production.{same_keys}
use ai_driven_autonomous_no.Recommendations.Observed.{
  CleanupReason, unused, redundant_prefix, stale_optimizer_owned, ObservedIndex,
  IndexCleanupRecommendation, is_invalid, by_name, is_redundant_prefix, reasons_of, has_reasons,
  recommendations_of, candidates_of, recommend_cleanup,
}

abbrev is_unused : CleanupReason → Bool
is_unused unused = true
is_unused _ = false

abbrev is_stale : CleanupReason → Bool
is_stale stale_optimizer_owned = true
is_stale _ = false

abbrev is_prefix : CleanupReason → Bool
is_prefix redundant_prefix = true
is_prefix _ = false

-- A longer observed index, other than the primary one, that begins with the keys of an index.
pub record IsLonger (observed : List ObservedIndex) (index longer : ObservedIndex) : Type 0 where
  pub was_observed : Any (λ i. i ≡ longer) observed
  pub not_primary : str_eq longer.name "_id_" ≡ false
  pub has_more : length index.keys < length longer.keys
  pub begins : same_keys (take (length index.keys) longer.keys) index.keys ≡ true

-- A recommendation is of an observed index other than the primary one, with its owner and for a reason.
-- The index is called unused exactly if its observed use is zero, and stale exactly if the optimizer
-- owns it besides, and a redundant prefix only if a longer index begins with its keys.
pub record IsJustifiedCleanup (indexes : List ObservedIndex) (r : IndexCleanupRecommendation)
    : Type 0 where
  pub index : ObservedIndex
  pub was_observed : Any (λ i. i ≡ index) indexes
  pub of_index : r.index_name ≡ index.name
  pub with_owner : r.optimizer_owned ≡ index.optimizer_owned
  pub not_primary : str_eq r.index_name "_id_" ≡ false
  pub has_reason : has_reasons r.reasons ≡ true
  pub unused_iff : (any is_unused r.reasons ≡ true) ↔ (index.observed_use_count ≡ 0)
  pub prefix_of :
      any is_prefix r.reasons ≡ true → (longer : ObservedIndex) × IsLonger indexes index longer
  pub stale_iff :
      (any is_stale r.reasons ≡ true)
      ↔ ((index.observed_use_count ≡ 0) × (index.optimizer_owned ≡ true))

unused_test :
    (candidates : List ObservedIndex) (i : ObservedIndex)
    → any is_unused (reasons_of candidates i) ≡ (i.observed_use_count == 0)
unfolding reasons_of
unused_test candidates i = ground arith

stale_test :
    (candidates : List ObservedIndex) (i : ObservedIndex)
    → any is_stale (reasons_of candidates i) ≡ ((i.observed_use_count == 0) && i.optimizer_owned)
unfolding reasons_of
stale_test candidates i = ground arith

prefix_test :
    (candidates : List ObservedIndex) (i : ObservedIndex)
    → any is_prefix (reasons_of candidates i) ≡ is_redundant_prefix candidates i
unfolding reasons_of
prefix_test candidates i = ground arith

-- What a search finds is an entry with what holds of every entry.
found_one :
    {A : Type 0} (P : A → Type 0) (test : A → Bool) (xs : List A)
    → All P xs
    → any test xs ≡ true
    → (x : A) × P x × (test x ≡ true)
found_one P test [] h found = cc
found_one P test (x ∷ xs) h found = elim (Bool-cases (test x)) [
  | inl e ↦ (x, h.0, e)
  | inr e ↦ found_one P test xs h.1 (rw e at found)
]

-- An observed index that is not the primary one.
abbrev IsCandidate : List ObservedIndex → ObservedIndex → Type 0
IsCandidate observed i = Any (λ j. j ≡ i) observed × (str_eq i.name "_id_" ≡ false)

is_redundant_prefix-IsLonger :
    (observed candidates : List ObservedIndex) (i : ObservedIndex)
    → All (IsCandidate observed) candidates
    → is_redundant_prefix candidates i ≡ true
    → (longer : ObservedIndex) × IsLonger observed i longer
unfolding is_redundant_prefix
is_redundant_prefix-IsLonger observed candidates i h found =
    let (longer, candidate, fits) = found_one (IsCandidate observed) _ candidates h found in
    let (other, rest) = and_true (not (same_keys i.keys longer.keys)) _ fits in
    let (more, begins) = and_true (ltb (length i.keys) (length longer.keys)) _ rest in
    (
      longer,
      record {
        was_observed = candidate.0;
        not_primary = candidate.1;
        has_more = ground arith;
        begins = begins;
      },
    )

recommendations_of-justified :
    (observed candidates indexes : List ObservedIndex)
    → All (IsCandidate observed) candidates
    → All (IsCandidate observed) indexes
    → All (IsJustifiedCleanup observed) (recommendations_of candidates indexes)
unfolding recommendations_of
recommendations_of-justified observed candidates [] known h = tt
recommendations_of-justified observed candidates (i ∷ indexes) known h =
    let rest = recommendations_of-justified observed candidates indexes known h.1 in
    let is_unused_i = unused_test candidates i in
    let is_stale_i = stale_test candidates i in
    if_cases (All (IsJustifiedCleanup observed)) (has_reasons (reasons_of candidates i))
      (λ has. (
        record {
          index = i;
          was_observed = h.0.0;
          of_index = refl;
          with_owner = refl;
          not_primary = h.0.1;
          has_reason = has;
          unused_iff = ((λ e. ground (arith, is_unused_i, e)), λ e. ground (arith, is_unused_i, e));
          prefix_of = λ e.
              is_redundant_prefix-IsLonger observed candidates i known
                (sym (prefix_test candidates i) ∙ e);
          stale_iff = (
            (λ e. (ground (arith, is_stale_i, e), ground (arith, is_stale_i, e))),
            λ e. ground (arith, is_stale_i, e.0, e.1),
          );
        },
        rest,
      ))
      (λ has_none. rest)

candidates_of-All :
    (observed indexes : List ObservedIndex)
    → All (λ i. Any (λ j. j ≡ i) observed) indexes
    → All (IsCandidate observed) (candidates_of indexes)
candidates_of-All observed [] h = tt
candidates_of-All observed (i ∷ indexes) h =
    if_cases (All (IsCandidate observed)) (not (str_eq i.name "_id_"))
      (λ other. ((h.0, ground arith), candidates_of-All observed indexes h.1))
      (λ primary. candidates_of-All observed indexes h.1)

-- Where the observations are valid, every recommendation is of an observed index other than the primary
-- one, says whether the optimizer owns it, and has a reason; it calls the index unused exactly if its
-- observed use is zero, stale exactly if the optimizer owns it as well, and a redundant prefix only where
-- a longer observed index other than the primary one begins with its keys.
pub recommend_cleanup-justified :
    (indexes : List ObservedIndex) (rs : List IndexCleanupRecommendation)
    → recommend_cleanup indexes ≡ some rs
    → All (IsJustifiedCleanup indexes) rs
unfolding recommend_cleanup by_name
recommend_cleanup-justified indexes rs =
    if_cases (λ o. o ≡ some rs → All (IsJustifiedCleanup indexes) rs) (is_invalid indexes)
      (λ bad h. cc)
      (λ good h.
        let made = recommendations_of (candidates_of indexes) (by_name (candidates_of indexes)) in
        let same : made ≡ rs = cc in
        subst (All (IsJustifiedCleanup indexes)) same (
          recommendations_of-justified indexes (candidates_of indexes)
            (by_name (candidates_of indexes)) (candidates_of-All indexes indexes (All-Any indexes))
            (All-sorted (λ i j. text_le i.name j.name) (IsCandidate indexes) (candidates_of indexes)
              (candidates_of-All indexes indexes (All-Any indexes)))))
