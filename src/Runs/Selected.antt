-- ===== src/Runs/Selected.antt =====
-- The ranking, the plan and the selection of a run: what each service leaves in the store.
use mathlib.Core.List.{Perm}
use ai_driven_autonomous_no.Prelude.{
  ℕ, zero, suc, ◌/◌, ◌≤◌, ◌≡◌, refl, sym, ◌∙◌, inl, inr, String, none, some, List, [], ◌∷◌, take,
  ltb, arith, Bool-cases,
}
use ai_driven_autonomous_no.Prelude.Options.{◌>>=◌, guard, >>=-eq-some, guard-eq-some}
use ai_driven_autonomous_no.Runs.{RunStore, RankingRow}
use ai_driven_autonomous_no.Runs.Selection.{
  decimal_within, create_ranking, with_ranking, new_ranking, checked_order, received_order,
  is_exact_cover, candidate_ids, load_summaries, create_plan, plan_of,
}
use ai_driven_autonomous_no.Runs.Cover.{is_exact_cover-Perm}

-- Any fuel that is not below the number gives its digits.
decimal_enough : (f g n : ℕ) → n ≤ f → n ≤ g → decimal_within f n ≡ decimal_within g n
unfolding decimal_within
decimal_enough zero zero n h k = refl
decimal_enough zero (suc g) n h k = ground arith
decimal_enough (suc f) zero n h k = ground arith
decimal_enough (suc f) (suc g) n h k = elim (Bool-cases (ltb n 10)) [
  | inl e ↦ rw e refl
  | inr e ↦ rw (e, decimal_enough f g (n / 10) (ground arith) (ground arith)) refl
]

module _ (summary : String → String → String)
    (rank_handles : List (String × String) → List String) where
  checked_order-Perm :
      (ids received kept : List String) → checked_order ids received ≡ some kept → Perm kept ids
  unfolding checked_order
  checked_order-Perm ids received kept h =
      let (u, covers, returned) = >>=-eq-some (guard (is_exact_cover received ids)) _ h in
      let same : received ≡ kept = cc in
      rw (← same)
        (is_exact_cover-Perm received ids (guard-eq-some (is_exact_cover received ids) covers))

  received_order-Perm :
      (ids summaries received : List String)
      → received_order summary rank_handles ids summaries ≡ some received
      → Perm received ids
  unfolding received_order
  received_order-Perm ids summaries received h =
      let (mapped, _, checked) = >>=-eq-some _ (checked_order ids) h in
      checked_order-Perm ids mapped received checked

  -- Whatever the model answers, a new ranking that is stored has each candidate of the run exactly once,
  -- and nothing else of the store changes.
  pub create_ranking-IsPermutation :
      (store left : RunStore) (new_id : String)
      → store.ranking_artifact ≡ none
      → create_ranking summary rank_handles store new_id ≡ some left
      → (r : RankingRow) × (left ≡ record store { ranking_artifact = some r })
        × Perm r.ordered_candidate_ids (candidate_ids store)
  unfolding create_ranking new_ranking
  create_ranking-IsPermutation store left new_id absent h =
      let e : create_ranking summary rank_handles store new_id
          ≡ new_ranking summary rank_handles store new_id =
        rw absent refl in
      let load = load_summaries summary rank_handles store in
      let (received, ordered, stored) =
        >>=-eq-some (load >>= received_order summary rank_handles (candidate_ids store))
          (λ received. some (with_ranking store new_id received)) (sym e ∙ h) in
      let (summaries, _, found) =
        >>=-eq-some load (received_order summary rank_handles (candidate_ids store)) ordered in
      (
        record { ranking_id = new_id; ordered_candidate_ids = received },
        cc,
        received_order-Perm (candidate_ids store) summaries received found,
      )

plan_of-cons :
    (store left : RunStore) (new_id profile : String) (selected : List String)
    → plan_of store new_id profile selected ≡ some left
    → (first : String) × (others : List String) × (selected ≡ first ∷ others)
      × (left ≡ record store {
        evaluation_plan = some (record {
          plan_id = new_id;
          profile = profile;
          planned_candidate_ids = first ∷ others;
        });
      })
unfolding plan_of
plan_of-cons store left new_id profile [] h = cc
plan_of-cons store left new_id profile (first ∷ others) h = (first, others, refl, cc)

-- A new plan has the first three candidates of the ranking, or all where there are fewer, and at
-- least one.
pub create_plan-first_three :
    (store left : RunStore) (new_id profile : String) (r : RankingRow)
    → store.evaluation_plan ≡ none
    → store.ranking_artifact ≡ some r
    → create_plan store new_id profile ≡ some left
    → (first : String) × (others : List String) × (take 3 r.ordered_candidate_ids ≡ first ∷ others)
      × (left ≡ record store {
        evaluation_plan = some (record {
          plan_id = new_id;
          profile = profile;
          planned_candidate_ids = first ∷ others;
        });
      })
unfolding create_plan plan_of
create_plan-first_three store left new_id profile r absent ranked h =
    let e : create_plan store new_id profile
        ≡ plan_of store new_id profile (take 3 r.ordered_candidate_ids) =
      rw (absent, ranked) refl in
    plan_of-cons store left new_id profile (take 3 r.ordered_candidate_ids) (sym e ∙ h)
