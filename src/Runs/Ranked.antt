-- ===== src/Runs/Ranked.antt =====
-- A ranking, and a plan after it, keep the evidence of a run.
use ai_driven_autonomous_no.Prelude.{
  ℕ, ◌≡◌, refl, sym, ◌∙◌, inl, inr, String, Bool, ◌==◌, Option, none, some, List, [], ◌∷◌, find,
  take, length, eq_refl, arith, Option-cases, Bool-cases,
}
use ai_driven_autonomous_no.Prelude.Options.{◌>>=◌, ◌>>◌, guard, >>=-eq-some, when_absent_cases}
use ai_driven_autonomous_no.Runs.{RunStore, RankingRow, PlanRow, AdmissionRow}
use ai_driven_autonomous_no.Runs.Selection.{
  create_ranking, create_plan, candidate_ids, new_ranking, with_ranking, summaries_of, plan_of,
  load_summaries, received_order,
}
use ai_driven_autonomous_no.Runs.Selected.{create_ranking-IsPermutation, create_plan-first_three}
use ai_driven_autonomous_no.Runs.Services.{or_kept}
use ai_driven_autonomous_no.Runs.Kept.{PlanFits, IsAmong, AdmissionFits, IsAttested, kept_facts}
use ai_driven_autonomous_no.Runs.Artifacts.{ranked-Holds, planned-Holds}

-- There is no plan before a ranking, and no admission before a plan.
pub unplanned :
    (p : Option PlanRow) (r : Option RankingRow) (new : RankingRow)
    → r ≡ none
    → PlanFits p r
    → PlanFits p (some new)
unplanned none r new e h = tt
unplanned (some p) r new e h = let (q, present, takes) = h in cc

undecided :
    (a : Option AdmissionRow) (p : Option PlanRow) (new : PlanRow)
    → p ≡ none
    → AdmissionFits a p
    → AdmissionFits a (some new)
undecided none p new e h = tt
undecided (some a) p new e h = let (q, present, among) = h in cc

pub find-IsAmong :
    (test : String → Bool) (xs : List String) (o : Option String) → find test xs ≡ o → IsAmong o xs
find-IsAmong test xs none e = tt
find-IsAmong test [] (some id) e = cc
find-IsAmong test (x ∷ xs) (some id) e = elim (Bool-cases (test x)) [
  | inl hit ↦ let same : x ≡ id = ground arith in rw same (ground (arith, eq_refl id))
  | inr miss ↦ ground (arith, find-IsAmong test xs (some id) (ground arith))
]

count_of_loaded :
    (summary : String → String → String) (rank_handles : List (String × String) → List String)
    (store : RunStore) (summaries : List String)
    → load_summaries summary rank_handles store ≡ some summaries
    → (k : ℕ) × (store.candidate_count ≡ some k)
unfolding load_summaries
count_of_loaded summary rank_handles store summaries h =
    let (count, counted, rest) =
      >>=-eq-some _
        (λ count.
          guard (length store.candidates == count)
          >> summaries_of summary rank_handles store.candidates)
        h in
    let (v, passed, found) = >>=-eq-some _ (λ _. store.candidate_count) counted in (count, found)

count_of_ranked :
    (summary : String → String → String) (rank_handles : List (String × String) → List String)
    (store left : RunStore) (new_id : String)
    → store.ranking_artifact ≡ none
    → create_ranking summary rank_handles store new_id ≡ some left
    → (k : ℕ) × (store.candidate_count ≡ some k)
unfolding create_ranking new_ranking
count_of_ranked summary rank_handles store left new_id absent h =
    let load = load_summaries summary rank_handles store in
    let e : create_ranking summary rank_handles store new_id
        ≡ new_ranking summary rank_handles store new_id =
      rw absent refl in
    let (received, ordered, stored) =
      >>=-eq-some (load >>= received_order summary rank_handles (candidate_ids store))
        (λ received. some (with_ranking store new_id received)) (sym e ∙ h) in
    let (summaries, loaded, found) =
      >>=-eq-some load (received_order summary rank_handles (candidate_ids store)) ordered in
    count_of_loaded summary rank_handles store summaries loaded

create_ranking_kept :
    (summary : String → String → String) (rank_handles : List (String × String) → List String)
    (store left : RunStore) (id : String) (old : RankingRow)
    → store.ranking_artifact ≡ some old
    → create_ranking summary rank_handles store id ≡ some left
    → store ≡ left
unfolding create_ranking
create_ranking_kept summary rank_handles store left id old present e =
    when_absent_cases (λ r. r ≡ some left → store ≡ left) store.ranking_artifact (λ absent. cc)
      (λ a b c. cc) e

ranked_left :
    (summary : String → String → String) (rank_handles : List (String × String) → List String)
    (store left : RunStore) (id : String)
    → IsAttested store
    → create_ranking summary rank_handles store id ≡ some left
    → IsAttested left
unfolding candidate_ids
ranked_left summary rank_handles store left id h e = elim (Option-cases store.ranking_artifact) [
  | inl absent ↦
      let (r, same, perm) =
        create_ranking-IsPermutation summary rank_handles store left id absent e in
      rw same (record {
        attests =
            kept_facts store (record store { ranking_artifact = some r }) store.row.status
              (ranked-Holds store r) h.attests;
        ranks = (perm, count_of_ranked summary rank_handles store left id absent e);
        plans = unplanned store.evaluation_plan store.ranking_artifact r absent h.plans;
        admits = h.admits;
      })
  | inr (old, present) ↦
      let same : store ≡ left =
        create_ranking_kept summary rank_handles store left id old present e in
      rw (← same) h
]

pub ranked-IsAttested :
    (summary : String → String → String) (rank_handles : List (String × String) → List String)
    (store : RunStore) (id : String)
    → IsAttested store
    → IsAttested (or_kept store (create_ranking summary rank_handles store id))
unfolding or_kept candidate_ids
ranked-IsAttested summary rank_handles store id h =
    elim (Option-cases (create_ranking summary rank_handles store id)) [
      | inl e ↦ rw e h
      | inr (left, e) ↦ rw e (ranked_left summary rank_handles store left id h e)
    ]

create_plan_kept :
    (store left : RunStore) (id profile : String) (old : PlanRow)
    → store.evaluation_plan ≡ some old
    → create_plan store id profile ≡ some left
    → store ≡ left
unfolding create_plan
create_plan_kept store left id profile old present e =
    when_absent_cases (λ r. r ≡ some left → store ≡ left) store.evaluation_plan (λ absent. cc)
      (λ a b c. cc) e

ranking_of_planned :
    (store left : RunStore) (id profile : String)
    → store.evaluation_plan ≡ none
    → create_plan store id profile ≡ some left
    → (r : RankingRow) × (store.ranking_artifact ≡ some r)
unfolding create_plan
ranking_of_planned store left id profile absent e =
    let opened : create_plan store id profile ≡ (
        store.ranking_artifact >>= λ r. plan_of store id profile (take 3 r.ordered_candidate_ids)) =
      rw absent refl in
    let (r, present, made) =
      >>=-eq-some store.ranking_artifact
        (λ r. plan_of store id profile (take 3 r.ordered_candidate_ids)) (sym opened ∙ e) in
    (r, present)

pub planned_left :
    (store left : RunStore) (id profile : String)
    → IsAttested store
    → create_plan store id profile ≡ some left
    → IsAttested left
unfolding candidate_ids
planned_left store left id profile h e = elim (Option-cases store.evaluation_plan) [
  | inl absent ↦
      let (r, present) = ranking_of_planned store left id profile absent e in
      let (first, others, takes, same) =
        create_plan-first_three store left id profile r absent present e in
      let p : PlanRow = record {
        plan_id = id;
        profile = profile;
        planned_candidate_ids = first ∷ others;
      } in
      rw same (record {
        attests =
            kept_facts store (record store { evaluation_plan = some p }) store.row.status
              (planned-Holds store p absent) h.attests;
        ranks = h.ranks;
        plans = (r, present, sym takes);
        admits = undecided store.admission_artifact store.evaluation_plan p absent h.admits;
      })
  | inr (old, present) ↦
      let same : store ≡ left = create_plan_kept store left id profile old present e in
      rw (← same) h
]
