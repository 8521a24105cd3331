-- ===== src/Runs/Chain.antt =====
-- The ranking, the plan and the admission of a run fit each other and its candidates, whatever its
-- services and its transitions do.
use ai_driven_autonomous_no.Prelude.{
  ◌≡◌, refl, sym, inl, inr, String, false, Option, none, some, List, [], ◌∷◌, map, Option-cases,
  Bool-cases,
}
use ai_driven_autonomous_no.Prelude.Dicts.{Dict}
use ai_driven_autonomous_no.Prelude.Options.{when_absent_cases}
use ai_driven_autonomous_no.Admission.{AdmissionRequest}
use ai_driven_autonomous_no.Admission.Numbers.{Numbers}
use ai_driven_autonomous_no.Runs.{RunStore, PlanRow, AdmissionRow, same_set}
use ai_driven_autonomous_no.Runs.Selection.{
  create_plan, decide_admission, candidate_ids, new_admission,
}
use ai_driven_autonomous_no.Runs.Admitted.{decide_admission-IsDecided, IsDecided, admits}
use ai_driven_autonomous_no.Runs.Services.{
  new_run, or_kept, Operation, moves_to, attaches, diagnoses, generates, ranks, plans, measures,
  completes, admits_by, perform, perform_all,
}
use ai_driven_autonomous_no.Runs.Kept.{
  IsAttested, kept_facts, moved-IsAttested, attached-IsAttested, diagnosed-IsAttested,
}
use ai_driven_autonomous_no.Runs.Artifacts.{
  generated-IsAttested, admitted-Holds, begun-IsAttested, marked-IsAttested,
}
use ai_driven_autonomous_no.Runs.Ranked.{find-IsAmong, planned_left, ranked-IsAttested, unplanned}

module _ {F : Type 0} (n : Numbers F) (confidence : F) where
  decided_left :
      (requests : Dict (AdmissionRequest F)) (store left : RunStore) (p : PlanRow)
      (a : AdmissionRow)
      → IsAttested store
      → store.admission_artifact ≡ none
      → store.evaluation_plan ≡ some p
      → IsDecided n confidence requests store left p.planned_candidate_ids a
      → IsAttested left
  unfolding candidate_ids
  decided_left requests store left p a h absent present d = rw (d.stored) (record {
    attests =
        kept_facts store (record store { candidates = d.rows; admission_artifact = some a })
          store.row.status (admitted-Holds store d.rows a absent) h.attests;
    ranks = rw (d.same_candidates) h.ranks;
    plans = h.plans;
    admits = (
      p,
      present,
      find-IsAmong (admits n confidence requests) p.planned_candidate_ids a.selected_candidate_id
          (sym d.selected),
    );
  })

  decide_admission_kept :
      (requests : Dict (AdmissionRequest F)) (store : RunStore) (old : AdmissionRow)
      → store.admission_artifact ≡ some old
      → or_kept store (decide_admission n confidence requests store) ≡ store
  unfolding or_kept decide_admission
  decide_admission_kept requests store old present =
      when_absent_cases (λ r. or_kept store r ≡ store) store.admission_artifact (λ absent. cc)
        (λ a e. refl)

  decide_admission_raises :
      (requests : Dict (AdmissionRequest F)) (store : RunStore) (p : PlanRow)
      → store.admission_artifact ≡ none
      → store.evaluation_plan ≡ some p
      → same_set (map (λ e. e.0) requests) p.planned_candidate_ids ≡ false
      → decide_admission n confidence requests store ≡ none
  unfolding decide_admission new_admission
  decide_admission_raises requests store p absent present differ = rw (absent, present, differ) refl

  decide_admission_unplanned :
      (requests : Dict (AdmissionRequest F)) (store : RunStore)
      → store.admission_artifact ≡ none
      → store.evaluation_plan ≡ none
      → decide_admission n confidence requests store ≡ none
  unfolding decide_admission
  decide_admission_unplanned requests store absent unplanned = rw (absent, unplanned) refl

  decided-IsAttested :
      (requests : Dict (AdmissionRequest F)) (store : RunStore)
      → IsAttested store
      → IsAttested (or_kept store (decide_admission n confidence requests store))
  unfolding or_kept
  decided-IsAttested requests store h = elim (Option-cases store.admission_artifact) [
    | inr (old, present) ↦ rw (decide_admission_kept requests store old present) h
    | inl absent ↦ elim (Option-cases store.evaluation_plan) [
      | inl unplanned ↦ rw (decide_admission_unplanned requests store absent unplanned) h
      | inr (p, present) ↦
          elim (Bool-cases (same_set (map (λ e. e.0) requests) p.planned_candidate_ids)) [
            | inl matches ↦
                let (left, e, (a, d)) =
                  decide_admission-IsDecided n confidence requests store p absent present matches in
                rw e (decided_left requests store left p a h absent present d)
            | inr differ ↦ rw (decide_admission_raises requests store p absent present differ) h
          ]
    ]
  ]

plan-IsAttested :
    (store : RunStore) (id profile : String)
    → IsAttested store
    → IsAttested (or_kept store (create_plan store id profile))
unfolding or_kept
plan-IsAttested store id profile h = elim (Option-cases (create_plan store id profile)) [
  | inl e ↦ rw e h
  | inr (left, e) ↦ rw e (planned_left store left id profile h e)
]

new_run-IsAttested :
    (target_id deployment_mode : String) (primary_metric_key : Option String)
    → IsAttested (new_run target_id deployment_mode primary_metric_key)
unfolding new_run
new_run-IsAttested target_id deployment_mode primary_metric_key = record {
  attests = tt;
  ranks = tt;
  plans = tt;
  admits = tt;
}

module _ {F : Type 0} (n : Numbers F) (confidence : F) (summary : String → String → String) where
  perform-IsAttested :
      (store : RunStore) (operation : Operation n confidence summary)
      → IsAttested store
      → IsAttested (perform n confidence summary store operation)
  unfolding perform
  perform-IsAttested store (moves_to t reason) h = moved-IsAttested store t reason h
  perform-IsAttested store (attaches s) h = attached-IsAttested store s h
  perform-IsAttested store (diagnoses id) h = diagnosed-IsAttested store id h
  perform-IsAttested store (generates rows) h = generated-IsAttested store rows h
  perform-IsAttested store (ranks id rank_handles) h =
      ranked-IsAttested summary rank_handles store id h
  perform-IsAttested store (plans id profile) h = plan-IsAttested store id profile h
  perform-IsAttested store (measures id fingerprint) h = begun-IsAttested store id fingerprint h
  perform-IsAttested store (completes id) h = marked-IsAttested store id h
  perform-IsAttested store (admits_by requests) h = decided-IsAttested n confidence requests store h

  all-IsAttested :
      (operations : List (Operation n confidence summary)) (store : RunStore)
      → IsAttested store
      → IsAttested (perform_all n confidence summary store operations)
  unfolding perform_all
  all-IsAttested [] store h = h
  all-IsAttested (operation ∷ rest) store h =
      all-IsAttested rest (perform n confidence summary store operation)
        (perform-IsAttested store operation h)

  -- Whatever the services of a new run and its transitions do, in any order and whatever the model
  -- answers, the rows of the run have the evidence that its status asks for and that of every status
  -- before it; a ranking has each candidate once, a plan has the first three of the ranking, and the
  -- selected candidate is one of the plan.
  pub perform_all-IsAttested :
      (target_id deployment_mode : String) (primary_metric_key : Option String)
      (operations : List (Operation n confidence summary))
      → IsAttested (
          perform_all n confidence summary
            (new_run target_id deployment_mode primary_metric_key)
            operations)
  perform_all-IsAttested target_id deployment_mode primary_metric_key operations =
      all-IsAttested operations (new_run target_id deployment_mode primary_metric_key)
        (new_run-IsAttested target_id deployment_mode primary_metric_key)
