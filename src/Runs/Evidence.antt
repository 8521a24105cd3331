-- ===== src/Runs/Evidence.antt =====
-- A transition of a persisted run happens along an edge of the lifecycle and on its evidence.
use ai_driven_autonomous_no.Prelude.{
  ℕ, zero, suc, not-false, ◌≡◌, refl, ◌⊎◌, inl, inr, String, true, false, Option, none, some, List,
  [], ◌∷◌, arith, Option-cases,
}
use ai_driven_autonomous_no.Lifecycle.{OptimizationState, same_state, validate_transition}
use ai_driven_autonomous_no.Lifecycle.Graph.{
  ◌⟶◌, diagnose, generate, rank, calibrate, evaluate, decide, admit, finish, no_candidate,
  not_admitted, reject, roll_back, block, fail, deployed_change, monitored_change,
  validate_transition-⟶,
}
use ai_driven_autonomous_no.Runs.{
  RunCompletionReason, no_candidates, no_admitted_candidate, RunStore, RankingRow, PlanRow,
  AdmissionRow, EvaluationRow, is_absent, same_set,
}
use ai_driven_autonomous_no.Runs.Transition.{
  refusals, first_error, moves, has_no_candidates, is_not_zero, lacks_evaluations, has_no_selection,
  is_not_empty_admission, is_no_candidates, is_no_admitted_candidate, completed_of, transition_run,
  when_checked, transitioned, moved_row, TransitionError, refused,
}

abbrev pub HasSnapshot : RunStore → Type 0
HasSnapshot store = (id : String) × (store.row.workload_snapshot_id ≡ some id)

abbrev pub HasDiagnosis : RunStore → Type 0
HasDiagnosis store = (id : String) × (store.diagnosis_id ≡ some id)

abbrev pub HasCandidates : RunStore → Type 0
HasCandidates store = (n : ℕ) × (store.candidate_count ≡ some (suc n))

abbrev pub IsRanked : RunStore → Type 0
IsRanked store =
    ((metric : String) × (store.row.primary_metric_key ≡ some metric))
    × ((r : RankingRow) × (store.ranking_artifact ≡ some r))

abbrev pub HasPlan : RunStore → Type 0
HasPlan store = (plan : PlanRow) × (store.evaluation_plan ≡ some plan)

-- The completed evaluations are of the candidates of the plan, no fewer and no others.
abbrev pub IsEvaluated : RunStore → Type 0
IsEvaluated store =
    (plan : PlanRow) × (store.evaluation_plan ≡ some plan)
    × (same_set (completed_of plan.planned_candidate_ids store.evaluation_runs)
          plan.planned_candidate_ids
        ≡ true)

abbrev pub HasSelection : RunStore → Type 0
HasSelection store =
    (a : AdmissionRow) × (id : String) × (store.admission_artifact ≡ some a)
    × (a.selected_candidate_id ≡ some id)

abbrev pub AdmitsNothing : RunStore → Type 0
AdmitsNothing store =
    (a : AdmissionRow) × (store.admission_artifact ≡ some a) × (a.admitted_candidate_ids ≡ [])

-- What an edge asks of the store and of the completion reason.
abbrev pub Warrant :
    {s t : OptimizationState} → s ⟶ t → RunStore → Option RunCompletionReason → Type 0
Warrant diagnose store reason = HasSnapshot store × (reason ≡ none)
Warrant generate store reason = HasDiagnosis store × (reason ≡ none)
Warrant rank store reason = HasCandidates store × (reason ≡ none)
Warrant calibrate store reason = IsRanked store × (reason ≡ none)
Warrant evaluate store reason = HasPlan store × (reason ≡ none)
Warrant decide store reason = IsEvaluated store × (reason ≡ none)
Warrant admit store reason = HasSelection store × (reason ≡ none)
Warrant no_candidate store reason = (store.candidate_count ≡ some 0) × (reason ≡ some no_candidates)
Warrant not_admitted store reason = AdmitsNothing store × (reason ≡ some no_admitted_candidate)
Warrant finish store reason = (r : RunCompletionReason) × (reason ≡ some r)
Warrant reject store reason = (r : RunCompletionReason) × (reason ≡ some r)
Warrant _ store reason = reason ≡ none

some_of_present {ℓ} : {A : Type ℓ} (o : Option A) → is_absent o ≡ false → (a : A) × (o ≡ some a)
unfolding is_absent
some_of_present none h = cc
some_of_present (some a) h = (a, refl)

reason_absent : (reason : Option RunCompletionReason) → is_absent reason ≡ true → reason ≡ none
unfolding is_absent
reason_absent none h = refl
reason_absent (some r) h = cc

count_of_present : (n : Option ℕ) → has_no_candidates n ≡ false → (k : ℕ) × (n ≡ some (suc k))
unfolding has_no_candidates
count_of_present none h = cc
count_of_present (some zero) h = cc
count_of_present (some (suc k)) h = (k, refl)

zero_count : (n : Option ℕ) → is_not_zero n ≡ false → n ≡ some 0
unfolding is_not_zero
zero_count none h = cc
zero_count (some zero) h = refl
zero_count (some (suc k)) h = absurd (ground arith)

plan_completed :
    (plan : Option PlanRow) (rows : List EvaluationRow)
    → is_absent plan ≡ false
    → lacks_evaluations plan rows ≡ false
    → (p : PlanRow) × (plan ≡ some p)
      × (same_set (completed_of p.planned_candidate_ids rows) p.planned_candidate_ids ≡ true)
unfolding is_absent lacks_evaluations
plan_completed none rows h k = cc
plan_completed (some p) rows h k = (p, refl, not-false _ k)

selection_of :
    (a : Option AdmissionRow)
    → has_no_selection a ≡ false
    → (b : AdmissionRow) × (id : String) × (a ≡ some b) × (b.selected_candidate_id ≡ some id)
unfolding has_no_selection
selection_of none h = cc
selection_of (some a) h =
    let (id, e) = some_of_present a.selected_candidate_id h in (a, id, refl, e)

empty_list : (xs : List String) → (elim xs [ [] ↦ false | _ ∷ _ ↦ true ]) ≡ false → xs ≡ []
empty_list [] h = refl
empty_list (x ∷ xs) h = cc

empty_admission_of :
    (a : Option AdmissionRow)
    → is_not_empty_admission a ≡ false
    → (b : AdmissionRow) × (a ≡ some b) × (b.admitted_candidate_ids ≡ [])
unfolding is_not_empty_admission
empty_admission_of none h = cc
empty_admission_of (some a) h = (a, refl, empty_list a.admitted_candidate_ids h)

no_candidates_of :
    (r : Option RunCompletionReason) → is_no_candidates r ≡ true → r ≡ some no_candidates
unfolding is_no_candidates
no_candidates_of (some no_candidates) h = refl
no_candidates_of _ h = cc

no_admitted_candidate_of :
    (r : Option RunCompletionReason)
    → is_no_admitted_candidate r ≡ true
    → r ≡ some no_admitted_candidate
unfolding is_no_admitted_candidate
no_admitted_candidate_of (some no_admitted_candidate) h = refl
no_admitted_candidate_of _ h = cc

warranted :
    {s t : OptimizationState} (edge : s ⟶ t) (store : RunStore)
    (reason : Option RunCompletionReason)
    → first_error (refusals s store t reason) ≡ none
    → Warrant edge store reason
unfolding first_error refusals moves same_state validate_transition
warranted diagnose store reason h = (
  some_of_present store.row.workload_snapshot_id (ground arith),
  reason_absent reason (ground arith),
)
warranted generate store reason h =
    (some_of_present store.diagnosis_id (ground arith), reason_absent reason (ground arith))
warranted rank store reason h =
    (count_of_present store.candidate_count (ground arith), reason_absent reason (ground arith))
warranted calibrate store reason h = (
  (
    some_of_present store.row.primary_metric_key (ground arith),
    some_of_present store.ranking_artifact (ground arith),
  ),
  reason_absent reason (ground arith),
)
warranted evaluate store reason h =
    (some_of_present store.evaluation_plan (ground arith), reason_absent reason (ground arith))
warranted decide store reason h = (
  plan_completed store.evaluation_plan store.evaluation_runs (ground arith) (ground arith),
  reason_absent reason (ground arith),
)
warranted admit store reason h =
    (selection_of store.admission_artifact (ground arith), reason_absent reason (ground arith))
warranted no_candidate store reason h =
    (zero_count store.candidate_count (ground arith), no_candidates_of reason (ground arith))
warranted not_admitted store reason h = (
  empty_admission_of store.admission_artifact (ground arith),
  no_admitted_candidate_of reason (ground arith),
)
warranted finish store reason h = some_of_present reason (ground arith)
warranted reject store reason h = some_of_present reason (ground arith)
warranted (roll_back deployed_change) store reason h = reason_absent reason (ground arith)
warranted (roll_back monitored_change) store reason h = reason_absent reason (ground arith)
warranted (block deployed_change) store reason h = reason_absent reason (ground arith)
warranted (block monitored_change) store reason h = reason_absent reason (ground arith)
warranted (fail {s} e) store reason h = reason_absent reason (ground arith)
warranted _ store reason h = reason_absent reason (ground arith)

allowed :
    {s t : OptimizationState} (edge : s ⟶ t) (store : RunStore)
    (reason : Option RunCompletionReason)
    → Warrant edge store reason
    → first_error (refusals s store t reason) ≡ none
unfolding first_error refusals moves same_state validate_transition is_absent has_no_candidates
    is_not_zero lacks_evaluations has_no_selection is_not_empty_admission is_no_candidates
    is_no_admitted_candidate
allowed diagnose store reason w = rw (w.0.1, w.1) refl
allowed generate store reason w = rw (w.0.1, w.1) refl
allowed rank store reason w = rw (w.0.1, w.1) (ground arith)
allowed calibrate store reason w = rw (w.0.0.1, w.0.1.1, w.1) refl
allowed evaluate store reason w = rw (w.0.1, w.1) refl
allowed decide store reason w =
    let (plan, present, complete) = w.0 in rw (present, complete, w.1) refl
allowed admit store reason w =
    let (a, id, present, selects) = w.0 in rw (present, selects, w.1) refl
allowed no_candidate store reason w = rw (w.0, w.1) refl
allowed not_admitted store reason w =
    let (a, present, nothing) = w.0 in rw (present, nothing, w.1) refl
allowed finish store reason w = rw (w.1) refl
allowed reject store reason w = rw (w.1) refl
allowed (roll_back deployed_change) store reason w = rw w refl
allowed (roll_back monitored_change) store reason w = rw w refl
allowed (block deployed_change) store reason w = rw w refl
allowed (block monitored_change) store reason w = rw w refl
allowed (fail {s} e) store reason w = rw w (ground arith)
allowed _ store reason w = rw w refl

refused_without :
    {s t : OptimizationState} (store : RunStore) (reason : Option RunCompletionReason)
    (error : TransitionError)
    → first_error (refusals s store t reason) ≡ some error
    → ¬ ((edge : s ⟶ t) × Warrant edge store reason)
refused_without store reason error h (edge, w) = cc (allowed edge store reason w)

edge_of_checked :
    (s t : OptimizationState) (store : RunStore) (reason : Option RunCompletionReason)
    → first_error (refusals s store t reason) ≡ none
    → s ⟶ t
unfolding first_error refusals
edge_of_checked s t store reason h = (validate_transition-⟶ s t).0 (ground arith)

-- A transition of a run is along an edge of the lifecycle whose evidence is stored and whose completion
-- reason fits, and writes the status and the reason and nothing else; or there is no such edge with its
-- evidence, the transition raises and nothing is written.
pub transition_run_outcomes :
    (store : RunStore) (t : OptimizationState) (reason : Option RunCompletionReason)
    → (((edge : store.row.status ⟶ t) × Warrant edge store reason)
        × (transition_run store t reason ≡ (
          record store { row = moved_row store.row t reason },
          transitioned (moved_row store.row t reason),
        )))
      ⊎ ((¬ ((edge : store.row.status ⟶ t) × Warrant edge store reason))
          × ((error : TransitionError) × (transition_run store t reason ≡ (store, refused error))))
unfolding transition_run when_checked
transition_run_outcomes store t reason =
    let s = store.row.status in
    elim (Option-cases (first_error (refusals s store t reason))) [
      | inl clear ↦
          let edge = edge_of_checked s t store reason clear in
          inl ((edge, warranted edge store reason clear), rw clear refl)
      | inr (error, raised) ↦
          inr (refused_without store reason error raised, (error, rw raised refl))
    ]
