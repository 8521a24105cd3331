-- ===== src/Runs/Attested.antt =====
-- The evidence of a run: whatever its services and its transitions do, in any order, a status is only
-- reached with the evidence of all the statuses before it.
use ai_driven_autonomous_no.Prelude.{
  ℕ, suc, ◌≡◌, refl, String, Bool, true, ◌&&◌, Option, some, List, [], ◌∷◌, All, any, all, and_true,
  str_eq, eq_iff, arith,
}
use ai_driven_autonomous_no.Lifecycle.{
  OptimizationState, created, snapshotting, diagnosing, generating_candidates, ranking, calibrating,
  evaluating, admission, completed, failed,
}
use ai_driven_autonomous_no.Lifecycle.Graph.{
  ◌⟶◌, snapshot, diagnose, generate, rank, calibrate, evaluate, decide, admit, finish, no_candidate,
  not_admitted, reject, roll_back, block, fail, deployed_change, monitored_change,
}
use ai_driven_autonomous_no.Runs.{RunCompletionReason, RunStore, PlanRow, EvaluationRow}
use ai_driven_autonomous_no.Runs.Transition.{completed_of}
use ai_driven_autonomous_no.Runs.Cover.{covered_by}
use ai_driven_autonomous_no.Runs.Evidence.{
  HasSnapshot, HasDiagnosis, IsRanked, HasPlan, HasSelection, Warrant,
}

pub data Fact : Type 0 where
  attached diagnosed generated ranked_candidates planned measured selected : Fact

abbrev pub has_completed : List EvaluationRow → String → Bool
has_completed rows id =
    any (λ e. str_eq e.candidate_id id && str_eq e.evaluation_status "COMPLETED") rows

-- A generation is not asked to have candidates here, since a run may complete without any.
abbrev pub Holds : RunStore → Fact → Type 0
Holds store attached = HasSnapshot store
Holds store diagnosed = HasDiagnosis store
Holds store generated = (k : ℕ) × (store.candidate_count ≡ some k)
Holds store ranked_candidates = IsRanked store
Holds store planned = HasPlan store
Holds store measured =
    (plan : PlanRow) × (store.evaluation_plan ≡ some plan)
    × (all (has_completed store.evaluation_runs) plan.planned_candidate_ids ≡ true)
Holds store selected = HasSelection store

abbrev facts_to_admission : List Fact
facts_to_admission = measured ∷ planned ∷ ranked_candidates ∷ generated ∷ diagnosed ∷ attached ∷ []

-- What a run in a status has in its store.
abbrev pub facts : OptimizationState → List Fact
facts diagnosing = attached ∷ []
facts generating_candidates = diagnosed ∷ attached ∷ []
facts ranking = generated ∷ diagnosed ∷ attached ∷ []
facts calibrating = ranked_candidates ∷ generated ∷ diagnosed ∷ attached ∷ []
facts evaluating = planned ∷ ranked_candidates ∷ generated ∷ diagnosed ∷ attached ∷ []
facts admission = facts_to_admission
facts created = []
facts snapshotting = []
facts failed = []
facts completed = generated ∷ diagnosed ∷ attached ∷ []
facts _ = selected ∷ facts_to_admission

abbrev pub Attests : RunStore → OptimizationState → Type 0
Attests store s = All (Holds store) (facts s)

completed_of-has_completed :
    (plan : List String) (rows : List EvaluationRow) (id : String)
    → any (str_eq id) (completed_of plan rows) ≡ true
    → has_completed rows id ≡ true
unfolding completed_of
completed_of-has_completed plan [] id h = cc
completed_of-has_completed plan (e ∷ rows) id h = ground (
  arith,
  completed_of-has_completed plan rows id,
  eq_iff id e.candidate_id,
  eq_iff e.candidate_id id,
)

measured_of :
    (done : List String) (rows : List EvaluationRow) (ids : List String)
    → ((id : String) → any (str_eq id) done ≡ true → has_completed rows id ≡ true)
    → all (λ id. any (str_eq id) done) ids ≡ true
    → all (has_completed rows) ids ≡ true
measured_of done rows [] f h = refl
measured_of done rows (id ∷ ids) f h =
    let (here, rest) = and_true (any (str_eq id) done) (all (λ w. any (str_eq w) done) ids) h in
    rw (f id here) (measured_of done rows ids f rest)

-- An edge adds its evidence to that of the status before.
pub edge-Attests :
    {s t : OptimizationState} (edge : s ⟶ t) (store : RunStore)
    (reason : Option RunCompletionReason)
    → Warrant edge store reason
    → Attests store s
    → Attests store t
edge-Attests snapshot store reason w h = tt
edge-Attests diagnose store reason w h = (w.0, tt)
edge-Attests generate store reason w h = (w.0, h)
edge-Attests rank store reason w h = ((suc w.0.0, w.0.1), h)
edge-Attests calibrate store reason w h = (w.0, h)
edge-Attests evaluate store reason w h = (w.0, h)
edge-Attests decide store reason w h =
    let (plan, present, complete) = w.0 in
    let ids = plan.planned_candidate_ids in
    let done = completed_of ids store.evaluation_runs in
    (
      (
        plan,
        present,
        measured_of done store.evaluation_runs ids
            (λ id. completed_of-has_completed ids store.evaluation_runs id)
            (covered_by done ids complete),
      ),
      h,
    )
edge-Attests admit store reason w h = (w.0, h)
edge-Attests no_candidate store reason w h = ((0, w.0), h)
edge-Attests not_admitted store reason w h = h.1.1.1
edge-Attests reject store reason w h = h.1.1.1.1
edge-Attests finish store reason w h = h.1.1.1.1
edge-Attests (roll_back deployed_change) store reason w h = h
edge-Attests (roll_back monitored_change) store reason w h = h
edge-Attests (block deployed_change) store reason w h = h
edge-Attests (block monitored_change) store reason w h = h
edge-Attests (fail e) store reason w h = tt
edge-Attests _ store reason w h = h
