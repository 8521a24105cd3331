-- ===== src/Runs/Selection.antt =====
-- backend/app/ranking/durable.py, evaluation/durable.py and admission/durable.py: the ranking of a run's
-- candidates, the plan of the ones to evaluate, and the selection of the one to deploy.
-- A service that raises leaves the store as it was: its transaction is rolled back. The fingerprints of
-- the artifacts and the rows of the model's invocations and of the verdicts, which no later step of a
-- run reads, are left out.
use ai_driven_autonomous_no.Prelude.{
  ℕ, zero, suc, ◌/◌, ◌%◌, String, Bool, false, not, ◌&&◌, ◌==◌, Option, none, some, List, [], ◌∷◌,
  ◌++◌, map, any, find, take, length, str_eq, ltb, if◌then◌else◌,
}
use Prim.Native.String.{◌++◌ as text_append}
use ai_driven_autonomous_no.Prelude.Dicts.{Dict, get, put}
use ai_driven_autonomous_no.Prelude.Options.{◌>>=◌, ◌>>◌, guard, when_absent}
use ai_driven_autonomous_no.Admission.{AdmissionRequest, AdmissionResult, is_admitted}
use ai_driven_autonomous_no.Admission.Numbers.{Numbers}
use ai_driven_autonomous_no.Admission.Engine.{evaluate_candidate_admission}
use ai_driven_autonomous_no.Runs.{
  RunStore, CandidateRow, CandidateStatus, admitted_candidate, rejected_candidate, PlanRow,
  EvaluationRow, AdmissionRow, is_absent, same_set,
}
use ai_driven_autonomous_no.Runs.Transition.{has_no_candidates}

-- The decimal digits of a number below ten.
unfoldable pub digit : ℕ → String
digit n =
    if n == 0
    then "0"
    else if n == 1
    then "1"
    else if n == 2
    then "2"
    else if n == 3
    then "3"
    else if n == 4
    then "4"
    else if n == 5
    then "5"
    else if n == 6
    then "6"
    else if n == 7
    then "7"
    else if n == 8
    then "8"
    else "9"

unfoldable pub decimal_within : ℕ → ℕ → String
decimal_within zero n = digit n
decimal_within (suc fuel) n =
    let front = decimal_within fuel (n / 10) in
    if ltb n 10 then digit n else text_append front (digit (n % 10))

-- f"{n}", which has fewer than n digits for an n above one.
unfoldable pub decimal : ℕ → String
unfolding decimal_within
decimal n = decimal_within n n

-- The handles of the candidates, numbered from one.
unfoldable pub handles_from {ℓ} : {A : Type ℓ} → ℕ → List A → List String
unfolding decimal
handles_from i [] = []
handles_from i (x ∷ xs) = text_append "C" (decimal i) ∷ handles_from (suc i) xs

-- set(xs), with one entry for each of its members
unfoldable pub distinct : List String → List String
distinct [] = []
distinct (x ∷ xs) = let rest = distinct xs in if any (str_eq x) xs then rest else x ∷ rest

-- The members of `expected`, each exactly once.
unfoldable pub is_exact_cover : List String → List String → Bool
is_exact_cover received expected =
    (length received == length expected)
    && same_set received expected
    && (length (distinct received) == length received)

-- A dictionary built from the items of two lists, the later of a repeated key.
unfoldable pub dict_of_zip : Dict String → List String → List String → Dict String
dict_of_zip d (k ∷ ks) (v ∷ vs) = dict_of_zip (put d k v) ks vs
dict_of_zip d _ _ = d

unfoldable pub look_up_all : Dict String → List String → Option (List String)
look_up_all d [] = some []
look_up_all d (k ∷ ks) =
    let rest = look_up_all d ks in get d k >>= λ v. rest >>= λ vs. some (v ∷ vs)

unfoldable pub candidate_ids : RunStore → List String
candidate_ids store = map (λ c. c.id) store.candidates

unfoldable pub pair_up : List String → List String → List (String × String)
pair_up (x ∷ xs) (y ∷ ys) = (x, y) ∷ pair_up xs ys
pair_up _ _ = []

unfoldable pub checked_order : List String → List String → Option (List String)
checked_order ids received = guard (is_exact_cover received ids) >> some received

abbrev pub with_ranking : RunStore → String → List String → RunStore
with_ranking store new_id received = record store {
  ranking_artifact = some (record { ranking_id = new_id; ordered_candidate_ids = received });
}

-- The model is asked with the handles and the summaries, outside of any transaction.
module _ (summary : String → String → String)
    (rank_handles : List (String × String) → List String) where
  unfoldable pub summaries_of : List CandidateRow → Option (List String)
  summaries_of [] = some []
  summaries_of (c ∷ cs) =
      let rest = summaries_of cs in
      c.action_payload >>= λ payload.
      rest >>= λ later. some (summary payload c.policy_classification ∷ later)

  -- `_load`
  unfoldable pub load_summaries : RunStore → Option (List String)
  load_summaries store =
      guard (
        not (is_absent store.row.workload_snapshot_id)
        && (not (has_no_candidates store.candidate_count) && not (is_absent store.diagnosis_id)))
      >> store.candidate_count
      >>= λ count. guard (length store.candidates == count) >> summaries_of store.candidates

  -- The order of the candidates that the model's answer stands for.
  unfoldable pub received_order : List String → List String → Option (List String)
  received_order ids summaries =
      let handles = handles_from 1 ids in
      let answer = rank_handles (pair_up handles summaries) in
      guard (is_exact_cover answer handles)
      >> look_up_all (dict_of_zip [] handles ids) answer
      >>= checked_order ids

  unfoldable pub new_ranking : RunStore → String → Option RunStore
  new_ranking store new_id =
      load_summaries store >>= received_order (candidate_ids store) >>= λ received.
      some (with_ranking store new_id received)

  -- `CandidateRankingService.create_for_run`
  unfoldable pub create_ranking : RunStore → String → Option RunStore
  create_ranking store new_id =
      when_absent store.ranking_artifact (new_ranking store new_id) (some store)

unfoldable pub plan_of : RunStore → String → String → List String → Option RunStore
plan_of store new_id profile [] = none
plan_of store new_id profile (first ∷ others) = some (record store {
  evaluation_plan =
      some (record { plan_id = new_id; profile = profile; planned_candidate_ids = first ∷ others });
})

-- `DurableEvaluationService.create_plan_for_run`
unfoldable pub create_plan : RunStore → String → String → Option RunStore
unfolding plan_of
create_plan store new_id profile =
    when_absent store.evaluation_plan
      (store.ranking_artifact >>= λ r.
        plan_of store new_id profile (take 3 r.ordered_candidate_ids))
      (some store)

unfoldable pub evaluates : String → EvaluationRow → Bool
evaluates candidate_id e = str_eq e.candidate_id candidate_id

-- The evaluation that `record_pair` finds or creates for its candidate.
unfoldable pub begin_evaluation : RunStore → String → String → RunStore
unfolding evaluates
begin_evaluation store candidate_id fingerprint =
    if any (evaluates candidate_id) store.evaluation_runs then store else record store {
      evaluation_runs =
          store.evaluation_runs
          ++ record {
            candidate_id = candidate_id;
            evaluation_status = "MEASURING";
            environment_fingerprint = fingerprint;
          }
            ∷ [];
    }

-- `DurableEvaluationService.mark_complete`
unfoldable pub mark_complete : RunStore → String → RunStore
unfolding evaluates
mark_complete store candidate_id = record store {
  evaluation_runs =
      map
        (λ e. if evaluates candidate_id e then record e { evaluation_status = "COMPLETED" } else e)
        store.evaluation_runs;
}

-- What the loop of `decide_for_run` has gathered.
pub record Judged : Type 0 where
  pub judged_candidates : List CandidateRow
  pub admitted_ids : List String
  pub eligible_ids : Dict Bool

unfoldable pub set_status : CandidateStatus → String → List CandidateRow → List CandidateRow
set_status status candidate_id =
    map (λ c. if str_eq c.id candidate_id then record c { candidate_status = status } else c)

unfoldable pub is_eligible : Dict Bool → Option String → Bool
is_eligible eligible none = false
is_eligible eligible (some id) = elim (get eligible id) [ none ↦ false | some e ↦ e ]

unfoldable pub admission_row : List String → Judged → AdmissionRow
unfolding is_eligible
admission_row ranked j =
    let selected = find (λ id. any (str_eq id) j.admitted_ids) ranked in
    record {
      selected_candidate_id = selected;
      admitted_candidate_ids = j.admitted_ids;
      eligible_for_production = is_eligible j.eligible_ids selected;
    }

abbrev pub with_admission : RunStore → List String → Judged → RunStore
with_admission store ranked j = record store {
  candidates = j.judged_candidates;
  admission_artifact = some (admission_row ranked j);
}

module _ {F : Type 0} (n : Numbers F) (confidence : F) (requests : Dict (AdmissionRequest F)) where
  unfoldable pub judge : Judged → String → AdmissionResult F → Judged
  unfolding set_status
  judge j candidate_id result =
      if is_admitted result.status
      then record {
        judged_candidates = set_status admitted_candidate candidate_id j.judged_candidates;
        admitted_ids = j.admitted_ids ++ candidate_id ∷ [];
        eligible_ids = put j.eligible_ids candidate_id result.production_eligible;
      }
      else record j {
        judged_candidates = set_status rejected_candidate candidate_id j.judged_candidates;
      }

  unfoldable pub judge_all : Judged → List String → Option Judged
  unfolding judge
  judge_all j [] = some j
  judge_all j (candidate_id ∷ ids) = get requests candidate_id >>= λ request.
      judge_all (judge j candidate_id (evaluate_candidate_admission n confidence request)) ids

  unfoldable pub new_admission : RunStore → PlanRow → Option RunStore
  unfolding judge_all admission_row
  new_admission store plan =
      let ranked = plan.planned_candidate_ids in
      guard (same_set (map (λ e. e.0) requests) ranked)
      >> judge_all
          (record { judged_candidates = store.candidates; admitted_ids = []; eligible_ids = [] })
          ranked
      >>= λ j. some (with_admission store ranked j)

  -- `DurableAdmissionService.decide_for_run`
  unfoldable pub decide_admission : RunStore → Option RunStore
  decide_admission store =
      when_absent store.admission_artifact (store.evaluation_plan >>= new_admission store)
        (some store)
