-- ===== src/Runs.antt =====
-- backend/app/db/models.py: the rows of one optimization run, in its own table and in the tables of
-- its artifacts.
-- A table with a unique run id holds at most one row of a run, which is an option here; a table that
-- the run's rows share by an id is a list. Of a row only what its readers look at is kept.
pub mod Transition
pub mod Evidence
pub mod Selection
pub mod Cover
pub mod Selected
pub mod Searches
pub mod Admitted
pub mod Services
pub mod Attested
pub mod Kept
pub mod Artifacts
pub mod Ranked
pub mod Chain
pub mod Orchestrator
pub mod Resume
pub mod Progress
pub mod Orderly
pub mod Forward
pub mod Handler
pub mod Limit
mod Examples
use ai_driven_autonomous_no.Prelude.{
  ℕ, String, Bool, Option, none, some, true, false, List, any, all, str_eq, ◌&&◌,
}
use ai_driven_autonomous_no.Lifecycle.{OptimizationState}

pub data RunCompletionReason : Type 0 where
  no_candidates no_admitted_candidate deployment_succeeded approval_rejected : RunCompletionReason
  legacy_completed : RunCompletionReason

pub record RunRow : Type 0 where
  pub target_id : String
  pub status : OptimizationState
  pub deployment_mode : String
  pub workload_snapshot_id : Option String
  pub primary_metric_key : Option String
  pub completion_reason : Option RunCompletionReason

pub data CandidateStatus : Type 0 where
  proposed_candidate evaluating_candidate admitted_candidate rejected_candidate : CandidateStatus

-- A candidate, with the payload of its action where it has one.
pub record CandidateRow : Type 0 where
  pub id : String
  pub candidate_status : CandidateStatus
  pub policy_classification : String
  pub action_payload : Option String

pub record RankingRow : Type 0 where
  pub ranking_id : String
  pub ordered_candidate_ids : List String

pub record PlanRow : Type 0 where
  pub plan_id : String
  pub profile : String
  pub planned_candidate_ids : List String

pub record EvaluationRow : Type 0 where
  pub candidate_id : String
  pub evaluation_status : String
  pub environment_fingerprint : String

pub record AdmissionRow : Type 0 where
  pub selected_candidate_id : Option String
  pub admitted_candidate_ids : List String
  pub eligible_for_production : Bool

-- The candidates are in the order of their fingerprints, in which they are read.
pub record RunStore : Type 0 where
  pub row : RunRow
  pub diagnosis_id : Option String
  pub candidate_count : Option ℕ
  pub candidates : List CandidateRow
  pub ranking_artifact : Option RankingRow
  pub evaluation_plan : Option PlanRow
  pub evaluation_runs : List EvaluationRow
  pub admission_artifact : Option AdmissionRow

unfoldable pub is_absent {ℓ} : {A : Type ℓ} → Option A → Bool
is_absent none = true
is_absent (some a) = false

-- `set(xs) == set(ys)`
unfoldable pub same_set : List String → List String → Bool
same_set xs ys = all (λ x. any (str_eq x) ys) xs && all (λ y. any (str_eq y) xs) ys
