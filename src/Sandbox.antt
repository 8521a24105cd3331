-- ===== src/Sandbox.antt =====
-- backend/app/evaluation/sandbox.py: the evaluation of a candidate on an isolated target.
-- The copier, the size estimate, the benchmark and the admission are the caller's: each is a parameter,
-- and `none` is the exception that it raises. Byte counts that are observed or declared are not
-- negative; an estimate may be. The measurement lock is held around the benchmark alone and is not part
-- of the state.
pub mod Cleanup
pub mod Isolation
mod Examples
use ai_driven_autonomous_no.Prelude.{
  ℕ, ◌+◌, ℤ, pos, negsuc, String, Bool, true, false, not, ◌&&◌, ◌||◌, Option, none, some, ltb,
  str_eq, if◌then◌else◌,
}
use ai_driven_autonomous_no.Actions.{CreateIndexAction}
use ai_driven_autonomous_no.Adapter.{DatabaseAdapter}
use ai_driven_autonomous_no.Production.{index_spec}

pub data SandboxStatus : Type 0 where
  completed rejected_target_separation rejected_resource_budget : SandboxStatus
  invalid_evaluation_state failed : SandboxStatus

-- The fields that an evaluation reads; the other five are recorded facts.
pub record EvaluationState : Type 0 where
  pub source_dataset_fingerprint : String
  pub evaluation_dataset_fingerprint : String
  pub source_topology_identity : String
  pub evaluation_topology_identity : String
  pub free_disk_bytes : ℕ

pub record ResourceBudget : Type 0 where
  pub maximum_index_bytes : ℕ
  pub minimum_free_disk_bytes : ℕ

-- The reason is a text for each status that is not COMPLETED, and is not stored.
pub record SandboxResult : Type 0 where
  pub status : SandboxStatus
  pub benchmark_result : Option String
  pub admission_result : Option String

pub data Evaluation : Type 0 where
  returned : SandboxResult → Evaluation
  raised : Evaluation

unfoldable pub rejected : SandboxStatus → SandboxResult
rejected status = record { status = status; benchmark_result = none; admission_result = none }

-- Both tests of the copied state.
unfoldable pub is_isolated : EvaluationState → Bool
is_isolated s =
    str_eq s.source_dataset_fingerprint s.evaluation_dataset_fingerprint
    && not (str_eq s.source_topology_identity s.evaluation_topology_identity)

-- `estimated_bytes < 0 or estimated_bytes > maximum or free - estimated_bytes < minimum`
unfoldable pub exceeds : EvaluationState → ResourceBudget → ℤ → Bool
exceeds s budget (negsuc n) = true
exceeds s budget (pos n) =
    ltb budget.maximum_index_bytes n || ltb s.free_disk_bytes (n + budget.minimum_free_disk_bytes)

-- What the caller brings.
pub record Callbacks (W : Type 0) : Type 0 where
  pub copy_and_verify : W → W × Option EvaluationState
  pub estimate_index_bytes : CreateIndexAction → Option ℤ
  pub benchmark : W → W × Option String
  pub admit : String → Option String

-- The result of the admission, and of its exception.
unfoldable pub admission_of : String → Option String → SandboxResult
unfolding rejected
admission_of benchmark_result none = rejected failed
admission_of benchmark_result (some verdict) = record {
  status = completed;
  benchmark_result = some benchmark_result;
  admission_result = some verdict;
}

module _ {W : Type 0} (adapter : DatabaseAdapter W) (calls : Callbacks W) where
  unfoldable pub benchmark_of : Option String → SandboxResult
  unfolding rejected admission_of
  benchmark_of none = rejected failed
  benchmark_of (some result) = admission_of result (calls.admit result)

  -- The `finally` block, which runs before a result is returned.
  unfoldable pub clean_up : W → CreateIndexAction → SandboxResult → W × Evaluation
  clean_up w candidate result =
      let (after, dropped) =
        adapter.drop_index w (record { collection = candidate.collection }) candidate.index_name in
      (after, if dropped then returned result else raised)

  -- The `try` block with its handlers.
  unfoldable pub measure : W → CreateIndexAction → W × Evaluation
  unfolding rejected
  measure w candidate =
      let (applied, created) =
        adapter.create_index w (record { collection = candidate.collection })
          (index_spec candidate) in
      if created
      then (let (used, result) = calls.benchmark applied in
          clean_up used candidate (benchmark_of result))
      else (applied, returned (rejected failed))

  abbrev pub within_budget :
      W → CreateIndexAction → ResourceBudget → EvaluationState → Option ℤ → W × Evaluation
  within_budget w candidate budget state none = (w, raised)
  within_budget w candidate budget state (some estimate) =
      if exceeds state budget estimate
      then (w, returned (rejected rejected_resource_budget))
      else measure w candidate

  abbrev pub when_copied :
      W → CreateIndexAction → ResourceBudget → Option EvaluationState → W × Evaluation
  when_copied w candidate budget none = (w, raised)
  when_copied w candidate budget (some state) =
      if not (is_isolated state)
      then (w, returned (rejected invalid_evaluation_state))
      else within_budget w candidate budget state (calls.estimate_index_bytes candidate)

  unfoldable pub evaluate :
      W → (monitored evaluation : String) → CreateIndexAction → ResourceBudget → W × Evaluation
  unfolding rejected
  evaluate w monitored evaluation candidate budget =
      if str_eq monitored evaluation
      then (w, returned (rejected rejected_target_separation))
      else let (copied, state) = calls.copy_and_verify w in
        when_copied copied candidate budget state
