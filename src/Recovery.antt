-- ===== src/Recovery.antt =====
-- backend/app/recovery/crash.py: checkpoints, and the recovery of a production mutation.
-- `W` is the state of the target. The observation of the effect and the mutation are the caller's; the
-- mutation returns with the target that it leaves, or raises.
pub mod Once
mod Examples
use ai_driven_autonomous_no.Prelude.{
  ℕ, String, Bool, true, false, ◌==◌, Option, none, some, List, [], ◌∷◌, ◌++◌, any, str_eq,
  if◌then◌else◌,
}

pub data CrashPoint : Type 0 where
  before_candidate_application after_sandbox_application during_benchmark : CrashPoint
  after_admission after_approval before_production_mutation : CrashPoint
  after_production_mutation before_ledger_completion during_monitoring : CrashPoint
  during_rollback : CrashPoint

unfoldable pub point_position : CrashPoint → ℕ
point_position before_candidate_application = 0
point_position after_sandbox_application = 1
point_position during_benchmark = 2
point_position after_admission = 3
point_position after_approval = 4
point_position before_production_mutation = 5
point_position after_production_mutation = 6
point_position before_ledger_completion = 7
point_position during_monitoring = 8
point_position during_rollback = 9

-- `point is self._inject_at`
unfoldable pub is_injected : Option CrashPoint → CrashPoint → Bool
unfolding point_position
is_injected none point = false
is_injected (some at) point = point_position at == point_position point

-- The completed actions are a set, of which only the membership is read.
pub record RecoveryJournal : Type 0 where
  pub checkpoints : List CrashPoint
  pub completed_production_actions : List String

-- What a call returns, the injected crash that it raises, or the exception of the mutation.
pub data Recovered : Type 0 where
  returned : Bool → Recovered
  injected_crash : CrashPoint → Recovered
  mutation_raised : Recovered

-- A checkpoint, and whether it passes.
unfoldable pub checkpoint :
    Option CrashPoint → RecoveryJournal → CrashPoint → RecoveryJournal × Bool
checkpoint inject_at journal point = (
  record journal { checkpoints = journal.checkpoints ++ point ∷ [] },
  if is_injected inject_at point then false else true,
)

unfoldable pub is_completed : RecoveryJournal → String → Bool
is_completed journal action_id = any (str_eq action_id) journal.completed_production_actions

pub record Site (W : Type 0) : Type 0 where
  pub world : W
  pub journal : RecoveryJournal

module _ {W : Type 0} (has_effect : W → Bool) (mutate : W → W × Bool)
    (inject_at : Option CrashPoint) where
  -- After the mutation: the two last checkpoints, and the completion.
  unfoldable pub finish_recovery : Site W → String → Site W × Recovered
  unfolding checkpoint
  finish_recovery s action_id =
      let (first, passed) = checkpoint inject_at s.journal after_production_mutation in
      let (second, passed_too) = checkpoint inject_at first before_ledger_completion in
      if passed
      then if passed_too
        then (
          record s {
            journal = record second {
              completed_production_actions = action_id ∷ second.completed_production_actions;
            };
          },
          returned true,
        )
        else (record s { journal = second }, injected_crash before_ledger_completion)
      else (record s { journal = first }, injected_crash after_production_mutation)

  unfoldable pub recover_production_mutation : Site W → String → Site W × Recovered
  unfolding checkpoint is_completed
  recover_production_mutation s action_id =
      if is_completed s.journal action_id
      then (s, returned false)
      else let (journal, passed) = checkpoint inject_at s.journal before_production_mutation in
        let noted : Site W = record s { journal = journal } in
        if passed
        then (if has_effect s.world
            then finish_recovery noted action_id
            else let (world, applied) = mutate s.world in
              let changed : Site W = record noted { world = world } in
              if applied then finish_recovery changed action_id else (changed, mutation_raised))
        else (noted, injected_crash before_production_mutation)
