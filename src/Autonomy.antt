-- ===== src/Autonomy.antt =====
-- backend/app/autonomy/policy.py and the matrix of backend/app/autonomy/readiness.py: which actions
-- may be deployed without a human approval.
pub mod Gate
mod Examples
use ai_driven_autonomous_no.Prelude.{
  String, Bool, true, false, not, ◌||◌, List, [], ◌∷◌, any, map, filter, str_eq, if◌then◌else◌,
}

pub data DeploymentMode : Type 0 where
  approval_controlled full_autonomous : DeploymentMode

unfoldable pub is_full_autonomous : DeploymentMode → Bool
is_full_autonomous approval_controlled = false
is_full_autonomous full_autonomous = true

unfoldable pub full_autonomous_action_types : List String
full_autonomous_action_types = "CREATE_INDEX" ∷ "SET_QUERY_SETTINGS_INDEX_HINT" ∷ []

unfoldable pub approval_required : DeploymentMode → String → Bool → Bool
unfolding is_full_autonomous full_autonomous_action_types
approval_required mode action_type permanent_human_gate =
    if permanent_human_gate
    then true
    else not (is_full_autonomous mode)
      || not (any (str_eq action_type) full_autonomous_action_types)

pub data ActionAuthority : Type 0 where
  auto_eligible_after_admission permanently_human_gated recommendation_only : ActionAuthority
  forbidden optimizer_owned_inverse_only : ActionAuthority

-- The columns of a row that a decision reads; the other columns are prose for operators.
pub record AutonomyReadinessRow : Type 0 where
  pub action_family : String
  pub authority : ActionAuthority
  pub full_autonomous_deployable : Bool
  pub monitoring_required : Bool

abbrev row : String → ActionAuthority → Bool → Bool → AutonomyReadinessRow
row family authority deployable monitored = record {
  action_family = family;
  authority = authority;
  full_autonomous_deployable = deployable;
  monitoring_required = monitored;
}

unfoldable pub autonomy_readiness_matrix : List AutonomyReadinessRow
autonomy_readiness_matrix =
    row "CREATE_INDEX" auto_eligible_after_admission true true
    ∷ row "SET_QUERY_SETTINGS_INDEX_HINT" auto_eligible_after_admission true true
    ∷ row "OPTIMIZER_OWNED_EXACT_INVERSE" optimizer_owned_inverse_only true true
    ∷ row "PRE_EXISTING_INDEX_CHANGE" permanently_human_gated false true
    ∷ row "HUMAN_QUERY_SETTINGS_CHANGE" permanently_human_gated false true
    ∷ row "SERVER_REPLICA_SHARD_STORAGE_DURABILITY_CONSISTENCY_CONFIG" permanently_human_gated false
        true
    ∷ row "SCHEMA_MIGRATION_OR_APPLICATION_REWRITE_DEPLOYMENT" permanently_human_gated false true
    ∷ row "QUERY_AGGREGATION_SCHEMA_DENORMALIZATION_SHARD_KEY_DATA_MIGRATION" recommendation_only
        false false
    ∷ row "DOCUMENT_WRITE_OR_DESTRUCTIVE_DATABASE_OPERATION" forbidden false false
    ∷ row "TTL_INDEX_OR_QUERY_REJECTION_OR_SECURITY_WEAKENING" forbidden false false
    ∷ []

unfoldable pub is_auto_eligible : ActionAuthority → Bool
is_auto_eligible auto_eligible_after_admission = true
is_auto_eligible _ = false

-- `AUTO_ELIGIBLE_ACTIONS`
unfoldable pub auto_eligible_actions : List String
unfolding autonomy_readiness_matrix is_auto_eligible
auto_eligible_actions =
    map (λ r. r.action_family)
      (filter (λ r. is_auto_eligible r.authority) autonomy_readiness_matrix)
