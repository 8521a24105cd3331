-- ===== src/Autonomy/Gate.antt =====
-- The approval gate against the readiness matrix.
use ai_driven_autonomous_no.Prelude.{◌≡◌, ◌↔◌, String, Bool, true, false, any, str_eq, arith}
use ai_driven_autonomous_no.Autonomy.{
  DeploymentMode, approval_controlled, full_autonomous, approval_required, auto_eligible_actions,
}

-- The gate waives the human approval in exactly one case: no permanent human gate is set, the mode
-- is the full autonomous one, and the readiness matrix holds the action for eligible after admission.
pub approval_waived_iff :
    (mode : DeploymentMode) (action_type : String) (gate : Bool)
    → (approval_required mode action_type gate ≡ false) ↔ (
        (gate ≡ false)
        × (mode ≡ full_autonomous)
        × (any (str_eq action_type) auto_eligible_actions ≡ true))
unfolding approval_required auto_eligible_actions
approval_waived_iff approval_controlled action_type gate = (ground arith, ground arith)
approval_waived_iff full_autonomous action_type gate = (ground arith, ground arith)
