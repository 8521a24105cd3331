-- ===== src/Autonomy/Examples.antt =====
-- The gate at an action that the matrix gates for ever.
use ai_driven_autonomous_no.Prelude.{◌≡◌, ◌↔◌, Bool, true, false, any, str_eq}
use ai_driven_autonomous_no.Autonomy.{full_autonomous, approval_required, auto_eligible_actions}
use ai_driven_autonomous_no.Autonomy.Gate.{approval_waived_iff}

approval_waived_iff_example : (approval_required full_autonomous "CREATE_INDEX" false ≡ false) ↔ (
    (◌≡◌ {A = Bool} false false)
    × (full_autonomous ≡ full_autonomous)
    × (any (str_eq "CREATE_INDEX") auto_eligible_actions ≡ true))
approval_waived_iff_example = approval_waived_iff full_autonomous "CREATE_INDEX" false
