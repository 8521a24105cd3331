-- ===== src/Approvals/Examples.antt =====
-- The theorems about approvals at concrete flows.
use ai_driven_autonomous_no.Prelude.{
  ℕ, ◌+◌, ◌<◌, ◌≡◌, refl, String, List, [], ◌∷◌, arith, eq_iff, ◌≢◌,
}
use ai_driven_autonomous_no.Prelude.Dicts.{get}
use ai_driven_autonomous_no.Approvals.{
  Approval, ApprovalFlow, approved, ok, approve, require_current_approval,
}
use ai_driven_autonomous_no.Approvals.Filing.{IsFiled, Call, requests, approves, requires, call_all}
use ai_driven_autonomous_no.Approvals.Binding.{Keeps, call_all-Keeps}
use ai_driven_autonomous_no.Approvals.Currency.{require_current_approval-IsCurrent}
use ai_driven_autonomous_no.Approvals.Drift.{IsDeadFor}
use ai_driven_autonomous_no.Approvals.Lifetime.{signed, signed_flow, drifted_evidence_is_refused}

abbrev flow : ApprovalFlow
flow = signed_flow 900 100 "a1" "ann" "create" "e1" "t1" 130

abbrev approval : Approval
approval = signed 900 100 "a1" "ann" "create" "e1" "t1" 130

flow_grants : (require_current_approval flow (λ i. 200 + i) "create" "e1" "t1").1 ≡ ok approval
unfolding require_current_approval
flow_grants = refl

require_current_approval-IsCurrent_example :
    (approval.action_id ≡ "create")
    × (approval.target_id ≡ "t1")
    × (approval.evidence_hash ≡ "e1")
    × (approval.status ≡ approved)
    × (200 < approval.expires_at)
require_current_approval-IsCurrent_example =
    require_current_approval-IsCurrent flow (λ i. 200 + i) 200 "create" "e1" "t1" approval
      (refl, tt) (λ i. omega arith) flow_grants

flow-IsFiled : IsFiled flow.approvals
unfolding get
flow-IsFiled = ((refl, refl), tt)

abbrev calls : List Call
calls =
    requires (λ i. 300) "create" "e2" "t1"
    ∷ requests "a2" 310 "drop" "e3" "t1"
    ∷ approves "a1" "bob" 320 321
    ∷ []

call_all-Keeps_example : Keeps flow.approvals (call_all flow calls).approvals "a1"
call_all-Keeps_example = call_all-Keeps flow calls "a1" flow-IsFiled (tt, (refl, (tt, tt)))

e1-ne-e2 : ◌≢◌ {A = String} "e1" "e2"
e1-ne-e2 e = cc ((eq_iff "e1" "e2").1 e)

drifted_evidence_is_refused_example :
    let drifted = require_current_approval flow (λ i. 200) "create" "e2" "t1" in
    let later = call_all drifted.0 calls in
    IsDeadFor approval drifted.0 "a1"
    × IsDeadFor approval later "a1"
    × ((b : Approval) → drifted.1 ≡ ok b → b.approval_id ≢ "a1")
    × ((approver : String) (checked_at signed_at : ℕ) (b : Approval)
        → (approve later "a1" approver checked_at signed_at).1 ≢ ok b)
    × ((again : ℕ → ℕ) (action evidence where_to : String) (b : Approval)
        → (require_current_approval later again action evidence where_to).1 ≡ ok b
        → b.approval_id ≢ "a1")
unfolding get
drifted_evidence_is_refused_example =
    drifted_evidence_is_refused flow "a1" approval (λ i. 200) "e2" "t1" calls flow-IsFiled refl refl
      e1-ne-e2 (tt, (refl, (tt, tt)))
