-- ===== src/Approvals.antt =====
-- backend/app/approvals/flow.py: approvals bound to one action, one target and one evidence hash.
-- Times are natural numbers. `now` is read anew at each call of `self._now()`: a method that reads
-- the clock more than once takes its readings as a function of their place in the call. The id that
-- `uuid4` draws is an argument of `request`. A method that raises returns the flow that it leaves.
pub mod Filing
pub mod Currency
pub mod Binding
pub mod Drift
pub mod Lifetime
mod Examples
use ai_driven_autonomous_no.Prelude.{
  ℕ, suc, ◌+◌, String, Bool, true, false, not, ◌&&◌, Option, none, some, List, [], ◌∷◌, leb, str_eq,
  filter, find, if◌then◌else◌,
}
use ai_driven_autonomous_no.Prelude.Dicts.{Dict, get, put, values}

pub data ApprovalStatus : Type 0 where
  pending approved stale expired : ApprovalStatus

pub record Approval : Type 0 where
  pub approval_id : String
  pub action_id : String
  pub target_id : String
  pub evidence_hash : String
  pub requested_at : ℕ
  pub expires_at : ℕ
  pub status : ApprovalStatus
  pub approved_by : Option String
  pub approved_at : Option ℕ

pub data ApprovalError : Type 0 where
  ttl_not_positive approval_expired not_pending current_approval_required unknown_approval :
      ApprovalError

pub data Result {ℓ} (A : Type ℓ) : Type ℓ where
  ok : A → Result A
  raise : ApprovalError → Result A

pub record ApprovalFlow : Type 0 where
  pub approvals : Dict Approval
  pub approval_ttl : ℕ

-- `ApprovalFlow(approval_ttl)`
unfoldable pub new_flow : ℕ → Result ApprovalFlow
new_flow ttl =
    if leb ttl 0 then raise ttl_not_positive else ok (record { approvals = []; approval_ttl = ttl })

unfoldable pub is_approved : ApprovalStatus → Bool
is_approved approved = true
is_approved _ = false

unfoldable pub is_pending : ApprovalStatus → Bool
is_pending pending = true
is_pending _ = false

unfoldable pub request :
    ApprovalFlow → String → ℕ → String → String → String → ApprovalFlow × Approval
request flow approval_id requested_at action_id evidence_hash target_id =
    let approval : Approval = record {
      approval_id = approval_id;
      action_id = action_id;
      target_id = target_id;
      evidence_hash = evidence_hash;
      requested_at = requested_at;
      expires_at = requested_at + flow.approval_ttl;
      status = pending;
      approved_by = none;
      approved_at = none;
    } in
    (record flow { approvals = put flow.approvals approval_id approval }, approval)

-- `self._approvals[approval_id] = value`
unfoldable pub store : ApprovalFlow → String → Approval → ApprovalFlow
store flow approval_id value = record flow { approvals = put flow.approvals approval_id value }

-- The body of `approve` once the approval is looked up; `checked_at` and `signed_at` are the two
-- readings of the clock.
unfoldable pub approve_found :
    ApprovalFlow → String → String → ℕ → ℕ → Approval → ApprovalFlow × Result Approval
unfolding store is_pending
approve_found flow approval_id approver checked_at signed_at approval =
    if leb approval.expires_at checked_at
    then (store flow approval_id (record approval { status = expired }), raise approval_expired)
    else if not (is_pending approval.status)
    then (flow, raise not_pending)
    else let signed = record approval {
      status = approved;
      approved_by = some approver;
      approved_at = some signed_at;
    } in
      (store flow approval_id signed, ok signed)

-- A missing key is the `KeyError` of `self._approvals[approval_id]`.
unfoldable pub approve : ApprovalFlow → String → String → ℕ → ℕ → ApprovalFlow × Result Approval
unfolding approve_found
approve flow approval_id approver checked_at signed_at = elim (get flow.approvals approval_id) [
  | none ↦ (flow, raise unknown_approval)
  | some approval ↦ approve_found flow approval_id approver checked_at signed_at approval
]

-- One round of the first loop of `require_current_approval`, at the reading `t` of the clock.
unfoldable pub review : ℕ → String → Approval → Dict Approval → Dict Approval
unfolding is_approved
review t evidence_hash approval approvals =
    if is_approved approval.status && leb approval.expires_at t
    then put approvals approval.approval_id (record approval { status = expired })
    else if is_approved approval.status && not (str_eq approval.evidence_hash evidence_hash)
    then put approvals approval.approval_id (record approval { status = stale })
    else approvals

-- The loop. The clock is read only for an approval that is `APPROVED`, so `i` counts those.
unfoldable pub review_all : (ℕ → ℕ) → ℕ → String → List Approval → Dict Approval → Dict Approval
unfolding review
review_all now i evidence_hash [] approvals = approvals
review_all now i evidence_hash (approval ∷ rest) approvals =
    review_all now (if is_approved approval.status then suc i else i) evidence_hash rest
      (review (now i) evidence_hash approval approvals)

unfoldable pub is_current : String → String → String → Approval → Bool
unfolding is_approved
is_current action_id evidence_hash target_id approval =
    str_eq approval.action_id action_id
    && (is_approved approval.status
        && (str_eq approval.evidence_hash evidence_hash && str_eq approval.target_id target_id))

abbrev pub or_required : Option Approval → Result Approval
or_required none = raise current_approval_required
or_required (some approval) = ok approval

unfoldable pub require_current_approval :
    ApprovalFlow → (ℕ → ℕ) → String → String → String → ApprovalFlow × Result Approval
unfolding review_all is_current
require_current_approval flow now action_id evidence_hash target_id =
    let matching = filter (λ a. str_eq a.action_id action_id) (values flow.approvals) in
    let reviewed = review_all now 0 evidence_hash matching flow.approvals in
    (
      record flow { approvals = reviewed },
      or_required (find (is_current action_id evidence_hash target_id) (values reviewed)),
    )

-- `get`; a missing key is the `KeyError`.
unfoldable pub get_approval : ApprovalFlow → String → Result Approval
get_approval flow approval_id = elim (get flow.approvals approval_id) [
  | none ↦ raise unknown_approval
  | some approval ↦ ok approval
]
