-- ===== src/Approvals/Filing.antt =====
-- The dictionary of a flow stays well filed: each entry is what a lookup of its key finds, and stands
-- under its own id.
use ai_driven_autonomous_no.Prelude.{
  ℕ, suc, ◌≡◌, refl, ap, ◌∙◌, sym, inl, inr, String, Bool, true, false, not, ◌&&◌, some, List, [],
  ◌∷◌, leb, str_eq, eq_iff, eq_refl, filter, All, arith, if◌then◌else◌, Bool-cases, Option-cases,
}
use ai_driven_autonomous_no.Prelude.Dicts.{Dict, get, put, values, get-put, All-put}
use ai_driven_autonomous_no.Approvals.{
  Approval, ApprovalStatus, ApprovalFlow, approved, stale, expired, is_approved, is_pending,
  request, approve, approve_found, review, review_all, require_current_approval,
}

-- The statuses that authorize nothing and cannot be approved.
abbrev pub is_dead : ApprovalStatus → Bool
is_dead stale = true
is_dead expired = true
is_dead _ = false

-- A review changes nothing, or writes the approval back with a dead status.
pub review_cases :
    (P : Dict Approval → Type 0) (t : ℕ) (evidence_hash : String) (a : Approval) (d : Dict Approval)
    → P d
    → ((s : ApprovalStatus) → is_dead s ≡ true → P (put d a.approval_id (record a { status = s })))
    → P (review t evidence_hash a d)
unfolding review
review_cases P t evidence_hash a d kept written =
    elim (Bool-cases (is_approved a.status && leb a.expires_at t)) [
      | inl late ↦ rw late (written expired refl)
      | inr on_time ↦
          rw on_time
            (elim (Bool-cases
              (is_approved a.status && not (str_eq a.evidence_hash evidence_hash))) [
                | inl drifted ↦ rw drifted (written stale refl)
                | inr current ↦ rw current kept
              ])
    ]

-- Every entry is the one that a lookup of its key finds, and stands under its own id.
abbrev pub IsFiledIn : Dict Approval → String × Approval → Type 0
IsFiledIn d e = (get d e.0 ≡ some e.1) × (e.0 ≡ e.1.approval_id)

abbrev pub IsFiled : Dict Approval → Type 0
IsFiled d = All (IsFiledIn d) d

put-IsFiled :
    (d : Dict Approval) (k : String) (v : Approval)
    → k ≡ v.approval_id
    → IsFiled d
    → IsFiled (put d k v)
put-IsFiled d k v own h =
    All-put (IsFiledIn d) (IsFiledIn (put d k v)) k v d
      (λ j same. let e : j ≡ k = (eq_iff j k).0 same in (rw (get-put, e, eq_refl) refl, e ∙ own))
      (λ j w other old.
        (rw (get-put, str_ne k j (λ e. cc (other, (eq_iff j k).1 (sym e)))) old.0, old.1))
      h
  where
    str_ne : (s t : String) → (s ≡ t → ⊥) → str_eq s t ≡ false
    str_ne s t ne = elim (Bool-cases (str_eq s t)) [
      | inl e ↦ absurd (ne ((eq_iff s t).0 e))
      | inr e ↦ e
    ]

review-IsFiled :
    (t : ℕ) (evidence_hash : String) (a : Approval) (d : Dict Approval)
    → IsFiled d
    → IsFiled (review t evidence_hash a d)
review-IsFiled t evidence_hash a d h =
    review_cases IsFiled t evidence_hash a d h
      (λ s dead. put-IsFiled d a.approval_id (record a { status = s }) refl h)

review_all-IsFiled :
    (now : ℕ → ℕ) (i : ℕ) (evidence_hash : String) (todo : List Approval) (d : Dict Approval)
    → IsFiled d
    → IsFiled (review_all now i evidence_hash todo d)
unfolding review_all
review_all-IsFiled now i evidence_hash [] d h = h
review_all-IsFiled now i evidence_hash (a ∷ rest) d h =
    review_all-IsFiled now (if is_approved a.status then suc i else i) evidence_hash rest
      (review (now i) evidence_hash a d) (review-IsFiled (now i) evidence_hash a d h)

pub own_id :
    (d e : Dict Approval) (k : String) (a : Approval)
    → All (IsFiledIn d) e
    → get e k ≡ some a
    → k ≡ a.approval_id
unfolding get
own_id d [] k a h found = cc
own_id d ((j, b) ∷ e) k a h found = elim (Bool-cases (str_eq j k)) [
  | inl same ↦
      let b_is_a : b ≡ a = ground arith in
      sym ((eq_iff j k).0 same) ∙ h.0.1 ∙ ap (λ (x : Approval). x.approval_id) b_is_a
  | inr other ↦ own_id d e k a h.1 (rw other at found)
]

approve_found-IsFiled :
    (flow : ApprovalFlow) (id approver : String) (checked_at signed_at : ℕ) (a : Approval)
    → id ≡ a.approval_id
    → IsFiled flow.approvals
    → IsFiled (approve_found flow id approver checked_at signed_at a).0.approvals
unfolding approve_found
approve_found-IsFiled flow id approver checked_at signed_at a own h =
    elim (Bool-cases (leb a.expires_at checked_at)) [
      | inl late ↦ rw late (put-IsFiled flow.approvals id (record a { status = expired }) own h)
      | inr on_time ↦ rw on_time (elim (Bool-cases (is_pending a.status)) [
        | inl waits ↦ rw waits (
            put-IsFiled flow.approvals id
              (record a {
                status = approved;
                approved_by = some approver;
                approved_at = some signed_at;
              })
              own h)
        | inr decided ↦ rw decided h
      ])
    ]

approve-IsFiled :
    (flow : ApprovalFlow) (id approver : String) (checked_at signed_at : ℕ)
    → IsFiled flow.approvals
    → IsFiled (approve flow id approver checked_at signed_at).0.approvals
unfolding approve
approve-IsFiled flow id approver checked_at signed_at h =
    elim (Option-cases (get flow.approvals id)) [
      | inl missing ↦ rw (missing, approve) h
      | inr (a, found) ↦
          rw (found, approve)
            (approve_found-IsFiled flow id approver checked_at signed_at a
              (own_id flow.approvals flow.approvals id a h found) h)
    ]

pub data Call : Type 0 where
  requests : (approval_id : String) → ℕ → (action_id evidence_hash target_id : String) → Call
  approves : (approval_id approver : String) → (checked_at signed_at : ℕ) → Call
  requires : (ℕ → ℕ) → (action_id evidence_hash target_id : String) → Call

unfoldable pub call : ApprovalFlow → Call → ApprovalFlow
call flow (requests id at action evidence target) = (request flow id at action evidence target).0
call flow (approves id approver checked_at signed_at) =
    (approve flow id approver checked_at signed_at).0
call flow (requires now action evidence target) =
    (require_current_approval flow now action evidence target).0

unfoldable pub call_all : ApprovalFlow → List Call → ApprovalFlow
call_all flow [] = flow
call_all flow (c ∷ calls) = call_all (call flow c) calls

-- No request draws the id, as `uuid4` promises for an id that is in use.
abbrev pub Spares : String → Call → Type 0
Spares k (requests id at action evidence target) = str_eq id k ≡ false
Spares k _ = Unit

pub call-IsFiled :
    (flow : ApprovalFlow) (c : Call) → IsFiled flow.approvals → IsFiled (call flow c).approvals
unfolding call request require_current_approval
call-IsFiled flow (requests id at action evidence target) h = put-IsFiled flow.approvals id _ refl h
call-IsFiled flow (approves id approver checked_at signed_at) h =
    approve-IsFiled flow id approver checked_at signed_at h
call-IsFiled flow (requires now action evidence target) h =
    review_all-IsFiled now 0 evidence
      (filter (λ a. str_eq a.action_id action) (values flow.approvals)) flow.approvals h
