-- ===== src/Approvals/Binding.antt =====
-- What an approval binds stays as it was requested, and an approval that went stale or expired stays
-- so, through any sequence of calls.
use ai_driven_autonomous_no.Prelude.{
  ℕ, suc, ◌≡◌, refl, ap, ◌∙◌, sym, inl, inr, String, Bool, true, some, List, [], ◌∷◌, leb, str_eq,
  eq_iff, filter, All, All-map, arith, if◌then◌else◌, Bool-cases, Option-cases,
}
use ai_driven_autonomous_no.Prelude.Dicts.{Dict, get, put, values, get-put}
use ai_driven_autonomous_no.Approvals.{
  Approval, ApprovalFlow, approved, expired, is_approved, is_pending, request, approve,
  approve_found, review, review_all, require_current_approval,
}
use ai_driven_autonomous_no.Approvals.Filing.{
  is_dead, review_cases, IsFiledIn, IsFiled, Call, requests, approves, requires, call, call_all,
  Spares, call-IsFiled,
}

-- What was fixed when the approval was requested.
abbrev pub binding : Approval → String × String × String × String × ℕ × ℕ
binding a = (a.approval_id, a.action_id, a.target_id, a.evidence_hash, a.requested_at, a.expires_at)

-- An approval and what became of it.
abbrev pub Becomes : Approval → Approval → Type 0
Becomes a b = (binding a ≡ binding b) × (is_dead a.status ≡ true → is_dead b.status ≡ true)

-- The entry under a key, and what became of it in a later dictionary.
abbrev pub Keeps : Dict Approval → Dict Approval → String → Type 0
Keeps d e k = (a : Approval) → get d k ≡ some a → (b : Approval) × (get e k ≡ some b) × Becomes a b

Keeps-refl : (d : Dict Approval) (k : String) → Keeps d d k
Keeps-refl d k a h = (a, h, (refl, λ dead. dead))

Keeps-trans : (d e f : Dict Approval) (k : String) → Keeps d e k → Keeps e f k → Keeps d f k
Keeps-trans d e f k p q a h =
    let (b, hb, ab) = p a h in
    let (c, hc, bc) = q b hb in (c, hc, (ab.0 ∙ bc.0, λ dead. bc.1 (ab.1 dead)))

-- A write under the key of `a` of a value that `a` becomes.
Keeps-put :
    (d : Dict Approval) (j k : String) (v : Approval)
    → ((a : Approval) → get d j ≡ some a → Becomes a v)
    → Keeps d (put d j v) k
Keeps-put d j k v becomes a h = elim (Bool-cases (str_eq j k)) [
  | inl same ↦
      let e : j ≡ k = (eq_iff j k).0 same in (v, rw (get-put, same) refl, becomes a (rw e h))
  | inr other ↦ (a, rw (get-put, other) h, (refl, λ dead. dead))
]

only_found :
    (d : Dict Approval) (j : String) (a v : Approval)
    → get d j ≡ some a
    → Becomes a v
    → (b : Approval) → get d j ≡ some b
    → Becomes b v
only_found d j a v found becomes b h = let same : b ≡ a = ground arith in rw same becomes

approve_found-Keeps :
    (flow : ApprovalFlow) (id approver : String) (checked_at signed_at : ℕ) (a : Approval)
    (k : String)
    → get flow.approvals id ≡ some a
    → Keeps flow.approvals (approve_found flow id approver checked_at signed_at a).0.approvals k
unfolding approve_found
approve_found-Keeps flow id approver checked_at signed_at a k found =
    elim (Bool-cases (leb a.expires_at checked_at)) [
      | inl late ↦ rw late (written (record a { status = expired }) (refl, λ dead. refl))
      | inr on_time ↦ rw on_time (elim (Bool-cases (is_pending a.status)) [
        | inl waits ↦ rw waits (
            written
              (record a {
                status = approved;
                approved_by = some approver;
                approved_at = some signed_at;
              })
              (refl, λ dead. ground arith))
        | inr decided ↦ rw decided (Keeps-refl flow.approvals k)
      ])
    ]
  where
    written : (v : Approval) → Becomes a v → Keeps flow.approvals (put flow.approvals id v) k
    written v becomes =
        Keeps-put flow.approvals id k v (only_found flow.approvals id a v found becomes)

approve-Keeps :
    (flow : ApprovalFlow) (id approver : String) (checked_at signed_at : ℕ) (k : String)
    → Keeps flow.approvals (approve flow id approver checked_at signed_at).0.approvals k
unfolding approve
approve-Keeps flow id approver checked_at signed_at k =
    elim (Option-cases (get flow.approvals id)) [
      | inl missing ↦ rw (missing, approve) (Keeps-refl flow.approvals k)
      | inr (a, found) ↦
          rw (found, approve) (approve_found-Keeps flow id approver checked_at signed_at a k found)
    ]

-- An approval of a list stands in the dictionary under its id, with the same binding.
abbrev pub Stands : Dict Approval → Approval → Type 0
Stands d a = (b : Approval) × (get d a.approval_id ≡ some b) × (binding b ≡ binding a)

pub review-Keeps :
    (t : ℕ) (evidence_hash : String) (a : Approval) (d : Dict Approval) (k : String)
    → Stands d a
    → Keeps d (review t evidence_hash a d) k
review-Keeps t evidence_hash a d k (b, found, same) =
    review_cases (λ e. Keeps d e k) t evidence_hash a d (Keeps-refl d k)
      (λ s dead.
        Keeps-put d a.approval_id k (record a { status = s })
          (only_found d a.approval_id b (record a { status = s }) found (same, λ h. dead)))

pub Stands-Keeps :
    (d e : Dict Approval) (a : Approval) → Keeps d e a.approval_id → Stands d a → Stands e a
Stands-Keeps d e a keeps (b, found, same) =
    let (c, hc, bc) = keeps b found in (c, hc, sym bc.0 ∙ same)

pub review_all-Keeps :
    (now : ℕ → ℕ) (i : ℕ) (evidence_hash : String) (todo : List Approval) (d : Dict Approval)
    (k : String)
    → All (Stands d) todo
    → Keeps d (review_all now i evidence_hash todo d) k
unfolding review_all
review_all-Keeps now i evidence_hash [] d k h = Keeps-refl d k
review_all-Keeps now i evidence_hash (a ∷ rest) d k h =
    let e = review (now i) evidence_hash a d in
    Keeps-trans d e _ k (review-Keeps (now i) evidence_hash a d k h.0) (
      review_all-Keeps now (if is_approved a.status then suc i else i) evidence_hash rest e k (
        All-map (Stands d) (Stands e) rest
          (λ b. Stands-Keeps d e b (review-Keeps (now i) evidence_hash a d b.approval_id h.0)) h.1))

pub Stands-All :
    (d : Dict Approval) (test : Approval → Bool) (e : Dict Approval)
    → All (IsFiledIn d) e
    → All (Stands d) (filter test (values e))
Stands-All d test [] h = tt
Stands-All d test ((k, a) ∷ e) h = elim (Bool-cases (test a)) [
  | inl e' ↦ rw e' ((a, ap (get d) (sym h.0.1) ∙ h.0.0, refl), Stands-All d test e h.1)
  | inr e' ↦ rw e' (Stands-All d test e h.1)
]

call-Keeps :
    (flow : ApprovalFlow) (c : Call) (k : String)
    → IsFiled flow.approvals
    → Spares k c
    → Keeps flow.approvals (call flow c).approvals k
unfolding call request require_current_approval
call-Keeps flow (requests id at action evidence target) k h spares =
    λ a found. (a, rw (get-put, spares) found, (refl, λ dead. dead))
call-Keeps flow (approves id approver checked_at signed_at) k h spares =
    approve-Keeps flow id approver checked_at signed_at k
call-Keeps flow (requires now action evidence target) k h spares =
    review_all-Keeps now 0 evidence
      (filter (λ a. str_eq a.action_id action) (values flow.approvals)) flow.approvals k
      (Stands-All flow.approvals (λ a. str_eq a.action_id action) flow.approvals h)

-- Through any calls that draw no id twice, an approval in the flow keeps the action, the target, the
-- evidence and the times that it was requested with, and if it is stale or expired it stays so:
-- no later call approves it.
pub call_all-Keeps :
    (flow : ApprovalFlow) (calls : List Call) (k : String)
    → IsFiled flow.approvals
    → All (Spares k) calls
    → Keeps flow.approvals (call_all flow calls).approvals k
unfolding call_all
call_all-Keeps flow [] k h spares = Keeps-refl flow.approvals k
call_all-Keeps flow (c ∷ calls) k h spares =
    Keeps-trans flow.approvals (call flow c).approvals (call_all (call flow c) calls).approvals k
      (call-Keeps flow c k h spares.0)
      (call_all-Keeps (call flow c) calls k (call-IsFiled flow c h) spares.1)
