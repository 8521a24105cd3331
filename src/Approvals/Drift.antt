-- ===== src/Approvals/Drift.antt =====
-- An approval that was reviewed against other evidence: its entry is dead, and stays so.
use ai_driven_autonomous_no.Prelude.{
  ℕ, suc, ◌≡◌, ◌≢◌, refl, ap, subst, ◌∙◌, sym, inl, inr, String, true, false, some, List, [], ◌∷◌,
  leb, str_eq, eq_iff, eq_refl, filter, find, All, arith, if◌then◌else◌, Bool-cases,
}
use ai_driven_autonomous_no.Prelude.Dicts.{Dict, get, values, get-put}
use ai_driven_autonomous_no.Approvals.{
  Approval, ApprovalFlow, ok, approved, stale, expired, is_approved, is_pending, approve,
  approve_found, review, review_all, is_current, require_current_approval,
}
use ai_driven_autonomous_no.Approvals.Filing.{
  is_dead, IsFiledIn, IsFiled, Call, requires, call, call_all, Spares, call-IsFiled, own_id,
}
use ai_driven_autonomous_no.Approvals.Binding.{
  binding, Stands, Stands-Keeps, Stands-All, review-Keeps, review_all-Keeps, call_all-Keeps,
}
use ai_driven_autonomous_no.Approvals.Currency.{
  In, In-filter, find-In, All-In, or_required-ok, is_current_fields,
}

-- The entry of an id binds what the approval bound, and is stale or expired.
abbrev pub IsDeadFor : Approval → ApprovalFlow → String → Type 0
IsDeadFor a flow id =
    (b : Approval) × (get flow.approvals id ≡ some b)
    × (binding a ≡ binding b)
    × (is_dead b.status ≡ true)

-- A review of an approved approval against other evidence writes it back dead.
review_drifted :
    (t : ℕ) (other : String) (a : Approval) (d : Dict Approval)
    → a.status ≡ approved
    → a.evidence_hash ≢ other
    → (b : Approval) × (get (review t other a d) a.approval_id ≡ some b) × (is_dead b.status ≡ true)
unfolding review is_approved
review_drifted t other a d live drift = elim (Bool-cases (leb a.expires_at t)) [
  | inl late ↦
      rw (live, late)
        (record a { status = expired }, rw (get-put, eq_refl a.approval_id) refl, refl)
  | inr on_time ↦ elim (Bool-cases (str_eq a.evidence_hash other)) [
    | inl same ↦ absurd (drift ((eq_iff a.evidence_hash other).0 same))
    | inr differs ↦
        rw (live, on_time, differs)
          (record a { status = stale }, rw (get-put, eq_refl a.approval_id) refl, refl)
  ]
]

All-Stands :
    (d e : Dict Approval) (todo : List Approval)
    → ((b : Approval) → Stands d b → Stands e b)
    → All (Stands d) todo
    → All (Stands e) todo
All-Stands d e [] f h = tt
All-Stands d e (x ∷ todo) f h = (f x h.0, All-Stands d e todo f h.1)

-- The reviews of a list leave each approved approval in it with other evidence dead.
review_all_drifted :
    (now : ℕ → ℕ) (i : ℕ) (other : String) (todo : List Approval) (d : Dict Approval) (a : Approval)
    → All (Stands d) todo
    → In a todo
    → a.status ≡ approved
    → a.evidence_hash ≢ other
    → (b : Approval) × (get (review_all now i other todo d) a.approval_id ≡ some b)
      × (is_dead b.status ≡ true)
unfolding review_all
review_all_drifted now i other [] d a h m live drift = elim m [ ]
review_all_drifted now i other (x ∷ rest) d a h m live drift =
    let e = review (now i) other x d in
    let j = if is_approved x.status then suc i else i in
    let stands =
      All-Stands d e rest
        (λ b. Stands-Keeps d e b (review-Keeps (now i) other x d b.approval_id h.0)) h.1 in
    elim m [
      | inl same ↦
          let (b, found, dead) =
            review_drifted (now i) other x d (subst (λ y. y.status ≡ approved) same live)
              (subst (λ y. y.evidence_hash ≢ other) same drift) in
          let (c, later, becomes) =
            review_all-Keeps now j other rest e x.approval_id stands b found in
          subst
            (λ y.
              (b : Approval) × (get (review_all now j other rest e) y.approval_id ≡ some b)
              × (is_dead b.status ≡ true))
            (sym same) (c, later, becomes.1 dead)
      | inr waits ↦ review_all_drifted now j other rest e a stands waits live drift
    ]

get-In : (d : Dict Approval) (k : String) (a : Approval) → get d k ≡ some a → In a (values d)
unfolding get
get-In [] k a h = cc
get-In ((j, b) ∷ d) k a h = elim (Bool-cases (str_eq j k)) [
  | inl same ↦ inl (ground arith)
  | inr other ↦ inr (get-In d k a (rw other at h))
]

pub drifted-IsDeadFor :
    (flow : ApprovalFlow) (id : String) (a : Approval) (now : ℕ → ℕ) (other target : String)
    → IsFiled flow.approvals
    → get flow.approvals id ≡ some a
    → a.status ≡ approved
    → a.evidence_hash ≢ other
    → IsDeadFor a (require_current_approval flow now a.action_id other target).0 id
unfolding require_current_approval
drifted-IsDeadFor flow id a now other target filed found live drift =
    let d = flow.approvals in
    let own = own_id d d id a filed found in
    let todo = filter (λ x. str_eq x.action_id a.action_id) (values d) in
    let stands = Stands-All d (λ x. str_eq x.action_id a.action_id) d filed in
    let waits = In-filter a.action_id (values d) a (get-In d id a found) (eq_refl a.action_id) in
    let (b, there, dead) = review_all_drifted now 0 other todo d a stands waits live drift in
    let (c, there', becomes) = review_all-Keeps now 0 other todo d id stands a found in
    let there_b : get (review_all now 0 other todo d) id ≡ some b =
      ap (get (review_all now 0 other todo d)) own ∙ there in
    let same : c ≡ b = ground (arith, there', there_b) in
    (b, there_b, becomes.0 ∙ ap binding same, dead)

pub kept-IsDeadFor :
    (a : Approval) (flow : ApprovalFlow) (id : String) (calls : List Call)
    → IsFiled flow.approvals
    → All (Spares id) calls
    → IsDeadFor a flow id
    → IsDeadFor a (call_all flow calls) id
kept-IsDeadFor a flow id calls filed spares (b, there, same, dead) =
    let (c, later, becomes) = call_all-Keeps flow calls id filed spares b there in
    (c, later, same ∙ becomes.0, becomes.1 dead)

pub call_all-IsFiled :
    (flow : ApprovalFlow) (calls : List Call)
    → IsFiled flow.approvals
    → IsFiled (call_all flow calls).approvals
unfolding call_all
call_all-IsFiled flow [] h = h
call_all-IsFiled flow (c ∷ calls) h = call_all-IsFiled (call flow c) calls (call-IsFiled flow c h)

-- What a use returns is the entry of its own id after the use, and approved.
pub require_dead :
    (a : Approval) (flow : ApprovalFlow) (now : ℕ → ℕ) (action evidence target id : String)
    → IsFiled flow.approvals
    → IsDeadFor a (require_current_approval flow now action evidence target).0 id
    → (b : Approval) → (require_current_approval flow now action evidence target).1 ≡ ok b
    → b.approval_id ≢ id
unfolding require_current_approval call
require_dead a flow now action evidence target id filed (c, there, same, dead) b returned own =
    let d = flow.approvals in
    let todo = filter (λ x. str_eq x.action_id action) (values d) in
    let reviewed = review_all now 0 evidence todo d in
    let filed' = call-IsFiled flow (requires now action evidence target) filed in
    let found =
      find-In (is_current action evidence target) (values reviewed)
        (or_required-ok (find (is_current action evidence target) (values reviewed)) returned) in
    let (same_action, same_target, same_evidence, live) =
      is_current_fields action evidence target b found.0 in
    let (k, entry) = All-In (IsFiledIn reviewed) reviewed found.1 filed' in
    let at_id : get reviewed id ≡ some b = ap (get reviewed) (sym own ∙ sym entry.1) ∙ entry.0 in
    let b_is_c : b ≡ c = ground (arith, at_id, there) in
    let alive : is_dead b.status ≡ false = rw live refl in
    let dead_b : is_dead b.status ≡ true = rw b_is_c dead in cc

pub approve_dead :
    (a : Approval) (flow : ApprovalFlow) (id : String)
    → IsDeadFor a flow id
    → (approver : String) (checked_at signed_at : ℕ) (b : Approval)
    → (approve flow id approver checked_at signed_at).1 ≢ ok b
unfolding approve approve_found is_pending
approve_dead a flow id (c, there, same, dead) approver checked_at signed_at b =
    rw (there, approve)
      (elim (Bool-cases (leb c.expires_at checked_at)) [
        | inl late ↦ rw late (λ e. cc)
        | inr on_time ↦ rw on_time (elim (Bool-cases (is_pending c.status)) [
          | inl waits ↦ absurd (ground (arith, waits, dead))
          | inr decided ↦ rw decided (λ e. cc)
        ])
      ])
