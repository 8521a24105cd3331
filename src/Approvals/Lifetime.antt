-- ===== src/Approvals/Lifetime.antt =====
-- One approval from its request to its use, from a new flow, and after its evidence drifted.
use ai_driven_autonomous_no.Prelude.{ℕ, ◌≢◌, [], ◌∷◌, ◌+◌, ◌<◌, ◌≡◌, String, some, arith, eq_refl}
use ai_driven_autonomous_no.Prelude.Dicts.{get, put, overwrite, has}
use ai_driven_autonomous_no.Approvals.{
  Approval, ApprovalFlow, ok, approved, request, approve, require_current_approval,
}
use ai_driven_autonomous_no.Prelude.{List, All}
use ai_driven_autonomous_no.Approvals.Filing.{
  IsFiled, Call, requires, call, call_all, Spares, call-IsFiled,
}
use ai_driven_autonomous_no.Approvals.Drift.{
  IsDeadFor, drifted-IsDeadFor, kept-IsDeadFor, require_dead, approve_dead, call_all-IsFiled,
}

module _ (ttl at : ℕ) (id approver action evidence target : String) (signed_at : ℕ) where
  abbrev pub requested : ApprovalFlow
  requested =
      (request (record { approvals = []; approval_ttl = ttl }) id at action evidence target).0

  -- The request as it was signed.
  abbrev pub signed : Approval
  signed = record {
    approval_id = id;
    action_id = action;
    target_id = target;
    evidence_hash = evidence;
    requested_at = at;
    expires_at = at + ttl;
    status = approved;
    approved_by = some approver;
    approved_at = some signed_at;
  }

  -- The flow that holds it.
  abbrev pub signed_flow : ApprovalFlow
  signed_flow = record { approvals = (id, signed) ∷ []; approval_ttl = ttl }

  approve-requested :
      (checked_at : ℕ)
      → checked_at < at + ttl
      → approve requested id approver checked_at signed_at ≡ (signed_flow, ok signed)
  unfolding approve request get put has overwrite
  approve-requested checked_at early = ground (arith, eq_refl id)

  require_signed :
      (now : ℕ → ℕ)
      → now 0 < at + ttl
      → require_current_approval signed_flow now action evidence target ≡ (signed_flow, ok signed)
  unfolding require_current_approval get put has overwrite
  require_signed now early =
      rw (eq_refl action) (ground (arith, eq_refl evidence, eq_refl target, eq_refl action))

  -- In a new flow, a request that is signed before it expires is the approval that the use of its
  -- action, evidence and target finds, if the clock reads less than the expiry there too; nothing in
  -- the flow changes by that use.
  signed_request_is_current :
      (checked_at : ℕ) (now : ℕ → ℕ)
      → checked_at < at + ttl
      → now 0 < at + ttl
      → let flow = (approve requested id approver checked_at signed_at).0 in
        require_current_approval flow now action evidence target ≡ (flow, ok signed)
  signed_request_is_current checked_at now early valid =
      rw (approve-requested checked_at early) (require_signed now valid)

-- An approved approval that a use reviews against other evidence is stale from then on, or expired: after
-- any calls that do not draw its id again, the entry of its id binds what it bound and is still stale or
-- expired, no approver and no time sign it again, and neither that use nor any use after those calls,
-- whatever its evidence, returns the approval of that id.
pub drifted_evidence_is_refused :
    (flow : ApprovalFlow) (id : String) (a : Approval) (now : ℕ → ℕ) (other target : String)
    (calls : List Call)
    → IsFiled flow.approvals
    → get flow.approvals id ≡ some a
    → a.status ≡ approved
    → a.evidence_hash ≢ other
    → All (Spares id) calls
    → let drifted = require_current_approval flow now a.action_id other target in
      let later = call_all drifted.0 calls in
      IsDeadFor a drifted.0 id
      × IsDeadFor a later id
      × ((b : Approval) → drifted.1 ≡ ok b → b.approval_id ≢ id)
      × ((approver : String) (checked_at signed_at : ℕ) (b : Approval)
          → (approve later id approver checked_at signed_at).1 ≢ ok b)
      × ((again : ℕ → ℕ) (action evidence where_to : String) (b : Approval)
          → (require_current_approval later again action evidence where_to).1 ≡ ok b
          → b.approval_id ≢ id)
unfolding call call_all
drifted_evidence_is_refused flow id a now other target calls filed found live drift spares =
    let review = requires now a.action_id other target in
    let drifted = call flow review in
    let dead = drifted-IsDeadFor flow id a now other target filed found live drift in
    let filed' = call-IsFiled flow review filed in
    let dead' = kept-IsDeadFor a drifted id calls filed' spares dead in
    (
      dead,
      dead',
      require_dead a flow now a.action_id other target id filed dead,
      approve_dead a (call_all drifted calls) id dead',
      λ again action evidence where_to.
          let last = call (call_all drifted calls) (requires again action evidence where_to) in
          require_dead a (call_all drifted calls) again action evidence where_to id
            (call_all-IsFiled drifted calls filed')
            (kept-IsDeadFor a (call_all drifted calls) id
              (requires again action evidence where_to ∷ []) (call_all-IsFiled drifted calls filed')
              (tt, tt) dead'),
    )
