-- ===== src/Authority/Fresh.antt =====
-- An authority that was just decided lets its run deploy exactly by itself or with a current approval.
use ai_driven_autonomous_no.Prelude.{
  ℕ, ◌≡◌, refl, ◌⊎◌, inl, inr, String, Bool, true, false, none, some, List, any, str_eq, arith,
  Bool-cases,
}
use ai_driven_autonomous_no.Autonomy.{auto_eligible_actions}
use ai_driven_autonomous_no.Lifecycle.{admitted, same_state}
use ai_driven_autonomous_no.Authority.{
  Digests, AuthorityRow, AuthorityInputs, SelectedCandidate, ApprovalRow, BoundRow, bound_to,
  not_bound, BindingError, load_bound_action, authority_facts, is_auto_eligible_action,
  is_autonomous, approves, is_automatic, unsigned_row, signed_row, decide_authority, is_mode,
}
use ai_driven_autonomous_no.Authority.Binding.{IsAuthorised, load_bound_action_outcomes}

-- The row that is joined for a run whose evidence has not changed since its authority was decided.
abbrev pub joined : AuthorityInputs → SelectedCandidate → AuthorityRow → BoundRow
joined i c a = record {
  bound_run_id = i.input_run_id;
  selected_candidate_id = c.selected_id;
  run_deployment_mode = i.run_mode;
  authority = a;
  bound_fingerprint = c.deterministic_fingerprint;
  candidate_status = "ADMITTED";
  classification = c.policy_classification;
  type_of_action = c.action_type;
  bound_eligible_admission = i.eligible_admission;
  bound_environment = i.environment;
}

create_is_eligible :
    (action_type : String)
    → action_type ≡ "CREATE_INDEX"
    → is_auto_eligible_action action_type ≡ true
unfolding is_auto_eligible_action auto_eligible_actions
create_is_eligible action_type e = rw e refl

-- What the two types of authority ask of the joined row.
automatic_is_autonomous :
    (i : AuthorityInputs) (c : SelectedCandidate) (fingerprint : String) (eligible : Bool)
    (d : Digests)
    → is_automatic i c eligible ≡ true
    → let b = joined i c (signed_row d i (unsigned_row i c fingerprint eligible)) in
      (is_autonomous b ≡ true) × (str_eq b.authority.type_of_authority "HUMAN_REQUIRED" ≡ false)
unfolding is_automatic is_autonomous signed_row unsigned_row
automatic_is_autonomous i c fingerprint eligible d h = (ground arith, rw h refl)

human_is_required :
    (i : AuthorityInputs) (c : SelectedCandidate) (fingerprint : String) (eligible : Bool)
    (d : Digests)
    → is_automatic i c eligible ≡ false
    → let b = joined i c (signed_row d i (unsigned_row i c fingerprint eligible)) in
      (str_eq b.authority.type_of_authority "AUTONOMOUS" ≡ false)
      × (str_eq b.authority.type_of_authority "HUMAN_REQUIRED" ≡ true)
unfolding signed_row unsigned_row
human_is_required i c fingerprint eligible d h = (rw h refl, rw h refl)

joined-IsAuthorised :
    (d : Digests) (i : AuthorityInputs) (c : SelectedCandidate) (fingerprint : String)
    (eligible : Bool) (approvals : List ApprovalRow) (now : ℕ)
    → c.deterministic_fingerprint ≡ some fingerprint
    → c.action_type ≡ "CREATE_INDEX"
    → let b = joined i c (signed_row d i (unsigned_row i c fingerprint eligible)) in
      ((str_eq b.authority.type_of_authority "AUTONOMOUS" ≡ false) ⊎ (is_autonomous b ≡ true))
      → ((str_eq b.authority.type_of_authority "HUMAN_REQUIRED" ≡ false)
          ⊎ (any (approves b now) approvals ≡ true))
      → IsAuthorised d b approvals now
unfolding signed_row unsigned_row authority_facts
joined-IsAuthorised d i c fingerprint eligible approvals now e creates autonomy approval = record {
  candidate = refl;
  fingerprint = e;
  creates = creates;
  eligible = create_is_eligible c.action_type creates;
  admitted = refl;
  mode = refl;
  evidence = refl;
  autonomy = autonomy;
  approval = approval;
}

decided_row :
    (d : Digests) (i : AuthorityInputs) (c : SelectedCandidate) (fingerprint : String)
    (eligible : Bool)
    → same_state i.run_status admitted ≡ true
    → i.selected ≡ some c
    → c.deterministic_fingerprint ≡ some fingerprint
    → i.telemetry ≡ some eligible
    → is_mode i.run_mode ≡ true
    → decide_authority d none i ≡ some (signed_row d i (unsigned_row i c fingerprint eligible))
unfolding decide_authority
decided_row d i c fingerprint eligible ready chosen own telemetry mode =
    rw (ready, chosen, own, telemetry, mode) refl

bound_where_authorised :
    (d : Digests) (b : BoundRow) (approvals : List ApprovalRow) (now : ℕ)
    → IsAuthorised d b approvals now
    → load_bound_action d (some b) approvals now ≡ bound_to b
bound_where_authorised d b approvals now h = elim (load_bound_action_outcomes d b approvals now) [
  | inl (authorised, e) ↦ e
  | inr (other, found) ↦ absurd (other h)
]

refused_without_approval :
    (d : Digests) (b : BoundRow) (approvals : List ApprovalRow) (now : ℕ)
    → str_eq b.authority.type_of_authority "HUMAN_REQUIRED" ≡ true
    → any (approves b now) approvals ≡ false
    → (error : BindingError) × (load_bound_action d (some b) approvals now ≡ not_bound error)
refused_without_approval d b approvals now human nobody =
    elim (load_bound_action_outcomes d b approvals now) [
      | inl (authorised, e) ↦ elim authorised.approval [
        | inl other ↦ absurd (cc (other, human))
        | inr somebody ↦ absurd (cc (somebody, nobody))
      ]
      | inr (other, found) ↦ found
    ]

-- For an admitted run with a selected candidate that creates an index, with its fingerprint, telemetry
-- and a valid mode, an authority is decided; and while its evidence is unchanged, its action is bound
-- exactly where the authority is automatic or an approval of just this candidate is current.
pub decided_authority_binds :
    (d : Digests) (i : AuthorityInputs) (c : SelectedCandidate) (fingerprint : String)
    (eligible : Bool) (approvals : List ApprovalRow) (now : ℕ)
    → same_state i.run_status admitted ≡ true
    → i.selected ≡ some c
    → c.deterministic_fingerprint ≡ some fingerprint
    → i.telemetry ≡ some eligible
    → is_mode i.run_mode ≡ true
    → c.action_type ≡ "CREATE_INDEX"
    → (a : AuthorityRow) × (decide_authority d none i ≡ some a)
      × ((((is_automatic i c eligible ≡ true)
              ⊎ (any (approves (joined i c a) now) approvals ≡ true))
            × (load_bound_action d (some (joined i c a)) approvals now ≡ bound_to (joined i c a)))
          ⊎ (((is_automatic i c eligible ≡ false)
                × (any (approves (joined i c a) now) approvals ≡ false))
              × ((error : BindingError) × (load_bound_action d (some (joined i c a)) approvals now
                    ≡ not_bound error))))
decided_authority_binds d i c fingerprint eligible approvals now ready chosen own telemetry mode
      creates =
    let a = signed_row d i (unsigned_row i c fingerprint eligible) in
    let b = joined i c a in
    (
      a,
      decided_row d i c fingerprint eligible ready chosen own telemetry mode,
      elim (Bool-cases (is_automatic i c eligible)) [
        | inl automatic ↦
            let (autonomous, other) =
              automatic_is_autonomous i c fingerprint eligible d automatic in
            inl (
              inl automatic,
              bound_where_authorised d b approvals now (
                  joined-IsAuthorised d i c fingerprint eligible approvals now own creates
                    (inr autonomous) (inl other)),
            )
        | inr manual ↦
            let (other, human) = human_is_required i c fingerprint eligible d manual in
            elim (Bool-cases (any (approves b now) approvals)) [
              | inl somebody ↦ inl (
                inr somebody,
                bound_where_authorised d b approvals now (
                    joined-IsAuthorised d i c fingerprint eligible approvals now own creates
                      (inl other) (inr somebody)),
              )
              | inr nobody ↦
                  inr ((manual, nobody), refused_without_approval d b approvals now human nobody)
            ]
      ],
    )
