-- ===== src/Authority.antt =====
-- backend/app/authority/durable.py, the fingerprints of backend/app/autonomy/readiness.py, and
-- `_load_bound_action` of backend/app/production/durable.py: who may deploy the selected candidate of a
-- run, and the check of that before its deployment.
-- The rows that are joined are read at one time. The digests and the dumps of the three dictionaries
-- are fields of `Digests`.
pub mod Binding
pub mod Fresh
mod Examples
use ai_driven_autonomous_no.Prelude.{
  ℕ, String, Bool, true, false, not, ◌&&◌, ◌||◌, Option, none, some, List, [], ◌∷◌, any, str_eq,
  ltb, if◌then◌else◌,
}
use ai_driven_autonomous_no.Prelude.Options.{◌>>=◌, ◌>>◌, guard}
use ai_driven_autonomous_no.Lifecycle.{OptimizationState, admitted, same_state}
use ai_driven_autonomous_no.Autonomy.{auto_eligible_actions}
use ai_driven_autonomous_no.Runs.Transition.{first_error}

pub record TargetFacts : Type 0 where
  pub id : String
  pub connection_label : String
  pub target_mode : String
  pub state : String
  pub is_active : Bool

pub record Credential : Type 0 where
  pub credential_id : String
  pub key_version : String
  pub credential_type : String

-- The arguments of `authority_integrity_fingerprint`.
pub record AuthorityFacts : Type 0 where
  pub run_id : String
  pub candidate_id : String
  pub candidate_fingerprint : String
  pub deployment_mode : String
  pub authority_type : String
  pub authority_reason : String
  pub telemetry_eligible : Bool
  pub admission_production_eligible : Bool
  pub target_identity_fingerprint : String
  pub capability_fingerprint : String
  pub security_fingerprint : String

pub record Digests : Type 0 where
  pub sha256 : String → String
  pub dump_identity : TargetFacts → String
  pub dump_security : Option Credential → String
  pub dump_authority : AuthorityFacts → String

-- What is read of the target's surroundings: itself, its last capability and its credential.
pub record Environment : Type 0 where
  pub target : TargetFacts
  pub capability : Option String
  pub credential : Option Credential

unfoldable pub capability_or_none : Option String → String
capability_or_none none = "NO_CAPABILITY_SNAPSHOT"
capability_or_none (some fingerprint) = fingerprint

-- A row of `authority_decisions`.
pub record AuthorityRow : Type 0 where
  pub authority_candidate_id : String
  pub authority_candidate_fingerprint : String
  pub authority_mode : String
  pub type_of_authority : String
  pub reason : String
  pub production_autonomy_eligible : Bool
  pub integrity_fingerprint : String

module _ (d : Digests) where
  -- `environment_binding` and `authority_integrity_fingerprint`.
  unfoldable pub authority_facts : String → Environment → AuthorityRow → Bool → AuthorityFacts
  authority_facts run_id e a eligible_for_production = record {
    run_id = run_id;
    candidate_id = a.authority_candidate_id;
    candidate_fingerprint = a.authority_candidate_fingerprint;
    deployment_mode = a.authority_mode;
    authority_type = a.type_of_authority;
    authority_reason = a.reason;
    telemetry_eligible = a.production_autonomy_eligible;
    admission_production_eligible = eligible_for_production;
    target_identity_fingerprint = d.sha256 (d.dump_identity e.target);
    capability_fingerprint = capability_or_none e.capability;
    security_fingerprint = d.sha256 (d.dump_security e.credential);
  }

  unfoldable pub authority_integrity_fingerprint : AuthorityFacts → String
  authority_integrity_fingerprint facts = d.sha256 (d.dump_authority facts)

-- The admitted candidate of a run, with its action.
pub record SelectedCandidate : Type 0 where
  pub selected_id : String
  pub deterministic_fingerprint : Option String
  pub policy_classification : String
  pub action_type : String

-- What `decide_for_run` reads. The completeness of the snapshot says whether its telemetry is eligible,
-- where it is a dictionary.
pub record AuthorityInputs : Type 0 where
  pub input_run_id : String
  pub run_status : OptimizationState
  pub run_mode : String
  pub selected : Option SelectedCandidate
  pub eligible_admission : Bool
  pub telemetry : Option Bool
  pub environment : Environment

-- `DeploymentMode(text)`
unfoldable pub is_mode : String → Bool
is_mode mode = str_eq mode "APPROVAL_CONTROLLED" || str_eq mode "FULL_AUTONOMOUS"

unfoldable pub is_auto_eligible_action : String → Bool
is_auto_eligible_action action_type = any (str_eq action_type) auto_eligible_actions

unfoldable pub is_automatic : AuthorityInputs → SelectedCandidate → Bool → Bool
is_automatic i c eligible =
    str_eq i.run_mode "FULL_AUTONOMOUS"
    && (eligible
        && (i.eligible_admission
            && (str_eq c.policy_classification "AUTO_ELIGIBLE_AFTER_ADMISSION"
                && is_auto_eligible_action c.action_type)))

-- The row before its fingerprint is computed.
unfoldable pub unsigned_row : AuthorityInputs → SelectedCandidate → String → Bool → AuthorityRow
unsigned_row i c fingerprint eligible =
    let automatic = is_automatic i c eligible in
    record {
      authority_candidate_id = c.selected_id;
      authority_candidate_fingerprint = fingerprint;
      authority_mode = i.run_mode;
      type_of_authority = if automatic then "AUTONOMOUS" else "HUMAN_REQUIRED";
      reason = if automatic then "AUTONOMY_ELIGIBLE" else "AUTONOMY_INELIGIBLE_REQUIRES_APPROVAL";
      production_autonomy_eligible = eligible;
      integrity_fingerprint = "";
    }

unfoldable pub signed_row : Digests → AuthorityInputs → AuthorityRow → AuthorityRow
signed_row d i a = record a {
  integrity_fingerprint =
      authority_integrity_fingerprint d
        (authority_facts d i.input_run_id i.environment a i.eligible_admission);
}

-- `DurableAuthorityService.decide_for_run`; nothing is returned where it raises.
unfoldable pub decide_authority :
    Digests → Option AuthorityRow → AuthorityInputs → Option AuthorityRow
decide_authority d (some existing) i = some existing
decide_authority d none i = guard (same_state i.run_status admitted) >> i.selected >>= λ c.
    c.deterministic_fingerprint >>= λ fingerprint. i.telemetry >>= λ eligible.
    guard (is_mode i.run_mode) >> some (signed_row d i (unsigned_row i c fingerprint eligible))

pub record ApprovalRow : Type 0 where
  pub approved_run_id : String
  pub approved_candidate_id : String
  pub approved_fingerprint : String
  pub approval_status : String
  pub expires_at : ℕ

-- The joined row of `_load_bound_action`.
pub record BoundRow : Type 0 where
  pub bound_run_id : String
  pub selected_candidate_id : String
  pub run_deployment_mode : String
  pub authority : AuthorityRow
  pub bound_fingerprint : Option String
  pub candidate_status : String
  pub classification : String
  pub type_of_action : String
  pub bound_eligible_admission : Bool
  pub bound_environment : Environment

pub data BindingError : Type 0 where
  authority_binding_missing candidate_fingerprint_drift unsupported_action : BindingError
  candidate_not_admitted deployment_mode_drift evidence_drift : BindingError
  autonomy_prerequisite_drift current_approval_required : BindingError

unfoldable pub same_fingerprint : Option String → String → Bool
same_fingerprint none fingerprint = false
same_fingerprint (some own) fingerprint = str_eq own fingerprint

unfoldable pub approves : BoundRow → ℕ → ApprovalRow → Bool
approves b now p =
    str_eq p.approved_run_id b.bound_run_id
    && (str_eq p.approved_candidate_id b.selected_candidate_id
        && (str_eq p.approved_fingerprint b.authority.authority_candidate_fingerprint
            && (str_eq p.approval_status "APPROVED" && ltb now p.expires_at)))

unfoldable pub is_autonomous : BoundRow → Bool
is_autonomous b =
    str_eq b.run_deployment_mode "FULL_AUTONOMOUS"
    && (b.authority.production_autonomy_eligible
        && (b.bound_eligible_admission && str_eq b.classification "AUTO_ELIGIBLE_AFTER_ADMISSION"))

-- The checks in their order, each with the error that it raises.
unfoldable pub binding_checks :
    Digests → BoundRow → List ApprovalRow → ℕ → List (Bool × BindingError)
binding_checks d b approvals now =
    (
      not (str_eq b.selected_candidate_id b.authority.authority_candidate_id),
      authority_binding_missing,
    )
    ∷ (
      not (same_fingerprint b.bound_fingerprint b.authority.authority_candidate_fingerprint),
      candidate_fingerprint_drift,
    )
    ∷ (
      not (str_eq b.type_of_action "CREATE_INDEX")
          || not (is_auto_eligible_action b.type_of_action),
      unsupported_action,
    )
    ∷ (not (str_eq b.candidate_status "ADMITTED"), candidate_not_admitted)
    ∷ (not (str_eq b.run_deployment_mode b.authority.authority_mode), deployment_mode_drift)
    ∷ (
      not (
          str_eq
            (authority_integrity_fingerprint d (
              authority_facts d b.bound_run_id b.bound_environment b.authority
                b.bound_eligible_admission))
            b.authority.integrity_fingerprint),
      evidence_drift,
    )
    ∷ (
      str_eq b.authority.type_of_authority "AUTONOMOUS" && not (is_autonomous b),
      autonomy_prerequisite_drift,
    )
    ∷ (
      str_eq b.authority.type_of_authority "HUMAN_REQUIRED" && not (any (approves b now) approvals),
      current_approval_required,
    )
    ∷ []

pub data BoundResult : Type 0 where
  bound_to : BoundRow → BoundResult
  not_bound : BindingError → BoundResult

unfoldable pub binding_of_check : BoundRow → Option BindingError → BoundResult
binding_of_check b none = bound_to b
binding_of_check b (some error) = not_bound error

-- `_load_bound_action`
unfoldable pub load_bound_action : Digests → Option BoundRow → List ApprovalRow → ℕ → BoundResult
load_bound_action d none approvals now = not_bound authority_binding_missing
load_bound_action d (some b) approvals now =
    binding_of_check b (first_error (binding_checks d b approvals now))
