-- ===== src/Authority/Examples.antt =====
-- The authority of an automatic run, with digests that keep the text.
use ai_driven_autonomous_no.Prelude.{◌≡◌, refl, ◌⊎◌, true, false, none, some, [], any}
use ai_driven_autonomous_no.Lifecycle.{admitted, same_state}
use ai_driven_autonomous_no.Authority.{
  Digests, Environment, AuthorityInputs, AuthorityRow, SelectedCandidate, BoundRow, BindingError,
  bound_to, not_bound, decide_authority, load_bound_action, is_automatic, is_mode, approves,
  signed_row, unsigned_row,
}
use ai_driven_autonomous_no.Authority.Binding.{IsAuthorised, load_bound_action_outcomes}
use ai_driven_autonomous_no.Authority.Fresh.{joined, decided_authority_binds}

abbrev d : Digests
d = record {
  sha256 = λ s. s;
  dump_identity = λ t. t.id;
  dump_security = λ c. "credential";
  dump_authority = λ f. f.candidate_fingerprint;
}

abbrev environment : Environment
environment = record {
  target = record {
    id = "t1";
    connection_label = "primary";
    target_mode = "FULL_AUTONOMOUS";
    state = "ACTIVE";
    is_active = true;
  };
  capability = none;
  credential = none;
}

abbrev candidate : SelectedCandidate
candidate = record {
  selected_id = "c1";
  deterministic_fingerprint = some "f1";
  policy_classification = "AUTO_ELIGIBLE_AFTER_ADMISSION";
  action_type = "CREATE_INDEX";
}

abbrev inputs : AuthorityInputs
inputs = record {
  input_run_id = "run";
  run_status = admitted;
  run_mode = "FULL_AUTONOMOUS";
  selected = some candidate;
  eligible_admission = true;
  telemetry = some true;
  environment = environment;
}

is_ready : same_state inputs.run_status admitted ≡ true
unfolding same_state
is_ready = refl

mode_is_valid : is_mode inputs.run_mode ≡ true
unfolding is_mode
mode_is_valid = refl

decided_authority_binds_example :
    (a : AuthorityRow) × (decide_authority d none inputs ≡ some a)
    × ((((is_automatic inputs candidate true ≡ true)
            ⊎ (any (approves (joined inputs candidate a) 5) [] ≡ true))
          × (load_bound_action d (some (joined inputs candidate a)) [] 5
              ≡ bound_to (joined inputs candidate a)))
        ⊎ (((is_automatic inputs candidate true ≡ false)
              × (any (approves (joined inputs candidate a) 5) [] ≡ false))
            × ((error : BindingError) × (load_bound_action d (some (joined inputs candidate a)) [] 5
                  ≡ not_bound error))))
decided_authority_binds_example =
    decided_authority_binds d inputs candidate "f1" true [] 5 is_ready refl refl refl mode_is_valid
      refl

abbrev row : BoundRow
row = joined inputs candidate (signed_row d inputs (unsigned_row inputs candidate "f1" true))

load_bound_action_outcomes_example :
    (IsAuthorised d row [] 5 × (load_bound_action d (some row) [] 5 ≡ bound_to row))
    ⊎ ((¬ IsAuthorised d row [] 5)
        × ((error : BindingError) × (load_bound_action d (some row) [] 5 ≡ not_bound error)))
load_bound_action_outcomes_example = load_bound_action_outcomes d row [] 5
