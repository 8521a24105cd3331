-- ===== src/Ledger/Examples.antt =====
-- A ledger over numbers, with a toy serialization, and the theorems at it.
use ai_driven_autonomous_no.Prelude.{
  ℕ, ◌≡◌, refl, ◌⊎◌, String, true, List, [], ◌∷◌, ◌++◌, ℕ_discrete,
}
use ai_driven_autonomous_no.Ledger.{LedgerEntry, Payload, Evidence, tip, append, verify}
use ai_driven_autonomous_no.Ledger.Chain.{Collision, append-verify, tampering_needs_collision}

abbrev sha256 : String → String
sha256 s = s

abbrev dumps : Payload ℕ ℕ → String
dumps p = p.entry_id

abbrev evidence : Evidence ℕ ℕ
evidence = record {
  before_state = 0;
  intended_state = 1;
  after_state = 1;
  forward_action = 7;
  inverse_action = 8;
  evidence_hash = "e1";
  actor = "ann";
}

abbrev one : List (LedgerEntry ℕ ℕ)
one = (append sha256 dumps [] "id1" 10 evidence).0

abbrev two : List (LedgerEntry ℕ ℕ)
two = (append sha256 dumps one "id2" 11 evidence).0

two_verifies : verify sha256 dumps two ≡ true
unfolding append verify
two_verifies = refl

-- The same ids, with another state after the second action.
abbrev forged : List (LedgerEntry ℕ ℕ)
forged = (append sha256 dumps one "id2" 11 (record evidence { after_state = 2 })).0

forged_verifies : verify sha256 dumps forged ≡ true
unfolding append verify
forged_verifies = refl

forged_ends_alike : tip sha256 dumps two ≡ tip sha256 dumps forged
unfolding append tip
forged_ends_alike = refl

append-verify_example :
    let (entries', entry) = append sha256 dumps two "id3" 12 evidence in
    (verify sha256 dumps entries' ≡ true)
    × (entries' ≡ two ++ entry ∷ [])
    × (entry.previous_ledger_hash ≡ tip sha256 dumps two)
    × (tip sha256 dumps entries' ≡ entry.current_ledger_hash)
    × (entry.evidence_hash ≡ evidence.evidence_hash)
    × (entry.forward_action ≡ evidence.forward_action)
    × (entry.inverse_action ≡ evidence.inverse_action)
append-verify_example = append-verify sha256 dumps two "id3" 12 evidence two_verifies

tampering_needs_collision_example : (two ≡ forged) ⊎ Collision sha256 dumps
unfolding append
tampering_needs_collision_example =
    tampering_needs_collision sha256 dumps ℕ_discrete ℕ_discrete two forged refl two_verifies
      forged_verifies forged_ends_alike
