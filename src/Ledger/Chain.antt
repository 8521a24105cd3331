-- ===== src/Ledger/Chain.antt =====
-- What the hash chain guarantees, and what it does not.
use mathlib.Core.Path.{ap₂}
use mathlib.Core.List.{map-append}
use ai_driven_autonomous_no.Prelude.{
  ℕ, zero, suc, ◌≡◌, ◌≢◌, refl, sym, ap, ◌∙◌, ◌⊎◌, inl, inr, String, true, List, [], ◌∷◌, ◌++◌,
  last_or, last_or-append, map, eq_iff, eq_refl, take, length, arith, text_discrete, ℕ_discrete,
}
use ai_driven_autonomous_no.Ledger.{
  LedgerEntry, Payload, Evidence, payload, hash, genesis_hash, tip, new_entry, append, verify_from,
  verify,
}

Payload-discrete : {S A : Type 0} → Discrete S → Discrete A → Discrete (Payload S A)
Payload-discrete s a = hlevel (s, a, text_discrete, ℕ_discrete)

module _ {S A : Type 0} (sha256 : String → String) (dumps : Payload S A → String) where
  -- Two payloads that differ and have one hash.
  abbrev pub Collision : Type 0
  Collision = (p q : Payload S A) × (p ≢ q) × (sha256 (dumps p) ≡ sha256 (dumps q))

  -- The last hash of a list of entries that follows a hash.
  abbrev end_hash : String → List (LedgerEntry S A) → String
  end_hash h entries = last_or h (map (λ e. e.current_ledger_hash) entries)

  verify_from_cons :
      (h : String) (e : LedgerEntry S A) (rest : List (LedgerEntry S A))
      → verify_from sha256 dumps h (e ∷ rest) ≡ true
      → (e.previous_ledger_hash ≡ h)
        × (e.current_ledger_hash ≡ hash sha256 dumps e)
        × (verify_from sha256 dumps e.current_ledger_hash rest ≡ true)
  unfolding verify_from
  verify_from_cons h e rest v =
      ground
        (arith, eq_iff e.previous_ledger_hash h, eq_iff e.current_ledger_hash (hash sha256 dumps e))

  verify_from-append :
      (h : String) (entries more : List (LedgerEntry S A))
      → verify_from sha256 dumps h entries ≡ true
      → verify_from sha256 dumps h (entries ++ more)
        ≡ verify_from sha256 dumps (end_hash h entries) more
  unfolding verify_from
  verify_from-append h [] more v = refl
  verify_from-append h (e ∷ rest) more v =
      ground (arith, verify_from_cons h e rest, verify_from-append e.current_ledger_hash rest more)

  verify_from-new :
      (previous entry_id : String) (created_at : ℕ) (evidence : Evidence S A)
      → verify_from sha256 dumps previous
          (new_entry sha256 dumps previous entry_id created_at evidence ∷ [])
        ≡ true
  unfolding verify_from new_entry
  verify_from-new previous entry_id created_at evidence = rw (eq_refl previous, eq_refl _) refl

  tip-snoc :
      (entries : List (LedgerEntry S A)) (e : LedgerEntry S A)
      → tip sha256 dumps (entries ++ e ∷ []) ≡ e.current_ledger_hash
  unfolding tip
  tip-snoc entries e = rw (map-append, last_or-append)

  -- An append keeps a ledger that verifies verifying, and adds exactly one entry, which names the
  -- hash of the last one and holds the evidence that was given.
  pub append-verify :
      (entries : List (LedgerEntry S A)) (entry_id : String) (created_at : ℕ)
      (evidence : Evidence S A)
      → verify sha256 dumps entries ≡ true
      → let (entries', entry) = append sha256 dumps entries entry_id created_at evidence in
        (verify sha256 dumps entries' ≡ true)
        × (entries' ≡ entries ++ entry ∷ [])
        × (entry.previous_ledger_hash ≡ tip sha256 dumps entries)
        × (tip sha256 dumps entries' ≡ entry.current_ledger_hash)
        × (entry.evidence_hash ≡ evidence.evidence_hash)
        × (entry.forward_action ≡ evidence.forward_action)
        × (entry.inverse_action ≡ evidence.inverse_action)
  unfolding append verify
  append-verify entries entry_id created_at evidence v = (
    rw (verify_from-append genesis_hash entries _ v)
        (verify_from-new _ entry_id created_at evidence),
    refl,
    refl,
    tip-snoc entries _,
    refl,
    refl,
    refl,
  )

  -- Entries with equal payloads and equal hashes are equal.
  rebuilt : Payload S A → String → LedgerEntry S A
  rebuilt p current = record {
    entry_id = p.entry_id;
    created_at = p.created_at;
    before_state = p.before_state;
    intended_state = p.intended_state;
    after_state = p.after_state;
    forward_action = p.forward_action;
    inverse_action = p.inverse_action;
    evidence_hash = p.evidence_hash;
    actor = p.actor;
    previous_ledger_hash = p.previous_ledger_hash;
    current_ledger_hash = current;
  }

  rebuilt-payload :
      (e f : LedgerEntry S A)
      → payload e ≡ payload f
      → e.current_ledger_hash ≡ f.current_ledger_hash
      → e ≡ f
  unfolding payload rebuilt
  rebuilt-payload e f p c = ap₂ rebuilt p c

  module _ (s : Discrete S) (a : Discrete A) where
    chains_agree :
        (h k : String) (es fs : List (LedgerEntry S A))
        → length es ≡ length fs
        → verify_from sha256 dumps h es ≡ true
        → verify_from sha256 dumps k fs ≡ true
        → end_hash h es ≡ end_hash k fs
        → ((h ≡ k) × (es ≡ fs)) ⊎ Collision
    unfolding hash payload
    chains_agree h k [] [] n v w t = inl (t, refl)
    chains_agree h k [] (f ∷ fs) n v w t = absurd (omega arith)
    chains_agree h k (e ∷ es) [] n v w t = absurd (omega arith)
    chains_agree h k (e ∷ es) (f ∷ fs) n v w t =
        let (e_previous, e_hash, e_rest) = verify_from_cons h e es v in
        let (f_previous, f_hash, f_rest) = verify_from_cons k f fs w in
        elim (chains_agree e.current_ledger_hash f.current_ledger_hash es fs (omega arith) e_rest
          f_rest t) [
            | inr collision ↦ inr collision
            | inl (same, rest) ↦ elim (Payload-discrete s a (payload e) (payload f)) [
              | yes p ↦ inl (
                sym e_previous ∙ ap (λ (x : Payload S A). x.previous_ledger_hash) p ∙ f_previous,
                ap₂ ◌∷◌ (rebuilt-payload e f p same) rest,
              )
              | no differ ↦ inr (payload e, payload f, differ, sym e_hash ∙ same ∙ f_hash)
            ]
          ]

    -- Two ledgers of one length that both verify and end in the same hash are the same in every
    -- field of every entry, or two different payloads with one hash are at hand.
    pub tampering_needs_collision :
        (es fs : List (LedgerEntry S A))
        → length es ≡ length fs
        → verify sha256 dumps es ≡ true
        → verify sha256 dumps fs ≡ true
        → tip sha256 dumps es ≡ tip sha256 dumps fs
        → (es ≡ fs) ⊎ Collision
    unfolding verify tip
    tampering_needs_collision es fs n v w t =
        elim (chains_agree genesis_hash genesis_hash es fs n v w t) [
          | inl (_, same) ↦ inl same
          | inr collision ↦ inr collision
        ]

  verify_from-take :
      (h : String) (n : ℕ) (entries : List (LedgerEntry S A))
      → verify_from sha256 dumps h entries ≡ true
      → verify_from sha256 dumps h (take n entries) ≡ true
  unfolding verify_from
  verify_from-take h zero entries v = refl
  verify_from-take h (suc n) [] v = refl
  verify_from-take h (suc n) (e ∷ rest) v =
      ground (arith, verify_from_cons h e rest, verify_from-take e.current_ledger_hash n rest)

  -- The chain alone does not show a truncation: whatever is cut off the end of a ledger that
  -- verifies, what is left verifies.
  verify-take :
      (n : ℕ) (entries : List (LedgerEntry S A))
      → verify sha256 dumps entries ≡ true
      → verify sha256 dumps (take n entries) ≡ true
  unfolding verify
  verify-take n entries v = verify_from-take genesis_hash n entries v
