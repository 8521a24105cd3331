-- ===== src/Production/Rollback/Safety.antt =====
-- A rollback touches only what the ledger owns, and only while the target has not drifted.
use ai_driven_autonomous_no.Prelude.{
  ℕ, ◌≡◌, refl, sym, subst, ◌⊎◌, inl, inr, String, Bool, true, false, not, Option, none, some, List,
  [], ◌∷◌, ◌++◌, any, str_eq, arith, if_cases, not-false,
}
use ai_driven_autonomous_no.Actions.{CreateIndexAction, inverse_create}
use ai_driven_autonomous_no.Ledger.{append, verify}
use ai_driven_autonomous_no.Ledger.Chain.{append-verify}
use ai_driven_autonomous_no.Adapter.{DatabaseAdapter}
use ai_driven_autonomous_no.Production.{
  Plant, Canonical, Entry, LedgerAction, index_state, index_action, rolled_back_index, applied,
  current_state,
}
use ai_driven_autonomous_no.Production.Rollback.{
  RollbackReason, ledger_ownership_missing, RollbackRequest, RollbackOutcome, rolled_back,
  rollback_blocked, rollback_raised, resulting_state_mismatch, met, entry_with_id, verify_ownership,
  remove_owned, remove_checked, when_owned, when_found, rollback,
}
use ai_driven_autonomous_no.Production.Rollback.Ownership.{IsOwned, verify_ownership-IsOwned}

module _ {W : Type 0} (adapter : DatabaseAdapter W) (c : Canonical) where
  abbrev pub Verifies : List Entry → Type 0
  Verifies ledger = verify c.sha256 c.dump_entry ledger ≡ true

  -- The drop of the index of an action in a world, and whether it returned.
  abbrev pub drop_of : CreateIndexAction → W → W × Bool
  drop_of a w = adapter.drop_index w (record { collection = a.collection }) a.index_name

  abbrev pub still_there : CreateIndexAction → W → Bool
  still_there a w =
      any (λ i. str_eq i.name a.index_name)
        (current_state adapter w a.database a.collection).indexes

  -- The target is the one that the action met with the index of the entry dropped, and nothing else done
  -- to it; the approvals are as they were.
  abbrev pub OnlyDrops : Plant W → CreateIndexAction → Bool → Plant W → Type 0
  OnlyDrops p a returned q =
      (q.world ≡ (drop_of a p.world).0)
      × ((drop_of a p.world).1 ≡ returned)
      × (q.approvals ≡ p.approvals)

  -- What an owned rollback leaves of the plant that it acted on, by its outcome.
  abbrev pub Leaves : Plant W → Entry → CreateIndexAction → Plant W × RollbackOutcome → Type 0
  Leaves p entry a (q, rolled_back written) =
      OnlyDrops p a true q
      × (still_there a q.world ≡ false)
      × (q.ledger ≡ p.ledger ++ written ∷ [])
      × Verifies q.ledger
      × (written.before_state ≡ index_state (current_state adapter p.world a.database a.collection))
      × (written.after_state ≡ index_state (current_state adapter q.world a.database a.collection))
      × (written.forward_action ≡ rolled_back_index (inverse_create a))
      × (written.inverse_action ≡ entry.forward_action)
      × (written.evidence_hash ≡ entry.evidence_hash)
  Leaves p entry a (q, rollback_blocked reasons) =
      OnlyDrops p a true q
      × (still_there a q.world ≡ true)
      × (reasons ≡ resulting_state_mismatch ∷ [])
      × (q.ledger ≡ p.ledger)
  Leaves p entry a (q, rollback_raised) = OnlyDrops p a false q × (q.ledger ≡ p.ledger)

  not-true : (b : Bool) → not b ≡ true → b ≡ false
  not-true b h = ground arith

  remove_owned-Leaves :
      (p : Plant W) (id : String) (at : ℕ) (actor : String) (entry : Entry) (a : CreateIndexAction)
      → Verifies p.ledger
      → Leaves p entry a (remove_owned adapter c p id at actor entry entry.forward_action a)
  unfolding remove_owned append
  remove_owned-Leaves p id at actor entry a v =
      let (world, returned) =
        adapter.drop_index p.world (record { collection = a.collection }) a.index_name in
      let before = current_state adapter p.world a.database a.collection in
      let after = current_state adapter world a.database a.collection in
      if_cases (Leaves p entry a) (not returned)
        (λ raised. ((refl, not-true returned raised, refl), refl))
        (λ done.
          let dropped : OnlyDrops p a true (record p { world = world }) =
            (refl, not-false returned done, refl) in
          if_cases (Leaves p entry a) (any (λ i. str_eq i.name a.index_name) after.indexes)
            (λ still. (dropped, still, refl, refl))
            (λ absent. (
              (refl, not-false returned done, refl),
              absent,
              refl,
              (append-verify c.sha256 c.dump_entry p.ledger id at
                  (record {
                    before_state = index_state before;
                    intended_state = index_state after;
                    after_state = index_state after;
                    forward_action = rolled_back_index (inverse_create a);
                    inverse_action = entry.forward_action;
                    evidence_hash = entry.evidence_hash;
                    actor = actor;
                  })
                  v).0,
              refl,
              refl,
              refl,
              refl,
              refl,
            )))

  -- A refusal that wrote nothing.
  pub record IsRefused (p : Plant W) (r : Plant W × RollbackOutcome) : Type 0 where
    pub same_plant : r.0 ≡ p
    pub reason : RollbackReason
    pub more : List RollbackReason
    pub is_blocked : r.1 ≡ rollback_blocked (reason ∷ more)

  abbrev pub IsSafe : (W → W) → Plant W → RollbackRequest → Plant W × RollbackOutcome → Type 0
  IsSafe between p request r =
      IsRefused p r
      ⊎ ((entry : Entry) × (a : CreateIndexAction) × (entry_with_id request.applied_ledger_entry_id
              p.ledger
            ≡ some entry)
          × IsOwned adapter c p.world request.target_id entry a
          × Leaves (met between p) entry a r)

  remove_checked-owned :
      (p : Plant W) (id : String) (at : ℕ) (actor : String) (entry : Entry) (forward : LedgerAction)
      (target fingerprint : String) (a : CreateIndexAction)
      → forward ≡ index_action applied target fingerprint a
      → remove_checked adapter c p id at actor entry forward
        ≡ remove_owned adapter c p id at actor entry forward a
  unfolding remove_checked
  remove_checked-owned p id at actor entry forward target fingerprint a h = rw h refl

  when_owned-IsSafe :
      (between : W → W) (p : Plant W) (id : String) (at : ℕ) (request : RollbackRequest)
      (entry : Entry) (reasons : List RollbackReason)
      → entry_with_id request.applied_ledger_entry_id p.ledger ≡ some entry
      → verify_ownership adapter c p.world entry entry.forward_action request.target_id ≡ reasons
      → Verifies p.ledger
      → IsSafe between p request (when_owned adapter c between p id at request.actor entry reasons)
  when_owned-IsSafe between p id at request entry (reason ∷ more) found checks v =
      inl (record { same_plant = refl; reason = reason; more = more; is_blocked = refl })
  when_owned-IsSafe between p id at request entry [] found checks v =
      let (a, fingerprint, was, owned) =
        verify_ownership-IsOwned adapter c p.world entry entry.forward_action request.target_id refl
          checks in
      inr (
        entry,
        a,
        found,
        owned,
        subst (Leaves (met between p) entry a)
            (sym (
              remove_checked-owned (met between p) id at request.actor entry entry.forward_action
                request.target_id fingerprint a was))
            (remove_owned-Leaves (met between p) id at request.actor entry a v),
      )

  when_found-IsSafe :
      (between : W → W) (p : Plant W) (id : String) (at : ℕ) (request : RollbackRequest)
      (o : Option Entry)
      → entry_with_id request.applied_ledger_entry_id p.ledger ≡ o
      → Verifies p.ledger
      → IsSafe between p request (when_found adapter c between p id at request o)
  when_found-IsSafe between p id at request none absent v = inl (record {
    same_plant = refl;
    reason = ledger_ownership_missing;
    more = [];
    is_blocked = refl;
  })
  when_found-IsSafe between p id at request (some entry) found v =
      when_owned-IsSafe between p id at request entry _ found refl v

  -- From a ledger that verifies, a rollback either is blocked with a reason and changes nothing, or at its
  -- checks the requested id is of an entry that owns its index: it was applied to that target, and the
  -- index is there with its keys and its fingerprint, in a collection without drift. Then, whatever other
  -- clients did to the target since the checks, the rollback drops that index from what it finds and
  -- does nothing else to the target. If the drop returned and the index is gone, the ledger has grown by
  -- an entry with the states before and after, which names the drop, inverts to the applied action,
  -- carries its evidence and verifies. If the index is still there the rollback is blocked with
  -- RESULTING_STATE_MISMATCH, and if the drop raised it raises; in both cases the ledger is as it was.
  pub rollback-IsSafe :
      (between : W → W) (p : Plant W) (id : String) (at : ℕ) (request : RollbackRequest)
      → Verifies p.ledger
      → IsSafe between p request (rollback adapter c between p id at request)
  unfolding rollback
  rollback-IsSafe between p id at request v = when_found-IsSafe between p id at request _ refl v
