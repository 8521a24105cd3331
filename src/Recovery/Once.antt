-- ===== src/Recovery/Once.antt =====
-- A mutation is applied at most once, however often the worker crashes and tries again.
use ai_driven_autonomous_no.Prelude.{
  ◌≡◌, refl, sym, ap, ◌∙◌, subst, ◌⊎◌, inl, inr, String, Bool, true, false, Option, List, [], ◌∷◌,
  if◌then◌else◌, if_cases,
}
use ai_driven_autonomous_no.Recovery.{
  CrashPoint, is_injected, Recovered, Site, checkpoint, is_completed, finish_recovery,
  recover_production_mutation, before_production_mutation, after_production_mutation,
  before_ledger_completion,
}

module _ {W : Type 0} (has_effect : W → Bool) (mutate : W → W × Bool) where
  -- One attempt for each entry, with the crash that is injected into it.
  abbrev pub recover_all : Site W → String → List (Option CrashPoint) → Site W
  recover_all s action_id [] = s
  recover_all s action_id (inject_at ∷ rest) =
      recover_all (recover_production_mutation has_effect mutate inject_at s action_id).0 action_id
        rest

  finish_recovery-world :
      (inject_at : Option CrashPoint) (s : Site W) (action_id : String)
      → (finish_recovery has_effect mutate inject_at s action_id).0.world ≡ s.world
  unfolding finish_recovery checkpoint
  finish_recovery-world inject_at s action_id =
      let same : Site W × Recovered → Type 0 = λ r. r.0.world ≡ s.world in
      if_cases same (if is_injected inject_at after_production_mutation then false else true)
        (λ a.
          if_cases same (if is_injected inject_at before_ledger_completion then false else true)
            (λ b. refl) (λ b. refl))
        (λ a. refl)

  module _ (w : W) (action_id : String) (works : has_effect (mutate w).0 ≡ true) where
    abbrev pub IsOnce : W → Type 0
    IsOnce v = (v ≡ w) ⊎ (v ≡ (mutate w).0)

    step :
        (inject_at : Option CrashPoint) (s : Site W)
        → IsOnce s.world
        → IsOnce (recover_production_mutation has_effect mutate inject_at s action_id).0.world
    unfolding recover_production_mutation checkpoint
    step inject_at s once =
        let P : Site W × Recovered → Type 0 = λ r. IsOnce r.0.world in
        if_cases P (is_completed s.journal action_id) (λ done. once)
          (λ pending.
            if_cases P (if is_injected inject_at before_production_mutation then false else true)
              (λ passed.
                if_cases P (has_effect s.world)
                  (λ seen. subst IsOnce (sym (finish_recovery-world inject_at _ action_id)) once)
                  (λ unseen.
                    let at_start : s.world ≡ w = elim once [
                      | inl here ↦ here
                      | inr there ↦ absurd (no there unseen)
                    ] in
                    let changed : (mutate s.world).0 ≡ (mutate w).0 =
                      ap (λ v. (mutate v).0) at_start in
                    if_cases P (mutate s.world).1
                      (λ applied.
                        subst IsOnce (sym (finish_recovery-world inject_at _ action_id))
                          (inr changed))
                      (λ raised. inr changed)))
              (λ crashed. once))
      where
        no : s.world ≡ (mutate w).0 → has_effect s.world ≡ false → ⊥
        no there unseen = let e : has_effect s.world ≡ true = ap has_effect there ∙ works in cc

    -- Where the mutation of `w` has the effect that is observed, any attempts from `w`, with any injected
    -- crashes, leave the target as it was or as one mutation leaves it.
    pub recover_all-IsOnce :
        (s : Site W) (attempts : List (Option CrashPoint))
        → IsOnce s.world
        → IsOnce (recover_all s action_id attempts).world
    recover_all-IsOnce s [] once = once
    recover_all-IsOnce s (inject_at ∷ rest) once =
        recover_all-IsOnce (recover_production_mutation has_effect mutate inject_at s action_id).0
          rest (step inject_at s once)
