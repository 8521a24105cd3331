-- ===== src/Recovery/Examples.antt =====
-- A mutation that adds one, crashed at each checkpoint and tried again.
use ai_driven_autonomous_no.Prelude.{ℕ, suc, refl, inl, Bool, true, none, some, [], ◌∷◌, ltb}
use ai_driven_autonomous_no.Recovery.{Site, after_production_mutation, before_ledger_completion}
use ai_driven_autonomous_no.Recovery.Once.{IsOnce, recover_all, recover_all-IsOnce}

abbrev site : Site ℕ
site = record {
  world = 4;
  journal = record { checkpoints = []; completed_production_actions = [] };
}

abbrev mutate : ℕ → ℕ × Bool
mutate v = (suc v, true)

recover_all-IsOnce_example :
    IsOnce
      (ltb 4)
      mutate
      4
      "a1"
      refl
      (recover_all
        (ltb 4)
        mutate
        site
        "a1"
        (some after_production_mutation ∷ some before_ledger_completion ∷ none ∷ none ∷ [])).world
recover_all-IsOnce_example =
    recover_all-IsOnce (ltb 4) mutate 4 "a1" refl site
      (some after_production_mutation ∷ some before_ledger_completion ∷ none ∷ none ∷ []) (inl refl)
