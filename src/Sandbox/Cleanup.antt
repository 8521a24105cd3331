-- ===== src/Sandbox/Cleanup.antt =====
-- An evaluation leaves no index behind.
use ai_driven_autonomous_no.Prelude.{
  ◌≡◌, refl, String, true, false, not, Option, none, some, any, str_eq, if_cases,
}
use ai_driven_autonomous_no.Actions.{CreateIndexAction}
use ai_driven_autonomous_no.Adapter.{DatabaseAdapter, Namespace, IsCoherent}
use ai_driven_autonomous_no.Production.{index_spec}
use ai_driven_autonomous_no.Sandbox.{
  ResourceBudget, Evaluation, Callbacks, is_isolated, exceeds, clean_up, measure, within_budget,
  when_copied, evaluate,
}

module _ {W : Type 0} (adapter : DatabaseAdapter W) (calls : Callbacks W)
    (coherent : IsCoherent adapter) (candidate : CreateIndexAction) where
  abbrev pub place : Namespace
  place = record { collection = candidate.collection }

  -- The indexes of the candidate's collection are those of the world `w`.
  abbrev pub IsClean : W → W × Evaluation → Type 0
  IsClean w r = adapter.list_indexes r.0 place ≡ adapter.list_indexes w place

  measure-IsClean :
      (w : W)
      → any (λ i. str_eq i.name candidate.index_name) (adapter.list_indexes w place) ≡ false
      → (adapter.create_index w place (index_spec candidate)).1 ≡ true
      → ((v : W) → (calls.benchmark v).0 ≡ v)
      → let made = (adapter.create_index w place (index_spec candidate)).0 in
        (adapter.drop_index made place candidate.index_name).1 ≡ true
        → IsClean w (measure adapter calls w candidate)
  unfolding measure clean_up index_spec
  measure-IsClean w absent created reads dropped =
      let made = (adapter.create_index w place (index_spec candidate)).0 in
      rw (created, reads made)
        (coherent.drop_create w place (index_spec candidate) absent created dropped)

  within_budget-IsClean :
      (w : W) (budget : ResourceBudget)
      → IsClean w (measure adapter calls w candidate)
      → (o : Option _) (s : _) → IsClean w (within_budget adapter calls w candidate budget s o)
  within_budget-IsClean w budget h none s = refl
  within_budget-IsClean w budget h (some estimate) s =
      if_cases (IsClean w) (exceeds s budget estimate) (λ over. refl) (λ fits. h)

  when_copied-IsClean :
      (w : W) (budget : ResourceBudget)
      → IsClean w (measure adapter calls w candidate)
      → (o : Option _) → IsClean w (when_copied adapter calls w candidate budget o)
  when_copied-IsClean w budget h none = refl
  when_copied-IsClean w budget h (some s) =
      if_cases (IsClean w) (not (is_isolated s)) (λ shared. refl)
        (λ isolated. within_budget-IsClean w budget h _ s)

  -- On a coherent adapter, where the copy of the target has no index of the candidate's name, the
  -- creation and the drop of the candidate return, and a benchmark does not write the target: an
  -- evaluation of two different targets leaves the indexes of the collection as they were in the copy,
  -- whichever check rejects it and whatever the estimate, the benchmark and the admission raise.
  pub evaluate-IsClean :
      (w : W) (monitored evaluation : String) (budget : ResourceBudget)
      → str_eq monitored evaluation ≡ false
      → any
          (λ i. str_eq i.name candidate.index_name)
          (adapter.list_indexes (calls.copy_and_verify w).0 place)
        ≡ false
      → (adapter.create_index (calls.copy_and_verify w).0 place (index_spec candidate)).1 ≡ true
      → (adapter.drop_index
          (adapter.create_index (calls.copy_and_verify w).0 place (index_spec candidate)).0
          place
          candidate.index_name).1
        ≡ true
      → ((v : W) → (calls.benchmark v).0 ≡ v)
      → IsClean
          (calls.copy_and_verify w).0
          (evaluate adapter calls w monitored evaluation candidate budget)
  unfolding evaluate
  evaluate-IsClean w monitored evaluation budget differ absent created dropped reads =
      let (copied, state) = calls.copy_and_verify w in
      rw differ (
        when_copied-IsClean copied budget (measure-IsClean copied absent created reads dropped)
          state)
