-- ===== src/Monitoring/Windows.antt =====
-- The tests of backend/app/monitoring/post_deployment.py over the windows, said of the windows: a
-- maximum that is exceeded, a test that some window passes, and a run of windows that all pass one.
use ai_driven_autonomous_no.Prelude.{
  ◌≡◌, refl, subst, ◌↔◌, ◌⊎◌, inl, inr, ℕ, zero, suc, ◌-◌, ◌≤◌, ◌<◌, max, Bool, true, false, ◌||◌,
  some, none, List, [], ◌∷◌, All, Any, any, map, filter, length, leb, ltb, arith, leb→le,
}
use mathlib.Core.Option.{some-injective}
use ai_driven_autonomous_no.Monitoring.Decision.{drop, last_items, highest, highest_from}

pub ltb_iff : (a b : ℕ) → (ltb a b ≡ true) ↔ (a < b)
ltb_iff a b = ((λ h. ground arith), λ h. ground arith)

pub leb_iff : (a b : ℕ) → (leb a b ≡ true) ↔ (a ≤ b)
leb_iff a b = (leb→le a b, λ h. ground arith)

pub or_iff : (a b : Bool) → ((a || b) ≡ true) ↔ ((a ≡ true) ⊎ (b ≡ true))
or_iff true b = ((λ h. inl refl), λ h. refl)
or_iff false b = ((λ h. inr h), elim [ inl h ↦ cc | inr h ↦ h ])

module _ {A : Type 0} where
  pub any-Any :
      (test : A → Bool) (P : A → Type 0)
      → ((x : A) → (test x ≡ true) ↔ P x)
      → (xs : List A) → (any test xs ≡ true) ↔ Any P xs
  any-Any test P each [] = ((λ h. cc), λ h. elim h [ ])
  any-Any test P each (x ∷ xs) =
      let this = each x in
      let rest = any-Any test P each xs in
      let either = or_iff (test x) (any test xs) in
      (
        (λ h. elim (either.0 h) [ inl t ↦ inl (this.0 t) | inr r ↦ inr (rest.0 r) ]),
        elim [ inl p ↦ either.1 (inl (this.1 p)) | inr r ↦ either.1 (inr (rest.1 r)) ],
      )

  length-drop : (k : ℕ) (xs : List A) → length (drop k xs) ≡ length xs - k
  length-drop zero xs = omega arith
  length-drop (suc k) [] = omega arith
  length-drop (suc k) (x ∷ xs) = omega (arith, length-drop k xs)

  length-filter : (test : A → Bool) (xs : List A) → length (filter test xs) ≤ length xs
  length-filter test [] = omega arith
  length-filter test (x ∷ xs) = ground (arith, length-filter test xs)

  -- A filter keeps as many as there are exactly where every element passes.
  filter-All :
      (test : A → Bool) (xs : List A)
      → (length xs ≤ length (filter test xs)) ↔ All (λ x. test x ≡ true) xs
  filter-All test [] = ((λ h. tt), λ h. omega arith)
  filter-All test (x ∷ xs) =
      let (there, back) = filter-All test xs in
      let fewer = length-filter test xs in
      (
        (λ h.
            let passes : test x ≡ true = ground (arith, fewer, h) in
            (passes, there (ground (arith, passes, h)))),
        λ h. ground (arith, h.0, back h.1),
      )

  -- Counting k passes among the last k elements says that there are k elements, and that the last k
  -- all pass.
  pub passes_in_last :
      (test : A → Bool) (k : ℕ) (xs : List A)
      → (leb k (length (filter test (last_items k xs))) ≡ true)
        ↔ ((k ≤ length xs) × All (λ x. test x ≡ true) (last_items k xs))
  passes_in_last test k xs =
      let kept = length-filter test (last_items k xs) in
      let size = length-drop (length xs - k) xs in
      let full = filter-All test (last_items k xs) in
      (
        (λ h.
            let enough = leb→le k _ h in
            (omega (arith, enough, kept, size), full.0 (omega (arith, enough, kept, size)))),
        λ h. (leb_iff k _).1 (omega (arith, h.0, full.1 h.1, size)),
      )

  -- A count above the highest one is above every one.
  highest_from_below :
      (f : A → ℕ) (m e : ℕ) (xs : List A)
      → (highest_from m (map f xs) < e) ↔ ((m < e) × All (λ x. f x < e) xs)
  highest_from_below f m e [] = ((λ h. (h, tt)), λ h. h.0)
  highest_from_below f m e (x ∷ xs) =
      let (there, back) = highest_from_below f (max m (f x)) e xs in
      (
        (λ h. (omega (arith, (there h).0), (omega (arith, (there h).0), (there h).1))),
        λ h. back (omega (arith, h.0, h.1.0), h.1.1),
      )

  pub highest_below :
      (f : A → ℕ) (m e : ℕ) (xs : List A)
      → highest (map f xs) ≡ some m
      → (m < e) ↔ All (λ x. f x < e) xs
  highest_below f m e [] h = cc
  highest_below f m e (x ∷ xs) h =
      subst (λ m. (m < e) ↔ All (λ x. f x < e) (x ∷ xs)) (some-injective _ _ h)
        (highest_from_below f (f x) e xs)

  pub highest_some : (f : A → ℕ) (xs : List A) → 1 ≤ length xs → ¬ (highest (map f xs) ≡ none)
  highest_some f [] h = λ e. omega (arith, h)
  highest_some f (x ∷ xs) h = λ e. cc
