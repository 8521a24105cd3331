-- ===== src/Prelude/Sorting.antt =====
-- sorted(xs): insertion by a Boolean order. Python's sort is stable, as this one is.
use mathlib.Core.Path.{◌≡◌, refl, ap, ap₂, ◌∙◌}
use mathlib.Core.Bool.{Bool, true, ◌||◌}
use mathlib.Core.List.{List, [], ◌∷◌, Perm, Permᴰ}
use mathlib.Core.List.Perm
use mathlib.Core.Logic.{◌⊎◌, inl, inr, ∥∥₁_elim}
use native.Mathlib.Omega.{arith}
use ai_driven_autonomous_no.Prelude.Lists.{All, any}
use ai_driven_autonomous_no.Prelude.Tests.{if◌then◌else◌, if_cases, Bool-cases}

module _ {ℓ} {A : Type ℓ} (le : A → A → Bool) where
  unfoldable pub insert_sorted : A → List A → List A
  insert_sorted x [] = x ∷ []
  insert_sorted x (y ∷ ys) =
      let rest = insert_sorted x ys in if le x y then x ∷ y ∷ ys else y ∷ rest

  unfoldable pub sorted : List A → List A
  unfolding insert_sorted
  sorted [] = []
  sorted (x ∷ xs) = insert_sorted x (sorted xs)

  insert_sorted-perm : (x : A) (ys : List A) → Perm (insert_sorted x ys) (x ∷ ys)
  unfolding insert_sorted
  insert_sorted-perm x [] = Perm.refl (x ∷ [])
  insert_sorted-perm x (y ∷ ys) = elim (Bool-cases (le x y)) [
    | inl e ↦ rw e (Perm.refl (x ∷ y ∷ ys))
    | inr e ↦ rw e (Perm.trans (Perm.cons y (insert_sorted-perm x ys)) (Perm.swap x y ys))
  ]

  pub sorted-perm : (xs : List A) → Perm (sorted xs) xs
  unfolding sorted
  sorted-perm [] = Perm.refl []
  sorted-perm (x ∷ xs) =
      Perm.trans (insert_sorted-perm x (sorted xs)) (Perm.cons x (sorted-perm xs))

  All-insert_sorted {κ} :
      (P : A → Type κ) (x : A) (ys : List A) → P x → All P ys → All P (insert_sorted x ys)
  unfolding insert_sorted
  All-insert_sorted P x [] p h = (p, tt)
  All-insert_sorted P x (y ∷ ys) p h =
      if_cases (All P) (le x y) (λ first. (p, h)) (λ later. (h.0, All-insert_sorted P x ys p h.1))

  pub All-sorted {κ} : (P : A → Type κ) (xs : List A) → All P xs → All P (sorted xs)
  unfolding sorted
  All-sorted P [] h = tt
  All-sorted P (x ∷ xs) h = All-insert_sorted P x (sorted xs) h.0 (All-sorted P xs h.1)

  -- With a total, transitive and antisymmetric order, insertions commute.
  module _ (total : (x y : A) → (le x y ≡ true) ⊎ (le y x ≡ true))
      (trans : (x y z : A) → le x y ≡ true → le y z ≡ true → le x z ≡ true)
      (antisymm : (x y : A) → le x y ≡ true → le y x ≡ true → x ≡ y) where
    pub insert_sorted_comm :
        (x y : A) (zs : List A)
        → insert_sorted x (insert_sorted y zs) ≡ insert_sorted y (insert_sorted x zs)
    unfolding insert_sorted
    insert_sorted_comm x y [] = ground (arith, total x y, antisymm x y)
    insert_sorted_comm x y (z ∷ zs) = ground (
      arith,
      insert_sorted_comm x y zs,
      total x y,
      total x z,
      total y z,
      antisymm x y,
      trans x y z,
      trans y x z,
    )

  -- A search finds in the sorted list what it finds in the list.
  any-insert_sorted :
      (test : A → Bool) (x : A) (ys : List A)
      → any test (insert_sorted x ys) ≡ (test x || any test ys)
  unfolding insert_sorted
  any-insert_sorted test x [] = refl
  any-insert_sorted test x (y ∷ ys) = ground (arith, any-insert_sorted test x ys)

  pub any-sorted : (test : A → Bool) (xs : List A) → any test (sorted xs) ≡ any test xs
  unfolding sorted
  any-sorted test [] = refl
  any-sorted test (x ∷ xs) =
      any-insert_sorted test x (sorted xs) ∙ ap (λ b. test x || b) (any-sorted test xs)

module _ {ℓ} {A : Type ℓ} (le : A → A → Bool)
    (total : (x y : A) → (le x y ≡ true) ⊎ (le y x ≡ true))
    (trans : (x y z : A) → le x y ≡ true → le y z ≡ true → le x z ≡ true)
    (antisymm : (x y : A) → le x y ≡ true → le y x ≡ true → x ≡ y) where
  sorted-permᴰ : {xs ys : List A} → Permᴰ xs ys → sorted le xs ≡ sorted le ys
  unfolding sorted
  sorted-permᴰ Permᴰ.nil = refl
  sorted-permᴰ (Permᴰ.cons e p) = ap₂ (insert_sorted le) e (sorted-permᴰ p)
  sorted-permᴰ (Permᴰ.swap {a} {b} {a'} {b'} {l} e f) =
      insert_sorted_comm le total trans antisymm a b (sorted le l)
      ∙ ap₂ (λ x y. insert_sorted le x (insert_sorted le y (sorted le l))) f e
  sorted-permᴰ (Permᴰ.trans p q) = sorted-permᴰ p ∙ sorted-permᴰ q

  -- The order of the list is forgotten.
  pub sorted-eq_of_perm : IsSet A → {xs ys : List A} → Perm xs ys → sorted le xs ≡ sorted le ys
  sorted-eq_of_perm set p = ∥∥₁_elim p (hlevel set) sorted-permᴰ
