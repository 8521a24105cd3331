-- ===== src/Runs/Cover.antt =====
-- An exact cover of a list of ids is a permutation of it; used for the rankings of a model.
use mathlib.Core.List.{Perm}
use mathlib.Core.List.Perm
use ai_driven_autonomous_no.Prelude.{
  suc, ◌≡◌, refl, inl, inr, ◌≤◌, ◌||◌, String, true, false, List, [], ◌∷◌, any, all, length, str_eq,
  eq_iff, arith, Bool-cases, and_true,
}
use ai_driven_autonomous_no.Runs.{same_set}
use ai_driven_autonomous_no.Runs.Selection.{distinct, is_exact_cover}

length-distinct-le : (xs : List String) → length (distinct xs) ≤ length xs
unfolding distinct
length-distinct-le [] = omega arith
length-distinct-le (x ∷ xs) = ground (arith, length-distinct-le xs)

-- A list of ids with one occurrence of a member taken out.
record Taken (x : String) (ys : List String) : Type 0 where
  pub left : List String
  pub permutes : Perm ys (x ∷ left)
  pub shorter : length ys ≡ suc (length left)
  pub members : (w : String) → any (str_eq w) ys ≡ (str_eq w x || any (str_eq w) left)

take_out : (x : String) (ys : List String) → any (str_eq x) ys ≡ true → Taken x ys
take_out x [] h = cc
take_out x (y ∷ ys) h = elim (Bool-cases (str_eq x y)) [
  | inl e ↦
      let same : x ≡ y = (eq_iff x y).0 e in
      rw same
        (record { left = ys; permutes = Perm.refl (y ∷ ys); shorter = refl; members = λ w. refl })
  | inr e ↦
      let t = take_out x ys (ground arith) in
      record {
        left = y ∷ t.left;
        permutes = Perm.trans (Perm.cons y t.permutes) (Perm.swap x y t.left);
        shorter = omega (arith, t.shorter);
        members = λ w. ground (arith, t.members w);
      }
]

others_left :
    (x : String) (ys left : List String)
    → ((w : String) → any (str_eq w) ys ≡ (str_eq w x || any (str_eq w) left))
    → (xs : List String) → any (str_eq x) xs ≡ false
    → all (λ w. any (str_eq w) ys) xs ≡ true
    → all (λ w. any (str_eq w) left) xs ≡ true
others_left x ys left members [] absent h = refl
others_left x ys left members (w ∷ xs) absent h =
    ground (arith, members w, eq_iff x w, eq_iff w x, others_left x ys left members xs)

no_repeats :
    (x : String) (xs : List String)
    → length (distinct (x ∷ xs)) ≡ length (x ∷ xs)
    → (any (str_eq x) xs ≡ false) × (length (distinct xs) ≡ length xs)
unfolding distinct
no_repeats x xs h = elim (Bool-cases (any (str_eq x) xs)) [
  | inl e ↦ absurd (ground (arith, length-distinct-le xs))
  | inr e ↦ (e, ground arith)
]

covering-Perm :
    (xs ys : List String)
    → length (distinct xs) ≡ length xs
    → length xs ≡ length ys
    → all (λ x. any (str_eq x) ys) xs ≡ true
    → Perm xs ys
covering-Perm [] [] single same h = Perm.refl []
covering-Perm [] (y ∷ ys) single same h = absurd (omega (arith, same))
covering-Perm (x ∷ xs) ys single same h =
    let (present, rest) = and_true (any (str_eq x) ys) (all (λ w. any (str_eq w) ys) xs) h in
    let t = take_out x ys present in
    let (absent, distinct_rest) = no_repeats x xs single in
    Perm.trans
      (Perm.cons x (
        covering-Perm xs t.left distinct_rest (omega (arith, same, t.shorter))
          (others_left x ys t.left t.members xs absent rest)))
      (Perm.symm t.permutes)

pub is_exact_cover-Perm :
    (received expected : List String)
    → is_exact_cover received expected ≡ true
    → Perm received expected
unfolding is_exact_cover same_set
is_exact_cover-Perm received expected h =
    covering-Perm received expected (ground arith) (ground arith) (ground arith)

pub covered_by :
    (xs ys : List String) → same_set xs ys ≡ true → all (λ y. any (str_eq y) xs) ys ≡ true
unfolding same_set
covered_by xs ys h = ground arith
