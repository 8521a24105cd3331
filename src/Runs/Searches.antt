-- ===== src/Runs/Searches.antt =====
-- Searches in a plan, and in the requests of its candidates.
use ai_driven_autonomous_no.Prelude.{
  ◌≡◌, refl, inl, inr, String, Bool, true, ◌&&◌, some, List, [], ◌∷◌, map, any, all, and_true, find,
  filter, str_eq, arith, Bool-cases, eq_iff, eq_refl,
}
use ai_driven_autonomous_no.Prelude.Dicts.{Dict, get}

-- Looking for a member among the admitted ones finds the first that is admitted.
pub any-filter :
    (test : String → Bool) (w : String) (xs : List String)
    → any (str_eq w) (filter test xs) ≡ (test w && any (str_eq w) xs)
any-filter test w [] = ground arith
any-filter test w (x ∷ xs) = elim (Bool-cases (str_eq w x)) [
  | inl same ↦
      let p : w ≡ x = (eq_iff w x).0 same in
      elim (Bool-cases (test x)) [
        | inl e ↦ rw (p, e, eq_refl x) refl
        | inr e ↦ rw (p, e, any-filter test x xs, e) refl
      ]
  | inr other ↦ ground (arith, any-filter test w xs)
]

pub find_first :
    (test : String → Bool) (ranked xs : List String)
    → all (λ w. any (str_eq w) ranked) xs ≡ true
    → find (λ w. any (str_eq w) (filter test ranked)) xs ≡ find test xs
find_first test ranked [] h = refl
find_first test ranked (x ∷ xs) h =
    let (present, others) =
      and_true (any (str_eq x) ranked) (all (λ w. any (str_eq w) ranked) xs) h in
    rw (any-filter test x ranked, present)
      (elim (Bool-cases (test x)) [
        | inl e ↦ rw e refl
        | inr e ↦ rw e (find_first test ranked xs others)
      ])

pub all_members :
    (others ranked : List String)
    → ((w : String) → any (str_eq w) ranked ≡ true → any (str_eq w) others ≡ true)
    → all (λ w. any (str_eq w) others) ranked ≡ true
all_members others [] h = refl
all_members others (x ∷ xs) h =
    rw (h x (rw (eq_refl x) refl)) (all_members others xs (λ w e. h w (ground arith)))

pub find-test :
    (test : String → Bool) (xs : List String) (x : String) → find test xs ≡ some x → test x ≡ true
find-test test [] x h = cc
find-test test (y ∷ ys) x h = elim (Bool-cases (test y)) [
  | inl e ↦ let same : y ≡ x = ground arith in rw (← same) e
  | inr e ↦ find-test test ys x (ground arith)
]

pub request_of :
    {A : Type 0} (rs : Dict A) (id : String)
    → any (str_eq id) (map (λ e. e.0) rs) ≡ true
    → (r : A) × (get rs id ≡ some r)
unfolding get
request_of [] id h = cc
request_of ((k, r) ∷ rs) id h = elim (Bool-cases (str_eq k id)) [
  | inl e ↦ (r, rw e refl)
  | inr e ↦ let (q, p) = request_of rs id (ground (arith, eq_iff k id, eq_iff id k)) in (q, rw e p)
]
