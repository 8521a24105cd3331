-- ===== src/Prelude/Dicts.antt =====
-- Python's `dict` with text keys: an association list in insertion order. An assignment to a key
-- that is there writes every entry under it, and to a new key appends one.
use mathlib.Core.Path.{◌≡◌, refl}
use mathlib.Core.Bool.{Bool, true, false, ◌||◌}
use mathlib.Core.Option.{Option, none, some}
use mathlib.Core.List.{List, [], ◌∷◌, ◌++◌, map}
use Prim.Native.String.{String}
use native.Mathlib.Omega.{arith}
use text.Mathlib.Text.{◌==◌ as str_eq}
use text.Mathlib.TextEquality.{eq_iff}
use text.Mathlib.TextPositions.{eq_refl}
use ai_driven_autonomous_no.Prelude.Tests.{if◌then◌else◌, Bool-cases}
use ai_driven_autonomous_no.Prelude.Lists.{All, All-append}
use mathlib.Core.Logic.{inl, inr}

abbrev pub Dict {ℓ} : Type ℓ → Type ℓ
Dict V = List (String × V)

module _ {ℓ} {V : Type ℓ} where
  -- d.get(k)
  unfoldable pub get : Dict V → String → Option V
  get [] k = none
  get ((j, v) ∷ d) k = if str_eq j k then some v else get d k

  -- k in d
  unfoldable pub has : Dict V → String → Bool
  has [] k = false
  has ((j, v) ∷ d) k = str_eq j k || has d k

  unfoldable pub overwrite : String → V → Dict V → Dict V
  overwrite k v [] = []
  overwrite k v ((j, w) ∷ d) = (j, (if str_eq j k then v else w)) ∷ overwrite k v d

  -- d[k] = v
  unfoldable pub put : Dict V → String → V → Dict V
  put d k v = if has d k then overwrite k v d else d ++ (k, v) ∷ []

  -- d.pop(k, None)
  unfoldable pub remove : Dict V → String → Dict V
  remove [] k = []
  remove ((j, v) ∷ d) k = let rest = remove d k in if str_eq j k then rest else (j, v) ∷ rest

  -- d.values()
  abbrev pub values : Dict V → List V
  values = map (λ e. e.1)

  has-get : (d : Dict V) (k : String) → has d k ≡ false → get d k ≡ none
  unfolding has get
  has-get [] k h = refl
  has-get ((j, v) ∷ d) k h = ground (arith, has-get d k)

  get-overwrite :
      (k j : String) (v : V) (d : Dict V)
      → get (overwrite k v d) j
        ≡ (if str_eq k j then (if has d j then some v else none) else get d j)
  unfolding get has overwrite
  get-overwrite k j v [] = ground arith
  get-overwrite k j v ((i, w) ∷ d) =
      ground (arith, get-overwrite k j v d, eq_iff k j, eq_iff i k, eq_iff i j)

  get-append :
      (k j : String) (v : V) (d : Dict V)
      → has d k ≡ false
      → get (d ++ (k, v) ∷ []) j ≡ (if str_eq k j then some v else get d j)
  unfolding get has
  get-append k j v [] h = refl
  get-append k j v ((i, w) ∷ d) h =
      ground (arith, get-append k j v d, eq_iff k j, eq_iff i k, eq_iff i j)

  pub get-put :
      (d : Dict V) (k j : String) (v : V)
      → get (put d k v) j ≡ (if str_eq k j then some v else get d j)
  unfolding put
  get-put d k j v = elim (Bool-cases (has d k)) [
    | inl e ↦ rw e (ground (arith, get-overwrite k j v d, eq_iff k j))
    | inr e ↦ rw e (get-append k j v d e)
  ]

  pub get-remove :
      (d : Dict V) (k j : String) → get (remove d k) j ≡ (if str_eq k j then none else get d j)
  unfolding get remove
  get-remove [] k j = ground arith
  get-remove ((i, w) ∷ d) k j = ground (arith, get-remove d k j, eq_iff k j, eq_iff i k, eq_iff i j)

-- A property of every entry after an assignment.
module _ {ℓ κ} {V : Type ℓ} (P Q : String × V → Type κ) (k : String) (v : V) where
  All-overwrite :
      (d : Dict V)
      → ((j : String) → str_eq j k ≡ true → Q (j, v))
      → ((j : String) (w : V) → str_eq j k ≡ false → P (j, w) → Q (j, w))
      → All P d
      → All Q (overwrite k v d)
  unfolding overwrite
  All-overwrite [] new old h = tt
  All-overwrite ((j, w) ∷ d) new old h = elim (Bool-cases (str_eq j k)) [
    | inl e ↦ rw e (new j e, All-overwrite d new old h.1)
    | inr e ↦ rw e (old j w e h.0, All-overwrite d new old h.1)
  ]

  All-absent :
      (d : Dict V)
      → has d k ≡ false
      → ((j : String) (w : V) → str_eq j k ≡ false → P (j, w) → Q (j, w))
      → All P d
      → All Q d
  unfolding has
  All-absent [] absent old h = tt
  All-absent ((j, w) ∷ d) absent old h =
      (old j w (ground arith) h.0, All-absent d (ground arith) old h.1)

  pub All-put :
      (d : Dict V)
      → ((j : String) → str_eq j k ≡ true → Q (j, v))
      → ((j : String) (w : V) → str_eq j k ≡ false → P (j, w) → Q (j, w))
      → All P d
      → All Q (put d k v)
  unfolding put
  All-put d new old h = elim (Bool-cases (has d k)) [
    | inl e ↦ rw e (All-overwrite d new old h)
    | inr e ↦ rw e (All-append Q d ((k, v) ∷ []) (All-absent d e old h) (new k (eq_refl k), tt))
  ]

pub ruleset dict_laws = (get-put, get-remove)
