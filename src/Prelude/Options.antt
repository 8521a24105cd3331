-- ===== src/Prelude/Options.antt =====
-- Chains of calls that may raise, where the exception carries nothing that is looked at.
use mathlib.Core.Path.{◌≡◌, refl}
use mathlib.Core.Bool.{Bool, true, false}
use mathlib.Core.Option.{Option, none, some}

infixl 5 ◌>>=◌ ◌>>◌
abbrev pub ◌>>=◌ {ℓ κ} : {A : Type ℓ} {B : Type κ} → Option A → (A → Option B) → Option B
none >>= f = none
some a >>= f = f a

abbrev pub ◌>>◌ {ℓ} : {B : Type ℓ} → Option (Unit {0}) → Option B → Option B
m >> k = m >>= λ _. k

abbrev pub guard : Bool → Option (Unit {0})
guard true = some tt
guard false = none

-- Inversion of a chain that did not raise.
pub >>=-eq-some {ℓ κ} :
    {A : Type ℓ} {B : Type κ} (m : Option A) (f : A → Option B) {b : B}
    → (m >>= f) ≡ some b
    → (a : A) × (m ≡ some a) × (f a ≡ some b)
>>=-eq-some none f h = cc
>>=-eq-some (some a) f h = (a, refl, h)

pub guard-eq-some : (t : Bool) {u : Unit {0}} → guard t ≡ some u → t ≡ true
guard-eq-some true h = refl
guard-eq-some false h = cc

-- What is made where nothing is there yet, and what is kept where something is.
abbrev pub when_absent {ℓ κ} : {A : Type ℓ} {B : Type κ} → Option A → B → B → B
when_absent none made kept = made
when_absent (some a) made kept = kept

pub when_absent_cases {ℓ κ μ} :
    {A : Type ℓ} {B : Type κ} (P : B → Type μ) (o : Option A) {made kept : B}
    → (o ≡ none → P made)
    → ((a : A) → o ≡ some a → P kept)
    → P (when_absent o made kept)
when_absent_cases P none f g = f refl
when_absent_cases P (some a) f g = g a refl
