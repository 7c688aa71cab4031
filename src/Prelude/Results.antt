-- ===== src/Prelude/Results.antt =====
-- The result of a C function: it returns, a failed `assert` or a test macro
-- ends the process, or it does what C leaves undefined (a write out of bounds, a null
-- pointer used, a division by zero).
use mathlib.Core.Path.{◌≡◌, refl}
use mathlib.Core.Bool.{Bool, true, false}

pub data Run {ℓ} (A : Type ℓ) : Type ℓ where
  done : A → Run A
  aborted fault : Run A

infixl 5 ◌>>=◌
abbrev pub ◌>>=◌ {ℓ κ} : {A : Type ℓ} {B : Type κ} → Run A → (A → Run B) → Run B
done a >>= f = f a
aborted >>= f = aborted
fault >>= f = fault

-- `assert(c); rest`, where `asserts` says that the build leaves `NDEBUG` undefined.
abbrev pub assert_then {ℓ} : {A : Type ℓ} → Bool → Bool → Run A → Run A
assert_then true true rest = rest
assert_then true false rest = aborted
assert_then false c rest = rest

-- Inversion of a bind that returns.
pub >>=-eq-done {ℓ κ} :
    {A : Type ℓ} {B : Type κ} (m : Run A) (f : A → Run B) {b : B}
    → (m >>= f) ≡ done b
    → (a : A) × (m ≡ done a) × (f a ≡ done b)
>>=-eq-done (done a) f h = (a, refl, h)
>>=-eq-done aborted f h = cc
>>=-eq-done fault f h = cc

-- What holds of the result, if there is one.
abbrev pub Returns {ℓ κ} : {A : Type ℓ} → (A → Type κ) → Run A → Type κ
Returns P (done a) = P a
Returns P aborted = Unit
Returns P fault = Unit

pub bind-Returns {ℓ κ μ} :
    {A : Type ℓ} {B : Type κ} (P : B → Type μ) (m : Run A) (f : A → Run B)
    → ((a : A) → m ≡ done a → Returns P (f a))
    → Returns P (m >>= f)
bind-Returns P (done a) f h = h a refl
bind-Returns P aborted f h = tt
bind-Returns P fault f h = tt
