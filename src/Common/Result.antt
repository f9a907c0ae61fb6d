-- ===== src/Common/Result.antt =====
-- A result that is a value or the reason why there is none, with the early return of a `do` block.
use mathlib.Core.Path.{◌≡◌, refl}
use mathlib.Core.Bool.{Bool, true, false}
use mathlib.Core.Logic.{◌⊎◌, inl, inr}

pub data Result {ℓ κ} (E : Type ℓ) (A : Type κ) : Type (ℓ ⊔ κ) where
  ok : A → Result E A
  err : E → Result E A

infixl 5 ◌>>=◌ ◌>>◌
abbrev pub ◌>>=◌ {ℓ κ μ} :
    {E : Type ℓ} {A : Type κ} {B : Type μ} → Result E A → (A → Result E B) → Result E B
ok a >>= f = f a
err e >>= f = err e

abbrev pub ◌>>◌ {ℓ μ} : {E : Type ℓ} {B : Type μ} → Result E (Unit {0}) → Result E B → Result E B
m >> k = m >>= λ _. k

-- `if b { return e }`
abbrev pub return_if {ℓ} : {E : Type ℓ} → Bool → E → Result E (Unit {0})
return_if true e = err e
return_if false e = ok tt

-- A function that got past an early return: its test was false.
pub past_return {ℓ μ} :
    {E : Type ℓ} {B : Type μ} (b : Bool) (e : E) (k : Result E B) {x : B}
    → (return_if b e >> k) ≡ ok x
    → (b ≡ false) × (k ≡ ok x)
past_return true e k h = cc
past_return false e k h = (refl, h)

-- An early return that does not fire.
pub skip_return {ℓ μ} :
    {E : Type ℓ} {B : Type μ} (b : Bool) (e : E) (k : Result E B)
    → b ≡ false
    → (return_if b e >> k) ≡ k
skip_return true e k h = cc
skip_return false e k h = refl

pub Result-cases {ℓ κ} :
    {E : Type ℓ} {A : Type κ} (r : Result E A) → ((a : A) × (r ≡ ok a)) ⊎ ((e : E) × (r ≡ err e))
Result-cases (ok a) = inl (a, refl)
Result-cases (err e) = inr (e, refl)
