-- ===== src/Prelude/Result.antt =====
-- Results of calls that can fail.
use mathlib.Core.Path.{◌≡◌, refl}
use mathlib.Core.Logic.{◌⊎◌, inl, inr}

-- Go's pair of a value and an error, of which one is there.
pub data Result {ℓ κ} (E : Type κ) (A : Type ℓ) : Type (ℓ ⊔ κ) where
  ok : A → Result E A
  err : E → Result E A

infixl 5 ◌>>=◌
abbrev pub ◌>>=◌ {ℓ κ μ} :
    {E : Type κ} {A : Type ℓ} {B : Type μ} → Result E A → (A → Result E B) → Result E B
ok a >>= f = f a
err e >>= f = err e

-- A step that has an error or none.
pub data Status {ℓ} (E : Type ℓ) : Type ℓ where
  done : Status E
  failed : E → Status E

pub Result-cases :
    {E A : Type 0} (m : Result E A) → ((a : A) × (m ≡ ok a)) ⊎ ((e : E) × (m ≡ err e))
Result-cases (ok a) = inl (a, refl)
Result-cases (err e) = inr (e, refl)

pub Status-cases : {E : Type 0} (m : Status E) → (m ≡ done) ⊎ ((e : E) × (m ≡ failed e))
Status-cases done = inl refl
Status-cases (failed e) = inr (e, refl)
