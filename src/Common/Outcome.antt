-- ===== src/Common/Outcome.antt =====
-- A call that returns or throws.
use mathlib.Core.Path.{◌≡◌, refl}
use mathlib.Core.Bool.{Bool, true, false}

pub data Result {ℓ} (E A : Type ℓ) : Type ℓ where
  ok : A → Result E A
  err : E → Result E A

infixl 5 ◌>>=◌ ◌>>◌
abbrev pub ◌>>=◌ {ℓ} : {E A B : Type ℓ} → Result E A → (A → Result E B) → Result E B
ok a >>= f = f a
err e >>= f = err e

abbrev pub ◌>>◌ : {E B : Type 0} → Result E (Unit {0}) → Result E B → Result E B
m >> k = m >>= λ _. k

-- `if (b) throw e;`
abbrev pub throw_if {ℓ} : {E : Type ℓ} → Bool → E → Result E (Unit {ℓ})
throw_if true e = err e
throw_if false e = ok tt

-- the parts of a call that returned
pub bind_of_ok :
    {E A B : Type 0} (m : Result E A) (f : A → Result E B) (b : B)
    → (m >>= f) ≡ ok b
    → (a : A) × (m ≡ ok a) × (f a ≡ ok b)
bind_of_ok (ok a) f b h = (a, refl, h)
bind_of_ok (err e) f b h = cc

pub ok_injective : {E A : Type 0} (a b : A) → ◌≡◌ {A = Result E A} (ok a) (ok b) → a ≡ b
ok_injective a b h = cc

-- a check that did not throw, before the rest and as the last one
pub passed :
    {E B : Type 0} (b : Bool) (f : E) (k : Result E B) (x : B)
    → throw_if b f >> k ≡ ok x
    → (b ≡ false) × (k ≡ ok x)
passed true f k x h = cc
passed false f k x h = (refl, h)

pub passed_last : {E : Type 0} (b : Bool) (f : E) → throw_if b f ≡ ok tt → b ≡ false
passed_last true f h = cc
passed_last false f h = refl
