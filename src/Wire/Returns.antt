-- ===== src/Wire/Returns.antt =====
-- What single readers of src/protocol/wire.ts return, and how that passes through a chain of calls.
use mostro_ts_client.Common.{
  ℕ, Bool, true, false, ◌≡◌, refl, ◌≤◌, none, some, [], ◌∷◌, Result, ok, err, ◌>>=◌, throw_if,
  if◌then◌else◌, string_eq, ltb, arith, ok_injective, suc, ap, Bool-cases, inl, inr,
}
use mathlib.Core.Path.{subst}
use mostro_ts_client.Common.Int.{pos}
use mostro_ts_client.Common.Lists.{All, length}
use mostro_ts_client.Fault.{Fault}
use mostro_ts_client.Wire.{
  Value, undefined, null, number, string, integer, Items, nil, cons, require_string, require_number,
  require_integer, or_null, each, count,
}
use mostro_ts_client.Wire.Fits.{FitsText, FitsIndex, Maybe}

-- if the call returns, its result satisfies P
abbrev pub Returns : {A : Type 0} → (A → Type 0) → Result Fault A → Type 0
Returns P m = (a : _) → m ≡ ok a → P a

pub any : {A : Type 0} (m : Result Fault A) → Returns (λ a. Unit {0}) m
any m a e = tt

pub bind-Returns :
    {A B : Type 0} (Q : A → Type 0) (P : B → Type 0) (m : Result Fault A) (f : A → Result Fault B)
    → Returns Q m
    → ((a : A) → Q a → Returns P (f a))
    → Returns P (m >>= f)
bind-Returns Q P (ok a) f h k b e = k a (h a refl) b e
bind-Returns Q P (err x) f h k b e = cc

pub ok-Returns : {A : Type 0} (P : A → Type 0) (a : A) → P a → Returns P (ok a)
ok-Returns P a h b e = subst P (ok_injective a b e) h

pub err-Returns : {A : Type 0} (P : A → Type 0) (f : Fault) → Returns P (err f)
err-Returns P f a e = cc

pub if-Returns :
    {A : Type 0} (P : A → Type 0) (b : Bool) (m n : Result Fault A)
    → Returns P m
    → Returns P n
    → Returns P (if b then m else n)
if-Returns P true m n h k = h
if-Returns P false m n h k = k

pub string-Returns : (v : Value) → Returns FitsText (require_string v)
unfolding require_string
string-Returns (string s) t e = ground arith
string-Returns undefined t e = cc
string-Returns _ t e = cc

pub integer-Returns : (v : Value) → Returns FitsIndex (require_integer v)
unfolding require_integer require_number
integer-Returns (number (integer (pos n))) t e = ground arith
integer-Returns (number (integer _)) t e = cc
integer-Returns (number _) t e = cc
integer-Returns undefined t e = cc
integer-Returns _ t e = cc

pub or_null-Returns :
    {A : Type 0} (P : A → Type 0) (read : Value → Result Fault A)
    → ((v : Value) → Returns P (read v))
    → (v : Value) → Returns (Maybe P) (or_null read v)
or_null-Returns P read h undefined = ok-Returns (Maybe P) none tt
or_null-Returns P read h null = ok-Returns (Maybe P) none tt
or_null-Returns P read h v =
    bind-Returns P (Maybe P) (read v) (λ a. ok (some a)) (h v)
      (λ a p. ok-Returns (Maybe P) (some a) p)

pub each-Returns :
    {A : Type 0} (P : A → Type 0) (read : Value → Result Fault A)
    → ((v : Value) → Returns P (read v))
    → (xs : Items) → Returns (λ l. All P l × (length l ≡ count xs)) (each read xs)
unfolding each count
each-Returns P read h nil = ok-Returns _ [] (tt, refl)
each-Returns P read h (cons v xs) = bind-Returns P _ (read v) _ (h v) (λ a p.
    bind-Returns _ _ (each read xs) _ (each-Returns P read h xs)
      (λ l q. ok-Returns _ (a ∷ l) ((p, q.0), ap suc q.1)))

pub throw_if-Returns : (n m : ℕ) (f : Fault) → Returns (λ u. n ≤ m) (throw_if (ltb m n) f)
throw_if-Returns n m f a e = elim (Bool-cases (ltb m n)) [
  | inl b ↦ absurd (ground arith)
  | inr b ↦ ground arith
]
