-- ===== src/Common/Tests.antt =====
-- `===`, `if` and `??` of the source, and the case splits that keep an equation.
use Prim.Native.Nat.{ℕ, compare, Ordering}
use Prim.Native.String.{String}
use mathlib.Core.Path.{◌≡◌, refl}
use mathlib.Core.Logic.{◌↔◌, ◌≢◌, ◌⊎◌, inl, inr}
use mathlib.Core.Bool.{Bool, true, false}
use mathlib.Core.Option.{Option, none, some}
use native.Mathlib.Decide.{ℕ_discrete}
use native.Mathlib.Omega.{arith}
use text.Mathlib.Text.{◌==◌ as str_eq}
use text.Mathlib.TextEquality.{eq_iff}

abbrev pub ltb : ℕ → ℕ → Bool
ltb a b = elim (compare a b) [ Ordering.lt ↦ true | _ ↦ false ]

abbrev pub leb : ℕ → ℕ → Bool
leb a b = elim (compare a b) [ Ordering.gt ↦ false | _ ↦ true ]

infix 1 if◌then◌else◌
abbrev pub if◌then◌else◌ {ℓ} : {A : Type ℓ} → Bool → A → A → A
if true then x else y = x
if false then x else y = y

-- A type whose values `===` compares.
pub record Eq {ℓ} (A : Type ℓ) : Type ℓ where
  pub dec : Discrete A

infix 50 ◌==◌
abbrev pub ◌==◌ {ℓ} : {A : Type ℓ} ⦃e : Eq A⦄ → A → A → Bool
◌==◌ ⦃e⦄ a b = elim (e.dec a b) [ yes _ ↦ true | no _ ↦ false ]

infix 50 ◌!=◌
abbrev pub ◌!=◌ {ℓ} : {A : Type ℓ} ⦃e : Eq A⦄ → A → A → Bool
◌!=◌ ⦃e⦄ a b = elim (e.dec a b) [ yes _ ↦ false | no _ ↦ true ]

unfoldable pub String-discrete : Discrete String
String-discrete s t = choose (str_eq s t) (eq_iff s t)
  where
    choose : (b : Bool) → ((b ≡ true) ↔ (s ≡ t)) → Dec (s ≡ t)
    choose true e = yes (e.0 refl)
    choose false e = no (λ p. cc (e.1 p))

instance abbrev pub string_eq : Eq String
string_eq = record { dec = String-discrete }

instance abbrev pub nat_eq : Eq ℕ
nat_eq = record { dec = ℕ_discrete }

module _ {ℓ} {A : Type ℓ} where
  -- `a ?? b` with a value, and with another optional value, on the right
  abbrev pub or_default : Option A → A → A
  or_default none b = b
  or_default (some a) b = a

  abbrev pub or_else : Option A → Option A → Option A
  or_else none b = b
  or_else (some a) b = some a

  -- `a !== null`
  abbrev pub is_some : Option A → Bool
  is_some none = false
  is_some (some _) = true

  pub Option-cases : (o : Option A) → (o ≡ none) ⊎ ((a : A) × (o ≡ some a))
  Option-cases none = inl refl
  Option-cases (some a) = inr (a, refl)

  unfoldable pub Option-discrete : Discrete A → Discrete (Option A)
  Option-discrete d none none = yes refl
  Option-discrete d none (some b) = no (λ p. cc)
  Option-discrete d (some a) none = no (λ p. cc)
  Option-discrete d (some a) (some b) = elim (d a b) [ yes p ↦ yes (cc) | no n ↦ no (λ p. n (cc)) ]

pub Bool-cases : (b : Bool) → (b ≡ true) ⊎ (b ≡ false)
Bool-cases true = inl refl
Bool-cases false = inr refl

instance abbrev pub option_eq : {A : Type 0} ⦃e : Eq A⦄ → Eq (Option A)
option_eq ⦃e⦄ = record { dec = Option-discrete e.dec }

module _ {ℓ} {A : Type ℓ} ⦃e : Eq A⦄ (a b : A) where
  pub eq_of_== : (a == b) ≡ true → a ≡ b
  eq_of_== h = elim (e.dec a b) [ yes p ↦ p | no n ↦ absurd (ground arith) ]

  pub ==_of_eq : a ≡ b → (a == b) ≡ true
  ==_of_eq h = ground arith

  pub ==_of_ne : a ≢ b → (a == b) ≡ false
  ==_of_ne h = ground arith

  pub !=_of_eq : a ≡ b → (a != b) ≡ false
  !=_of_eq h = ground arith

  pub !=_of_ne : a ≢ b → (a != b) ≡ true
  !=_of_ne h = ground arith

  pub eq_of_!= : (a != b) ≡ false → a ≡ b
  eq_of_!= h = elim (e.dec a b) [ yes p ↦ p | no n ↦ absurd (ground arith) ]

  pub ne_of_== : (a == b) ≡ false → a ≢ b
  ne_of_== h p = absurd (ground arith)
