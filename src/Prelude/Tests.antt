-- ===== src/Prelude/Tests.antt =====
-- Boolean tests on numbers, the conditional, and equality tests by an instance.
use Prim.Native.Nat.{ℕ, compare, Ordering}
use mathlib.Core.Path.{◌≡◌, refl}
use mathlib.Core.Logic.{◌≢◌, ◌⊎◌, inl, inr}
use mathlib.Core.Bool.{Bool, true, false}
use mathlib.Core.List.{List}
use mathlib.Core.Option.{Option, none, some}
use native.Mathlib.Omega.{arith}
use native.Mathlib.Decide.{ℕ_discrete}

abbrev pub ltb : ℕ → ℕ → Bool
ltb a b = elim (compare a b) [ Ordering.lt ↦ true | _ ↦ false ]

abbrev pub leb : ℕ → ℕ → Bool
leb a b = elim (compare a b) [ Ordering.gt ↦ false | _ ↦ true ]

infix 1 if◌then◌else◌
abbrev pub if◌then◌else◌ {ℓ} : {A : Type ℓ} → Bool → A → A → A
if true then x else y = x
if false then x else y = y

-- The derived `PartialEq` of a type.
pub record Eq {ℓ} (A : Type ℓ) : Type ℓ where
  pub decides : Discrete A

infix 50 ◌==◌
abbrev pub ◌==◌ {ℓ} : {A : Type ℓ} ⦃e : Eq A⦄ → A → A → Bool
◌==◌ ⦃e⦄ a b = elim (e.decides a b) [ yes _ ↦ true | no _ ↦ false ]

instance abbrev pub nat_eq : Eq ℕ
nat_eq = record { decides = ℕ_discrete }

unfoldable pub Bytes-discrete : Discrete (List ℕ)
unfolding ℕ_discrete
Bytes-discrete = hlevel ℕ_discrete

instance abbrev pub bytes_eq : Eq (List ℕ)
bytes_eq = record { decides = Bytes-discrete }

unfoldable pub Texts-discrete : Discrete (List (List ℕ))
unfolding ℕ_discrete
Texts-discrete = hlevel ℕ_discrete

instance abbrev pub texts_eq : Eq (List (List ℕ))
texts_eq = record { decides = Texts-discrete }

pub ==_refl {ℓ} : {A : Type ℓ} ⦃e : Eq A⦄ (a : A) → (a == a) ≡ true
==_refl a = ground arith

pub eq-of-== {ℓ} : {A : Type ℓ} ⦃e : Eq A⦄ (a b : A) → (a == b) ≡ true → a ≡ b
eq-of-== a b h = ground arith

pub ==_ne {ℓ} : {A : Type ℓ} ⦃e : Eq A⦄ (a b : A) → a ≢ b → (a == b) ≡ false
==_ne a b h = ground arith

-- To split on a computed value and keep the equation.
pub Bool-cases : (b : Bool) → (b ≡ true) ⊎ (b ≡ false)
Bool-cases true = inl refl
Bool-cases false = inr refl

pub Option-cases {ℓ} : {A : Type ℓ} (o : Option A) → (o ≡ none) ⊎ ((a : A) × (o ≡ some a))
Option-cases none = inl refl
Option-cases (some a) = inr (a, refl)

-- What both branches have, each under its test, the conditional has.
pub if_cases {ℓ κ} :
    {A : Type ℓ} (P : A → Type κ) (b : Bool) (x y : A)
    → (b ≡ true → P x)
    → (b ≡ false → P y)
    → P (if b then x else y)
if_cases P true x y f g = f refl
if_cases P false x y f g = g refl
