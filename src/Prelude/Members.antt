-- ===== src/Prelude/Members.antt =====
-- Membership in a list, against the Boolean tests on lists.
use mathlib.Core.Path.{◌≡◌, refl, sym, ap, ◌∙◌}
use mathlib.Core.Logic.{◌↔◌, ◌⊎◌, inl, inr}
use mathlib.Core.Bool.{Bool, true, false}
use mathlib.Core.List.{List, [], ◌∷◌, Memᴰ}
use mathlib.Core.List.Memᴰ
use native.Mathlib.Omega.{arith}
use zns_mint.Prelude.Tests.{if◌then◌else◌, Bool-cases}
use zns_mint.Prelude.Lists.{any}

pub any-false :
    {A : Type 0} (p : A → Bool) (xs : List A)
    → any p xs ≡ false ↔ ((x : A) → Memᴰ x xs → p x ≡ false)
any-false p [] = (λ _ x i. absurd (Memᴰ.not-nil i), λ _. refl)
any-false p (y ∷ xs) = (
  λ h x i. elim (Memᴰ.cases_cons i) [
    | inl e ↦ ap p e ∙ ground arith
    | inr j ↦ (any-false p xs).0 (ground arith) x j
  ],
  λ f.
      let a = f y (Memᴰ.head refl) in
      let b = (any-false p xs).1 (λ x i. f x (Memᴰ.tail i)) in ground arith,
)

pub mem_if :
    {A : Type 0} {a : A} (b : Bool) (x : A) (xs : List A)
    → Memᴰ a (if b then x ∷ xs else xs)
    → (a ≡ x) ⊎ Memᴰ a xs
mem_if false x xs i = inr i
mem_if true x xs i = Memᴰ.cases_cons i

pub mem_if_tail :
    {A : Type 0} {a : A} (b : Bool) (x : A) (xs : List A)
    → Memᴰ a xs
    → Memᴰ a (if b then x ∷ xs else xs)
mem_if_tail false x xs i = i
mem_if_tail true x xs i = Memᴰ.tail i

pub any-true :
    {A : Type 0} (p : A → Bool) (xs : List A)
    → any p xs ≡ true ↔ ((x : A) × Memᴰ x xs × (p x ≡ true))
any-true p [] = (λ h. absurd (ground arith), λ (x, i, e). absurd (Memᴰ.not-nil i))
any-true p (y ∷ xs) = (
  λ h. elim (Bool-cases (p y)) [
    | inl e ↦ (y, Memᴰ.head refl, e)
    | inr e ↦ let (x, i, f) = (any-true p xs).0 (ground arith) in (x, Memᴰ.tail i, f)
  ],
  λ (x, i, e). elim (Memᴰ.cases_cons i) [
    | inl z ↦ let f = ap p (sym z) ∙ e in ground arith
    | inr j ↦ let f = (any-true p xs).1 (x, j, e) in ground arith
  ],
)
