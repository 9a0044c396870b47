-- ===== src/Prelude/Sets.antt =====
-- `BTreeSet` of identities: a list in increasing order, each element once.
use Prim.Native.Nat.{ℕ, suc}
use mathlib.Core.Path.{◌≡◌, refl}
use mathlib.Core.Bool.{Bool, false, ◌||◌}
use mathlib.Core.List.{List, [], ◌∷◌}
use native.Mathlib.Omega.{arith}
use zns_mint.Prelude.Tests.{◌==◌, if◌then◌else◌, ltb, nat_eq}
use zns_mint.Prelude.Lists.{length}

unfoldable pub contains : ℕ → List ℕ → Bool
contains x [] = false
contains x (y ∷ s) = y == x || contains x s

place : ℕ → List ℕ → List ℕ
place x [] = x ∷ []
place x (y ∷ s) = if ltb x y then x ∷ y ∷ s else y ∷ place x s

-- `insert` of a set; whether the element was new is `not (contains x s)`.
unfoldable pub add : ℕ → List ℕ → List ℕ
unfolding place contains
add x s = if contains x s then s else place x s

-- `remove` of a set; whether the element was there is `contains x s`.
unfoldable pub take_out : ℕ → List ℕ → List ℕ
take_out x [] = []
take_out x (y ∷ s) = if y == x then s else y ∷ take_out x s

-- No element stands twice.
abbrev pub Unique : List ℕ → Type 0
Unique [] = Unit {0}
Unique (x ∷ s) = (contains x s ≡ false) × Unique s

contains-place : (x y : ℕ) (s : List ℕ) → contains y (place x s) ≡ (x == y || contains y s)
unfolding contains place
contains-place x y [] = refl
contains-place x y (z ∷ s) = ground (arith, contains-place x y s)

pub contains-add : (x y : ℕ) (s : List ℕ) → contains y (add x s) ≡ (x == y || contains y s)
unfolding add
contains-add x y s = ground (arith, contains-place x y s)

pub contains-take_out :
    (x y : ℕ) (s : List ℕ)
    → Unique s
    → contains y (take_out x s) ≡ (if x == y then false else contains y s)
unfolding contains take_out
contains-take_out x y [] u = ground arith
contains-take_out x y (z ∷ s) u = ground (arith, contains-take_out x y s u.1)

length-place : (x : ℕ) (s : List ℕ) → length (place x s) ≡ suc (length s)
unfolding place
length-place x [] = refl
length-place x (z ∷ s) = ground (arith, length-place x s)

pub length-add :
    (x : ℕ) (s : List ℕ) → length (add x s) ≡ (if contains x s then length s else suc (length s))
unfolding add
length-add x s = ground (arith, length-place x s)

pub length-take_out :
    (x : ℕ) (s : List ℕ)
    → (if contains x s then suc (length (take_out x s)) else length (take_out x s)) ≡ length s
unfolding contains take_out
length-take_out x [] = refl
length-take_out x (y ∷ s) = ground (arith, length-take_out x s)

Unique-place : (x : ℕ) (s : List ℕ) → contains x s ≡ false → Unique s → Unique (place x s)
unfolding contains place
Unique-place x [] h u = (refl, tt)
Unique-place x (y ∷ s) h u = ground (arith, Unique-place x s, contains-place x y s)

pub Unique-add : (x : ℕ) (s : List ℕ) → Unique s → Unique (add x s)
unfolding add
Unique-add x s u = ground (arith, Unique-place x s)

pub Unique-take_out : (x : ℕ) (s : List ℕ) → Unique s → Unique (take_out x s)
unfolding take_out contains
Unique-take_out x [] u = tt
Unique-take_out x (y ∷ s) u = ground (arith, Unique-take_out x s u.1, contains-take_out x y s u.1)
