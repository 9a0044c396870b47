-- ===== src/Prelude/Maps.antt =====
-- `BTreeMap` as an association list with one entry for a key, in the order of its keys. An insertion
-- takes the old entry of the key out and puts the new one in its place in the order.
use Prim.Native.Nat.{ℕ}
use mathlib.Core.Path.{◌≡◌, refl, subst}
use mathlib.Core.Bool.{Bool, true, false}
use mathlib.Core.List.{List, [], ◌∷◌}
use mathlib.Core.Option.{Option, none, some}
use native.Mathlib.Omega.{arith}
use zns_mint.Prelude.Lists.{All}
use zns_mint.Prelude.Tests.{Eq, ◌==◌, if◌then◌else◌, ltb, nat_eq, bytes_eq}

-- The derived `Ord` of a key, as far as a map needs it: its equality and its strict order.
pub record Order {ℓ} (K : Type ℓ) : Type ℓ where
  pub equality : Eq K
  pub before : K → K → Bool

instance abbrev pub nat_order : Order ℕ
nat_order = record { equality = nat_eq; before = ltb }

-- The order of texts, byte by byte.
unfoldable pub bytes_before : List ℕ → List ℕ → Bool
bytes_before xs [] = false
bytes_before [] (y ∷ ys) = true
bytes_before (x ∷ xs) (y ∷ ys) =
    let rest = bytes_before xs ys in if ltb x y then true else if x == y then rest else false

instance abbrev pub bytes_order : Order (List ℕ)
bytes_order = record { equality = bytes_eq; before = bytes_before }

abbrev pub same {ℓ} : {K : Type ℓ} ⦃o : Order K⦄ → K → K → Bool
same ⦃o⦄ a b = ◌==◌ ⦃e = o.equality⦄ a b

abbrev pub keep_if {ℓ} : {V : Type ℓ} → (V → Bool) → Option V → Option V
keep_if p none = none
keep_if p (some v) = if p v then some v else none

module _ {ℓ κ} {K : Type ℓ} {V : Type κ} ⦃o : Order K⦄ where
  unfoldable pub lookup : K → List (K × V) → Option V
  lookup k [] = none
  lookup k ((j, v) ∷ m) = if same j k then some v else lookup k m

  place : K → V → List (K × V) → List (K × V)
  place k v [] = (k, v) ∷ []
  place k v ((j, w) ∷ m) = if o.before k j then (k, v) ∷ (j, w) ∷ m else (j, w) ∷ place k v m

  unfoldable pub remove : K → List (K × V) → List (K × V)
  remove k [] = []
  remove k ((j, v) ∷ m) = if same j k then remove k m else (j, v) ∷ remove k m

  unfoldable pub insert : K → V → List (K × V) → List (K × V)
  unfolding place remove
  insert k v m = place k v (remove k m)

  unfoldable pub retain : (K → V → Bool) → List (K × V) → List (K × V)
  retain p [] = []
  retain p ((j, v) ∷ m) = if p j v then (j, v) ∷ retain p m else retain p m

  -- Each key has one entry.
  abbrev pub Distinct : List (K × V) → Type κ
  Distinct [] = Unit
  Distinct ((k, v) ∷ m) = (lookup k m ≡ none) × Distinct m

  lookup-place :
      (k q : K) (v : V) (m : List (K × V))
      → lookup k m ≡ none
      → lookup q (place k v m) ≡ (if same k q then some v else lookup q m)
  unfolding lookup place
  lookup-place k q v [] h = refl
  lookup-place k q v ((j, w) ∷ m) h = ground (arith, lookup-place k q v m)

  pub lookup-remove :
      (k q : K) (m : List (K × V)) → lookup q (remove k m) ≡ (if same k q then none else lookup q m)
  unfolding lookup remove
  lookup-remove k q [] = ground arith
  lookup-remove k q ((j, w) ∷ m) = ground (arith, lookup-remove k q m)

  pub lookup-insert :
      (k q : K) (v : V) (m : List (K × V))
      → lookup q (insert k v m) ≡ (if same k q then some v else lookup q m)
  unfolding insert
  lookup-insert k q v m =
      ground (arith, lookup-remove k k m, lookup-remove k q m, lookup-place k q v (remove k m))

  lookup-retain-none :
      (p : K → V → Bool) (q : K) (m : List (K × V))
      → lookup q m ≡ none
      → lookup q (retain p m) ≡ none
  unfolding lookup retain
  lookup-retain-none p q [] h = refl
  lookup-retain-none p q ((j, w) ∷ m) h = ground (arith, lookup-retain-none p q m)

  pub lookup-retain :
      (p : K → V → Bool) (q : K) (m : List (K × V))
      → Distinct m
      → lookup q (retain p m) ≡ keep_if (p q) (lookup q m)
  unfolding lookup retain
  lookup-retain p q [] d = refl
  lookup-retain p q ((j, w) ∷ m) d =
      ground (arith, lookup-retain p q m d.1, lookup-retain-none p q m)

  Distinct-place :
      (k : K) (v : V) (m : List (K × V)) → lookup k m ≡ none → Distinct m → Distinct (place k v m)
  unfolding place lookup
  Distinct-place k v [] h d = (refl, tt)
  Distinct-place k v ((j, w) ∷ m) h d = ground (arith, Distinct-place k v m, lookup-place k j v m)

  pub Distinct-remove : (k : K) (m : List (K × V)) → Distinct m → Distinct (remove k m)
  unfolding remove
  Distinct-remove k [] d = tt
  Distinct-remove k ((j, w) ∷ m) d = ground (arith, Distinct-remove k m d.1, lookup-remove k j m)

  pub Distinct-insert : (k : K) (v : V) (m : List (K × V)) → Distinct m → Distinct (insert k v m)
  unfolding insert
  Distinct-insert k v m d =
      Distinct-place k v (remove k m) (ground (arith, lookup-remove k k m)) (Distinct-remove k m d)

  pub Distinct-retain : (p : K → V → Bool) (m : List (K × V)) → Distinct m → Distinct (retain p m)
  unfolding retain
  Distinct-retain p [] d = tt
  Distinct-retain p ((j, w) ∷ m) d =
      ground (arith, Distinct-retain p m d.1, lookup-retain-none p j m)

  retain-place :
      (p : K → V → Bool) (k : K) (v : V) (m : List (K × V))
      → p k v ≡ false
      → retain p (place k v m) ≡ retain p m
  unfolding retain place
  retain-place p k v [] h = ground arith
  retain-place p k v ((j, w) ∷ m) h = ground (arith, retain-place p k v m)

module _ {ℓ κ} {K : Type ℓ} {V : Type κ} ⦃o : Order K⦄ (p : K → Bool) where
  retain-remove :
      (k : K) (m : List (K × V))
      → p k ≡ false
      → retain (λ j _. p j) (remove k m) ≡ retain (λ j _. p j) m
  unfolding retain remove
  retain-remove k [] h = refl
  retain-remove k ((j, w) ∷ m) h = ground (arith, retain-remove k m h)

  -- A test of keys that refuses `k` does not see an insertion under `k`.
  pub retain-insert :
      (k : K) (v : V) (m : List (K × V))
      → p k ≡ false
      → retain (λ j _. p j) (insert k v m) ≡ retain (λ j _. p j) m
  unfolding insert
  retain-insert k v m h = rw (retain-place (λ j _. p j) k v (remove k m) h) (retain-remove k m h)

-- What holds of every entry goes on to hold.
module _ {ℓ κ μ} {K : Type ℓ} {V : Type κ} ⦃o : Order K⦄ (P : K × V → Type μ) where
  All-if : (b : Bool) (xs ys : List (K × V)) → All P xs → All P ys → All P (if b then xs else ys)
  All-if true xs ys hx hy = hx
  All-if false xs ys hx hy = hy

  All-place : (k : K) (v : V) (m : List (K × V)) → P (k, v) → All P m → All P (place k v m)
  unfolding place
  All-place k v [] p h = (p, tt)
  All-place k v ((j, w) ∷ m) p h = All-if (o.before k j) _ _ (p, h) (h.0, All-place k v m p h.1)

  pub All-remove : (k : K) (m : List (K × V)) → All P m → All P (remove k m)
  unfolding remove
  All-remove k [] h = tt
  All-remove k ((j, w) ∷ m) h = All-if (same j k) _ _ (All-remove k m h.1) (h.0, All-remove k m h.1)

  pub All-insert : (k : K) (v : V) (m : List (K × V)) → P (k, v) → All P m → All P (insert k v m)
  unfolding insert
  All-insert k v m p h = All-place k v (remove k m) p (All-remove k m h)

  pub All-retain : (p : K → V → Bool) (m : List (K × V)) → All P m → All P (retain p m)
  unfolding retain
  All-retain p [] h = tt
  All-retain p ((j, w) ∷ m) h = All-if (p j w) _ _ (h.0, All-retain p m h.1) (All-retain p m h.1)

  pub All-lookup : (k : K) (m : List (K × V)) (v : V) → All P m → lookup k m ≡ some v → P (k, v)
  unfolding lookup
  All-lookup k [] v h e = cc
  All-lookup k ((j, w) ∷ m) v h e = elim (o.equality.decides j k) [
    | yes p ↦ subst P (ground arith) h.0
    | no n ↦ All-lookup k m v h.1 (ground arith)
  ]
