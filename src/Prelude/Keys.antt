-- ===== src/Prelude/Keys.antt =====
-- Lists whose elements have a key: where the keys differ, taking the elements off one key after the
-- other is taking them off at once.
use mathlib.Core.Path.{◌≡◌, refl, ap}
use mathlib.Core.Bool.{Bool, false, not}
use mathlib.Core.List.{List, [], ◌∷◌, ◌++◌, map}
use mathlib.Core.Logic.{inl, inr}
use mathlib.Core.Option.{none}
use native.Mathlib.Omega.{arith}
use zns_mint.Prelude.Tests.{Eq, ◌==◌, Bool-cases}
use zns_mint.Prelude.Lists.{any, filter, any-append}
use zns_mint.Prelude.Maps.{Order, lookup, remove, retain, Distinct}

pub filter-map {ℓ} :
    {A : Type ℓ} (p : A → Bool) (f : A → A) (xs : List A)
    → ((x : A) → p (f x) ≡ p x)
    → filter p (map f xs) ≡ map f (filter p xs)
filter-map p f [] h = refl
filter-map p f (x ∷ xs) h = ground (arith, h x, filter-map p f xs h)

pub any-map {ℓ} :
    {A : Type ℓ} (p : A → Bool) (f : A → A) (xs : List A)
    → ((x : A) → p (f x) ≡ p x)
    → any p (map f xs) ≡ any p xs
any-map p f [] h = refl
any-map p f (x ∷ xs) h = ground (arith, h x, any-map p f xs h)

pub map_cong {ℓ κ} :
    {A : Type ℓ} {B : Type κ} (f g : A → B) (xs : List A)
    → ((x : A) → f x ≡ g x)
    → map f xs ≡ map g xs
map_cong f g [] h = refl
map_cong f g (x ∷ xs) h = λ i. h x i ∷ map_cong f g xs h i

pub map-map_swap {ℓ} :
    {A : Type ℓ} (f g f' g' : A → A) (xs : List A)
    → ((x : A) → f (g x) ≡ g' (f' x))
    → map f (map g xs) ≡ map g' (map f' xs)
map-map_swap f g f' g' [] h = refl
map-map_swap f g f' g' (x ∷ xs) h = λ i. h x i ∷ map-map_swap f g f' g' xs h i

pub any-filter-false {ℓ} :
    {A : Type ℓ} (p q : A → Bool) (xs : List A) → any p xs ≡ false → any p (filter q xs) ≡ false
any-filter-false p q [] h = refl
any-filter-false p q (x ∷ xs) h = ground (arith, any-filter-false p q xs)

module _ {ℓ κ} {A : Type ℓ} {K : Type κ} ⦃e : Eq K⦄ (key : A → K) where
  abbrev pub has_key : K → A → Bool
  has_key k x = key x == k

  -- No two elements have one key.
  abbrev pub Unique : List A → Type 0
  Unique [] = Unit
  Unique (x ∷ xs) = (any (has_key (key x)) xs ≡ false) × Unique xs

  abbrev pub drop_key : K → List A → List A
  drop_key k xs = filter (λ x. not (has_key k x)) xs

  abbrev pub drop_keys : List K → List A → List A
  drop_keys [] xs = xs
  drop_keys (k ∷ ks) xs = drop_keys ks (drop_key k xs)

  pub drop_key_absent : (k : K) (xs : List A) → any (has_key k) xs ≡ false → drop_key k xs ≡ xs
  drop_key_absent k [] h = refl
  drop_key_absent k (x ∷ xs) h = ground (arith, drop_key_absent k xs)

  pub Unique-filter : (p : A → Bool) (xs : List A) → Unique xs → Unique (filter p xs)
  Unique-filter p [] u = tt
  Unique-filter p (x ∷ xs) u =
      ground (arith, Unique-filter p xs u.1, any-filter-false (has_key (key x)) p xs u.0)

  pub Unique-push :
      (xs : List A) (y : A) → Unique xs → any (has_key (key y)) xs ≡ false → Unique (xs ++ y ∷ [])
  Unique-push [] y u h = (refl, tt)
  Unique-push (x ∷ xs) y u h = (
    ground (arith, any-append (has_key (key x)) xs (y ∷ []), u.0),
    Unique-push xs y u.1 (ground arith),
  )

  pub Unique-map :
      (f : A → A) (xs : List A) → ((x : A) → key (f x) ≡ key x) → Unique xs → Unique (map f xs)
  Unique-map f [] h u = tt
  Unique-map f (x ∷ xs) h u = (
    ground
        (arith, any-map (has_key (key (f x))) f xs (λ y. ap (λ k. k == key (f x)) (h y)), h x, u.0),
    Unique-map f xs h u.1,
  )

  drop_keys_other :
      (p : A → Bool) (x : A) (ys xs : List A)
      → any (has_key (key x)) xs ≡ false
      → drop_keys (map key (filter p xs)) (x ∷ ys) ≡ x ∷ drop_keys (map key (filter p xs)) ys
  drop_keys_other p x ys [] h = refl
  drop_keys_other p x ys (z ∷ xs) h = elim (Bool-cases (p z)) [
    | inl e ↦ ground (arith, drop_keys_other p x (drop_key (key z) ys) xs)
    | inr e ↦ ground (arith, drop_keys_other p x ys xs)
  ]

  -- Dropping the elements that fail a test, by their keys, keeps those that pass.
  pub drop_keys_lem :
      (keep : A → Bool) (xs : List A)
      → Unique xs
      → drop_keys (map key (filter (λ x. not (keep x)) xs)) xs ≡ filter keep xs
  drop_keys_lem keep [] u = refl
  drop_keys_lem keep (x ∷ xs) u = elim (Bool-cases (keep x)) [
    | inl e ↦
        ground (arith, drop_keys_lem keep xs u.1, drop_keys_other (λ y. not (keep y)) x xs xs u.0)
    | inr e ↦ ground (arith, drop_keys_lem keep xs u.1, drop_key_absent (key x) xs u.0)
  ]

module _ {ℓ κ} {K : Type ℓ} {V : Type κ} ⦃o : Order K⦄ where
  abbrev pub removes : List K → List (K × V) → List (K × V)
  removes [] m = m
  removes (k ∷ ks) m = removes ks (remove k m)

  remove_absent : (k : K) (m : List (K × V)) → lookup k m ≡ none → remove k m ≡ m
  unfolding lookup remove
  remove_absent k [] h = refl
  remove_absent k ((j, v) ∷ m) h = ground (arith, remove_absent k m)

  removes_other :
      (d : K × V → Bool) (k : K) (v : V) (m' m : List (K × V))
      → lookup k m ≡ none
      → removes (map (λ e. e.0) (filter d m)) ((k, v) ∷ m')
        ≡ (k, v) ∷ removes (map (λ e. e.0) (filter d m)) m'
  unfolding lookup remove
  removes_other d k v m' [] h = refl
  removes_other d k v m' ((j, w) ∷ m) h = elim (Bool-cases (d (j, w))) [
    | inl e ↦ ground (arith, removes_other d k v (remove j m') m)
    | inr e ↦ ground (arith, removes_other d k v m' m)
  ]

  -- Removing the entries that fail a test, by their keys, keeps those that pass.
  pub removes_lem :
      (p : K → V → Bool) (d : K × V → Bool) (m : List (K × V))
      → ((k : K) (v : V) → d (k, v) ≡ not (p k v))
      → Distinct m
      → removes (map (λ e. e.0) (filter d m)) m ≡ retain p m
  unfolding retain remove
  removes_lem p d [] h u = refl
  removes_lem p d ((k, v) ∷ m) h u = elim (Bool-cases (p k v)) [
    | inl e ↦ ground (arith, h k v, removes_lem p d m h u.1, removes_other d k v m m u.0)
    | inr e ↦ ground (arith, h k v, removes_lem p d m h u.1, remove_absent k m u.0)
  ]
