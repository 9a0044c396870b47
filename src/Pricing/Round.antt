-- ===== src/Pricing/Round.antt =====
-- mint/pricing.rs: the rate of a round with three quotes or more is their median.
use zns_mint.Prelude.{
  ℕ, zero, suc, ◌+◌, ◌-◌, ◌*◌, ◌/◌, ◌%◌, ◌≤◌, ◌<◌, ◌≡◌, ◌⊎◌, inl, inr, refl, sym, subst, Bool, true,
  false, not, List, [], ◌∷◌, Option, some, arith, length, get_elem?, map, nat_eq, if◌then◌else◌,
  ◌>>=◌, All, Bool-cases, eq-of-==, ◌==◌, nat_eq, ℕ_discrete,
}
use zns_mint.Text.{Bytes}
use zns_mint.Pricing.{Decimals, place, sort_rates, middle, aggregate}

abbrev pub count : {D : Type 0} → (D → Bool) → List D → ℕ
count p [] = 0
count p (x ∷ xs) = let rest = count p xs in if p x then suc rest else rest

module _ {D : Type 0} (dec : Decimals D) where
  -- `Ord` for `Decimal`: its comparison is a total order.
  pub record IsOrder : Type 0 where
    pub total : (a b : D) → (dec.at_most a b ≡ true) ⊎ (dec.at_most b a ≡ true)
    pub transitive :
        (a b c : D) → dec.at_most a b ≡ true → dec.at_most b c ≡ true → dec.at_most a c ≡ true

  abbrev pub below : D → D → Bool
  below m y = not (dec.at_most m y)

  abbrev pub above : D → D → Bool
  above m y = not (dec.at_most y m)

  -- In the order of the list, `m` is at the position `i`: at most `i` elements are below it, and those
  -- above it fit behind that position.
  abbrev pub IsRank : ℕ → D → List D → Type 0
  IsRank i m xs = (count (below m) xs ≤ i) × (count (above m) xs + i < length xs)

  abbrev AtMost : D → D → Type 0
  AtMost x y = dec.at_most x y ≡ true

  abbrev Sorted : List D → Type 0
  Sorted [] = Unit {0}
  Sorted (x ∷ xs) = All (AtMost x) xs × Sorted xs

  count-place : (p : D → Bool) (x : D) (xs : List D) → count p (place dec x xs) ≡ count p (x ∷ xs)
  unfolding place
  count-place p x [] = refl
  count-place p x (y ∷ xs) = ground (arith, count-place p x xs)

  count-sort_rates : (p : D → Bool) (xs : List D) → count p (sort_rates dec xs) ≡ count p xs
  unfolding sort_rates
  count-sort_rates p [] = refl
  count-sort_rates p (x ∷ xs) =
      ground (arith, count-place p x (sort_rates dec xs), count-sort_rates p xs)

  length-place : (x : D) (xs : List D) → length (place dec x xs) ≡ suc (length xs)
  unfolding place
  length-place x [] = refl
  length-place x (y ∷ xs) = ground (arith, length-place x xs)

  length-sort_rates : (xs : List D) → length (sort_rates dec xs) ≡ length xs
  unfolding sort_rates
  length-sort_rates [] = refl
  length-sort_rates (x ∷ xs) =
      ground (arith, length-place x (sort_rates dec xs), length-sort_rates xs)

  All-place : (P : D → Type 0) (x : D) (xs : List D) → P x → All P xs → All P (place dec x xs)
  unfolding place
  All-place P x [] h a = (h, tt)
  All-place P x (y ∷ xs) h a =
      elim (dec.at_most x y) as (λ b. All P (if b then x ∷ y ∷ xs else y ∷ place dec x xs)) [
        | true ↦ (h, a)
        | false ↦ (a.0, All-place P x xs h a.1)
      ]

  count-le : (p : D → Bool) (xs : List D) → count p xs ≤ length xs
  count-le p [] = omega arith
  count-le p (x ∷ xs) = ground (arith, count-le p xs)

  get_found : (xs : List D) (i : ℕ) → i < length xs → (m : D) × (get_elem? xs i ≡ some m)
  get_found [] i h = absurd (omega arith)
  get_found (x ∷ xs) zero h = (x, refl)
  get_found (x ∷ xs) (suc i) h = get_found xs i (omega arith)

  get-All :
      (P : D → Type 0) (xs : List D) (i : ℕ) (m : D) → All P xs → get_elem? xs i ≡ some m → P m
  get-All P [] i m a e = absurd (ground arith)
  get-All P (x ∷ xs) zero m a e = let z : x ≡ m = ground arith in subst P z a.0
  get-All P (x ∷ xs) (suc i) m a e = get-All P xs i m a.1 e

  module _ (order : IsOrder) where
    reflexive : (x : D) → AtMost x x
    reflexive x = elim (order.total x x) [ inl e ↦ e | inr e ↦ e ]

    All-AtMost : (x y : D) (xs : List D) → AtMost x y → All (AtMost y) xs → All (AtMost x) xs
    All-AtMost x y [] h a = tt
    All-AtMost x y (z ∷ xs) h a = (order.transitive x y z h a.0, All-AtMost x y xs h a.1)

    place-Sorted : (x : D) (xs : List D) → Sorted xs → Sorted (place dec x xs)
    unfolding place
    place-Sorted x [] s = (tt, tt)
    place-Sorted x (y ∷ xs) s = elim (Bool-cases (dec.at_most x y)) [
      | inl e ↦ rw e ((e, All-AtMost x y xs e s.0), s)
      | inr e ↦
          let le : AtMost y x = elim (order.total x y) [
            | inl f ↦ absurd (ground arith)
            | inr f ↦ f
          ] in
          rw e (All-place (AtMost y) x xs le s.0, place-Sorted x xs s.1)
    ]

    sort_rates-Sorted : (xs : List D) → Sorted (sort_rates dec xs)
    unfolding sort_rates
    sort_rates-Sorted [] = tt
    sort_rates-Sorted (x ∷ xs) = place-Sorted x (sort_rates dec xs) (sort_rates-Sorted xs)

    none_below : (m : D) (xs : List D) → All (AtMost m) xs → count (below m) xs ≡ 0
    none_below m [] a = refl
    none_below m (x ∷ xs) a = let e = a.0 in ground (arith, none_below m xs a.1)

    Sorted-IsRank :
        (xs : List D) (i : ℕ) (m : D) → Sorted xs → get_elem? xs i ≡ some m → IsRank i m xs
    Sorted-IsRank [] i m s e = absurd (ground arith)
    Sorted-IsRank (x ∷ xs) zero m s e =
        let z : x ≡ m = ground arith in
        let r = reflexive m in
        let b = none_below m xs (subst (λ y. All (AtMost y) xs) z s.0) in
        let c = count-le (above m) xs in
        subst (λ y. IsRank zero m (y ∷ xs)) (sym z) (ground arith, ground arith)
    Sorted-IsRank (x ∷ xs) (suc i) m s e =
        let r = Sorted-IsRank xs i m s.1 e in
        let le = get-All (AtMost x) xs i m s.0 e in (ground arith, ground arith)

    ranked :
        (xs : List D) (i : ℕ)
        → i < length xs
        → (m : D) × (get_elem? (sort_rates dec xs) i ≡ some m) × IsRank i m xs
    ranked xs i h =
        let l = length-sort_rates xs in
        let f = get_found (sort_rates dec xs) i (omega arith) in
        let r = Sorted-IsRank (sort_rates dec xs) i f.0 (sort_rates-Sorted xs) f.1 in
        let b = count-sort_rates (below f.0) xs in
        let a = count-sort_rates (above f.0) xs in (f.0, f.1, (omega arith, omega arith))

    -- The median of a list: of an odd one its middle, of an even one the mean of the two.
    abbrev pub IsMedian : Option D → List D → Type 0
    IsMedian o xs =
        ((k : ℕ) × (m : D) × (length xs ≡ suc (2 * k)) × (o ≡ some m) × IsRank k m xs)
        ⊎ ((k : ℕ) × (a : D) × (b : D) × (length xs ≡ 2 * suc k)
            × (o ≡ some (dec.mean a b))
            × IsRank k a xs
            × IsRank (suc k) b xs)

    odd-IsMedian :
        (xs : List D) (k : ℕ)
        → length xs ≡ suc (2 * k)
        → IsMedian (middle dec (sort_rates dec xs)) xs
    unfolding middle ℕ_discrete
    odd-IsMedian xs k h =
        let l = length-sort_rates xs in
        let r = ranked xs k (omega arith) in
        let odd : length (sort_rates dec xs) % 2 ≡ 1 = omega arith in
        let mid : length (sort_rates dec xs) / 2 ≡ k = omega arith in
        inl (k, r.0, h, rw (odd, mid, r.1) refl, r.2)

    even-IsMedian :
        (xs : List D) (k : ℕ) → length xs ≡ 2 * suc k → IsMedian (middle dec (sort_rates dec xs)) xs
    unfolding middle ℕ_discrete
    even-IsMedian xs k h =
        let l = length-sort_rates xs in
        let a = ranked xs k (omega arith) in
        let b = ranked xs (suc k) (omega arith) in
        let even : length (sort_rates dec xs) % 2 ≡ 0 = omega arith in
        let mid : length (sort_rates dec xs) / 2 ≡ suc k = omega arith in
        let low : suc k - 1 ≡ k = omega arith in
        inr (k, a.0, b.0, h, rw (even, mid, low, a.1, b.1) refl, a.2, b.2)

    parity : (n : ℕ) → ((k : ℕ) × (suc n ≡ suc (2 * k))) ⊎ ((k : ℕ) × (suc n ≡ 2 * suc k))
    parity n = elim (Bool-cases (n % 2 == 0)) [
      | inl e ↦ inl (n / 2, omega (arith, eq-of-== (n % 2) 0 e))
      | inr e ↦ inr (n / 2, ground arith)
    ]

    middle-IsMedian :
        (x : D) (xs : List D) → IsMedian (middle dec (sort_rates dec (x ∷ xs))) (x ∷ xs)
    middle-IsMedian x xs = elim (parity (length xs)) [
      | inl (k, h) ↦ odd-IsMedian (x ∷ xs) k h
      | inr (k, h) ↦ even-IsMedian (x ∷ xs) k h
    ]

    -- Where the comparison of prices is a total order, the rate of a round of three quotes or more
    -- is their median. Of 2k + 1 quotes it is a price with at most k quotes below it and at most k
    -- above it. Of 2k + 2 quotes it is the mean of a price with at most k quotes below it and at
    -- most k + 1 above it, and a price with at most k + 1 below it and at most k above it.
    pub aggregate-IsMedian :
        (p q r : Bytes × D) (quotes : List (Bytes × D))
        → (o : Option D) × (aggregate dec (p ∷ q ∷ r ∷ quotes) ≡ (o >>= λ m. some (some m)))
          × IsMedian o (map (λ x. x.1) (p ∷ q ∷ r ∷ quotes))
    unfolding aggregate
    aggregate-IsMedian p q r quotes =
        let rates = map (λ x. x.1) (p ∷ q ∷ r ∷ quotes) in
        (
          middle dec (sort_rates dec rates),
          refl,
          middle-IsMedian p.1 (map (λ x. x.1) (q ∷ r ∷ quotes)),
        )
