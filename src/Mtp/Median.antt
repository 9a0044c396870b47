-- ===== src/Mtp/Median.antt =====
-- mint/mtp.rs: `current` is the median of the recorded times.
use zns_mint.Prelude.{
  ℕ, zero, suc, ◌+◌, ◌/◌, ◌≤◌, ◌<◌, ◌≡◌, ◌↔◌, refl, Bool, List, [], ◌∷◌, Option, none, some, arith,
  ltb, leb, if◌then◌else◌, length, get_elem?, map, All,
}
use zns_mint.Chain.{Timestamp}
use zns_mint.Mtp.{
  MtpTracker, place, sort, current, header_time_ok, accepted, unavailable, not_after_median,
  too_far_ahead, max_time_since_median,
}

-- How many of the numbers satisfy a test.
abbrev pub count : (ℕ → Bool) → List ℕ → ℕ
count p [] = 0
count p (x ∷ xs) = if p x then suc (count p xs) else count p xs

-- Each number is at most those behind it.
abbrev pub Sorted : List ℕ → Type 0
Sorted [] = Unit {0}
Sorted (x ∷ xs) = All (λ y. x ≤ y) xs × Sorted xs

count-place : (p : ℕ → Bool) (x : ℕ) (xs : List ℕ) → count p (place x xs) ≡ count p (x ∷ xs)
unfolding place
count-place p x [] = refl
count-place p x (y ∷ xs) = ground (arith, count-place p x xs)

count-sort : (p : ℕ → Bool) (xs : List ℕ) → count p (sort xs) ≡ count p xs
unfolding sort
count-sort p [] = refl
count-sort p (x ∷ xs) = ground (arith, count-place p x (sort xs), count-sort p xs)

length-place : (x : ℕ) (xs : List ℕ) → length (place x xs) ≡ suc (length xs)
unfolding place
length-place x [] = refl
length-place x (y ∷ xs) = ground (arith, length-place x xs)

length-sort : (xs : List ℕ) → length (sort xs) ≡ length xs
unfolding sort
length-sort [] = refl
length-sort (x ∷ xs) = ground (arith, length-place x (sort xs), length-sort xs)

All-le : (x y : ℕ) (xs : List ℕ) → x ≤ y → All (λ z. y ≤ z) xs → All (λ z. x ≤ z) xs
All-le x y [] le a = tt
All-le x y (z ∷ xs) le a = (omega arith, All-le x y xs le a.1)

All-place : (y x : ℕ) (xs : List ℕ) → y ≤ x → All (λ z. y ≤ z) xs → All (λ z. y ≤ z) (place x xs)
unfolding place
All-place y x [] le a = (le, tt)
All-place y x (z ∷ xs) le a = ground (arith, All-place y x xs)

place-Sorted : (x : ℕ) (xs : List ℕ) → Sorted xs → Sorted (place x xs)
unfolding place
place-Sorted x [] s = (tt, tt)
place-Sorted x (y ∷ xs) s = ground (arith, All-le x y xs, All-place y x xs, place-Sorted x xs s.1)

sort-Sorted : (xs : List ℕ) → Sorted (sort xs)
unfolding sort
sort-Sorted [] = tt
sort-Sorted (x ∷ xs) = place-Sorted x (sort xs) (sort-Sorted xs)

count-none : (x m : ℕ) (xs : List ℕ) → All (λ y. x ≤ y) xs → m ≤ x → count (λ y. ltb y m) xs ≡ 0
count-none x m [] a le = refl
count-none x m (y ∷ xs) a le = ground (arith, count-none x m xs a.1 le)

count-le : (p : ℕ → Bool) (xs : List ℕ) → count p xs ≤ length xs
count-le p [] = omega arith
count-le p (x ∷ xs) = ground (arith, count-le p xs)

get-All : (x : ℕ) (xs : List ℕ) (k m : ℕ) → All (λ y. x ≤ y) xs → get_elem? xs k ≡ some m → x ≤ m
get-All x [] k m a e = ground arith
get-All x (y ∷ xs) zero m a e = ground arith
get-All x (y ∷ xs) (suc k) m a e = get-All x xs k m a.1 e

Sorted-below :
    (xs : List ℕ) (k m : ℕ) → Sorted xs → get_elem? xs k ≡ some m → count (λ y. ltb y m) xs ≤ k
Sorted-below [] k m s e = ground arith
Sorted-below (x ∷ xs) zero m s e = ground (arith, count-none x m xs s.0)
Sorted-below (x ∷ xs) (suc k) m s e = ground (arith, Sorted-below xs k m s.1 e)

Sorted-above :
    (xs : List ℕ) (k m : ℕ)
    → Sorted xs
    → get_elem? xs k ≡ some m
    → count (λ y. ltb m y) xs + k < length xs
Sorted-above [] k m s e = ground arith
Sorted-above (x ∷ xs) zero m s e = ground (arith, count-le (λ y. ltb m y) xs)
Sorted-above (x ∷ xs) (suc k) m s e =
    ground (arith, Sorted-above xs k m s.1 e, get-All x xs k m s.0 e)

-- The times of a tracker.
abbrev pub times : MtpTracker → List ℕ
times tracker = map (λ b. b.1) tracker

-- Of the recorded times at most half, rounded down, are before the current median time, and fewer
-- than half, rounded up, are after it.
pub current-median :
    (tracker : MtpTracker) (m : Timestamp)
    → current tracker ≡ some m
    → (count (λ y. ltb y m) (times tracker) ≤ length (times tracker) / 2)
      × (count (λ y. ltb m y) (times tracker) + length (times tracker) / 2 < length (times tracker))
unfolding current
current-median tracker m e =
    let k = length (sort (times tracker)) / 2 in
    let s = sort-Sorted (times tracker) in
    let below = Sorted-below (sort (times tracker)) k m s e in
    let above = Sorted-above (sort (times tracker)) k m s e in
    let l = length-sort (times tracker) in
    let b = count-sort (λ y. ltb y m) (times tracker) in
    let a = count-sort (λ y. ltb m y) (times tracker) in (omega arith, omega arith)

-- A header's time is accepted exactly where there is a median time, the header is after it, and by
-- no more than 90 minutes.
pub header_time_ok_iff :
    (tracker : MtpTracker) (timestamp : ℕ)
    → header_time_ok tracker timestamp ≡ accepted ↔ (
        (m : Timestamp) × (current tracker ≡ some m)
        × (m < timestamp)
        × (timestamp ≤ m + max_time_since_median))
unfolding header_time_ok
header_time_ok_iff tracker timestamp = split (current tracker)
  where
    split :
        (o : Option Timestamp)
        → (elim o [
          | none ↦ unavailable
          | some median ↦
              if leb timestamp median
              then not_after_median
              else if ltb (median + max_time_since_median) timestamp
              then too_far_ahead
              else accepted
        ])
            ≡ accepted
          ↔ ((m : Timestamp) × (o ≡ some m)
              × (m < timestamp)
              × (timestamp ≤ m + max_time_since_median))
    split none = (λ e. ground arith, λ (m, e, x, y). ground arith)
    split (some m) = (λ e. (m, refl, ground arith, ground arith), λ (n, e, x, y). ground arith)
