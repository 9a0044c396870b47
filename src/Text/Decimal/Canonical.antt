-- ===== src/Text/Decimal/Canonical.antt =====
-- A decimal text without a leading zero is the print of the number that it spells.
use zns_mint.Prelude.{
  ℕ, zero, suc, ◌+◌, ◌-◌, ◌*◌, ◌/◌, ◌%◌, ◌≤◌, ◌<◌, ◌≡◌, refl, sym, ◌≢◌, false, ◌&&◌, List, [], ◌∷◌,
  ◌++◌, append-nil, some, arith, length, ltb, nat_eq,
}
use zns_mint.Text.Decimal.{digits, print, scan, parse, first_is, print-digits}

digits_zero : (f : ℕ) (out : List ℕ) → digits f 0 out ≡ out
unfolding digits
digits_zero zero out = refl
digits_zero (suc f) out = ground arith

-- Any two sufficient counts of rounds give the same digits.
digits_fuel : (f g n : ℕ) (out : List ℕ) → n ≤ f → n ≤ g → digits f n out ≡ digits g n out
unfolding digits
digits_fuel zero g n out h k = let e : n ≡ 0 = omega arith in rw e (sym (digits_zero g out))
digits_fuel (suc f) zero n out h k = let e : n ≡ 0 = omega arith in rw e (digits_zero (suc f) out)
digits_fuel (suc f) (suc g) n out h k =
    ground (arith, digits_fuel f g (n / 10) ((b'0' + n % 10) ∷ out))

digits_step :
    (f n : ℕ) (out : List ℕ)
    → n ≢ 0
    → n ≤ f
    → digits f n out ≡ digits f (n / 10) ((b'0' + n % 10) ∷ out)
digits_step zero n out nz h = absurd (nz (omega arith))
digits_step (suc f) n out nz h =
    unfold digits in ground (arith, digits_fuel f (suc f) (n / 10) ((b'0' + n % 10) ∷ out))

le-scan : (top : ℕ) (s : List ℕ) (n m : ℕ) → scan top s n ≡ some m → n ≤ m
unfolding scan
le-scan top [] n m h = ground arith
le-scan top (c ∷ s) n m h = ground (arith, le-scan top s (n * 10 + (c - b'0')) m)

-- The digits of what `s` spells behind `n` are those of `n`, and then `s`.
digits-scan :
    (top : ℕ) (s : List ℕ) (n m f : ℕ) (out : List ℕ)
    → n ≢ 0
    → m ≤ f
    → scan top s n ≡ some m
    → digits f m out ≡ digits f n (s ++ out)
unfolding scan
digits-scan top [] n m f out nz fits h = ground arith
digits-scan top (c ∷ s) n m f out nz fits h = ground (
  arith,
  digits-scan top s (n * 10 + (c - b'0')) m f out,
  le-scan top s (n * 10 + (c - b'0')) m,
  digits_step f (n * 10 + (c - b'0')) (s ++ out),
  quotient (c - b'0'),
)
  where
    quotient : (d : ℕ) → d < 10 → ((n * 10 + d) / 10 ≡ n) × ((n * 10 + d) % 10 ≡ d)
    quotient d lt = (omega arith, omega arith)

print_digit : (d : ℕ) → d < 10 → print d ≡ (b'0' + d) ∷ []
unfolding print
print_digit zero h = ground arith
print_digit (suc d) h =
    ground (arith, digits_step (suc d) (suc d) [], digits_zero (suc d) ((b'0' + suc d) ∷ []), small)
  where
    small : (suc d / 10 ≡ 0) × (suc d % 10 ≡ suc d)
    small = (omega arith, omega arith)

-- What `parse` reads from a text without a leading zero is printed as that text.
pub print-parse :
    (top : ℕ) (s : List ℕ) (m : ℕ)
    → parse top s ≡ some m
    → (ltb 1 (length s) && first_is b'0' s) ≡ false
    → print m ≡ s
unfolding parse
print-parse top [] m h k = cc
print-parse top (c ∷ []) m h k = unfold scan in ground (arith, print_digit m)
print-parse top (c ∷ d ∷ s) m h k = ground (
  arith,
  digits-scan top (d ∷ s) (c - b'0') m m [],
  first_step,
  le-scan top (d ∷ s) (c - b'0') m,
  print-digits m,
  digits_step m (c - b'0') (d ∷ s),
  digits_zero m (c ∷ d ∷ s),
  append-nil s,
)
  where
    first_step : (0 < c - b'0') × (c - b'0' < 10) × (scan top (d ∷ s) (c - b'0') ≡ some m)
    first_step = unfold scan in ground arith
