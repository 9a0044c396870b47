-- ===== src/Text/Decimal/Length.antt =====
-- How long a decimal print is.
use native.Mathlib.Nat.{pow-suc}
use zns_mint.Prelude.{
  ℕ, zero, suc, ◌+◌, ◌/◌, ◌%◌, ◌^◌, ◌≤◌, ◌<◌, List, [], ◌∷◌, arith, length, nat_eq,
}
use zns_mint.Text.Decimal.{digits, print}

length-digits : (f n k : ℕ) (out : List ℕ) → n < 10 ^ k → length (digits f n out) ≤ length out + k
unfolding digits
length-digits zero n k out h = omega arith
length-digits (suc f) n zero out h = ground arith
length-digits (suc f) n (suc k) out h =
    let smaller : n / 10 < 10 ^ k = omega (arith, pow-suc 10 k) in
    ground (arith, length-digits f (n / 10) k ((b'0' + n % 10) ∷ out) smaller)

-- A number below `10 ^ k` takes at most `k` digits, and at least one.
pub length-print : (n k : ℕ) → n < 10 ^ suc k → length (print n) ≤ suc k
unfolding print
length-print n k h = ground (arith, length-digits n n (suc k) [] h)
