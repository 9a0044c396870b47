-- ===== src/Text/Decimal.antt =====
-- Decimal numbers: `to_string` of an unsigned integer and `str::parse`, whose result has to fit.
pub mod Length
pub mod Canonical
use zns_mint.Prelude.{
  ℕ, zero, suc, ◌+◌, ◌-◌, ◌*◌, ◌/◌, ◌%◌, ◌≤◌, ◌<◌, ◌≡◌, refl, ◌≢◌, ◌∙◌, Bool, true, false, ◌&&◌,
  List, [], ◌∷◌, Option, none, some, arith, ◌==◌, nat_eq, leb, if◌then◌else◌, all, ◌++◌,
  append_assoc, all-append, ℕ_discrete, codes, length,
}

abbrev is_digit : ℕ → Bool
is_digit c = leb b'0' c && leb c b'9'

-- One digit a round, the last one first. A number below `10 ^ f` is done within `f` rounds.
digits : ℕ → ℕ → List ℕ → List ℕ
digits zero n out = out
digits (suc f) n out =
    let rest = digits f (n / 10) ((b'0' + n % 10) ∷ out) in if n == 0 then out else rest

-- `n.to_string()`: `n` rounds are enough for `n`.
unfoldable pub print : ℕ → List ℕ
unfolding digits
print n = if n == 0 then b'0' ∷ [] else digits n n []

-- The digits of a text behind the number `n`; `none` where the number does not fit below `top`.
unfoldable pub scan : ℕ → List ℕ → ℕ → Option ℕ
scan top [] n = some n
scan top (c ∷ s) n =
    let m = n * 10 + (c - b'0') in
    let rest = scan top s m in if is_digit c && leb m top then rest else none

-- `parse` to an integer with the greatest value `top`. A sign does not reach it: each caller has
-- tested for digits.
unfoldable pub parse : ℕ → List ℕ → Option ℕ
unfolding scan
parse top [] = none
parse top (c ∷ s) = scan top (c ∷ s) 0

-- Reading the last digit of `n` after the digits before it gives `n`.
pub scan_last :
    (top n : ℕ) (out : List ℕ)
    → n ≤ top
    → scan top ((b'0' + n % 10) ∷ out) (n / 10) ≡ scan top out n
unfolding scan
scan_last top n out h =
    let e : (n / 10) * 10 + ((b'0' + n % 10) - b'0') ≡ n = omega arith in ground (arith, e)

scan-digits :
    (top f n : ℕ) (out : List ℕ) → n ≤ f → n ≤ top → scan top (digits f n out) 0 ≡ scan top out n
unfolding digits
scan-digits top zero n out h fits = let e : 0 ≡ n = omega arith in rw (← e)
scan-digits top (suc f) n out h fits =
    ground (arith, scan-digits top f (n / 10) ((b'0' + n % 10) ∷ out), scan_last top n out fits)

digits-ne-nil : (f n : ℕ) (out : List ℕ) → out ≢ [] → digits f n out ≢ []
unfolding digits
digits-ne-nil zero n out h = h
digits-ne-nil (suc f) n out h = ground (arith, digits-ne-nil f (n / 10) ((b'0' + n % 10) ∷ out))

parse-scan : (top : ℕ) (s : List ℕ) → s ≢ [] → parse top s ≡ scan top s 0
unfolding parse
parse-scan top [] h = absurd (h refl)
parse-scan top (c ∷ s) h = refl

print-digits : (n : ℕ) → n ≢ 0 → print n ≡ digits n n []
unfolding print
print-digits n h = ground arith

pub print-ne-nil : (n : ℕ) → print n ≢ []
unfolding print digits
print-ne-nil zero = ground arith
print-ne-nil (suc n) = ground (arith, digits-ne-nil n (suc n / 10) ((b'0' + suc n % 10) ∷ []))

-- Every number that fits is read back from its print.
pub parse-print : (top n : ℕ) → n ≤ top → parse top (print n) ≡ some n
unfolding scan
parse-print top zero h = unfold print parse in ground arith
parse-print top (suc n) h =
    parse-scan top (print (suc n)) (print-ne-nil (suc n))
    ∙ rw (print-digits (suc n) (omega arith)) (scan-digits top (suc n) (suc n) [] (omega arith) h)

digits-all :
    (f n : ℕ) (out : List ℕ) → all is_digit out ≡ true → all is_digit (digits f n out) ≡ true
unfolding digits
digits-all zero n out h = h
digits-all (suc f) n out h = ground (arith, digits-all f (n / 10) ((b'0' + n % 10) ∷ out))

-- A print holds digits only.
pub print-all : (n : ℕ) → all is_digit (print n) ≡ true
unfolding print
print-all n = ground (arith, digits-all n n [] refl)

-- No leading zero: the first digit of a number above 9 is not `0`.
abbrev pub first_is : ℕ → List ℕ → Bool
first_is b [] = false
first_is b (c ∷ s) = c == b

digits-first : (f n : ℕ) (out : List ℕ) → n ≤ f → n ≢ 0 → first_is b'0' (digits f n out) ≡ false
unfolding digits
digits-first zero n out h nz = absurd (nz (omega arith))
digits-first (suc f) n out h nz =
    ground (arith, last_round f, digits-first f (n / 10) ((b'0' + n % 10) ∷ out))
  where
    last_round : (g : ℕ) → digits g 0 ((b'0' + n % 10) ∷ out) ≡ (b'0' + n % 10) ∷ out
    last_round zero = refl
    last_round (suc g) = ground arith

pub print-first : (n : ℕ) → n ≢ 0 → first_is b'0' (print n) ≡ false
print-first n h = rw (print-digits n h) (digits-first n n [] (omega arith) h)
