-- ===== src/Otp/Code.antt =====
-- mint/treasury/otp.rs: the six digits of a passcode.
use zns_mint.Prelude.{
  ℕ, zero, suc, ◌+◌, ◌-◌, ◌/◌, ◌%◌, ◌^◌, ◌≤◌, ◌<◌, ◌≡◌, refl, ap, ◌∙◌, true, ◌&&◌, List, [], ◌∷◌,
  Option, none, some, arith, ◌==◌, nat_eq, if◌then◌else◌, all, length, ℕ_discrete,
}
use zns_mint.Text.{is_digit}
use zns_mint.Text.Decimal.{parse, scan, scan_last}

-- The loop of `digits`: the last digit of `n` and those before it, `k` in all.
digits_of : ℕ → ℕ → List ℕ → List ℕ
digits_of zero n out = out
digits_of (suc k) n out = digits_of k (n / 10) ((b'0' + n % 10) ∷ out)

-- `OtpCode::digits`
unfoldable pub digits : ℕ → List ℕ
unfolding digits_of
digits code = digits_of 6 code []

-- `OtpCode::from_digits`: six digits are always a u32.
unfoldable pub from_digits : List ℕ → Option ℕ
from_digits s = if length s == 6 && all is_digit s then parse (2 ^ 32 - 1) s else none

scan-digits_of :
    (top k n : ℕ) (out : List ℕ)
    → n < 10 ^ k
    → n ≤ top
    → scan top (digits_of k n out) 0 ≡ scan top out n
unfolding digits_of
scan-digits_of top zero n out lt fits = let e : 0 ≡ n = omega arith in rw (← e)
scan-digits_of top (suc k) n out lt fits =
    scan-digits_of top k (n / 10) ((b'0' + n % 10) ∷ out) (omega arith) (omega arith)
    ∙ scan_last top n out fits

digits_of-all :
    (k n : ℕ) (out : List ℕ) → all is_digit out ≡ true → all is_digit (digits_of k n out) ≡ true
unfolding digits_of
digits_of-all zero n out a = a
digits_of-all (suc k) n out a = digits_of-all k (n / 10) ((b'0' + n % 10) ∷ out) (ground arith)

pub all-digits : (code : ℕ) → all is_digit (digits code) ≡ true
unfolding digits
all-digits code = digits_of-all 6 code [] refl

-- Every passcode below 1,000,000 is read back from its six digits.
pub from_digits-digits : (code : ℕ) → code < 1000000 → from_digits (digits code) ≡ some code
unfolding from_digits digits parse ℕ_discrete
from_digits-digits code lt =
    ap (λ b. if b then scan (2 ^ 32 - 1) (digits_of 6 code []) 0 else none)
      (digits_of-all 6 code [] refl)
    ∙ scan-digits_of (2 ^ 32 - 1) 6 code [] (ground arith) (ground arith)
    ∙ unfold scan in refl
