-- ===== src/Payment.antt =====
-- mint/sale.rs: the amount that a buyer pays.
pub mod Zec
pub mod ZecRoundTrip
use zns_mint.Prelude.{
  ℕ, ◌+◌, ◌-◌, Bool, Option, none, some, ◌==◌, nat_eq, Eq, ℕ_discrete, leb, some_if,
}
use zns_mint.Chain.{TransparentAddress, Zatoshis}
use zns_mint.Otp.{OtpCode}
use zns_mint.Otp.Code.{digits}
use zns_mint.Text.Decimal.{parse}
use zns_mint.Term.{max_u64}

-- `Option::<u64>::eq`
unfoldable pub Amount-discrete : Discrete (Option ℕ)
unfolding ℕ_discrete
Amount-discrete = hlevel ℕ_discrete

instance abbrev pub amount_eq : Eq (Option ℕ)
amount_eq = record { decides = Amount-discrete }

-- `otp_amount`: six digits are always a number below one ZEC, so that neither `expect` fails.
unfoldable pub otp_amount : OtpCode → Zatoshis
unfolding digits parse
otp_amount code = elim (parse max_u64 (digits code)) [ none ↦ 0 | some zats ↦ zats ]

-- `u64::checked_sub` and `u64::checked_add`
abbrev pub checked_sub : ℕ → ℕ → Option ℕ
checked_sub a b = some_if (leb b a) (a - b)

abbrev pub checked_add : ℕ → ℕ → Option ℕ
checked_add a b = some_if (leb (a + b) max_u64) (a + b)

unfoldable pub payment_is_price_plus_otp : Zatoshis → Zatoshis → OtpCode → Bool
unfolding otp_amount
payment_is_price_plus_otp value price code = checked_sub value price == some (otp_amount code)

unfoldable pub payment_total : Zatoshis → OtpCode → Option ℕ
unfolding otp_amount
payment_total price code = checked_add price (otp_amount code)

-- A transparent output: the address that it pays, and the value.
abbrev pub Payment : Type 0
Payment = TransparentAddress × Zatoshis
