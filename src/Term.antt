-- ===== src/Term.antt =====
-- mint/note.rs: `Expiry` and `Term`, the times of a registration.
pub mod Grammar
pub mod Clock
use zns_mint.Prelude.{
  ℕ, ◌+◌, ◌*◌, ◌-◌, ◌^◌, ◌≡◌, Bool, true, false, not, ◌&&◌, ◌||◌, List, [], ◌∷◌, Option, none, some,
  ◌==◌, nat_eq, bytes_eq, Eq, ltb, leb, if◌then◌else◌, all, length, codes, some_if, ◌>>=◌,
  ℕ_discrete,
}
use zns_mint.Text.{Bytes, is_digit}
use zns_mint.Text.Decimal.{first_is}
use zns_mint.Text.Decimal
use zns_mint.Chain.{Params, Timestamp, from_seconds}

-- One Julian year, in seconds.
abbrev pub liveness_interval : ℕ
liveness_interval = 31_557_600

abbrev pub max_i64 : ℕ
max_i64 = 2 ^ 63 - 1

abbrev pub max_u64 : ℕ
max_u64 = 2 ^ 64 - 1

abbrev pub max_term_years : ℕ
max_term_years = 99

pub data Expiry : Type 0 where
  never : Expiry
  at : Timestamp → Expiry

unfoldable pub Expiry-discrete : Discrete Expiry
unfolding ℕ_discrete
Expiry-discrete = hlevel ℕ_discrete

instance abbrev pub expiry_eq : Eq Expiry
expiry_eq = record { decides = Expiry-discrete }

pub data Term : Type 0 where
  forever : Term
  years : ℕ → Term

unfoldable pub Term-discrete : Discrete Term
unfolding ℕ_discrete
Term-discrete = hlevel ℕ_discrete

instance abbrev pub term_eq : Eq Term
term_eq = record { decides = Term-discrete }

-- `Expiry::field_bytes`
unfoldable pub field_bytes : Expiry → Bytes
field_bytes never = codes "none"
field_bytes (at t) = Decimal.print t

-- `Expiry::parse`
unfoldable pub parse_expiry : Params → Bytes → Option Expiry
parse_expiry params field =
    if field == codes "none"
    then some never
    else if length field == 0 || ltb 20 (length field) || not (all is_digit field)
    then none
    else if ltb 1 (length field) && first_is b'0' field
    then none
    else do seconds ← Decimal.parse max_i64 field; t ← from_seconds params seconds; some (at t)

-- `Expiry::expired`
abbrev pub expired : Expiry → Timestamp → Bool
expired never mtp = false
expired (at t) mtp = leb t mtp

-- `Term::duration`, in seconds
abbrev pub duration : Term → ℕ
duration forever = 0
duration (years n) = n * liveness_interval

-- `Timestamp::checked_add`
abbrev pub checked_add : Params → Timestamp → ℕ → Option Timestamp
checked_add params t d = from_seconds params (t + d)

-- The last match of `Expiry::extend`: nothing beyond 99 years ahead of the median time. The sum that
-- bounds it is in range, since a median time is a u32.
abbrev within_horizon : Expiry → Timestamp → Option Expiry
within_horizon never mtp = some never
within_horizon (at t) mtp =
    if ltb (mtp + max_term_years * liveness_interval) t then none else some (at t)

-- The first match of `Expiry::extend`.
extended : Params → Expiry → Option Term → Option Expiry
extended params expiry none = some expiry
extended params never (some term) = none
extended params (at t) (some forever) = some never
extended params (at t) (some (years n)) = do
  t' ← checked_add params t (duration (years n))
  some (at t')

-- `Expiry::extend`. A term is of 1 to 99 years and a time is a u32 or below the horizon, so that the
-- product in seconds and the sum fit an i64.
unfoldable pub extend : Params → Expiry → Option Term → Timestamp → Option Expiry
unfolding extended
extend params expiry term mtp = do e ← extended params expiry term; within_horizon e mtp

-- `strip_suffix` of one byte.
unfoldable pub strip_suffix : ℕ → Bytes → Option Bytes
strip_suffix b [] = none
strip_suffix b (c ∷ []) = some_if (c == b) []
strip_suffix b (c ∷ d ∷ s) = do rest ← strip_suffix b (d ∷ s); some (c ∷ rest)

-- `Term::parse`
unfoldable pub parse_term : Bytes → Option Term
parse_term field = if field == codes "forever" then some forever else do
  digits ← strip_suffix b'y' field
  if length digits == 0 || first_is b'0' digits || not (all is_digit digits)
      then none
      else do n ← Decimal.parse max_u64 digits; some_if (leb 1 n && leb n max_term_years) (years n)

-- `Term::claim_expiry`
unfoldable pub claim_expiry : Params → Term → Timestamp → Option Expiry
claim_expiry params forever mtp = some never
claim_expiry params (years n) mtp = do t ← checked_add params mtp (duration (years n)); some (at t)
