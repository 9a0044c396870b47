-- ===== src/Presale.antt =====
-- mint/presale.rs: the table of protected names, and the key that the codes are derived from.
pub mod Table
use zns_mint.Prelude.{
  ℕ, Bool, true, false, List, [], ◌∷◌, Option, none, some, ◌==◌, nat_eq, bytes_eq, Eq, ltb,
  if◌then◌else◌, ◌^◌, ◌%◌, ◌+◌, ◌*◌,
}
use zns_mint.Prelude.Maps.{lookup, insert, bytes_order}
use zns_mint.Text.{Bytes}
use zns_mint.Chain.{TransparentAddress, TxId, Zatoshis, Timestamp}
use zns_mint.Name
use zns_mint.Name.{Name}
use zns_mint.Request.{AccessCode}
use zns_mint.Otp.{OtpCode}
use zns_mint.Otp.Derive
use zns_mint.Otp.Derive.{Hmac, AuctionBind, from_mac}

pub data ProtectionStatus : Type 0 where
  unprotected : ProtectionStatus
  with_expiry : Timestamp → ProtectionStatus
  forever : ProtectionStatus

-- A row of the table: a text, which need not be a name, and a time, whose absence means forever.
pub record ProtectedRow : Type 0 where
  pub name : Bytes
  pub expiry_at : Option Timestamp

abbrev pub ProtectedNames : Type 0
ProtectedNames = List (Name × ProtectionStatus)

abbrev pub or_unprotected : Option ProtectionStatus → ProtectionStatus
or_unprotected none = unprotected
or_unprotected (some p) = p

-- `ProtectedNames::status`
unfoldable pub status : ProtectedNames → Name → ProtectionStatus
status t n = or_unprotected (lookup n t)

abbrev pub protects : ProtectionStatus → Timestamp → Bool
protects unprotected mtp = false
protects forever mtp = true
protects (with_expiry ts) mtp = ltb mtp ts

unfoldable pub is_protected : ProtectedNames → Name → Timestamp → Bool
unfolding status
is_protected t n mtp = protects (status t n) mtp

abbrev pub row_status : Option Timestamp → ProtectionStatus
row_status (some ts) = with_expiry ts
row_status none = forever

abbrev pub max : ℕ → ℕ → ℕ
max a b = if ltb a b then b else a

-- The match of `from_rows`; `none` is its `unreachable!`.
unfoldable pub strongest : ProtectionStatus → ProtectionStatus → Option ProtectionStatus
strongest forever got = some forever
strongest unprotected forever = some forever
strongest (with_expiry a) forever = some forever
strongest (with_expiry a) (with_expiry b) = some (with_expiry (max a b))
strongest unprotected (with_expiry b) = none
strongest unprotected unprotected = none
strongest (with_expiry a) unprotected = none

-- One row of `from_rows`.
unfoldable pub add_row : ProtectedNames → ProtectedRow → Option ProtectedNames
unfolding strongest
add_row t row = elim (Name.parse row.name) [
  | none ↦ some t
  | some n ↦ elim (lookup n t) [
    | none ↦ some (insert n (row_status row.expiry_at) t)
    | some have ↦ elim (strongest have (row_status row.expiry_at)) [
      | none ↦ none
      | some p ↦ some (insert n p t)
    ]
  ]
]

-- `from_rows`: `none` is a panic.
unfoldable pub from_rows : ProtectedNames → List ProtectedRow → Option ProtectedNames
unfolding add_row
from_rows t [] = some t
from_rows t (row ∷ rows) = elim (add_row t row) [ none ↦ none | some t' ↦ from_rows t' rows ]

pub data Fetched : Type 0 where
  table : ProtectedNames → Fetched
  unconfirmed panicked : Fetched

abbrev pub loaded : Option ProtectedNames → Fetched
loaded none = panicked
loaded (some t) = table t

-- `complete`
unfoldable pub complete : List ProtectedRow → ℕ → Option ℕ → Fetched
unfolding from_rows
complete rows landed none = unconfirmed
complete rows landed (some total) =
    if total == landed then loaded (from_rows [] rows) else unconfirmed

-- `AccessCodeDerivationKey`, with HMAC-SHA256 and the bytes of a transaction id and of the hash in a
-- transparent address, which are foreign.
pub record CodeKey : Type 0 where
  pub key : Bytes
  pub hmac : Hmac
  pub txid_bytes : TxId → Bytes
  pub hash_bytes : TransparentAddress → Bytes

-- `AccessCodeDerivationKey::derive`
unfoldable pub derive : CodeKey → Name → AccessCode
unfolding from_mac
derive k n = from_mac (k.hmac k.key n)

unfoldable pub buy_otp : CodeKey → TxId → Name → OtpCode
unfolding Derive.buy
buy_otp k txid n = Derive.buy k.hmac k.key (k.txid_bytes txid) n

unfoldable pub list_otp : CodeKey → TxId → Name → Zatoshis → TransparentAddress → OtpCode
unfolding Derive.list
list_otp k txid n price pay_to =
    Derive.list k.hmac k.key (k.txid_bytes txid) n price (k.hash_bytes pay_to)

unfoldable pub auction_otp : CodeKey → TxId → Name → AuctionBind → TransparentAddress → OtpCode
unfolding Derive.auction
auction_otp k txid n bind pay_to =
    Derive.auction k.hmac k.key (k.txid_bytes txid) n bind (k.hash_bytes pay_to)

unfoldable pub delist_otp : CodeKey → TxId → Name → OtpCode
unfolding Derive.delist
delist_otp k txid n = Derive.delist k.hmac k.key (k.txid_bytes txid) n

-- `accepts`
unfoldable pub accepts : CodeKey → Name → Option AccessCode → Bool
unfolding derive
accepts k n none = false
accepts k n (some offered) = derive k n == offered
