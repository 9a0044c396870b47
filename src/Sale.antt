-- ===== src/Sale.antt =====
-- mint/sale.rs: `SaleQueue`, the open sales from the buyer's code to the note of the sale.
pub mod Observe
pub mod Open
pub mod Owed
pub mod Settle
pub mod Leave
use zns_mint.Prelude.{
  ℕ, ◌+◌, Bool, true, false, not, ◌&&◌, ◌||◌, List, [], ◌∷◌, ◌++◌, Option, none, some, ◌==◌, nat_eq,
  bytes_eq, ltb, leb, if◌then◌else◌, any, filter, map, find, ◌>>=◌, some_if, is_some,
}
use zns_mint.Chain.{
  Params, UnifiedAddress, TransparentAddress, NameCommitment, Zatoshis, Timestamp, from_seconds,
}
use zns_mint.Name.{Name}
use zns_mint.Term.{Expiry}
use zns_mint.Note.{NameNote}
use zns_mint.Otp.{OtpCode, d_otp}
use zns_mint.Registry.{Registry, record_of}
use zns_mint.Registry.Authorize.{sale_transfer}
use zns_mint.Payment.{Payment, payment_is_price_plus_otp, payment_total, amount_eq}

-- The reply to a buyer.
pub record BuyOtp : Type 0 where
  pub code : OtpCode
  pub name : Name
  pub ua : UnifiedAddress
  pub dutch : Option (Zatoshis × Timestamp)

-- Ten minutes, in seconds.
abbrev pub d_dutch : ℕ
d_dutch = 600

-- The fields of `Phase::Paying`.
pub record Quote : Type 0 where
  pub code : OtpCode
  pub pay_to : TransparentAddress
  pub price : Zatoshis
  pub expires_at : Timestamp
  pub relayed : Bool

pub data Phase : Type 0 where
  paying : Quote → Phase
  paid : Phase

pub record Sale : Type 0 where
  pub name : Name
  pub bob : UnifiedAddress
  pub alice : UnifiedAddress
  pub held : NameCommitment
  pub term : Expiry
  pub dutch : Bool
  pub until : Timestamp
  pub phase : Phase

abbrev pub SaleQueue : Type 0
SaleQueue = List Sale

abbrev pub is_of : Name → Sale → Bool
is_of n s = s.name == n

-- `names`
abbrev pub names : SaleQueue → List Name
names q = map (λ s. s.name) q

unfoldable pub is_open : SaleQueue → Name → Bool
is_open q n = any (is_of n) q

abbrev pub is_settled : Phase → Bool
is_settled (paying q) = false
is_settled paid = true

unfoldable pub is_paid : SaleQueue → Name → Bool
is_paid q n = any (λ s. is_of n s && is_settled s.phase) q

-- What `open` pushes.
abbrev pub opened :
    Name
    → UnifiedAddress
    → UnifiedAddress
    → TransparentAddress
    → Zatoshis
    → Expiry
    → NameCommitment
    → OtpCode
    → Bool
    → Timestamp
    → Sale
opened n bob alice pay_to price term held code dutch expires_at = record {
  name = n;
  bob = bob;
  alice = alice;
  held = held;
  term = term;
  dutch = dutch;
  until = expires_at;
  phase = paying (record {
    code = code;
    pay_to = pay_to;
    price = price;
    expires_at = expires_at;
    relayed = false;
  });
}

-- `open`: the queue after it, and the reply to Bob
unfoldable pub open_sale :
    Params
    → SaleQueue
    → Name
    → UnifiedAddress
    → UnifiedAddress
    → TransparentAddress
    → Zatoshis
    → Expiry
    → NameCommitment
    → OtpCode
    → Bool
    → Timestamp
    → Option (SaleQueue × BuyOtp)
unfolding is_open
open_sale params q n bob alice pay_to price term held code dutch mtp =
    if is_open q n then none else do
      expires_at ← from_seconds params (mtp + (if dutch then d_dutch else d_otp))
      some (
        q ++ opened n bob alice pay_to price term held code dutch expires_at ∷ [],
        record { code = code; name = n; ua = bob; dutch = some_if dutch (price, expires_at) },
      )

-- The reply that is still to be sent for one sale.
unfoldable pub reply : Sale → Option BuyOtp
reply s = elim s.phase [
  | paid ↦ none
  | paying q ↦
      if q.relayed
      then none
      else some (record {
        code = q.code;
        name = s.name;
        ua = s.bob;
        dutch = some_if s.dutch (q.price, q.expires_at);
      })
]

abbrev put {ℓ} : {A : Type ℓ} → Option A → List A → List A
put none xs = xs
put (some x) xs = x ∷ xs

unfoldable pub unrelayed : SaleQueue → List BuyOtp
unfolding reply
unrelayed [] = []
unrelayed (s ∷ q) = put (reply s) (unrelayed q)

abbrev pub pays_same : TransparentAddress → ℕ → Phase → Bool
pays_same pay_to total paid = false
pays_same pay_to total (paying q) = q.pay_to == pay_to && payment_total q.price q.code == some total

unfoldable pub same_payment : SaleQueue → TransparentAddress → Zatoshis → OtpCode → Bool
same_payment q pay_to price code = elim (payment_total price code) [
  | none ↦ true
  | some total ↦ any (λ s. pays_same pay_to total s.phase) q
]

abbrev pub set_relayed : Phase → Phase
set_relayed paid = paid
set_relayed (paying q) = paying (record q { relayed = true })

-- `relayed`, one sale
abbrev pub relay_sale : Name → Sale → Sale
relay_sale n s = record s { phase = if is_of n s then set_relayed s.phase else s.phase }

unfoldable pub relayed : SaleQueue → Name → SaleQueue
relayed q n = map (relay_sale n) q

abbrev pub seal_sale : Sale → Sale
seal_sale s = record s { phase = set_relayed s.phase }

unfoldable pub seal_relayed : SaleQueue → SaleQueue
seal_relayed q = map seal_sale q

-- `get`
unfoldable pub get_sale : SaleQueue → Name → Option Sale
get_sale q n = find (is_of n) q

unfoldable pub dutch_hold : SaleQueue → Name → Option Timestamp
unfolding get_sale
dutch_hold q n = do s ← get_sale q n; some_if s.dutch s.until

unfoldable pub restore : SaleQueue → Sale → SaleQueue
unfolding is_open
restore q s = if is_open q s.name then q else q ++ s ∷ []

abbrev pub settle : OtpCode → Phase → Phase
settle code paid = paid
settle code (paying q) = if q.code == code then paid else paying q

-- `mark_paid`, one sale
abbrev pub mark_sale : Name → OtpCode → Sale → Sale
mark_sale n code s = record s { phase = if is_of n s then settle code s.phase else s.phase }

unfoldable pub mark_paid : SaleQueue → Name → OtpCode → SaleQueue
mark_paid q n code = map (mark_sale n code) q

unfoldable pub close : SaleQueue → Name → SaleQueue
close q n = filter (λ s. not (is_of n s)) q
