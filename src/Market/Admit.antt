-- ===== src/Market/Admit.antt =====
-- mint/sale.rs: `Market::admit`, what one market memo does, with the memo's data type.
use zns_mint.Prelude.{
  ◌*◌, Bool, false, not, ◌||◌, ◌∷◌, ◌++◌, Option, none, some, nat_eq, leb, if◌then◌else◌, codes,
}
use zns_mint.Text.{Bytes}
use zns_mint.Text.Decimal
use zns_mint.Chain.{UnifiedAddress, TxId, Zatoshis, BlockHeight, Timestamp, Params, zatoshis}
use zns_mint.Name.{Name}
use zns_mint.Treasury.{fee_actions}
use zns_mint.Listing.{Listing, Ask, flat, dutch, MarketRefusal, held, early}
use zns_mint.Otp.{OtpCode}
use zns_mint.Presale.{CodeKey, buy_otp, list_otp, auction_otp, delist_otp}
use zns_mint.Registry.{Registry, record_of, is_release_due}
use zns_mint.Registry.Listings.{Ruling, ok, err, panic}
use zns_mint.Sale.{BuyOtp}
use zns_mint.Market.{Market}
use zns_mint.Market.Trade.{open_buy, propose_list, propose_delist, is_foreign}

pub data MarketRequest : Type 0 where
  list : Listing → MarketRequest
  delist buy : Name → UnifiedAddress → MarketRequest

pub record ReturnedIntent : Type 0 where
  pub recipient : UnifiedAddress
  pub name : Name
  pub note : Bytes

pub record Admission : Type 0 where
  pub opened : Option Name
  pub returned : Option ReturnedIntent

-- `Admission::none` and `Admission::opened`
abbrev pub nothing : Admission
nothing = record { opened = none; returned = none }

abbrev pub opened_for : Name → Admission
opened_for n = record { opened = some n; returned = none }

-- The sentence of `returned_intent`.
abbrev pub sentence : Name → MarketRefusal → Option Bytes
sentence n (held until) = some (codes "ZNS:held:" ++ (n ++ b':' ∷ Decimal.print until))
sentence n (early start) = some (codes "ZNS:wait:" ++ (n ++ b':' ∷ Decimal.print start))
sentence n e = none

unfoldable pub returned_intent : Name → UnifiedAddress → MarketRefusal → Option ReturnedIntent
returned_intent n bob refusal = elim (sentence n refusal) [
  | none ↦ none
  | some note ↦ some (record { recipient = bob; name = n; note = note })
]

-- The fee of an action covers the payment's due. A product out of the monetary range is none.
unfoldable pub fee_ok : Zatoshis → Zatoshis → Bool
fee_ok marginal_fee paid = elim (zatoshis (marginal_fee * fee_actions)) [
  | none ↦ false
  | some fee ↦ leb fee paid
]

abbrev bind : Ask → CodeKey → TxId → Listing → OtpCode
bind (flat price) key txid l = list_otp key txid l.name price l.pay_to
bind (dutch clock) key txid l =
    auction_otp key txid l.name
      (record {
        start_price = clock.start_price;
        min_price = clock.min_price;
        start = clock.start;
        end = clock.end;
      })
      l.pay_to

-- The code of a list challenge.
unfoldable pub listing_code : CodeKey → TxId → Listing → OtpCode
listing_code key txid l = bind l.ask key txid l

-- A refusal is logged, and the market stays as it was; `none` is a panic.
abbrev pub kept : Market → Ruling Market → Option (Market × Admission)
kept m (ok m') = some (m', nothing)
kept m (err e) = some (m, nothing)
kept m panic = none

-- The arm of a list.
unfoldable pub admit_list :
    Params
    → Market
    → TxId
    → Listing
    → Bool
    → Registry
    → BlockHeight
    → Timestamp
    → (Name → Bool)
    → CodeKey
    → Option (Market × Admission)
unfolding listing_code
admit_list params m txid l is_paid s height mtp pending key = elim (record_of s l.name) [
  | none ↦ some (m, nothing)
  | some r ↦
      if not is_paid || is_release_due r mtp || pending l.name
      then some (m, nothing)
      else kept m (propose_list params m l r.ua (listing_code key txid l) mtp height)
]

-- The arm of a delist.
unfoldable pub admit_delist :
    Params
    → Market
    → TxId
    → Name
    → UnifiedAddress
    → Bool
    → Registry
    → BlockHeight
    → Timestamp
    → (Name → Bool)
    → CodeKey
    → Option (Market × Admission)
admit_delist params m txid n u is_paid s height mtp pending key =
    if is_foreign s n u
    then some (m, nothing)
    else if not is_paid || pending n
    then some (m, nothing)
    else kept m (propose_delist params m s n u (delist_otp key txid n) mtp height)

-- What the ruling on a buy becomes.
unfoldable pub on_buy :
    Market → Name → UnifiedAddress → Ruling (Market × BuyOtp) → Option (Market × Admission)
unfolding returned_intent
on_buy m n bob (ok r) = some (r.0, opened_for n)
on_buy m n bob (err e) = some (m, record { opened = none; returned = returned_intent n bob e })
on_buy m n bob panic = none

-- The arm of a buy.
unfoldable pub admit_buy :
    Params
    → Market
    → TxId
    → Name
    → UnifiedAddress
    → Bool
    → Registry
    → BlockHeight
    → Timestamp
    → (Name → Bool)
    → CodeKey
    → Option (Market × Admission)
unfolding on_buy
admit_buy params m txid n bob is_paid s height mtp pending key = elim (record_of s n) [
  | none ↦ some (m, nothing)
  | some r ↦
      if not is_paid
      then some (m, nothing)
      else on_buy m n bob (
          open_buy params m s n bob r.ua r.expires_at r.commitment (is_release_due r mtp)
            (pending n) (buy_otp key txid n) mtp height)
]

-- `admit`: the market after it, and what the caller does next. `none` is a panic.
unfoldable pub admit :
    Params
    → Market
    → TxId
    → MarketRequest
    → Zatoshis
    → Registry
    → Zatoshis
    → BlockHeight
    → Timestamp
    → (Name → Bool)
    → CodeKey
    → Option (Market × Admission)
unfolding admit_list admit_delist admit_buy
admit params m txid (list l) paid s marginal_fee height mtp pending key =
    admit_list params m txid l (fee_ok marginal_fee paid) s height mtp pending key
admit params m txid (delist n u) paid s marginal_fee height mtp pending key =
    admit_delist params m txid n u (fee_ok marginal_fee paid) s height mtp pending key
admit params m txid (buy n bob) paid s marginal_fee height mtp pending key =
    admit_buy params m txid n bob (fee_ok marginal_fee paid) s height mtp pending key
