-- ===== src/Market/Decode.antt =====
-- mint/sale.rs and mint.rs: `MarketRequest::decode`, the reply to a buyer, and `MintInbound`, what a
-- memo to the Treasury says.
use zns_mint.Prelude.{
  not, List, [], ◌∷◌, Option, none, some, ◌==◌, bytes_eq, nat_eq, leb, if◌then◌else◌, length, codes,
  some_if, ◌>>=◌,
}
use zns_mint.Text.{Bytes}
use zns_mint.Text.Split.{split, join}
use zns_mint.Text.Decimal
use zns_mint.Chain.{Params, Zatoshis, Timestamp}
use zns_mint.Note.Codec.{memo_len}
use zns_mint.Listing.{Clock, flat, dutch, is_valid}
use zns_mint.Request.{Request}
use zns_mint.Request.Decode
use zns_mint.Request.Decode.{decode_zns, decode_name_and_ua}
use zns_mint.Payment.Zec.{encode_zec, decode_zec, decode_height}
use zns_mint.Otp.{OtpMemo}
use zns_mint.Otp.Code.{digits}
use zns_mint.Otp.Memo
use zns_mint.Otp.Memo.{decode_t1}
use zns_mint.Sale.{BuyOtp}
use zns_mint.Market.Admit.{MarketRequest, list, delist, buy}

-- A parser takes the first field that it wants, and leaves the others.
abbrev next : {A : Type 0} → (Bytes → Option A) → List Bytes → Option (A × List Bytes)
next f [] = none
next f (x ∷ rest) = do a ← f x; some (a, rest)

-- The fields of a clock.
unfoldable pub take_clock : List Bytes → Option (Clock × List Bytes)
take_clock fields = do
  s ← next decode_zec fields
  m ← next decode_zec s.1
  from ← next decode_height m.1
  to ← next decode_height from.1
  some (record { start_price = s.0; min_price = m.0; start = from.0; end = to.0 }, to.1)

unfoldable pub decode_list : Params → List Bytes → Option (MarketRequest × List Bytes)
unfolding decode_name_and_ua decode_t1
decode_list params fields = do
  named ← decode_name_and_ua params fields
  t ← next (decode_t1 params) named.1
  price ← next decode_zec t.1
  some (
    list (record { name = named.0.0; ua = named.0.1; pay_to = t.0; ask = flat price.0 }),
    price.1,
  )

unfoldable pub decode_auction : Params → List Bytes → Option (MarketRequest × List Bytes)
unfolding decode_name_and_ua decode_t1 take_clock
decode_auction params fields = do
  named ← decode_name_and_ua params fields
  t ← next (decode_t1 params) named.1
  k ← take_clock t.1
  if not (is_valid k.0)
      then none
      else some
          (list (record { name = named.0.0; ua = named.0.1; pay_to = t.0; ask = dutch k.0 }), k.1)

unfoldable pub decode_delist : Params → List Bytes → Option (MarketRequest × List Bytes)
unfolding decode_name_and_ua
decode_delist params fields = do
  named ← decode_name_and_ua params fields
  some (delist named.0.0 named.0.1, named.1)

unfoldable pub decode_buy : Params → List Bytes → Option (MarketRequest × List Bytes)
unfolding decode_name_and_ua
decode_buy params fields = do
  named ← decode_name_and_ua params fields
  some (buy named.0.0 named.0.1, named.1)

-- The match on the verb in `MarketRequest::decode`.
unfoldable pub decode_market_verb :
    Params → Bytes → List Bytes → Option (MarketRequest × List Bytes)
unfolding decode_list decode_auction decode_delist decode_buy
decode_market_verb params verb fields =
    if verb == codes "list"
    then decode_list params fields
    else if verb == codes "auction"
    then decode_auction params fields
    else if verb == codes "delist"
    then decode_delist params fields
    else if verb == codes "buy"
    then decode_buy params fields
    else none

-- `MarketRequest::decode`, on the text that the memo library gives
unfoldable pub decode_market : Params → Bytes → Option MarketRequest
unfolding decode_market_verb decode_zns
decode_market params text = decode_zns (decode_market_verb params) (split b':' text)

abbrev pub reply_fields : Params → BuyOtp → Option (Zatoshis × Timestamp) → List Bytes
reply_fields params r none =
    codes "ZNS" ∷ codes "buyotp" ∷ digits r.code ∷ r.name ∷ params.encode_ua r.ua ∷ []
reply_fields params r (some (price, until)) =
    codes "ZNS"
    ∷ codes "dutch"
    ∷ digits r.code
    ∷ r.name
    ∷ params.encode_ua r.ua
    ∷ encode_zec price
    ∷ Decimal.print until
    ∷ []

-- `BuyOtp::encode`, the text. `MemoBytes::from_bytes` refuses one of more than 512 bytes.
unfoldable pub encode_reply : Params → BuyOtp → Option Bytes
encode_reply params r =
    let text = join b':' (reply_fields params r r.dutch) in
    some_if (leb (length text) memo_len) text

pub data MintInbound : Type 0 where
  request : Request → MintInbound
  market : MarketRequest → MintInbound
  response : OtpMemo → MintInbound
  unrecognized : MintInbound

-- `MintInbound::decode`, on the text that the memo library gives
unfoldable pub classify : Params → Bytes → MintInbound
unfolding decode_market
classify params text = elim (Memo.decode params text) [
  | some r ↦ response r
  | none ↦ elim (Decode.decode params text) [
    | some r ↦ request r
    | none ↦ elim (decode_market params text) [ some r ↦ market r | none ↦ unrecognized ]
  ]
]
