-- ===== src/Market/Trade.antt =====
-- mint/sale.rs: the operations of `Market` that list, delist, and open a buy.
use zns_mint.Prelude.{
  ◌+◌, Bool, true, false, not, [], ◌∷◌, ◌++◌, Option, none, some, ◌==◌, nat_eq, bytes_eq, ltb,
  if◌then◌else◌, any, is_some,
}
use zns_mint.Chain.{
  Params, UnifiedAddress, TransparentAddress, NameCommitment, Zatoshis, BlockHeight, Timestamp,
  from_seconds,
}
use zns_mint.Name.{Name}
use zns_mint.Term.{Expiry}
use zns_mint.Listing.{
  Listing, Ask, flat, dutch, MarketRefusal, buy_open, not_owner, not_listed, in_flight, release_due,
  already_open, code_taken, payment_taken, early, held, is_owner_listing, price_at,
}
use zns_mint.Otp.{OtpCode, d_otp}
use zns_mint.Registry.{Registry, record_of}
use zns_mint.Registry.Listings.{Ruling, ok, err, panic, listing}
use zns_mint.Registry.Listings
use zns_mint.Sale
use zns_mint.Sale.{BuyOtp, open_sale, get_sale, dutch_hold, same_payment}
use zns_mint.Challenge
use zns_mint.Challenge.{
  MarketChallenge, ChallengeKind, Done, done, clock_ready, codes_of, code_is_open, same_list,
  same_delist,
}
use zns_mint.Market.{
  Market, State, list, delist, open_event, challenge, record_all, record_event, close_where,
}

-- `?` on a ruling.
infixl 5 ◌>>=◌
abbrev pub ◌>>=◌ {ℓ κ} : {A : Type ℓ} {B : Type κ} → Ruling A → (A → Ruling B) → Ruling B
ok a >>= f = f a
err e >>= f = err e
panic >>= f = panic

-- `Market::list`
unfoldable pub list_name : Params → Market → Registry → Listing → BlockHeight → Ruling State
unfolding record_all
list_name params m s l height = do
  _ ← clock_ready l.ask height
  if Sale.is_open m.sales l.name
      then err buy_open
      else do s' ← Listings.list params s l; ok (record_event m height (list l), s')

-- `Market::delist`
unfoldable pub delist_name : Market → Registry → Name → UnifiedAddress → BlockHeight → Ruling State
unfolding record_all
delist_name m s n u height =
    if Sale.is_open m.sales n
    then err buy_open
    else do s' ← Listings.delist s n u; ok (record_event m height (delist n), s')

-- What a buyer pays: the address, the price, and whether a clock sets it.
unfoldable pub quote_ask :
    Listing → Ask → BlockHeight → Ruling (TransparentAddress × Zatoshis × Bool)
quote_ask l (flat price) height = ok (l.pay_to, price, false)
quote_ask l (dutch clock) height =
    if ltb height clock.start then err (early clock.start) else elim (price_at clock height) [
      | none ↦ err not_listed
      | some price ↦ ok (l.pay_to, price, true)
    ]

unfoldable pub quote_listing :
    Params
    → Option Listing
    → UnifiedAddress
    → BlockHeight
    → Ruling (TransparentAddress × Zatoshis × Bool)
unfolding quote_ask
quote_listing params none owner height = err not_listed
quote_listing params (some l) owner height =
    if not (is_owner_listing params owner l.ua l.pay_to)
    then err not_owner
    else quote_ask l l.ask height

abbrev pub already : Option Timestamp → MarketRefusal
already none = already_open
already (some until) = held until

-- The end of `open_buy`: the sale is opened and logged, and the challenges for the name close.
unfoldable pub open_quoted :
    Params
    → Market
    → Name
    → UnifiedAddress
    → UnifiedAddress
    → Expiry
    → NameCommitment
    → OtpCode
    → Timestamp
    → BlockHeight
    → TransparentAddress × Zatoshis × Bool
    → Ruling (Market × BuyOtp)
unfolding open_sale get_sale record_all close_where
open_quoted params m n bob owner term live code mtp height (pay_to, price, by_clock) =
    elim (open_sale params m.sales n bob owner pay_to price term live code by_clock mtp) [
      | none ↦ err already_open
      | some (sales, otp) ↦ elim (get_sale sales n) [
        | none ↦ panic
        | some sale ↦
            let m' = record_event (record m { sales = sales }) height (open_event sale) in
            ok (close_where m' height (λ c. Challenge.name c.kind == n), otp)
      ]
    ]

unfoldable pub open_buy :
    Params
    → Market
    → Registry
    → Name
    → UnifiedAddress
    → UnifiedAddress
    → Expiry
    → NameCommitment
    → Bool
    → Bool
    → OtpCode
    → Timestamp
    → BlockHeight
    → Ruling (Market × BuyOtp)
unfolding dutch_hold quote_listing open_quoted same_payment
open_buy params m s n bob owner term live is_release_due note_pending code mtp height =
    if Sale.is_open m.sales n then err (already (dutch_hold m.sales n)) else do
      quote ← quote_listing params (listing s n) owner height
      if is_release_due
          then err release_due
          else if note_pending
          then err in_flight
          else if same_payment m.sales quote.0 quote.1 code
          then err payment_taken
          else open_quoted params m n bob owner term live code mtp height quote

-- `push_challenge` with the challenge that `propose_list` and `propose_delist` build
unfoldable pub push_challenge :
    Params → Market → ChallengeKind → OtpCode → Timestamp → BlockHeight → Ruling Market
unfolding record_all
push_challenge params m kind code mtp height = elim (from_seconds params (mtp + d_otp)) [
  | none ↦ panic
  | some expires_at ↦
      let c : MarketChallenge = record {
        kind = kind;
        code = code;
        expires_at = expires_at;
        relayed = false;
        attempts = 0;
      } in
      let m' = record_event m height (challenge c) in
      ok (record m' { challenges = m'.challenges ++ c ∷ [] })
]

unfoldable pub propose_list :
    Params → Market → Listing → UnifiedAddress → OtpCode → Timestamp → BlockHeight → Ruling Market
unfolding push_challenge
propose_list params m l owner code mtp height = do
  _ ← clock_ready l.ask height
  if not (is_owner_listing params owner l.ua l.pay_to)
      then err not_owner
      else if Sale.is_open m.sales l.name
      then err buy_open
      else if any (λ c. same_list l c.kind) m.challenges
      then ok m
      else if code_is_open m.challenges code
      then err code_taken
      else push_challenge params m (ChallengeKind.list l) code mtp height

-- `registry.record(name).is_none_or(|record| record.ua != *ua)`
abbrev pub is_foreign : Registry → Name → UnifiedAddress → Bool
is_foreign s n u = elim (record_of s n) [ none ↦ true | some r ↦ not (r.ua == u) ]

unfoldable pub propose_delist :
    Params
    → Market
    → Registry
    → Name
    → UnifiedAddress
    → OtpCode
    → Timestamp
    → BlockHeight
    → Ruling Market
unfolding push_challenge
propose_delist params m s n u code mtp height =
    if is_foreign s n u
    then err not_owner
    else if Sale.is_open m.sales n
    then err buy_open
    else if not (is_some (listing s n))
    then err not_listed
    else if any (λ c. same_delist n u c.kind) m.challenges
    then ok m
    else if code_is_open m.challenges code
    then err code_taken
    else push_challenge params m (ChallengeKind.delist n u) code mtp height
