-- ===== src/Listing.antt =====
-- mint/sale.rs: what is for sale, and at which price.
pub mod Price
use zns_mint.Prelude.{
  ℕ, ◌+◌, ◌-◌, ◌*◌, ◌/◌, Bool, true, false, not, ◌&&◌, ◌||◌, Option, none, some, Eq, ℕ_discrete,
  Bytes-discrete, ◌==◌, nat_eq, ltb, if◌then◌else◌,
}
use zns_mint.Chain.{
  Params, UnifiedAddress, TransparentAddress, Zatoshis, BlockHeight, Timestamp, zatoshis,
}
use zns_mint.Name.{Name}

-- A falling price. The start block quotes `start_price`, the end block `min_price`.
pub record Clock : Type 0 where
  pub start_price : Zatoshis
  pub min_price : Zatoshis
  pub start : BlockHeight
  pub end : BlockHeight

unfoldable pub Clock-discrete : Discrete Clock
unfolding ℕ_discrete
Clock-discrete = hlevel ℕ_discrete

instance abbrev pub clock_eq : Eq Clock
clock_eq = record { decides = Clock-discrete }

-- `Clock::is_valid`
unfoldable pub is_valid : Clock → Bool
is_valid c = ltb c.start c.end && ltb c.min_price c.start_price

-- `Clock::price_at`. The product is a u128 and does not wrap: a price is at most 2^51, a height 2^32.
-- The fall fits a u64, since it is at most the difference of the prices.
unfoldable pub price_at : Clock → BlockHeight → Option Zatoshis
unfolding is_valid
price_at c height =
    if not (is_valid c) || ltb height c.start || ltb c.end height
    then none
    else let span = c.end - c.start in
      let elapsed = height - c.start in
      let drop = c.start_price - c.min_price in zatoshis (c.start_price - drop * elapsed / span)

pub data Ask : Type 0 where
  flat : Zatoshis → Ask
  dutch : Clock → Ask

unfoldable pub Ask-discrete : Discrete Ask
unfolding ℕ_discrete Clock-discrete
Ask-discrete = hlevel (ℕ_discrete, Clock-discrete)

pub record Listing : Type 0 where
  pub name : Name
  pub ua : UnifiedAddress
  pub pay_to : TransparentAddress
  pub ask : Ask

unfoldable pub Listing-discrete : Discrete Listing
unfolding ℕ_discrete Bytes-discrete Ask-discrete
Listing-discrete = hlevel (ℕ_discrete, Ask-discrete)

instance abbrev pub listing_eq : Eq Listing
listing_eq = record { decides = Listing-discrete }

pub data MarketRefusal : Type 0 where
  buy_open not_owner not_listed in_flight release_due already_open code_taken payment_taken :
      MarketRefusal
  early : BlockHeight → MarketRefusal
  held : Timestamp → MarketRefusal
  bad_clock ended : MarketRefusal

unfoldable pub is_owner_listing :
    Params → UnifiedAddress → UnifiedAddress → TransparentAddress → Bool
is_owner_listing params owner ua pay_to =
    owner == ua && elim (params.transparent owner) [ none ↦ false | some t ↦ t == pay_to ]
