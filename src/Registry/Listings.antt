-- ===== src/Registry/Listings.antt =====
-- mint/registry.rs: the listings in the registry.
use zns_mint.Prelude.{
  Bool, false, not, List, [], Option, none, some, ◌==◌, nat_eq, ltb, if◌then◌else◌, is_some, ◌>>=◌,
  map, filter,
}
use zns_mint.Prelude.Maps.{lookup, insert, remove, retain, bytes_order}
use zns_mint.Chain.{Params, UnifiedAddress, Zatoshis, BlockHeight}
use zns_mint.Name.{Name}
use zns_mint.Listing.{
  Listing, Ask, flat, dutch, MarketRefusal, not_owner, not_listed, is_owner_listing, price_at,
}
use zns_mint.Registry.{Registry, record_of}

unfoldable pub listing : Registry → Name → Option Listing
listing s n = lookup n s.listings

abbrev flat_price : Ask → Option Zatoshis
flat_price (flat p) = some p
flat_price (dutch c) = none

-- `Registry::price`
unfoldable pub price : Registry → Name → Option Zatoshis
price s n = do l ← listing s n; flat_price l.ask

abbrev ask_price : Ask → BlockHeight → Option Zatoshis
ask_price (flat p) height = some p
ask_price (dutch c) height = price_at c height

-- `Registry::quote`
unfoldable pub quote : Registry → Name → BlockHeight → Option Zatoshis
quote s n height = do l ← listing s n; ask_price l.ask height

abbrev pub is_finished : BlockHeight → Ask → Bool
is_finished height (flat p) = false
is_finished height (dutch c) = ltb c.end height

-- `finish_clocks`: the registry after it, and the names taken off
unfoldable pub finish_clocks : Registry → BlockHeight → Registry × List Name
finish_clocks s height = (
  record s { listings = retain (λ n l. not (is_finished height l.ask)) s.listings },
  map (λ e. e.0) (filter (λ e. is_finished height e.1.ask) s.listings),
)

unfoldable pub restore_listing : Registry → Listing → Registry
restore_listing s l = record s { listings = insert l.name l s.listings }

-- `remove_listing`: whether there was one
unfoldable pub remove_listing : Registry → Name → Registry × Bool
remove_listing s n = (record s { listings = remove n s.listings }, is_some (lookup n s.listings))

unfoldable pub clear_listings : Registry → Registry
clear_listings s = record s { listings = [] }

-- The result of a market operation.
pub data Ruling {ℓ} (A : Type ℓ) : Type ℓ where
  ok : A → Ruling A
  err : MarketRefusal → Ruling A
  -- an `expect` that fails
  panic : Ruling A

-- `Registry::list`
unfoldable pub list : Params → Registry → Listing → Ruling Registry
list params s l = elim (record_of s l.name) [
  | none ↦ err not_owner
  | some owner ↦
      if not (is_owner_listing params owner.ua l.ua l.pay_to)
      then err not_owner
      else ok (restore_listing s l)
]

-- `Registry::delist`
unfoldable pub delist : Registry → Name → UnifiedAddress → Ruling Registry
delist s n u = elim (record_of s n) [
  | none ↦ err not_owner
  | some r ↦
      if not (r.ua == u)
      then err not_owner
      else if (remove_listing s n).1
      then ok (remove_listing s n).0
      else err not_listed
]

-- The controller of the listing holds the name.
abbrev pub is_held : Registry → Name → Listing → Bool
is_held s n l = elim (lookup n s.records) [ none ↦ false | some r ↦ r.ua == l.ua ]

-- `reconcile_listings`: the registry after it, and the names taken off
unfoldable pub reconcile_listings : Registry → Registry × List Name
reconcile_listings s = (
  record s { listings = retain (is_held s) s.listings },
  map (λ e. e.0) (filter (λ e. not (is_held s e.0 e.1)) s.listings),
)
