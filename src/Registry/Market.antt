-- ===== src/Registry/Market.antt =====
-- mint/registry.rs: a listing is of a name that its controller holds.
use zns_mint.Prelude.{
  ◌≡◌, ◌↔◌, refl, true, false, not, ◌&&◌, Option, none, some, arith, ◌==◌, bytes_eq, nat_eq,
  if◌then◌else◌,
}
use zns_mint.Prelude.Maps.{
  Distinct, bytes_order, keep_if, lookup-insert, lookup-remove, lookup-retain,
}
use zns_mint.Chain.{Params, UnifiedAddress, TransparentAddress, BlockHeight}
use zns_mint.Name.{Name}
use zns_mint.Listing.{Listing, not_owner, is_owner_listing}
use zns_mint.Registry.{Registry, NameRecord, record_of}
use zns_mint.Registry.Listings.{
  listing, finish_clocks, is_finished, restore_listing, remove_listing, list, ok, err, is_held,
  reconcile_listings,
}

-- Where no name has two listings, a reconciliation keeps the listing of a name exactly where the
-- record of that name has the listing's controller.
pub listing-reconcile_listings :
    (s : Registry) (n : Name)
    → Distinct s.listings
    → listing (reconcile_listings s).0 n ≡ keep_if (is_held s n) (listing s n)
unfolding listing reconcile_listings
listing-reconcile_listings s n d = lookup-retain (is_held s) n s.listings d

-- The end of a clock takes off exactly the auctions that end before the height.
pub listing-finish_clocks :
    (s : Registry) (h : BlockHeight) (n : Name)
    → Distinct s.listings
    → listing (finish_clocks s h).0 n ≡ keep_if (λ l. not (is_finished h l.ask)) (listing s n)
unfolding listing finish_clocks
listing-finish_clocks s h n d = lookup-retain (λ n l. not (is_finished h l.ask)) n s.listings d

pub owner_listing_iff :
    (params : Params) (owner ua : UnifiedAddress) (pay_to : TransparentAddress)
    → is_owner_listing params owner ua pay_to ≡ true
      ↔ ((owner ≡ ua) × (params.transparent owner ≡ some pay_to))
unfolding is_owner_listing
owner_listing_iff params owner ua pay_to = split (params.transparent owner)
  where
    split :
        (o : Option TransparentAddress)
        → (owner == ua && elim o [ none ↦ false | some t ↦ t == pay_to ]) ≡ true
          ↔ ((owner ≡ ua) × (o ≡ some pay_to))
    split none = (λ e. ground arith, λ (e, f). ground arith)
    split (some t) = (λ e. (ground arith, ground arith), λ (e, f). ground arith)

-- A listing is taken exactly where the name has a record, its controller is the listing's, and
-- that controller's transparent receiver is the address to pay; then the registry is the old one
-- with the listing put in.
pub list_iff :
    (params : Params) (s s' : Registry) (l : Listing)
    → list params s l ≡ ok s' ↔ (
        (r : NameRecord) × (record_of s l.name ≡ some r)
        × (r.ua ≡ l.ua)
        × (params.transparent r.ua ≡ some l.pay_to)
        × (s' ≡ restore_listing s l))
unfolding list
list_iff params s s' l = split (record_of s l.name)
  where
    split :
        (o : Option NameRecord)
        → (elim o [
          | none ↦ err not_owner
          | some owner ↦
              if not (is_owner_listing params owner.ua l.ua l.pay_to)
              then err not_owner
              else ok (restore_listing s l)
        ])
            ≡ ok s'
          ↔ ((r : NameRecord) × (o ≡ some r)
              × (r.ua ≡ l.ua)
              × (params.transparent r.ua ≡ some l.pay_to)
              × (s' ≡ restore_listing s l))
    split none = (λ e. ground arith, λ (r, e, x, y, z). ground arith)
    split (some owner) = (
      λ e.
          let a = (owner_listing_iff params owner.ua l.ua l.pay_to).0 (ground arith) in
          (owner, refl, a.0, a.1, ground arith),
      λ (r, e, x, y, z).
          let a =
            (owner_listing_iff params owner.ua l.ua l.pay_to).1 (ground arith, ground arith) in
          ground arith,
    )

-- A new listing stands under its name, and no other listing changes.
pub listing-restore_listing :
    (s : Registry) (l : Listing) (n : Name)
    → listing (restore_listing s l) n ≡ (if l.name == n then some l else listing s n)
unfolding listing restore_listing
listing-restore_listing s l n = lookup-insert l.name n l s.listings

listing-remove_listing :
    (s : Registry) (n m : Name)
    → listing (remove_listing s n).0 m ≡ (if n == m then none else listing s m)
unfolding listing remove_listing
listing-remove_listing s n m = lookup-remove n m s.listings
