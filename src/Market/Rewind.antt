-- ===== src/Market/Rewind.antt =====
-- mint/sale.rs: a rollback of the market undoes what came after its height.
use zns_mint.Prelude.{
  ◌≡◌, refl, ap, ◌∙◌, List, [], ◌∷◌, ◌++◌, arith, map, filter, leb, ◌<◌, append-nil, filter-append,
}
use zns_mint.Prelude.Maps.{insert, remove, bytes_order}
use zns_mint.Chain.{Params, BlockHeight}
use zns_mint.Registry.{Registry}
use zns_mint.Registry.Listings.{clear_listings, restore_listing, remove_listing}
use zns_mint.Sale
use zns_mint.Challenge.{restore_challenge, drop_challenge}
use zns_mint.Market
use zns_mint.Market.{
  Market, State, Stamped, MarketEvent, list, delist, open_event, paid, expire_event, close_event,
  challenge, challenge_closed, stamp, replay, replay_one, truncate_to,
}
use zns_mint.Market.Reach.{Step, Step-Logged, Reachable, step, chain, Reachable-Replays}

-- Two states with one market and one set of listings, whatever else their registries hold.
abbrev pub SameMarket : State → State → Type 0
SameMarket σ τ = (σ.0 ≡ τ.0) × (σ.1.listings ≡ τ.1.listings)

SameMarket-replay_one :
    (σ τ : State) (e : MarketEvent) → SameMarket σ τ → SameMarket (replay_one σ e) (replay_one τ e)
unfolding replay_one restore_listing remove_listing
SameMarket-replay_one (m, s) (m', s') (list l) h = (h.0, ap (insert l.name l) h.1)
SameMarket-replay_one (m, s) (m', s') (delist n) h = (h.0, ap (remove n) h.1)
SameMarket-replay_one (m, s) (m', s') (open_event x) h =
    (ap (λ (k : Market). record k { sales = Sale.restore k.sales x }) h.0, h.1)
SameMarket-replay_one (m, s) (m', s') (paid n code) h =
    (ap (λ (k : Market). record k { sales = Sale.mark_paid k.sales n code }) h.0, h.1)
SameMarket-replay_one (m, s) (m', s') (expire_event n) h =
    (ap (λ (k : Market). record k { sales = Sale.close k.sales n }) h.0, h.1)
SameMarket-replay_one (m, s) (m', s') (close_event n) h =
    (ap (λ (k : Market). record k { sales = Sale.close k.sales n }) h.0, h.1)
SameMarket-replay_one (m, s) (m', s') (challenge c) h =
    (ap (λ (k : Market). record k { challenges = restore_challenge k.challenges c }) h.0, h.1)
SameMarket-replay_one (m, s) (m', s') (challenge_closed code) h =
    (ap (λ (k : Market). record k { challenges = drop_challenge k.challenges code }) h.0, h.1)

SameMarket-replay :
    (σ τ : State) (es : List Stamped) → SameMarket σ τ → SameMarket (replay σ es) (replay τ es)
unfolding replay
SameMarket-replay σ τ [] h = h
SameMarket-replay σ τ (e ∷ es) h =
    SameMarket-replay (replay_one σ e.event) (replay_one τ e.event) es
      (SameMarket-replay_one σ τ e.event h)

-- A rollback reads nothing of a state but its log up to the height.
truncate_to_cong :
    (m m' : Market) (s s' : Registry) (a : BlockHeight)
    → filter (λ e. leb e.height a) m'.events ≡ filter (λ e. leb e.height a) m.events
    → SameMarket (truncate_to m' s' a) (truncate_to m s a)
unfolding truncate_to
truncate_to_cong m m' s s' a h =
    let kept : List Stamped = filter (λ e. leb e.height a) m.events in
    let p =
      SameMarket-replay (Market.empty, clear_listings s') (Market.empty, clear_listings s) kept
        (refl, unfold clear_listings in refl) in
    (
      ap
            (λ (es : List Stamped). record (replay (Market.empty, clear_listings s') es).0 {
              events = es;
            })
            h
          ∙ ap (λ (k : Market). record k { events = kept }) p.0,
      ap (λ es. (replay (Market.empty, clear_listings s') es).1.listings) h ∙ p.1,
    )

filter-stamp :
    (a height : BlockHeight) (es : List MarketEvent)
    → a < height
    → filter (λ e. leb e.height a) (map (stamp height) es) ≡ []
filter-stamp a height [] lt = refl
filter-stamp a height (e ∷ es) lt = ground (arith, filter-stamp a height es lt)

-- What follows a state, at heights above `a`.
pub data Later (params : Params) (a : BlockHeight) (m : Market) (s : Registry)
    : Market → Registry → Type 0 where
  now : Later params a m s m s
  operates :
      {m' : Market} {s' : Registry} (height : BlockHeight) (m'' : Market) (s'' : Registry)
      → Later params a m s m' s'
      → a < height
      → Step params height m' s' (m'', s'')
      → Later params a m s m'' s''
  changes :
      {m' : Market} {s' : Registry} (s'' : Registry)
      → Later params a m s m' s'
      → s''.listings ≡ s'.listings
      → Later params a m s m' s''

Later-Reachable :
    {params : Params} {a : BlockHeight} {m : Market} {s : Registry} {m' : Market} {s' : Registry}
    → Reachable params m s
    → Later params a m s m' s'
    → Reachable params m' s'
Later-Reachable r now = r
Later-Reachable r (operates height m'' s'' l lt x) = step height m'' s'' (Later-Reachable r l) x
Later-Reachable r (changes s'' l e) = chain s'' (Later-Reachable r l) e

Later-log :
    {params : Params} {a : BlockHeight} {m : Market} {s : Registry} {m' : Market} {s' : Registry}
    → Reachable params m s
    → Later params a m s m' s'
    → filter (λ e. leb e.height a) m'.events ≡ filter (λ e. leb e.height a) m.events
Later-log r now = refl
Later-log {params} {a} {m} r (operates {m'} {s'} height m'' s'' l lt x) =
    let g = Step-Logged (Reachable-Replays params m' s' (Later-Reachable r l)).valid x in
    ap (filter (λ e. leb e.height a)) g.log
    ∙ filter-append (λ e. leb e.height a) m'.events (map (stamp height) g.steps)
    ∙ ap (λ es. filter (λ e. leb e.height a) m'.events ++ es) (filter-stamp a height g.steps lt)
    ∙ append-nil (filter (λ e. leb e.height a) m'.events)
    ∙ Later-log r l
Later-log r (changes s'' l e) = Later-log r l

-- Take a reached state of the market, and one that follows it by operations at heights above a
-- height `a` and by changes of the registry that leave the listings alone. The rollback to `a`
-- gives in both the same market and the same listings.
pub truncate_to-Later :
    (params : Params) (a : BlockHeight) (m m' : Market) (s s' : Registry)
    → Reachable params m s
    → Later params a m s m' s'
    → ((truncate_to m' s' a).0 ≡ (truncate_to m s a).0)
      × ((truncate_to m' s' a).1.listings ≡ (truncate_to m s a).1.listings)
truncate_to-Later params a m m' s s' r l = truncate_to_cong m m' s s' a (Later-log r l)
