-- ===== src/Market.antt =====
-- mint/sale.rs: `Market`, the buys against the listings, the challenges, and the log of events from
-- which a startup and a rollback rebuild them. The listings stand in the registry, so that a state of
-- the market is a `Market` with a `Registry`.
pub mod Trade
pub mod Answer
pub mod View
pub mod Logged
pub mod Steps
pub mod Trades
pub mod Answers
pub mod Reach
pub mod Rewind
pub mod Buys
pub mod Spent
pub mod Counting
pub mod Admit
pub mod Admitted
pub mod Decode
pub mod Unread
use zns_mint.Prelude.{
  ℕ, Bool, true, false, not, ◌&&◌, ◌||◌, List, [], ◌∷◌, ◌++◌, Option, none, some, ◌==◌, nat_eq,
  bytes_eq, leb, if◌then◌else◌, any, filter, map,
}
use zns_mint.Chain.{Params, UnifiedAddress, NameCommitment, BlockHeight, Timestamp}
use zns_mint.Name.{Name}
use zns_mint.Note.{NameNote}
use zns_mint.Listing.{Listing}
use zns_mint.Otp.{OtpCode, OtpMemo}
use zns_mint.Registry.{Registry, record_of}
use zns_mint.Registry.Listings.{
  finish_clocks, restore_listing, remove_listing, clear_listings, reconcile_listings,
}
use zns_mint.Payment.{Payment}
use zns_mint.Sale.Leave
use zns_mint.Sale.Settle
use zns_mint.Sale
use zns_mint.Sale.{Sale, SaleQueue, BuyOtp, seal_sale}
use zns_mint.Challenge
use zns_mint.Challenge.{
  MarketChallenge, restore_challenge, drop_challenge, codes_of, relay_challenge, held_by, memo,
}

pub data MarketEvent : Type 0 where
  list : Listing → MarketEvent
  delist : Name → MarketEvent
  open_event : Sale → MarketEvent
  paid : Name → OtpCode → MarketEvent
  expire_event close_event : Name → MarketEvent
  challenge : MarketChallenge → MarketEvent
  challenge_closed : OtpCode → MarketEvent

pub record Stamped : Type 0 where
  pub height : BlockHeight
  pub event : MarketEvent

pub record Market : Type 0 where
  pub sales : SaleQueue
  pub challenges : List MarketChallenge
  pub events : List Stamped

-- `Market::new`
abbrev pub empty : Market
empty = record { sales = []; challenges = []; events = [] }

-- The market with the registry that holds its listings.
abbrev pub State : Type 0
State = Market × Registry

abbrev pub stamp : BlockHeight → MarketEvent → Stamped
stamp height event = record { height = height; event = event }

-- `Market::record`, for the events of a loop
unfoldable pub record_all : Market → BlockHeight → List MarketEvent → Market
record_all m height events = record m { events = m.events ++ map (stamp height) events }

abbrev pub record_event : Market → BlockHeight → MarketEvent → Market
record_event m height event = record_all m height (event ∷ [])

-- `allows_transition`
unfoldable pub allows_transition : Market → Name → Bool
allows_transition m n = not (Sale.is_open m.sales n)

-- `Market::relayed`
unfoldable pub relayed : Market → Name → Market
relayed m n = record m { sales = Sale.relayed m.sales n }

abbrev pub seal_event : MarketEvent → MarketEvent
seal_event (open_event s) = open_event (seal_sale s)
seal_event (list l) = list l
seal_event (delist n) = delist n
seal_event (paid n code) = paid n code
seal_event (expire_event n) = expire_event n
seal_event (close_event n) = close_event n
seal_event (challenge c) = challenge c
seal_event (challenge_closed code) = challenge_closed code

abbrev pub seal_stamped : Stamped → Stamped
seal_stamped e = record e { event = seal_event e.event }

unfoldable pub seal_replayed_buys : Market → Market
seal_replayed_buys m = record m {
  sales = Sale.seal_relayed m.sales;
  events = map seal_stamped m.events;
}

-- `Market::observe`
unfoldable pub observe :
    Market → (Name → Option UnifiedAddress) → List Payment → Timestamp → BlockHeight → Market
unfolding record_all
observe m holder payments mtp height =
    let seen = Settle.observe m.sales holder payments mtp in
    record_all (record m { sales = seen.0 }) height (map (λ p. paid p.0 p.1) seen.1)

-- `close_challenge`
unfoldable pub close_challenge : Market → BlockHeight → OtpCode → Market
unfolding record_all
close_challenge m height code =
    record_event (record m { challenges = drop_challenge m.challenges code }) height
      (challenge_closed code)

-- The loops that close one challenge after the other.
unfoldable pub close_challenges : Market → BlockHeight → List OtpCode → Market
close_challenges m height [] = m
close_challenges m height (code ∷ codes) =
    close_challenges (close_challenge m height code) height codes

-- The codes are collected first, and then closed.
unfoldable pub close_where : Market → BlockHeight → (MarketChallenge → Bool) → Market
unfolding close_challenges
close_where m height p = close_challenges m height (codes_of p m.challenges)

-- `Market::expire`
unfoldable pub expire : Market → Registry → Timestamp → BlockHeight → State
unfolding record_all close_where
expire m registry mtp height =
    let finished = finish_clocks registry height in
    let m' = record_all m height (map delist finished.1) in
    let late = Leave.expire m'.sales mtp in
    let m'' = record_all (record m' { sales = late.0 }) height (map expire_event late.1) in
    (close_where m'' height (λ c. leb c.expires_at mtp), finished.0)

-- The closure `live` of `reconcile`.
unfoldable pub live_note : Registry → Name → Option (UnifiedAddress × NameCommitment)
live_note registry n = elim (record_of registry n) [
  | none ↦ none
  | some r ↦ some (r.ua, r.commitment)
]

abbrev pub is_stale : Option (UnifiedAddress × NameCommitment) → MarketChallenge → Bool
is_stale none c = true
is_stale (some (u, commitment)) c = not (u == Challenge.ua c.kind)

-- `Market::reconcile`
unfoldable pub reconcile : Market → Registry → BlockHeight → State
unfolding record_all close_where live_note
reconcile m registry height =
    let gone = reconcile_listings registry in
    let m' = record_all m height (map delist gone.1) in
    let m'' = close_where m' height (λ c. is_stale (live_note gone.0 (Challenge.name c.kind)) c) in
    let closed = Leave.reconcile m''.sales (live_note gone.0) in
    (record_all (record m'' { sales = closed.0 }) height (map close_event closed.1), gone.0)

-- One event of the log, in `truncate_to`.
unfoldable pub replay_one : State → MarketEvent → State
replay_one (m, s) (list l) = (m, restore_listing s l)
replay_one (m, s) (delist n) = (m, (remove_listing s n).0)
replay_one (m, s) (open_event sale) = (record m { sales = Sale.restore m.sales sale }, s)
replay_one (m, s) (paid n code) = (record m { sales = Sale.mark_paid m.sales n code }, s)
replay_one (m, s) (expire_event n) = (record m { sales = Sale.close m.sales n }, s)
replay_one (m, s) (close_event n) = (record m { sales = Sale.close m.sales n }, s)
replay_one (m, s) (challenge c) = (record m { challenges = restore_challenge m.challenges c }, s)
replay_one (m, s) (challenge_closed code) =
    (record m { challenges = drop_challenge m.challenges code }, s)

unfoldable pub replay : State → List Stamped → State
unfolding replay_one
replay σ [] = σ
replay σ (e ∷ es) = replay (replay_one σ e.event) es

-- The log is taken out for the replay and put back after it.
unfoldable pub truncate_to : Market → Registry → BlockHeight → State
unfolding replay
truncate_to m registry height =
    let kept = filter (λ e. leb e.height height) m.events in
    let rebuilt = replay (empty, clear_listings registry) kept in
    (record rebuilt.0 { events = kept }, rebuilt.1)

-- `Market::poll`: the market after it, and the notes to sign
unfoldable pub poll : Market → Registry → (Name → Bool) → BlockHeight → Market × List NameNote
unfolding record_all
poll m registry pending height =
    let polled = Leave.poll m.sales registry pending in
    (record_all (record m { sales = polled.0 }) height (map close_event polled.2), polled.1)

abbrev pub is_held_by : Params → Option UnifiedAddress → MarketChallenge → Bool
is_held_by params none c = false
is_held_by params (some u) c = held_by params c.kind u

-- `unrelayed_challenges`
unfoldable pub unrelayed_challenges :
    Params → Market → (Name → Option UnifiedAddress) → List OtpMemo
unrelayed_challenges params m owner = map memo (
    filter (λ c. is_held_by params (owner (Challenge.name c.kind)) c)
      (filter (λ c. not c.relayed && not (Sale.is_open m.sales (Challenge.name c.kind)))
        m.challenges))

unfoldable pub challenge_relayed : Market → OtpCode → Market
challenge_relayed m code = record m { challenges = map (relay_challenge code) m.challenges }
