-- ===== src/Market/Reach.antt =====
-- mint/sale.rs: the states that the market reaches, and what its log is worth in each of them.
use zns_mint.Prelude.{
  ◌≡◌, refl, ap, ◌∙◌, sym, Bool, true, List, [], ◌∷◌, ◌++◌, Option, some, map, filter, all, subst,
  leb, map-append, filter-all,
}
use zns_mint.Prelude.Maps.{Distinct, bytes_order}
use zns_mint.Chain.{Params, UnifiedAddress, NameCommitment, BlockHeight, Timestamp}
use zns_mint.Name.{Name}
use zns_mint.Term.{Expiry}
use zns_mint.Listing.{Listing}
use zns_mint.Otp.{OtpCode, OtpMemo}
use zns_mint.Payment.{Payment}
use zns_mint.Registry.{Registry}
use zns_mint.Registry.Listings.{ok, clear_listings}
use zns_mint.Sale
use zns_mint.Sale.{Sale, Phase, paying, BuyOtp, seal_sale, seal_relayed}
use zns_mint.Market
use zns_mint.Market.{
  Market, State, Stamped, MarketEvent, list, delist, open_event, paid, expire_event, close_event,
  challenge, challenge_closed, stamp, seal_event, seal_stamped, seal_replayed_buys, replay,
  truncate_to,
}
use zns_mint.Market.Trade.{list_name, delist_name, open_buy, propose_list, propose_delist}
use zns_mint.Market.Answer.{answer}
use zns_mint.Market.View.{
  View, view, blank, effect, effects, effects-append, events_of, unsent, unsend, view-replay, Valid,
  effects-Valid,
}
use zns_mint.Market.Logged.{Logged, Logged-Valid}
use zns_mint.Market.Steps.{
  relayed-Logged, challenge_relayed-Logged, observe-Logged, expire-Logged, reconcile-Logged,
  poll-Logged,
}
use zns_mint.Market.Trades.{
  list_name-Logged, delist_name-Logged, open_buy-Logged, propose_list-Logged, propose_delist-Logged,
}
use zns_mint.Market.Answers.{answer-Logged}

-- One operation of the market at a height.
pub data Step (params : Params) (height : BlockHeight) (m : Market) (s : Registry)
    : State → Type 0 where
  lists :
      (l : Listing) (σ : State) → list_name params m s l height ≡ ok σ → Step params height m s σ
  delists :
      (n : Name) (u : UnifiedAddress) (σ : State)
      → delist_name m s n u height ≡ ok σ
      → Step params height m s σ
  opens :
      (n : Name) (bob owner : UnifiedAddress) (term : Expiry) (live : NameCommitment)
      (is_due pending : Bool) (code : OtpCode) (mtp : Timestamp) (m' : Market) (otp : BuyOtp)
      → open_buy params m s n bob owner term live is_due pending code mtp height ≡ ok (m', otp)
      → Step params height m s (m', s)
  relays : (n : Name) → Step params height m s (Market.relayed m n, s)
  observes :
      (holder : Name → Option UnifiedAddress) (payments : List Payment) (mtp : Timestamp)
      → Step params height m s (Market.observe m holder payments mtp height, s)
  expires : (mtp : Timestamp) → Step params height m s (Market.expire m s mtp height)
  reconciles : Step params height m s (Market.reconcile m s height)
  polls : (pending : Name → Bool) → Step params height m s ((Market.poll m s pending height).0, s)
  proposes_list :
      (l : Listing) (owner : UnifiedAddress) (code : OtpCode) (mtp : Timestamp) (m' : Market)
      → propose_list params m l owner code mtp height ≡ ok m'
      → Step params height m s (m', s)
  proposes_delist :
      (n : Name) (u : UnifiedAddress) (code : OtpCode) (mtp : Timestamp) (m' : Market)
      → propose_delist params m s n u code mtp height ≡ ok m'
      → Step params height m s (m', s)
  relays_challenge : (code : OtpCode) → Step params height m s (Market.challenge_relayed m code, s)
  answers :
      (r : OtpMemo) (σ : State) (b : Bool)
      → answer params m s r height ≡ some (σ, b)
      → Step params height m s σ

pub Step-Logged :
    {params : Params} {height : BlockHeight} {m : Market} {s : Registry} {σ : State}
    → Valid (view (m, s))
    → Step params height m s σ
    → Logged height (m, s) σ
Step-Logged {params} {height} {m} {s} u (lists l σ h) = list_name-Logged height m s params l σ h
Step-Logged {params} {height} {m} {s} u (delists n a σ h) = delist_name-Logged height m s n a σ h
Step-Logged {params} {height} {m} {s} u (opens n bob owner term live d p code mtp m' otp h) =
    open_buy-Logged height m s params n bob owner term live d p code mtp m' otp h
Step-Logged {params} {height} {m} {s} u (relays n) = relayed-Logged height m s n
Step-Logged {params} {height} {m} {s} u (observes holder payments mtp) =
    observe-Logged height m s holder payments mtp u
Step-Logged {params} {height} {m} {s} u (expires mtp) = expire-Logged height m s mtp u
Step-Logged {params} {height} {m} {s} u reconciles = reconcile-Logged height m s u
Step-Logged {params} {height} {m} {s} u (polls pending) = poll-Logged height m s pending u
Step-Logged {params} {height} {m} {s} u (proposes_list l owner code mtp m' h) =
    propose_list-Logged height m s params l owner code mtp m' h
Step-Logged {params} {height} {m} {s} u (proposes_delist n a code mtp m' h) =
    propose_delist-Logged height m s params n a code mtp m' h
Step-Logged {params} {height} {m} {s} u (relays_challenge code) =
    challenge_relayed-Logged height m s code
Step-Logged {params} {height} {m} {s} u (answers r σ b h) =
    answer-Logged height params m s r σ b u h

-- The states of a run: from an empty market, by operations, by changes of the registry that leave
-- the listings alone, by the seal at startup, and by rollbacks.
pub data Reachable (params : Params) : Market → Registry → Type 0 where
  start : (s : Registry) → s.listings ≡ [] → Reachable params Market.empty s
  step :
      {m : Market} {s : Registry} (height : BlockHeight) (m' : Market) (s' : Registry)
      → Reachable params m s
      → Step params height m s (m', s')
      → Reachable params m' s'
  chain :
      {m : Market} {s : Registry} (s' : Registry)
      → Reachable params m s
      → s'.listings ≡ s.listings
      → Reachable params m s'
  sealed :
      {m : Market} {s : Registry} → Reachable params m s → Reachable params (seal_replayed_buys m) s
  rewound :
      {m : Market} {s : Registry} (height : BlockHeight)
      → Reachable params m s
      → Reachable params (truncate_to m s height).0 (truncate_to m s height).1

-- The view is valid, and is what the events of the log make of the blank one.
pub record Replays (σ : State) : Type 0 where
  pub valid : Valid (view σ)
  pub replays : view σ ≡ effects (events_of σ.0.events) blank

blank-Valid : Valid blank
blank-Valid = record { sales = tt; challenges = tt; listings = tt }

events_of-stamp :
    (height : BlockHeight) (es : List MarketEvent) → events_of (map (stamp height) es) ≡ es
events_of-stamp height [] = refl
events_of-stamp height (e ∷ es) = ap (λ r. e ∷ r) (events_of-stamp height es)

Logged-Replays : {height : BlockHeight} {σ σ' : State} → Logged height σ σ' → Replays σ → Replays σ'
Logged-Replays {height} {σ} {σ'} l r = record {
  valid = Logged-Valid l r.valid;
  replays =
      l.effect
      ∙ ap (effects l.steps) r.replays
      ∙ sym (effects-append (events_of σ.0.events) l.steps blank)
      ∙ ap (λ es. effects es blank)
          (ap (λ es. events_of σ.0.events ++ es) (sym (events_of-stamp height l.steps))
            ∙ sym (map-append (λ e. e.event) σ.0.events (map (stamp height) l.steps))
            ∙ ap events_of (sym l.log));
}

unsent-seal_sale : (s : Sale) → unsent (seal_sale s) ≡ unsent s
unsent-seal_sale s = ap (λ p. record s { phase = p }) (split s.phase)
  where
    split : (p : Phase) → unsend (Sale.set_relayed p) ≡ unsend p
    split (paying q) = refl
    split Phase.paid = refl

effect-seal_event : (e : MarketEvent) (v : View) → effect (seal_event e) v ≡ effect e v
unfolding effect
effect-seal_event (open_event s) v =
    ap (λ x. record v { sales = Sale.restore v.sales x }) (unsent-seal_sale s)
effect-seal_event (list l) v = refl
effect-seal_event (delist n) v = refl
effect-seal_event (paid n code) v = refl
effect-seal_event (expire_event n) v = refl
effect-seal_event (close_event n) v = refl
effect-seal_event (challenge c) v = refl
effect-seal_event (challenge_closed code) v = refl

effects-seal :
    (es : List Stamped) (v : View)
    → effects (events_of (map seal_stamped es)) v ≡ effects (events_of es) v
unfolding effects
effects-seal [] v = refl
effects-seal (e ∷ es) v =
    ap (effects (events_of (map seal_stamped es))) (effect-seal_event e.event v)
    ∙ effects-seal es (effect e.event v)

map-unsent_seal : (q : List Sale) → map unsent (map seal_sale q) ≡ map unsent q
map-unsent_seal [] = refl
map-unsent_seal (s ∷ q) = λ i. unsent-seal_sale s i ∷ map-unsent_seal q i

view-seal : (m : Market) (s : Registry) → view (seal_replayed_buys m, s) ≡ view (m, s)
unfolding view seal_replayed_buys seal_relayed
view-seal m s = ap (λ q. record (view (m, s)) { sales = q }) (map-unsent_seal m.sales)

pub view-truncate :
    (m : Market) (s : Registry) (height : BlockHeight)
    → view (truncate_to m s height)
      ≡ effects (events_of (filter (λ e. leb e.height height) m.events)) blank
unfolding truncate_to view
view-truncate m s height =
    view-replay (Market.empty, clear_listings s) (filter (λ e. leb e.height height) m.events)
    ∙ ap (effects (events_of (filter (λ e. leb e.height height) m.events)))
        (unfold clear_listings in refl)

-- In every state of the market that is reached as above, each name has at most one sale, each code
-- at most one challenge and each name at most one listing, and the sales and challenges (up to
-- whether a code was sent and how many failures were counted) and the listings are what the
-- effects of the logged events make, in their order, of an empty view.
pub Reachable-Replays :
    (params : Params) (m : Market) (s : Registry) → Reachable params m s → Replays (m, s)
Reachable-Replays params _ _ (start s e) = record {
  valid =
      unfold view in record { sales = tt; challenges = tt; listings = subst Distinct (sym e) tt };
  replays = unfold view effects in ap (λ l. record blank { listings = l }) e;
}
Reachable-Replays params _ _ (step height m' s' r x) =
    let i = Reachable-Replays params _ _ r in Logged-Replays (Step-Logged i.valid x) i
Reachable-Replays params _ _ (chain {m} {s} s' r e) =
    let i = Reachable-Replays params m s r in
    let p : view (m, s') ≡ view (m, s) =
      unfold view in ap (λ l. record (view (m, s)) { listings = l }) e in
    record { valid = subst Valid (sym p) i.valid; replays = p ∙ i.replays }
Reachable-Replays params _ _ (sealed {m} {s} r) =
    let i = Reachable-Replays params m s r in
    record {
      valid = subst Valid (sym (view-seal m s)) i.valid;
      replays =
          view-seal m s
          ∙ i.replays
          ∙ sym (effects-seal m.events blank)
          ∙ (unfold seal_replayed_buys in refl);
    }
Reachable-Replays params _ _ (rewound {m} {s} height r) = record {
  valid = subst Valid (sym (view-truncate m s height)) (effects-Valid _ blank blank-Valid);
  replays = view-truncate m s height ∙ (unfold truncate_to in refl);
}

-- Take a state of the market that is reached from an empty one by operations of the market, by
-- changes of the registry that leave the listings alone, by the seal at startup and by rollbacks,
-- and a height that is no lower than any logged event's. The rollback to it, which replays the log
-- from nothing, gives back the same listings, and the same sales and challenges up to whether a
-- code was sent and how many failures were counted.
pub view-truncate_to :
    (params : Params) (m : Market) (s : Registry) (height : BlockHeight)
    → Reachable params m s
    → all (λ e. leb e.height height) m.events ≡ true
    → view (truncate_to m s height) ≡ view (m, s)
view-truncate_to params m s height r a =
    view-truncate m s height
    ∙ ap (λ es. effects (events_of es) blank) (filter-all (λ e. leb e.height height) m.events a)
    ∙ sym (Reachable-Replays params m s r).replays
