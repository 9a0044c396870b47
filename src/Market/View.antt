-- ===== src/Market/View.antt =====
-- mint/sale.rs: the view of the market that its log determines, and what an event does to it. A replay
-- does not restore whether a code was sent, nor the failures counted against a challenge.
use zns_mint.Prelude.{
  ◌≡◌, refl, ap, ◌∙◌, sym, false, not, List, [], ◌∷◌, ◌++◌, arith, nat_eq, bytes_eq, map, if_cases,
  map-append,
}
use zns_mint.Prelude.Maps.{Distinct, insert, remove, bytes_order, Distinct-insert, Distinct-remove}
use zns_mint.Prelude.Keys.{
  any-map, filter-map, map-map_swap, Unique, Unique-filter, Unique-push, Unique-map,
}
use zns_mint.Name.{Name}
use zns_mint.Listing.{Listing}
use zns_mint.Otp.{OtpCode}
use zns_mint.Registry.Listings.{restore_listing, remove_listing}
use zns_mint.Sale
use zns_mint.Sale.{
  Sale, SaleQueue, Phase, paying, restore, mark_paid, close, mark_sale, settle, seal_sale, is_of,
}
use zns_mint.Challenge.{MarketChallenge, restore_challenge, drop_challenge, has_code, code_is_open}
use zns_mint.Market.{
  State, Stamped, MarketEvent, list, delist, open_event, paid, expire_event, close_event, challenge,
  challenge_closed, replay_one, replay,
}

abbrev pub unsend : Phase → Phase
unsend (paying q) = paying (record q { relayed = false })
unsend Phase.paid = Phase.paid

abbrev pub unsent : Sale → Sale
unsent s = record s { phase = unsend s.phase }

abbrev pub fresh : MarketChallenge → MarketChallenge
fresh c = record c { relayed = false; attempts = 0 }

pub record View : Type 0 where
  pub sales : SaleQueue
  pub challenges : List MarketChallenge
  pub listings : List (Name × Listing)

-- What the log determines of a state.
unfoldable pub view : State → View
view (m, s) = record {
  sales = map unsent m.sales;
  challenges = map fresh m.challenges;
  listings = s.listings;
}

abbrev pub blank : View
blank = record { sales = []; challenges = []; listings = [] }

unfoldable pub effect : MarketEvent → View → View
effect (list l) v = record v { listings = insert l.name l v.listings }
effect (delist n) v = record v { listings = remove n v.listings }
effect (open_event s) v = record v { sales = restore v.sales (unsent s) }
effect (paid n code) v = record v { sales = mark_paid v.sales n code }
effect (expire_event n) v = record v { sales = close v.sales n }
effect (close_event n) v = record v { sales = close v.sales n }
effect (challenge c) v = record v { challenges = restore_challenge v.challenges (fresh c) }
effect (challenge_closed code) v = record v { challenges = drop_challenge v.challenges code }

unfoldable pub effects : List MarketEvent → View → View
effects [] v = v
effects (e ∷ es) v = effects es (effect e v)

pub effects-append :
    (es fs : List MarketEvent) (v : View) → effects (es ++ fs) v ≡ effects fs (effects es v)
unfolding effects
effects-append [] fs v = refl
effects-append (e ∷ es) fs v = effects-append es fs (effect e v)

pub unsent-restore :
    (q : SaleQueue) (s : Sale) → map unsent (restore q s) ≡ restore (map unsent q) (unsent s)
unfolding restore Sale.is_open
unsent-restore q s =
    ground (arith, any-map (is_of s.name) unsent q (λ _. refl), map-append unsent q (s ∷ []))

settle-unsend : (code : OtpCode) (p : Phase) → unsend (settle code p) ≡ settle code (unsend p)
settle-unsend code Phase.paid = refl
settle-unsend code (paying q) = ground arith

unsent-mark_sale :
    (n : Name) (code : OtpCode) (s : Sale)
    → unsent (mark_sale n code s) ≡ mark_sale n code (unsent s)
unsent-mark_sale n code s =
    ap (λ p. record s { phase = p }) (ground (arith, settle-unsend code s.phase))

pub unsent-mark_paid :
    (q : SaleQueue) (n : Name) (code : OtpCode)
    → map unsent (mark_paid q n code) ≡ mark_paid (map unsent q) n code
unfolding mark_paid
unsent-mark_paid q n code =
    map-map_swap unsent (mark_sale n code) unsent (mark_sale n code) q (unsent-mark_sale n code)

pub unsent-close : (q : SaleQueue) (n : Name) → map unsent (close q n) ≡ close (map unsent q) n
unfolding close
unsent-close q n = sym (filter-map (λ s. not (is_of n s)) unsent q (λ _. refl))

pub fresh-drop_challenge :
    (cs : List MarketChallenge) (code : OtpCode)
    → map fresh (drop_challenge cs code) ≡ drop_challenge (map fresh cs) code
unfolding drop_challenge
fresh-drop_challenge cs code = sym (filter-map (λ c. not (has_code code c)) fresh cs (λ _. refl))

pub fresh-restore_challenge :
    (cs : List MarketChallenge) (c : MarketChallenge)
    → map fresh (restore_challenge cs c) ≡ restore_challenge (map fresh cs) (fresh c)
unfolding restore_challenge code_is_open
fresh-restore_challenge cs c =
    ground (arith, any-map (has_code c.code) fresh cs (λ _. refl), map-append fresh cs (c ∷ []))

-- The replay of an event has the event's effect.
pub view-replay_one : (σ : State) (e : MarketEvent) → view (replay_one σ e) ≡ effect e (view σ)
unfolding view effect replay_one restore_listing remove_listing
view-replay_one (m, s) (list l) = refl
view-replay_one (m, s) (delist n) = refl
view-replay_one (m, s) (open_event sale) =
    ap (λ q. record (view (m, s)) { sales = q }) (unsent-restore m.sales sale)
view-replay_one (m, s) (paid n code) =
    ap (λ q. record (view (m, s)) { sales = q }) (unsent-mark_paid m.sales n code)
view-replay_one (m, s) (expire_event n) =
    ap (λ q. record (view (m, s)) { sales = q }) (unsent-close m.sales n)
view-replay_one (m, s) (close_event n) =
    ap (λ q. record (view (m, s)) { sales = q }) (unsent-close m.sales n)
view-replay_one (m, s) (challenge c) =
    ap (λ cs. record (view (m, s)) { challenges = cs }) (fresh-restore_challenge m.challenges c)
view-replay_one (m, s) (challenge_closed code) =
    ap (λ cs. record (view (m, s)) { challenges = cs }) (fresh-drop_challenge m.challenges code)

abbrev pub events_of : List Stamped → List MarketEvent
events_of es = map (λ e. e.event) es

pub view-replay :
    (σ : State) (es : List Stamped) → view (replay σ es) ≡ effects (events_of es) (view σ)
unfolding replay effects
view-replay σ [] = refl
view-replay σ (e ∷ es) =
    view-replay (replay_one σ e.event) es ∙ ap (effects (events_of es)) (view-replay_one σ e.event)

-- One sale a name, one challenge a code, one listing a name.
pub record Valid (v : View) : Type 0 where
  pub sales : Unique (λ s. s.name) v.sales
  pub challenges : Unique (λ c. c.code) v.challenges
  pub listings : Distinct v.listings

Unique-restore :
    (q : SaleQueue) (s : Sale) → Unique (λ s. s.name) q → Unique (λ s. s.name) (restore q s)
unfolding restore Sale.is_open
Unique-restore q s u =
    if_cases (Unique (λ s. s.name)) (Sale.is_open q s.name) q (q ++ s ∷ []) (λ _. u)
      (λ e. Unique-push (λ s. s.name) q s u e)

Unique-restore_challenge :
    (cs : List MarketChallenge) (c : MarketChallenge)
    → Unique (λ c. c.code) cs
    → Unique (λ c. c.code) (restore_challenge cs c)
unfolding restore_challenge code_is_open
Unique-restore_challenge cs c u =
    if_cases (Unique (λ c. c.code)) (code_is_open cs c.code) cs (cs ++ c ∷ []) (λ _. u)
      (λ e. Unique-push (λ c. c.code) cs c u e)

-- No event breaks the validity of a view.
pub effect-Valid : (e : MarketEvent) (v : View) → Valid v → Valid (effect e v)
unfolding effect mark_paid close drop_challenge
effect-Valid (list l) v u = record {
  sales = u.sales;
  challenges = u.challenges;
  listings = Distinct-insert l.name l v.listings u.listings;
}
effect-Valid (delist n) v u = record {
  sales = u.sales;
  challenges = u.challenges;
  listings = Distinct-remove n v.listings u.listings;
}
effect-Valid (open_event s) v u = record {
  sales = Unique-restore v.sales (unsent s) u.sales;
  challenges = u.challenges;
  listings = u.listings;
}
effect-Valid (paid n code) v u = record {
  sales = Unique-map (λ s. s.name) (mark_sale n code) v.sales (λ _. refl) u.sales;
  challenges = u.challenges;
  listings = u.listings;
}
effect-Valid (expire_event n) v u = record {
  sales = Unique-filter (λ s. s.name) (λ s. not (is_of n s)) v.sales u.sales;
  challenges = u.challenges;
  listings = u.listings;
}
effect-Valid (close_event n) v u = record {
  sales = Unique-filter (λ s. s.name) (λ s. not (is_of n s)) v.sales u.sales;
  challenges = u.challenges;
  listings = u.listings;
}
effect-Valid (challenge c) v u = record {
  sales = u.sales;
  challenges = Unique-restore_challenge v.challenges (fresh c) u.challenges;
  listings = u.listings;
}
effect-Valid (challenge_closed code) v u = record {
  sales = u.sales;
  challenges = Unique-filter (λ c. c.code) (λ c. not (has_code code c)) v.challenges u.challenges;
  listings = u.listings;
}

pub effects-Valid : (es : List MarketEvent) (v : View) → Valid v → Valid (effects es v)
unfolding effects
effects-Valid [] v u = u
effects-Valid (e ∷ es) v u = effects-Valid es (effect e v) (effect-Valid e v u)
