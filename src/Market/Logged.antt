-- ===== src/Market/Logged.antt =====
-- mint/sale.rs: an operation of the market changes the view as the events that it logs say.
use zns_mint.Prelude.{
  ◌≡◌, refl, ap, ◌∙◌, sym, Bool, not, List, [], ◌∷◌, ◌++◌, arith, ◌==◌, nat_eq, bytes_eq, map,
  filter, append_assoc, append-nil, subst, map-append,
}
use zns_mint.Prelude.Maps.{bytes_order, retain}
use zns_mint.Prelude.Keys.{
  Unique, drop_keys, drop_keys_lem, removes, removes_lem, filter-map, any-map,
}
use zns_mint.Chain.{BlockHeight}
use zns_mint.Name.{Name}
use zns_mint.Otp.{OtpCode}
use zns_mint.Listing.{Listing}
use zns_mint.Registry.{Registry}
use zns_mint.Registry.Listings.{clear_listings}
use zns_mint.Sale
use zns_mint.Sale.{Sale, SaleQueue, close, restore, mark_paid}
use zns_mint.Sale.Leave.{retain_sales}
use zns_mint.Challenge.{MarketChallenge, codes_of, drop_challenge}
use zns_mint.Market.{
  Market, State, MarketEvent, delist, expire_event, close_event, challenge_closed, stamp,
  record_all, close_challenge, close_challenges, close_where,
}
use zns_mint.Market.View.{
  View, view, effect, effects, effects-append, unsent, fresh-drop_challenge, Valid, effects-Valid,
}

-- The state `σ'` follows from `σ` by events that are logged at the height; nothing but the listings
-- of the registry changes.
pub record Logged (height : BlockHeight) (σ σ' : State) : Type 0 where
  pub steps : List MarketEvent
  pub log : σ'.0.events ≡ σ.0.events ++ map (stamp height) steps
  pub effect : view σ' ≡ effects steps (view σ)
  pub frame : clear_listings σ'.1 ≡ clear_listings σ.1

pub Logged-refl : (height : BlockHeight) (σ : State) → Logged height σ σ
Logged-refl height σ = record {
  steps = [];
  log = sym (append-nil σ.0.events);
  effect = unfold effects in refl;
  frame = refl;
}

pub Logged-trans :
    {height : BlockHeight} {σ τ υ : State}
    → Logged height σ τ
    → Logged height τ υ
    → Logged height σ υ
Logged-trans {height} {σ} {τ} {υ} p q = record {
  steps = p.steps ++ q.steps;
  log =
      q.log
      ∙ ap (λ es. es ++ map (stamp height) q.steps) p.log
      ∙ append_assoc σ.0.events (map (stamp height) p.steps) (map (stamp height) q.steps)
      ∙ ap (λ es. σ.0.events ++ es) (sym (map-append (stamp height) p.steps q.steps));
  effect = q.effect ∙ ap (effects q.steps) p.effect ∙ sym (effects-append p.steps q.steps (view σ));
  frame = q.frame ∙ p.frame;
}

pub Logged-Valid :
    {height : BlockHeight} {σ σ' : State} → Logged height σ σ' → Valid (view σ) → Valid (view σ')
Logged-Valid {height} {σ} p u = subst Valid (sym p.effect) (effects-Valid p.steps (view σ) u)

-- The log alone grows by `es`, whose effects are what the caller did.
pub record_all-Logged :
    (height : BlockHeight) (m m' : Market) (s s' : Registry) (es : List MarketEvent)
    → m'.events ≡ m.events
    → view (m', s') ≡ effects es (view (m, s))
    → clear_listings s' ≡ clear_listings s
    → Logged height (m, s) (record_all m' height es, s')
record_all-Logged height m m' s s' es e p f = record {
  steps = es;
  log = unfold record_all in ap (λ l. l ++ map (stamp height) es) e;
  effect = unfold record_all view in p;
  frame = f;
}

-- Steps that the view does not see.
pub silent :
    (height : BlockHeight) (m m' : Market) (s : Registry)
    → m'.events ≡ m.events
    → view (m', s) ≡ view (m, s)
    → Logged height (m, s) (m', s)
silent height m m' s e p = record {
  steps = [];
  log = e ∙ sym (append-nil m.events);
  effect = unfold effects in p;
  frame = refl;
}

effects-delist :
    (ns : List Name) (v : View)
    → effects (map delist ns) v ≡ record v { listings = removes ns v.listings }
unfolding effects effect
effects-delist [] v = refl
effects-delist (n ∷ ns) v = effects-delist ns (effect (delist n) v)

-- Listings that leave, each with its event.
pub listings-Logged :
    (height : BlockHeight) (m : Market) (s : Registry) (keep : Name → Listing → Bool)
    (leaves : Name × Listing → Bool)
    → ((n : Name) (l : Listing) → leaves (n, l) ≡ not (keep n l))
    → Valid (view (m, s))
    → Logged height
        (m, s)
        (
          record_all m height (map delist (map (λ e. e.0) (filter leaves s.listings))),
          record s { listings = retain keep s.listings },
        )
listings-Logged height m s keep leaves h u =
    record_all-Logged height m m s (record s { listings = retain keep s.listings })
      (map delist (map (λ e. e.0) (filter leaves s.listings))) refl
      (unfold view in
        ap (λ l. record (view (m, s)) { listings = l })
          (sym (removes_lem keep leaves s.listings h (unfold view in u.listings)))
        ∙ sym (effects-delist (map (λ e. e.0) (filter leaves s.listings)) (view (m, s))))
      (unfold clear_listings in refl)

Unique-unsent : (q : SaleQueue) → Unique (λ s. s.name) (map unsent q) → Unique (λ s. s.name) q
Unique-unsent [] u = tt
Unique-unsent (s ∷ q) u =
    (sym (any-map (Sale.is_of s.name) unsent q (λ _. refl)) ∙ u.0, Unique-unsent q u.1)

pub Valid-sales : (m : Market) (s : Registry) → Valid (view (m, s)) → Unique (λ s. s.name) m.sales
Valid-sales m s u = Unique-unsent m.sales (unfold view in u.sales)

unsent-filter :
    (keep : Sale → Bool) (keep' : Sale → Bool) (q : SaleQueue)
    → ((s : Sale) → keep' (unsent s) ≡ keep s)
    → map unsent (filter keep q) ≡ filter keep' (map unsent q)
unsent-filter keep keep' [] h = refl
unsent-filter keep keep' (s ∷ q) h = ground (arith, unsent-filter keep keep' q h, h s)

effects-expire :
    (ns : List Name) (v : View)
    → effects (map expire_event ns) v ≡ record v { sales = drop_keys (λ s. s.name) ns v.sales }
unfolding effects effect close
effects-expire [] v = refl
effects-expire (n ∷ ns) v = effects-expire ns (effect (expire_event n) v)

effects-close :
    (ns : List Name) (v : View)
    → effects (map close_event ns) v ≡ record v { sales = drop_keys (λ s. s.name) ns v.sales }
unfolding effects effect close
effects-close [] v = refl
effects-close (n ∷ ns) v = effects-close ns (effect (close_event n) v)

drop_keys-unsent :
    (ns : List Name) (q : SaleQueue)
    → drop_keys (λ s. s.name) ns (map unsent q) ≡ map unsent (drop_keys (λ s. s.name) ns q)
drop_keys-unsent [] q = refl
drop_keys-unsent (n ∷ ns) q =
    ap (drop_keys (λ s. s.name) ns) (filter-map (λ s. not (s.name == n)) unsent q (λ _. refl))
    ∙ drop_keys-unsent ns (filter (λ s. not (s.name == n)) q)

kept :
    (m : Market) (s : Registry) (keep : Sale → Bool)
    → Valid (view (m, s))
    → map unsent (retain_sales keep m.sales).0
      ≡ drop_keys (λ s. s.name) (retain_sales keep m.sales).1 (map unsent m.sales)
kept m s keep u =
    ap (map unsent) (sym (drop_keys_lem (λ s. s.name) keep m.sales (Valid-sales m s u)))
    ∙ sym (drop_keys-unsent (retain_sales keep m.sales).1 m.sales)

-- Sales that leave, each with its event.
pub expired-Logged :
    (height : BlockHeight) (m : Market) (s : Registry) (keep : Sale → Bool)
    → Valid (view (m, s))
    → Logged height
        (m, s)
        (
          record_all
              (record m { sales = (retain_sales keep m.sales).0 })
              height
              (map expire_event (retain_sales keep m.sales).1),
          s,
        )
expired-Logged height m s keep u =
    let ns = (retain_sales keep m.sales).1 in
    record_all-Logged height m (record m { sales = (retain_sales keep m.sales).0 }) s s
      (map expire_event ns) refl
      (unfold view in
        ap (λ q. record (view (m, s)) { sales = q }) (kept m s keep u)
        ∙ sym (effects-expire ns (view (m, s))))
      refl

pub closed-Logged :
    (height : BlockHeight) (m : Market) (s : Registry) (keep : Sale → Bool)
    → Valid (view (m, s))
    → Logged height
        (m, s)
        (
          record_all
              (record m { sales = (retain_sales keep m.sales).0 })
              height
              (map close_event (retain_sales keep m.sales).1),
          s,
        )
closed-Logged height m s keep u =
    let ns = (retain_sales keep m.sales).1 in
    record_all-Logged height m (record m { sales = (retain_sales keep m.sales).0 }) s s
      (map close_event ns) refl
      (unfold view in
        ap (λ q. record (view (m, s)) { sales = q }) (kept m s keep u)
        ∙ sym (effects-close ns (view (m, s))))
      refl

pub close_challenge-Logged :
    (height : BlockHeight) (m : Market) (s : Registry) (code : OtpCode)
    → Logged height (m, s) (close_challenge m height code, s)
unfolding close_challenge
close_challenge-Logged height m s code =
    record_all-Logged height m (record m { challenges = drop_challenge m.challenges code }) s s
      (challenge_closed code ∷ []) refl
      (unfold view effects effect in
        ap (λ cs. record (view (m, s)) { challenges = cs })
          (fresh-drop_challenge m.challenges code))
      refl

pub close_challenges-Logged :
    (height : BlockHeight) (m : Market) (s : Registry) (codes : List OtpCode)
    → Logged height (m, s) (close_challenges m height codes, s)
unfolding close_challenges
close_challenges-Logged height m s [] = Logged-refl height (m, s)
close_challenges-Logged height m s (code ∷ codes) =
    Logged-trans (close_challenge-Logged height m s code)
      (close_challenges-Logged height (close_challenge m height code) s codes)

pub close_where-Logged :
    (height : BlockHeight) (m : Market) (s : Registry) (p : MarketChallenge → Bool)
    → Logged height (m, s) (close_where m height p, s)
unfolding close_where
close_where-Logged height m s p = close_challenges-Logged height m s (codes_of p m.challenges)
