-- ===== src/Market/Steps.antt =====
-- mint/sale.rs: every operation of the market changes the view by the events that it logs.
use zns_mint.Prelude.{
  ◌≡◌, refl, ap, ◌∙◌, sym, Bool, not, List, [], ◌∷◌, Option, arith, ◌==◌, nat_eq, bytes_eq,
  if◌then◌else◌, map, leb,
}
use zns_mint.Prelude.Maps.{bytes_order}
use zns_mint.Chain.{UnifiedAddress, BlockHeight, Timestamp}
use zns_mint.Name.{Name}
use zns_mint.Otp.{OtpCode}
use zns_mint.Registry.{Registry}
use zns_mint.Registry.Listings.{finish_clocks, is_finished, reconcile_listings, is_held}
use zns_mint.Payment.{Payment}
use zns_mint.Sale.Leave
use zns_mint.Sale.Settle
use zns_mint.Sale
use zns_mint.Sale.{
  Sale, SaleQueue, restore, set_relayed, relay_sale, BuyOtp, mark_paid, opened, open_sale, get_sale,
  paying, Phase,
}
use zns_mint.Sale.Leave.{in_time, is_live, stays, poll_one, retain_sales}
use zns_mint.Sale.Observe.{marks, marks-observe_from}
use zns_mint.Challenge
use zns_mint.Challenge.{
  MarketChallenge, ChallengeKind, codes_of, drop_challenge, restore_challenge, relay_challenge,
  has_code, code_is_open,
}
use zns_mint.Market
use zns_mint.Market.{
  Market, State, MarketEvent, delist, list, open_event, paid, challenge, challenge_closed,
  record_all, record_event, close_challenge, close_where, live_note, is_stale,
}
use zns_mint.Market.View.{
  View, view, effect, effects, unsent, unsend, fresh, Valid, unsent-mark_paid,
}
use zns_mint.Market.Logged.{
  Logged, Logged-trans, Logged-Valid, record_all-Logged, silent, listings-Logged, expired-Logged,
  closed-Logged, close_where-Logged, Valid-sales,
}

unsend-set_relayed : (b : Bool) (p : Phase) → unsend (if b then set_relayed p else p) ≡ unsend p
unsend-set_relayed b (paying q) = ground arith
unsend-set_relayed b Phase.paid = ground arith

map-map_same :
    {A : Type 0} (f g : A → A) (xs : List A)
    → ((x : A) → f (g x) ≡ f x)
    → map f (map g xs) ≡ map f xs
map-map_same f g [] h = refl
map-map_same f g (x ∷ xs) h = λ i. h x i ∷ map-map_same f g xs h i

-- The payments that `observe` matches, as events.
effects-paid :
    (ps : List (Name × OtpCode)) (q : SaleQueue) (v : View)
    → v.sales ≡ map unsent q
    → effects (map (λ p. paid p.0 p.1) ps) v ≡ record v { sales = map unsent (marks ps q) }
unfolding effects effect
effects-paid [] q v e = λ i. record v { sales = e i }
effects-paid (p ∷ ps) q v e =
    effects-paid ps (mark_paid q p.0 p.1) (effect (paid p.0 p.1) v)
      (ap (λ r. mark_paid r p.0 p.1) e ∙ sym (unsent-mark_paid q p.0 p.1))

module _ (height : BlockHeight) (m : Market) (s : Registry) where
  pub relayed-Logged : (n : Name) → Logged height (m, s) (Market.relayed m n, s)
  unfolding Market.relayed Sale.relayed view
  relayed-Logged n = silent height m (Market.relayed m n) s refl (
      ap (λ q. record (view (m, s)) { sales = q })
        (map-map_same unsent (relay_sale n) m.sales
          (λ x. ap (λ p. record x { phase = p }) (unsend-set_relayed (x.name == n) x.phase))))

  pub challenge_relayed-Logged :
      (code : OtpCode) → Logged height (m, s) (Market.challenge_relayed m code, s)
  unfolding Market.challenge_relayed view
  challenge_relayed-Logged code = silent height m (Market.challenge_relayed m code) s refl (
      ap (λ cs. record (view (m, s)) { challenges = cs })
        (map-map_same fresh (relay_challenge code) m.challenges (λ c. ground arith)))

  pub observe-Logged :
      (holder : Name → Option UnifiedAddress) (payments : List Payment) (mtp : Timestamp)
      → Valid (view (m, s))
      → Logged height (m, s) (Market.observe m holder payments mtp height, s)
  unfolding Market.observe Settle.observe
  observe-Logged holder payments mtp u =
      let seen = Settle.observe m.sales holder payments mtp in
      record_all-Logged height m (record m { sales = seen.0 }) s s (map (λ p. paid p.0 p.1) seen.1)
        refl
        (unfold view in
          ap (λ q. record (view (m, s)) { sales = map unsent q })
            (sym (marks-observe_from holder mtp m.sales _ (Valid-sales m s u)))
          ∙ sym (effects-paid seen.1 m.sales (view (m, s)) refl))
        refl

  pub expire-Logged :
      (mtp : Timestamp) → Valid (view (m, s)) → Logged height (m, s) (Market.expire m s mtp height)
  unfolding Market.expire finish_clocks Leave.expire
  expire-Logged mtp u =
      let p =
        listings-Logged height m s (λ n l. not (is_finished height l.ask))
          (λ e. is_finished height e.1.ask) (λ n l. ground arith) u in
      let q = expired-Logged height _ _ (λ x. in_time mtp x.phase) (Logged-Valid p u) in
      Logged-trans p (Logged-trans q (close_where-Logged height _ _ (λ c. leb c.expires_at mtp)))

  pub reconcile-Logged : Valid (view (m, s)) → Logged height (m, s) (Market.reconcile m s height)
  unfolding Market.reconcile reconcile_listings Leave.reconcile
  reconcile-Logged u =
      let s' = (reconcile_listings s).0 in
      let p =
        listings-Logged height m s (is_held s) (λ e. not (is_held s e.0 e.1)) (λ n l. refl) u in
      let q =
        close_where-Logged height _ s' (λ c. is_stale (live_note s' (Challenge.name c.kind)) c) in
      Logged-trans p (
        Logged-trans q (
          closed-Logged height _ s' (λ x. is_live (live_note s' x.name) x)
            (Logged-Valid q (Logged-Valid p u))))

  pub poll-Logged :
      (pending : Name → Bool)
      → Valid (view (m, s))
      → Logged height (m, s) ((Market.poll m s pending height).0, s)
  unfolding Market.poll Leave.poll
  poll-Logged pending u = closed-Logged height m s (λ x. stays (poll_one s pending x)) u
