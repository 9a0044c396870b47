-- ===== src/Market/Buys.antt =====
-- mint/sale.rs: what `Market::open_buy` promises where it opens a buy.
use zns_mint.Prelude.{
  ℕ, ◌+◌, List, [], ◌∷◌, ◌++◌, All, any, some_if, ap, sym, ◌∙◌, leb, ◌==◌, ◌≡◌, ◌≢◌, refl, Bool,
  true, false, Option, none, some, arith, nat_eq, bytes_eq, if◌then◌else◌, Option-cases, inl, inr,
  subst,
}
use zns_mint.Chain.{
  Params, UnifiedAddress, NameCommitment, Zatoshis, TransparentAddress, BlockHeight, Timestamp,
  from_seconds,
}
use zns_mint.Name.{Name}
use zns_mint.Term.{Expiry}
use zns_mint.Otp.{OtpCode}
use zns_mint.Payment.{otp_amount, payment_total, amount_eq}
use zns_mint.Sale.Open.{open_sale_inv}
use zns_mint.Challenge
use zns_mint.Challenge.{MarketChallenge, codes_of}
use zns_mint.Term.{max_u64}
use zns_mint.Listing.{Listing, Ask, MarketRefusal, flat, dutch, is_owner_listing, price_at}
use zns_mint.Registry.{Registry}
use zns_mint.Registry.Listings.{Ruling, ok, err, panic, listing, quote}
use zns_mint.Registry.Market.{owner_listing_iff}
use zns_mint.Sale
use zns_mint.Sale.{
  BuyOtp, same_payment, open_sale, Sale, SaleQueue, Quote, paying, pays_same, opened, d_dutch,
  get_sale,
}
use zns_mint.Market.{
  Market, close_challenges, close_challenge, record_all, record_event, close_where, open_event,
}
use zns_mint.Market.Trade
use zns_mint.Market.Trade.{quote_listing, quote_ask, open_quoted, open_buy}
use zns_mint.Market.Trades.{open_buy_quoted, open_sale_ok}

abbrev pub by_clock : Ask → Bool
by_clock (flat p) = false
by_clock (dutch c) = true

quote_ask_price :
    (l : Listing) (ask : Ask) (height : BlockHeight) (r : TransparentAddress × Zatoshis × Bool)
    → quote_ask l ask height ≡ ok r
    → (r.0 ≡ l.pay_to)
      × (elim ask [ flat p ↦ some p | dutch c ↦ price_at c height ] ≡ some r.1)
      × (r.2 ≡ by_clock ask)
unfolding quote_ask
quote_ask_price l (flat p) height r h = (ground arith, ground arith, ground arith)
quote_ask_price l (dutch c) height r h = (ground arith, ground arith, ground arith)

quote_listing_sound :
    (params : Params) (s : Registry) (n : Name) (o : Option Listing) (owner : UnifiedAddress)
    (height : BlockHeight) (r : TransparentAddress × Zatoshis × Bool)
    → listing s n ≡ o
    → quote_listing params o owner height ≡ ok r
    → (l : Listing) × (listing s n ≡ some l)
      × (owner ≡ l.ua)
      × (params.transparent owner ≡ some l.pay_to)
      × (quote s n height ≡ some r.1)
      × (r.0 ≡ l.pay_to)
      × (r.2 ≡ by_clock l.ask)
quote_listing_sound params s n none owner height r e h =
    absurd (unfold quote_listing in ground arith)
quote_listing_sound params s n (some l) owner height r e h =
    let a : is_owner_listing params owner l.ua l.pay_to ≡ true =
      unfold quote_listing in ground arith in
    let b = (owner_listing_iff params owner l.ua l.pay_to).0 a in
    let c = quote_ask_price l l.ask height r (unfold quote_listing in ground (arith, a)) in
    (l, e, b.0, b.1, unfold quote in ground (arith, e, c.1), c.0, c.2)

-- A sale that still waits for its payment does not ask for this sum at this address.
abbrev pub AsksOther : TransparentAddress → ℕ → Sale → Type 0
AsksOther pay_to sum s =
    (q : Quote) → s.phase ≡ paying q → q.pay_to ≡ pay_to → q.price + otp_amount q.code ≢ sum

All-not_any :
    {A : Type 0} (p : A → Bool) (P : A → Type 0) (xs : List A)
    → ((x : A) → p x ≡ false → P x)
    → any p xs ≡ false
    → All P xs
All-not_any p P [] f h = tt
All-not_any p P (x ∷ xs) f h = (f x (ground arith), All-not_any p P xs f (ground arith))

asks_same :
    (q : Quote) (pay_to : TransparentAddress) (total : ℕ)
    → pays_same pay_to total (paying q) ≡ false
    → q.pay_to ≡ pay_to
    → payment_total q.price q.code ≢ some total
asks_same q pay_to total h a t = ground arith

pays_same-AsksOther :
    (pay_to : TransparentAddress) (price total : Zatoshis) (code : OtpCode) (s : Sale)
    → payment_total price code ≡ some total
    → pays_same pay_to total s.phase ≡ false
    → AsksOther pay_to (price + otp_amount code) s
unfolding payment_total
pays_same-AsksOther pay_to price total code s e h q p a b =
    let t : payment_total q.price q.code ≡ some total = ap (λ k. some_if (leb k max_u64) k) b ∙ e in
    asks_same q pay_to total (ap (pays_same pay_to total) (sym p) ∙ h) a t

same_payment-AsksOther :
    (q : SaleQueue) (pay_to : TransparentAddress) (price : Zatoshis) (code : OtpCode)
    → same_payment q pay_to price code ≡ false
    → All (AsksOther pay_to (price + otp_amount code)) q
unfolding same_payment
same_payment-AsksOther q pay_to price code h = elim (Option-cases (payment_total price code)) [
  | inl e ↦ absurd (ground arith)
  | inr (total, e) ↦
      All-not_any (λ s. pays_same pay_to total s.phase) (AsksOther pay_to (price + otp_amount code))
        q (λ s. pays_same-AsksOther pay_to price total code s e) (ground arith)
]

close_challenges-sales :
    (m : Market) (height : BlockHeight) (codes : List OtpCode)
    → (close_challenges m height codes).sales ≡ m.sales
unfolding close_challenges close_challenge record_all
close_challenges-sales m height [] = refl
close_challenges-sales m height (code ∷ codes) =
    close_challenges-sales (close_challenge m height code) height codes

close_where-sales :
    (m : Market) (height : BlockHeight) (p : MarketChallenge → Bool)
    → (close_where m height p).sales ≡ m.sales
unfolding close_where
close_where-sales m height p = close_challenges-sales m height (codes_of p m.challenges)

in_range : (params : Params) (t e : Timestamp) → from_seconds params t ≡ some e → t ≡ e
in_range params t e h = ground arith

-- The state and the reply after a sale is opened, field by field.
abbrev pub Opens :
    Market
    → Name
    → UnifiedAddress
    → UnifiedAddress
    → TransparentAddress
    → Zatoshis
    → Bool
    → Expiry
    → NameCommitment
    → OtpCode
    → Timestamp
    → Market × BuyOtp
    → Type 0
Opens m n bob owner pay_to price clocked term live code mtp r =
    (e : Timestamp) × (e ≡ mtp + (if clocked then 600 else 1800))
    × (r.0.sales
        ≡ m.sales
          ++ record {
            name = n;
            bob = bob;
            alice = owner;
            held = live;
            term = term;
            dutch = clocked;
            until = e;
            phase = paying (record {
              code = code;
              pay_to = pay_to;
              price = price;
              expires_at = e;
              relayed = false;
            });
          }
            ∷ [])
    × (r.1 ≡ record { code = code; name = n; ua = bob; dutch = some_if clocked (price, e) })

open_quoted_sale :
    (params : Params) (m : Market) (n : Name) (bob owner : UnifiedAddress) (term : Expiry)
    (live : NameCommitment) (code : OtpCode) (mtp : Timestamp) (height : BlockHeight)
    (pay_to : TransparentAddress) (price : Zatoshis) (clocked : Bool) (r : Market × BuyOtp)
    → open_quoted params m n bob owner term live code mtp height (pay_to, price, clocked) ≡ ok r
    → Opens m n bob owner pay_to price clocked term live code mtp r
open_quoted_sale params m n bob owner term live code mtp height pay_to price clocked r h =
    elim (Option-cases
      (open_sale params m.sales n bob owner pay_to price term live code clocked mtp)) [
        | inl e ↦ absurd (unfold open_quoted in ground arith)
        | inr ((q', otp), e) ↦
            let a =
              open_sale_inv params m.sales n bob owner pay_to price term live code clocked mtp q'
                otp e in
            let b =
              open_sale_ok params m.sales n bob owner pay_to price term live code clocked mtp q' otp
                e in
            let m' = record_event (record m { sales = q' }) height (open_event b.0) in
            let z : (close_where m' height (λ c. Challenge.name c.kind == n), otp) ≡ r =
              unfold open_quoted in ground (arith, e, b.1) in
            let pair = a.1.2 in
            let kept : m'.sales ≡ q' = unfold record_all in refl in
            (
              a.1.0,
              sym (in_range params _ a.1.0 a.1.1),
              ap (λ (x : Market × BuyOtp). x.0.sales) (sym z)
                  ∙ close_where-sales m' height (λ c. Challenge.name c.kind == n)
                  ∙ kept
                  ∙ ap (λ (x : SaleQueue × BuyOtp). x.0) (sym pair),
              ap (λ (x : Market × BuyOtp). x.1) (sym z)
                  ∙ ap (λ (x : SaleQueue × BuyOtp). x.1) (sym pair),
            )
      ]

-- Where a buy opens, no buy of the name is open, no release is due, no note is pending, and the
-- name has a listing whose controller is the given owner and whose address to pay is that owner's
-- transparent receiver. The registry quotes a price at the height, and no sale that waits for its
-- payment at that address asks for the sum of that price and the code. The open sales are those
-- before, with one behind them for the buyer at this price and code, which can be paid for ten
-- minutes where a clock sets the price and for thirty where it is flat; the reply has the code,
-- the name and the buyer, and for a clock the price and the time.
pub open_buy_sound :
    (params : Params) (m : Market) (s : Registry) (n : Name) (bob owner : UnifiedAddress)
    (term : Expiry) (live : NameCommitment) (is_due pending : Bool) (code : OtpCode)
    (mtp : Timestamp) (height : BlockHeight) (r : Market × BuyOtp)
    → open_buy params m s n bob owner term live is_due pending code mtp height ≡ ok r
    → (is_due ≡ false)
      × (pending ≡ false)
      × (any (λ x. x.name == n) m.sales ≡ false)
      × ((l : Listing) × (price : Zatoshis) × (listing s n ≡ some l)
          × (owner ≡ l.ua)
          × (params.transparent owner ≡ some l.pay_to)
          × (quote s n height ≡ some price)
          × All (AsksOther l.pay_to (price + otp_amount code)) m.sales
          × Opens m n bob owner l.pay_to price (by_clock l.ask) term live code mtp r)
open_buy_sound params m s n bob owner term live is_due pending code mtp height r h =
    let a = open_buy_quoted params m s n bob owner term live is_due pending code mtp height r h in
    let b = quote_listing_sound params s n (listing s n) owner height a.0 refl a.1 in
    let g : (is_due ≡ false) × (pending ≡ false) × (Sale.is_open m.sales n ≡ false) =
      unfold open_buy in ground arith in
    let o =
      open_quoted_sale params m n bob owner term live code mtp height a.0.0 a.0.1 a.0.2 r a.3 in
    (
      g.0,
      g.1,
      unfold Sale.is_open in g.2,
      (
        b.0,
        a.0.1,
        b.1,
        b.2,
        b.3,
        b.4,
        subst (λ t. All (AsksOther t (a.0.1 + otp_amount code)) m.sales) b.5
            (same_payment-AsksOther m.sales a.0.0 a.0.1 code a.2),
        subst (λ t. Opens m n bob owner t a.0.1 (by_clock b.0.ask) term live code mtp r) b.5
            (subst (λ k. Opens m n bob owner a.0.0 a.0.1 k term live code mtp r) b.6 o),
      ),
    )

pub err-ne-panic : {A : Type 0} (e : MarketRefusal) → ◌≢◌ {A = Ruling A} (err e) panic
err-ne-panic e h = ground arith

pub if-ne-panic :
    {A : Type 0} (b : Bool) (x y : Ruling A) → x ≢ panic → y ≢ panic → (if b then x else y) ≢ panic
if-ne-panic true x y p q = p
if-ne-panic false x y p q = q

pub >>=-ne-panic :
    {A B : Type 0} (r : Ruling A) (f : A → Ruling B)
    → r ≢ panic
    → ((a : A) → f a ≢ panic)
    → (Trade.◌>>=◌ r f) ≢ panic
>>=-ne-panic (ok a) f p q = q a
>>=-ne-panic (err e) f p q = err-ne-panic e
>>=-ne-panic panic f p q = λ _. p refl

quote_listing-ne-panic :
    (params : Params) (o : Option Listing) (owner : UnifiedAddress) (height : BlockHeight)
    → quote_listing params o owner height ≢ panic
unfolding quote_listing quote_ask
quote_listing-ne-panic params none owner height h = ground arith
quote_listing-ne-panic params (some l) owner height h = ground arith

open_quoted-ne-panic :
    (params : Params) (m : Market) (n : Name) (bob owner : UnifiedAddress) (term : Expiry)
    (live : NameCommitment) (code : OtpCode) (mtp : Timestamp) (height : BlockHeight)
    (quote : TransparentAddress × Zatoshis × Bool)
    → open_quoted params m n bob owner term live code mtp height quote ≢ panic
open_quoted-ne-panic params m n bob owner term live code mtp height (pay_to, price, by_clock) h =
    elim (Option-cases
      (open_sale params m.sales n bob owner pay_to price term live code by_clock mtp)) [
        | inl e ↦ unfold open_quoted in ground arith
        | inr ((q', otp), e) ↦
            let a =
              open_sale_ok params m.sales n bob owner pay_to price term live code by_clock mtp q'
                otp e in
            unfold open_quoted in ground (arith, e, a.1)
      ]

-- A buy never meets the `expect` of its sale.
pub open_buy-ne-panic :
    (params : Params) (m : Market) (s : Registry) (n : Name) (bob owner : UnifiedAddress)
    (term : Expiry) (live : NameCommitment) (is_due pending : Bool) (code : OtpCode)
    (mtp : Timestamp) (height : BlockHeight)
    → open_buy params m s n bob owner term live is_due pending code mtp height ≢ panic
unfolding open_buy
open_buy-ne-panic params m s n bob owner term live is_due pending code mtp height =
    if-ne-panic _ _ _ (err-ne-panic _) (
      >>=-ne-panic _ _ (quote_listing-ne-panic params (listing s n) owner height) (λ a.
        if-ne-panic is_due _ _ (err-ne-panic _) (
          if-ne-panic pending _ _ (err-ne-panic _) (
            if-ne-panic _ _ _ (err-ne-panic _)
              (open_quoted-ne-panic params m n bob owner term live code mtp height a)))))
