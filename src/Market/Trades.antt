-- ===== src/Market/Trades.antt =====
-- mint/sale.rs: a listing, a delisting, a buy, a proposal and a response change the view of the market
-- by the events that they log.
use zns_mint.Prelude.{
  ◌+◌, ◌≡◌, refl, ap, ◌∙◌, sym, Bool, false, List, [], ◌∷◌, ◌++◌, Option, none, some, arith, ◌==◌,
  nat_eq, bytes_eq, map, subst, Option-cases, inl, inr, ◌⊎◌,
}
use zns_mint.Prelude.Maps.{bytes_order}
use zns_mint.Chain.{
  Params, UnifiedAddress, NameCommitment, Zatoshis, TransparentAddress, BlockHeight, Timestamp,
  from_seconds,
}
use zns_mint.Name.{Name}
use zns_mint.Term.{Expiry}
use zns_mint.Otp.{OtpCode, d_otp}
use zns_mint.Listing.{Listing}
use zns_mint.Registry.{Registry}
use zns_mint.Registry.Listings
use zns_mint.Registry.Listings.{
  Ruling, ok, err, panic, clear_listings, restore_listing, remove_listing, listing,
}
use zns_mint.Sale.Open.{open_sale_inv, get_sale-push, restore-fresh}
use zns_mint.Sale.{Sale, SaleQueue, restore, BuyOtp, same_payment, opened, open_sale, get_sale}
use zns_mint.Challenge
use zns_mint.Challenge.{
  MarketChallenge, ChallengeKind, Done, done, clock_ready, drop_challenge, restore_challenge,
  has_code, code_is_open,
}
use zns_mint.Market.{Market, State, delist, list, open_event, challenge, record_event, close_where}
use zns_mint.Market.Trade.{
  list_name, delist_name, quote_listing, open_quoted, open_buy, push_challenge, propose_list,
  propose_delist,
}
use zns_mint.Market.View.{
  view, effect, effects, unsent, fresh, unsent-restore, fresh-restore_challenge,
}
use zns_mint.Market.Logged.{
  Logged, Logged-refl, Logged-trans, record_all-Logged, close_where-Logged,
}

list_ok :
    (params : Params) (s s' : Registry) (l : Listing)
    → Listings.list params s l ≡ ok s'
    → s' ≡ restore_listing s l
unfolding Listings.list
list_ok params s s' l h = ground arith

delist_ok :
    (s s' : Registry) (n : Name) (u : UnifiedAddress)
    → Listings.delist s n u ≡ ok s'
    → s' ≡ (remove_listing s n).0
unfolding Listings.delist
delist_ok s s' n u h = ground arith

pub list_name_ok :
    (params : Params) (m : Market) (s : Registry) (l : Listing) (height : BlockHeight) (σ : State)
    → list_name params m s l height ≡ ok σ
    → σ ≡ (record_event m height (list l), restore_listing s l)
unfolding list_name
list_name_ok params m s l height σ h = ground (arith, list_ok params s σ.1 l)

pub delist_name_ok :
    (m : Market) (s : Registry) (n : Name) (u : UnifiedAddress) (height : BlockHeight) (σ : State)
    → delist_name m s n u height ≡ ok σ
    → σ ≡ (record_event m height (delist n), (remove_listing s n).0)
unfolding delist_name
delist_name_ok m s n u height σ h = ground (arith, delist_ok s σ.1 n u)

-- A sale that opens is pushed, and is the one that is logged.
pub open_sale_ok :
    (params : Params) (q : SaleQueue) (n : Name) (bob alice : UnifiedAddress)
    (pay_to : TransparentAddress) (price : Zatoshis) (term : Expiry) (live : NameCommitment)
    (code : OtpCode) (by_clock : Bool) (mtp : Timestamp) (q' : SaleQueue) (otp : BuyOtp)
    → open_sale params q n bob alice pay_to price term live code by_clock mtp ≡ some (q', otp)
    → (sale : Sale) × (get_sale q' n ≡ some sale) × (q' ≡ restore q sale)
open_sale_ok params q n bob alice pay_to price term live code by_clock mtp q' otp h =
    let a = open_sale_inv params q n bob alice pay_to price term live code by_clock mtp q' otp h in
    let x = opened n bob alice pay_to price term live code by_clock a.1.0 in
    let e = ap (λ (r : SaleQueue × BuyOtp). r.0) a.1.2 in
    (x, ap (λ r. get_sale r n) (sym e) ∙ get_sale-push q x a.0, sym e ∙ sym (restore-fresh q x a.0))

abbrev built : ChallengeKind → OtpCode → Timestamp → MarketChallenge
built kind code e = record {
  kind = kind;
  code = code;
  expires_at = e;
  relayed = false;
  attempts = 0;
}

expected :
    {A B : Type 0} (o : Option A) (f : A → B) (y : B)
    → (elim o as (λ _. Ruling B) [ none ↦ panic | some a ↦ ok (f a) ]) ≡ ok y
    → (a : A) × (f a ≡ y)
expected none f y h = absurd (ground arith)
expected (some a) f y h = (a, ground arith)

restore_challenge-fresh :
    (cs : List MarketChallenge) (c : MarketChallenge)
    → code_is_open cs c.code ≡ false
    → restore_challenge cs c ≡ cs ++ c ∷ []
unfolding restore_challenge
restore_challenge-fresh cs c h = rw (h, restore_challenge) refl

-- A buy that opens has a quote, which no open sale has.
pub open_buy_quoted :
    (params : Params) (m : Market) (s : Registry) (n : Name) (bob owner : UnifiedAddress)
    (term : Expiry) (live : NameCommitment) (is_due note_pending : Bool) (code : OtpCode)
    (mtp : Timestamp) (height : BlockHeight) (r : Market × BuyOtp)
    → open_buy params m s n bob owner term live is_due note_pending code mtp height ≡ ok r
    → (quote : TransparentAddress × Zatoshis × Bool) × (quote_listing params
          (listing s n)
          owner
          height
        ≡ ok quote)
      × (same_payment m.sales quote.0 quote.1 code ≡ false)
      × (open_quoted params m n bob owner term live code mtp height quote ≡ ok r)
unfolding open_buy
open_buy_quoted params m s n bob owner term live is_due note_pending code mtp height r h =
    ground arith

module _ (height : BlockHeight) (m : Market) (s : Registry) where
  pub list_name-Logged :
      (params : Params) (l : Listing) (σ : State)
      → list_name params m s l height ≡ ok σ
      → Logged height (m, s) σ
  list_name-Logged params l σ h =
      subst (Logged height (m, s)) (sym (list_name_ok params m s l height σ h)) (
        record_all-Logged height m m s (restore_listing s l) (list l ∷ []) refl
          (unfold view effects effect restore_listing in refl)
          (unfold clear_listings restore_listing in refl))

  pub delist_name-Logged :
      (n : Name) (u : UnifiedAddress) (σ : State)
      → delist_name m s n u height ≡ ok σ
      → Logged height (m, s) σ
  delist_name-Logged n u σ h =
      subst (Logged height (m, s)) (sym (delist_name_ok m s n u height σ h)) (
        record_all-Logged height m m s (remove_listing s n).0 (delist n ∷ []) refl
          (unfold view effects effect remove_listing in refl)
          (unfold clear_listings remove_listing in refl))

  push_challenge-Logged :
      (params : Params) (kind : ChallengeKind) (code : OtpCode) (mtp : Timestamp) (m' : Market)
      → push_challenge params m kind code mtp height ≡ ok m'
      → code_is_open m.challenges code ≡ false
      → Logged height (m, s) (m', s)
  unfolding push_challenge
  push_challenge-Logged params kind code mtp m' h o =
      let a =
        expected (from_seconds params (mtp + d_otp))
          (λ e. record (record_event m height (challenge (built kind code e))) {
            challenges = m.challenges ++ built kind code e ∷ [];
          })
          m' h in
      let c = built kind code a.0 in
      subst (λ x. Logged height (m, s) (x, s)) a.1
        (record_all-Logged height m (record m { challenges = m.challenges ++ c ∷ [] }) s s
          (challenge c ∷ []) refl
          (unfold view effects effect in
            ap (λ cs. record (view (m, s)) { challenges = cs })
              (ap (map fresh) (sym (restore_challenge-fresh m.challenges c o))
                ∙ fresh-restore_challenge m.challenges c))
          refl)

  proposed-Logged :
      (params : Params) (kind : ChallengeKind) (code : OtpCode) (mtp : Timestamp) (m' : Market)
      → (m ≡ m')
        ⊎ ((push_challenge params m kind code mtp height ≡ ok m')
            × (code_is_open m.challenges code ≡ false))
      → Logged height (m, s) (m', s)
  proposed-Logged params kind code mtp m' (inl e) =
      subst (λ x. Logged height (m, s) (x, s)) e (Logged-refl height (m, s))
  proposed-Logged params kind code mtp m' (inr (h, o)) =
      push_challenge-Logged params kind code mtp m' h o

  pub propose_list-Logged :
      (params : Params) (l : Listing) (owner : UnifiedAddress) (code : OtpCode) (mtp : Timestamp)
      (m' : Market)
      → propose_list params m l owner code mtp height ≡ ok m'
      → Logged height (m, s) (m', s)
  propose_list-Logged params l owner code mtp m' h =
      proposed-Logged params (ChallengeKind.list l) code mtp m'
        (unfold propose_list in ground arith)

  pub propose_delist-Logged :
      (params : Params) (n : Name) (u : UnifiedAddress) (code : OtpCode) (mtp : Timestamp)
      (m' : Market)
      → propose_delist params m s n u code mtp height ≡ ok m'
      → Logged height (m, s) (m', s)
  propose_delist-Logged params n u code mtp m' h =
      proposed-Logged params (ChallengeKind.delist n u) code mtp m'
        (unfold propose_delist in ground arith)

  -- A sale that opens closes the challenges for its name.
  pub open_quoted-Logged :
      (params : Params) (n : Name) (bob owner : UnifiedAddress) (term : Expiry)
      (live : NameCommitment) (code : OtpCode) (mtp : Timestamp)
      (quote : TransparentAddress × Zatoshis × Bool) (m' : Market) (otp : BuyOtp)
      → open_quoted params m n bob owner term live code mtp height quote ≡ ok (m', otp)
      → Logged height (m, s) (m', s)
  open_quoted-Logged params n bob owner term live code mtp (pay_to, price, by_clock) m' otp h =
      elim (Option-cases
        (open_sale params m.sales n bob owner pay_to price term live code by_clock mtp)) [
          | inl e ↦ absurd (unfold open_quoted in ground arith)
          | inr ((q', otp'), e) ↦
              let a =
                open_sale_ok params m.sales n bob owner pay_to price term live code by_clock mtp q'
                  otp' e in
              let m'' = record_event (record m { sales = q' }) height (open_event a.0) in
              let z : close_where m'' height (λ c. Challenge.name c.kind == n) ≡ m' =
                unfold open_quoted in ground (arith, e, a.1) in
              subst (λ x. Logged height (m, s) (x, s)) z
                (Logged-trans
                  (record_all-Logged height m (record m { sales = q' }) s s (open_event a.0 ∷ [])
                    refl
                    (unfold view effects effect in
                      ap (λ q. record (view (m, s)) { sales = q })
                        (ap (map unsent) a.2 ∙ unsent-restore m.sales a.0))
                    refl)
                  (close_where-Logged height m'' s (λ c. Challenge.name c.kind == n)))
        ]

  pub open_buy-Logged :
      (params : Params) (n : Name) (bob owner : UnifiedAddress) (term : Expiry)
      (live : NameCommitment) (is_due note_pending : Bool) (code : OtpCode) (mtp : Timestamp)
      (m' : Market) (otp : BuyOtp)
      → open_buy params m s n bob owner term live is_due note_pending code mtp height ≡ ok (m', otp)
      → Logged height (m, s) (m', s)
  open_buy-Logged params n bob owner term live is_due note_pending code mtp m' otp h =
      let a =
        open_buy_quoted params m s n bob owner term live is_due note_pending code mtp height
          (m', otp) h in
      open_quoted-Logged params n bob owner term live code mtp a.0 m' otp a.3
