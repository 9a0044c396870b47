-- ===== src/Market/Spent.antt =====
-- mint/sale.rs: what `Market::answer` promises where a response spends a challenge.
use zns_mint.Prelude.{
  ℕ, suc, ◌≡◌, refl, ap, ◌∙◌, sym, Bool, true, false, not, List, [], ◌∷◌, Option, none, some, arith,
  nat_eq, bytes_eq, if◌then◌else◌, map, any, find, get_elem?, All, if_cases, subst, Bool-cases, inl,
  inr, ◌⊎◌, is_some,
}
use zns_mint.Chain.{Params, TransparentAddress, Zatoshis, BlockHeight}
use zns_mint.Listing.{Listing, Ask, flat, dutch, Clock, clock_eq}
use zns_mint.Action.{action_eq}
use zns_mint.Otp.{OtpCode, OtpMemo}
use zns_mint.Registry.{Registry}
use zns_mint.Registry.Listings.{Ruling, ok, err, panic}
use zns_mint.Sale
use zns_mint.Challenge
use zns_mint.Challenge.{
  MarketChallenge, ChallengeKind, drop_challenge, has_code, same_terms, same_ask, memo,
  quotes_price, quotes_clock,
}
use zns_mint.Market.{Market, State, challenge_closed, record_all, record_event}
use zns_mint.Market.Trade.{list_name, delist_name}
use zns_mint.Market.Trades.{list_name_ok, delist_name_ok}
use zns_mint.Market.Answer.{
  positions, remove_at, or_else, enact, spend, answer, answers_at, is_named, is_answered,
}
use zns_mint.Market.Answers.{
  unchanged, counted, spent, answer_cases, drop_challenge-remove_at, Valid-challenges,
}
use zns_mint.Market.View.{view, Valid}

-- What holds of every position that a test is met at.
abbrev AtEach : (MarketChallenge → Bool) → List MarketChallenge → ℕ → Type 0
AtEach p cs i = (c : MarketChallenge) → get_elem? cs i ≡ some c → p c ≡ true

All-suc :
    (p : MarketChallenge → Bool) (x : MarketChallenge) (cs : List MarketChallenge) (is : List ℕ)
    → All (AtEach p cs) is
    → All (AtEach p (x ∷ cs)) (map suc is)
All-suc p x cs [] h = tt
All-suc p x cs (i ∷ is) h = (h.0, All-suc p x cs is h.1)

positions-holds :
    (p : MarketChallenge → Bool) (cs : List MarketChallenge) → All (AtEach p cs) (positions p cs)
positions-holds p [] = tt
positions-holds p (x ∷ cs) =
    split (p x) refl (All-suc p x cs (positions p cs) (positions-holds p cs))
  where
    split :
        (b : Bool)
        → p x ≡ b
        → All (AtEach p (x ∷ cs)) (map suc (positions p cs))
        → All
            (AtEach p (x ∷ cs))
            (if b then 0 ∷ map suc (positions p cs) else map suc (positions p cs))
    split true e h = ((λ c g. ground arith), h)
    split false e h = h

find-holds :
    (P : ℕ → Type 0) (p : ℕ → Bool) (is : List ℕ) (i : ℕ)
    → All P is
    → find p is ≡ some i
    → P i × (p i ≡ true)
find-holds P p [] i h e = absurd (ground arith)
find-holds P p (j ∷ is) i h e = elim (Bool-cases (p j)) [
  | inl t ↦ let z : j ≡ i = ground arith in (subst P z h.0, ground arith)
  | inr f ↦ find-holds P p is i h.1 (ground arith)
]

or_else_all :
    {A : Type 0} (P : A → Type 0) (a : A) (r : Ruling A)
    → P a
    → ((b : A) → r ≡ ok b → P b)
    → P (or_else a r)
or_else_all P a (ok b) p f = f b refl
or_else_all P a (err e) p f = p
or_else_all P a panic p f = p

enact-challenges :
    (params : Params) (m : Market) (s : Registry) (kind : ChallengeKind) (height : BlockHeight)
    → (enact params m s kind height).0.challenges ≡ m.challenges
unfolding enact record_all
enact-challenges params m s (ChallengeKind.list l) height =
    or_else_all (λ (σ : State). σ.0.challenges ≡ m.challenges) (m, s)
      (list_name params m s l height) refl
      (λ σ h. ap (λ (τ : State). τ.0.challenges) (list_name_ok params m s l height σ h))
enact-challenges params m s (ChallengeKind.delist n u) height =
    or_else_all (λ (σ : State). σ.0.challenges ≡ m.challenges) (m, s) (delist_name m s n u height)
      refl (λ σ h. ap (λ (τ : State). τ.0.challenges) (delist_name_ok m s n u height σ h))

spend-challenges :
    (params : Params) (m : Market) (s : Registry) (i : ℕ) (c : MarketChallenge)
    (height : BlockHeight)
    → (spend params m s i c height).0.challenges ≡ remove_at i m.challenges
unfolding spend
spend-challenges params m s i c height =
    let m' =
      record_event (record m { challenges = remove_at i m.challenges }) height
        (challenge_closed c.code) in
    let p : m'.challenges ≡ remove_at i m.challenges = unfold record_all in refl in
    if_cases (λ (σ : State). σ.0.challenges ≡ remove_at i m.challenges)
      (Sale.is_open m'.sales (Challenge.name c.kind)) _ _ (λ _. p)
      (λ _. enact-challenges params m' s c.kind height ∙ p)

any-drop_challenge :
    (cs : List MarketChallenge) (code : OtpCode)
    → any (has_code code) (drop_challenge cs code) ≡ false
unfolding drop_challenge
any-drop_challenge [] code = refl
any-drop_challenge (c ∷ cs) code = ground (arith, any-drop_challenge cs code)

quotes_price_inv :
    (o : Option (TransparentAddress × Zatoshis)) (t : TransparentAddress) (p : Zatoshis)
    → quotes_price o t p ≡ true
    → some (t, p) ≡ o
quotes_price_inv none t p h = absurd (ground arith)
quotes_price_inv (some (u, q)) t p h = ground arith

quotes_clock_inv :
    (o : Option (TransparentAddress × Clock)) (t : TransparentAddress) (k : Clock)
    → quotes_clock o t k ≡ true
    → some (t, k) ≡ o
quotes_clock_inv none t k h = absurd (ground arith)
quotes_clock_inv (some (u, l)) t k h = ground arith

none_inv : {A : Type 0} (o : Option A) → not (is_some o) ≡ true → none ≡ o
none_inv none h = refl
none_inv (some a) h = absurd (ground arith)

abbrev SameTerms : ChallengeKind → OtpMemo → Type 0
SameTerms kind r =
    (Challenge.memo_clock kind ≡ r.clock)
    × ((is_some r.clock ≡ true) ⊎ (Challenge.memo_listing kind ≡ r.listing))

same_ask_terms :
    (l : Listing) (ask : Ask) (r : OtpMemo)
    → same_ask l ask r ≡ true
    → (Challenge.clock_terms l ask ≡ r.clock)
      × ((is_some r.clock ≡ true) ⊎ (Challenge.flat_terms l ask ≡ r.listing))
same_ask_terms l (flat p) r h =
    (none_inv r.clock (ground arith), inr (quotes_price_inv r.listing l.pay_to p (ground arith)))
same_ask_terms l (dutch k) r h =
    let e = quotes_clock_inv r.clock l.pay_to k h in (e, inl (ap is_some (sym e)))

same_kind_terms : (kind : ChallengeKind) (r : OtpMemo) → same_terms kind r ≡ true → SameTerms kind r
unfolding same_terms
same_kind_terms (ChallengeKind.list l) r h = same_ask_terms l l.ask r h
same_kind_terms (ChallengeKind.delist n u) r h =
    (none_inv r.clock (ground arith), inr (none_inv r.listing (ground arith)))

same_terms-memo :
    (c : MarketChallenge) (r : OtpMemo)
    → same_terms c.kind r ≡ true
    → ((memo c).clock ≡ r.clock) × ((is_some r.clock ≡ true) ⊎ ((memo c).listing ≡ r.listing))
unfolding memo
same_terms-memo c r h = same_kind_terms c.kind r h

-- In a valid state, a response that spends a challenge has the name, the controller, the action
-- and the code of one challenge of the queue, and the clock in that challenge's memo; the listing
-- too, unless the response carries a clock. That challenge is taken out of the queue, in which the
-- others stay in their order, and no challenge with its code is left.
pub answer_sound :
    (params : Params) (m : Market) (s : Registry) (r : OtpMemo) (height : BlockHeight) (σ : State)
    → Valid (view (m, s))
    → answer params m s r height ≡ some (σ, true)
    → (c : MarketChallenge) × (i : ℕ) × (get_elem? m.challenges i ≡ some c)
      × ((memo c).name ≡ r.name)
      × ((memo c).ua ≡ r.ua)
      × ((memo c).action ≡ r.action)
      × ((memo c).code ≡ r.code)
      × ((memo c).clock ≡ r.clock)
      × ((is_some r.clock ≡ true) ⊎ ((memo c).listing ≡ r.listing))
      × (σ.0.challenges ≡ remove_at i m.challenges)
      × (any (has_code c.code) σ.0.challenges ≡ false)
answer_sound params m s r height σ u h = elim (answer_cases params m s r height σ true h) [
  | unchanged e f ↦ absurd (ground arith)
  | counted m' e f g ↦ absurd (ground arith)
  | spent i c e g f k ↦
      let a =
        find-holds (AtEach (is_named r) m.challenges) (answers_at r m.challenges)
          (positions (is_named r) m.challenges) i (positions-holds (is_named r) m.challenges) e in
      let b : is_answered r c ≡ true = ground (arith, a.1, g) in
      let n : is_named r c ≡ true = a.0 c g in
      let t = same_terms-memo c r (unfold is_answered in ground (arith, b)) in
      let d : σ.0.challenges ≡ drop_challenge m.challenges c.code =
        ap (λ (τ : State). τ.0.challenges) (sym f)
        ∙ spend-challenges params m s i c height
        ∙ sym (drop_challenge-remove_at m.challenges i c (Valid-challenges m s u) g) in
      (
        c,
        i,
        g,
        unfold is_named memo in ground (arith, n),
        unfold is_named memo in ground (arith, n),
        unfold is_named memo in ground (arith, n),
        unfold is_answered memo in ground (arith, b),
        t.0,
        t.1,
        ap (λ (τ : State). τ.0.challenges) (sym f) ∙ spend-challenges params m s i c height,
        ap (any (has_code c.code)) d ∙ any-drop_challenge m.challenges c.code,
      )
]
