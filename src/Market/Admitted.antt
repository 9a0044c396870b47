-- ===== src/Market/Admitted.antt =====
-- mint/sale.rs: what `Market::admit` promises.
use zns_mint.Prelude.{
  ◌+◌, ◌*◌, ◌≤◌, ◌≡◌, ◌↔◌, ◌⊎◌, inl, inr, Bool-cases, ◌≢◌, refl, Bool, true, false, not, ◌||◌,
  Option, none, some, arith, nat_eq, if◌then◌else◌, any, is_some,
}
use zns_mint.Chain.{UnifiedAddress, TxId, Zatoshis, BlockHeight, Timestamp, Params, max_money}
use zns_mint.Name.{Name}
use zns_mint.Listing.{
  Listing, Ask, MarketRefusal, flat, dutch, not_owner, buy_open, code_taken, not_listed,
  is_owner_listing,
}
use zns_mint.Otp.{OtpCode, d_otp}
use zns_mint.Treasury.{fee_actions}
use zns_mint.Market.Trade.{open_buy}
use zns_mint.Presale.{CodeKey, buy_otp, delist_otp}
use zns_mint.Registry.{Registry, NameRecord, record_of, is_release_due}
use zns_mint.Registry.Listings.{Ruling, ok, err, panic, listing}
use zns_mint.Sale
use zns_mint.Sale.{BuyOtp}
use zns_mint.Challenge.{ChallengeKind, clock_ready, same_list, same_delist, code_is_open}
use zns_mint.Market.{Market}
use zns_mint.Market.Trade.{propose_list, propose_delist, push_challenge, is_foreign}
use zns_mint.Market.Buys.{open_buy-ne-panic, err-ne-panic, if-ne-panic, >>=-ne-panic}
use zns_mint.Market.Admit.{
  MarketRequest, list, delist, buy, Admission, nothing, opened_for, fee_ok, listing_code, kept,
  returned_intent, admit_list, admit_delist, on_buy, admit_buy, admit,
}

-- The payment covers the fee of an action, which is an amount.
abbrev pub Pays : Zatoshis → Zatoshis → Type 0
Pays marginal_fee paid =
    (marginal_fee * fee_actions ≤ max_money) × (marginal_fee * fee_actions ≤ paid)

fee_ok_iff :
    (marginal_fee paid : Zatoshis) → fee_ok marginal_fee paid ≡ true ↔ Pays marginal_fee paid
unfolding fee_ok
fee_ok_iff marginal_fee paid = ground arith

module _ (params : Params) (m : Market) (s : Registry) (height : BlockHeight) (mtp : Timestamp)
    (pending : Name → Bool) (key : CodeKey) (txid : TxId) (marginal_fee paid : Zatoshis) where
  -- The market's own operation on a buy of a name with this record.
  abbrev pub buy_of : Name → UnifiedAddress → NameRecord → Ruling (Market × BuyOtp)
  buy_of n bob r =
      open_buy params m s n bob r.ua r.expires_at r.commitment (is_release_due r mtp) (pending n)
        (buy_otp key txid n) mtp height

  -- What an admission is: nothing, a challenge that the market's own operation proposed, a refusal
  -- of a buy that may send the payment back, or a buy that was opened. All but the first are paid.
  pub data Admitted (request : MarketRequest) (m' : Market) (a : Admission) : Type 0 where
    passed : m ≡ m' → a ≡ nothing → Admitted request m' a
    listed :
        (l : Listing) (r : NameRecord)
        → request ≡ list l
        → Pays marginal_fee paid
        → record_of s l.name ≡ some r
        → is_release_due r mtp ≡ false
        → pending l.name ≡ false
        → propose_list params m l r.ua (listing_code key txid l) mtp height ≡ ok m'
        → a ≡ nothing
        → Admitted request m' a
    delisted :
        (n : Name) (u : UnifiedAddress)
        → request ≡ delist n u
        → Pays marginal_fee paid
        → pending n ≡ false
        → propose_delist params m s n u (delist_otp key txid n) mtp height ≡ ok m'
        → a ≡ nothing
        → Admitted request m' a
    refused :
        (n : Name) (bob : UnifiedAddress) (r : NameRecord) (e : MarketRefusal)
        → request ≡ buy n bob
        → Pays marginal_fee paid
        → record_of s n ≡ some r
        → buy_of n bob r ≡ err e
        → m ≡ m'
        → a ≡ record { opened = none; returned = returned_intent n bob e }
        → Admitted request m' a
    bought :
        (n : Name) (bob : UnifiedAddress) (r : NameRecord) (otp : BuyOtp)
        → request ≡ buy n bob
        → Pays marginal_fee paid
        → record_of s n ≡ some r
        → buy_of n bob r ≡ ok (m', otp)
        → a ≡ opened_for n
        → Admitted request m' a

  kept_cases :
      (m' : Market) (a : Admission) (r : Ruling Market)
      → kept m r ≡ some (m', a)
      → (a ≡ nothing) × ((m ≡ m') ⊎ (r ≡ ok m'))
  kept_cases m' a (ok m₁) h = (ground arith, inr (ground arith))
  kept_cases m' a (err e) h = (ground arith, inl (ground arith))
  kept_cases m' a panic h = absurd (ground arith)

  admit_list_cases :
      (m' : Market) (a : Admission) (l : Listing) (o : Option NameRecord)
      → record_of s l.name ≡ o
      → admit_list params m txid l (fee_ok marginal_fee paid) s height mtp pending key
        ≡ some (m', a)
      → Admitted (list l) m' a
  admit_list_cases m' a l none e h =
      passed (unfold admit_list in ground arith) (unfold admit_list in ground arith)
  admit_list_cases m' a l (some r) e h =
      elim (Bool-cases (not (fee_ok marginal_fee paid) || is_release_due r mtp || pending l.name)) [
        | inl b ↦ passed (unfold admit_list in ground arith) (unfold admit_list in ground arith)
        | inr b ↦
            let c =
              kept_cases m' a (propose_list params m l r.ua (listing_code key txid l) mtp height)
                (unfold admit_list in ground arith) in
            elim c.1 [
              | inl z ↦ passed z c.0
              | inr z ↦
                  listed l r refl ((fee_ok_iff marginal_fee paid).0 (ground arith)) e (ground arith)
                    (ground arith) z c.0
            ]
      ]

  admit_delist_cases :
      (m' : Market) (a : Admission) (n : Name) (u : UnifiedAddress)
      → admit_delist params m txid n u (fee_ok marginal_fee paid) s height mtp pending key
        ≡ some (m', a)
      → Admitted (delist n u) m' a
  admit_delist_cases m' a n u h =
      elim (Bool-cases (is_foreign s n u || not (fee_ok marginal_fee paid) || pending n)) [
        | inl b ↦ passed (unfold admit_delist in ground arith) (unfold admit_delist in ground arith)
        | inr b ↦
            let c =
              kept_cases m' a (propose_delist params m s n u (delist_otp key txid n) mtp height)
                (unfold admit_delist in ground arith) in
            elim c.1 [
              | inl z ↦ passed z c.0
              | inr z ↦
                  delisted n u refl ((fee_ok_iff marginal_fee paid).0 (ground arith)) (ground arith)
                    z c.0
            ]
      ]

  on_buy_cases :
      (m' : Market) (a : Admission) (n : Name) (bob : UnifiedAddress) (r : NameRecord)
      (x : Ruling (Market × BuyOtp))
      → Pays marginal_fee paid
      → record_of s n ≡ some r
      → buy_of n bob r ≡ x
      → on_buy m n bob x ≡ some (m', a)
      → Admitted (buy n bob) m' a
  unfolding on_buy
  on_buy_cases m' a n bob r (ok (m₁, otp)) p e f h =
      bought n bob r otp refl p e (ground arith) (ground arith)
  on_buy_cases m' a n bob r (err x) p e f h =
      refused n bob r x refl p e f (ground arith) (ground arith)
  on_buy_cases m' a n bob r panic p e f h = absurd (ground arith)

  admit_buy_cases :
      (m' : Market) (a : Admission) (n : Name) (bob : UnifiedAddress) (o : Option NameRecord)
      → record_of s n ≡ o
      → admit_buy params m txid n bob (fee_ok marginal_fee paid) s height mtp pending key
        ≡ some (m', a)
      → Admitted (buy n bob) m' a
  admit_buy_cases m' a n bob none e h =
      passed (unfold admit_buy in ground arith) (unfold admit_buy in ground arith)
  admit_buy_cases m' a n bob (some r) e h = elim (Bool-cases (fee_ok marginal_fee paid)) [
    | inr b ↦ passed (unfold admit_buy in ground arith) (unfold admit_buy in ground arith)
    | inl b ↦
        on_buy_cases m' a n bob r (buy_of n bob r) ((fee_ok_iff marginal_fee paid).0 b) e refl
          (unfold admit_buy in ground arith)
  ]

  -- Where the admission of a memo returns, one of these holds. The market is as it was, and
  -- nothing is opened or sent back. Or the memo pays the fee, no note of the name is pending, and
  -- the market's own operation proposed its list (for the controller of the name's record, of
  -- which no release is due) or its delist. Or it asks for a buy and pays the fee, and the
  -- market's own operation, for the name's record, refused it, which leaves the market as it was
  -- and sends back what that refusal asks, or opened it, which is reported for the name.
  pub admit_cases :
      (request : MarketRequest) (m' : Market) (a : Admission)
      → admit params m txid request paid s marginal_fee height mtp pending key ≡ some (m', a)
      → Admitted request m' a
  unfolding admit
  admit_cases (list l) m' a h = admit_list_cases m' a l (record_of s l.name) refl h
  admit_cases (delist n u) m' a h = admit_delist_cases m' a n u h
  admit_cases (buy n bob) m' a h = admit_buy_cases m' a n bob (record_of s n) refl h

  opened_bought :
      (n : Name) (bob : UnifiedAddress) (m' : Market)
      → Admitted (buy n bob) m' (opened_for n)
      → (r : NameRecord) × (otp : BuyOtp) × Pays marginal_fee paid
        × (record_of s n ≡ some r)
        × (buy_of n bob r ≡ ok (m', otp))
  opened_bought n bob m' (passed z b) = absurd (ground arith)
  opened_bought n bob m' (listed l r q p e f g z b) = absurd (ground arith)
  opened_bought n bob m' (delisted k u q p f z b) = absurd (ground arith)
  opened_bought n bob m' (refused k u r x q p e f z b) = absurd (ground arith)
  opened_bought n bob m' (bought k u r otp q p e f b) =
      let z : n ≡ k = ground arith in
      let w : bob ≡ u = ground arith in (r, otp, p, rw z e, rw (z, w) f)

  -- A buy is reported as opened, with the market after it, exactly where the payment covers the
  -- fee of an action, the name has a record, and the market's own operation opens the buy for that
  -- record's controller with that market.
  pub admit_opened_iff :
      (n : Name) (bob : UnifiedAddress) (m' : Market)
      → admit params m txid (buy n bob) paid s marginal_fee height mtp pending key
          ≡ some (m', opened_for n)
        ↔ ((r : NameRecord) × (otp : BuyOtp) × Pays marginal_fee paid
            × (record_of s n ≡ some r)
            × (buy_of n bob r ≡ ok (m', otp)))
  admit_opened_iff n bob m' = (
    λ h. opened_bought n bob m' (admit_cases (buy n bob) m' (opened_for n) h),
    λ (r, otp, p, e, f).
        let b = (fee_ok_iff marginal_fee paid).1 p in
        unfold admit in unfold admit_buy on_buy in ground arith,
  )

some-ne-none : {A : Type 0} (a : A) → ◌≢◌ {A = Option A} (some a) none
some-ne-none a h = ground arith

if-ne-none :
    {A : Type 0} (b : Bool) (x y : Option A) → x ≢ none → y ≢ none → (if b then x else y) ≢ none
if-ne-none true x y p q = p
if-ne-none false x y p q = q

record-ne-none :
    {A : Type 0} (o : Option NameRecord) (x : Option A) (y : NameRecord → Option A)
    → x ≢ none
    → ((r : NameRecord) → y r ≢ none)
    → (elim o as (λ _. Option A) [ none ↦ x | some r ↦ y r ]) ≢ none
record-ne-none none x y p q = p
record-ne-none (some r) x y p q = q r

ok-ne-panic : {A : Type 0} (a : A) → ◌≢◌ {A = Ruling A} (ok a) panic
ok-ne-panic a h = ground arith

clock_ready-ne-panic : (ask : Ask) (height : BlockHeight) → clock_ready ask height ≢ panic
unfolding clock_ready
clock_ready-ne-panic (flat p) height h = ground arith
clock_ready-ne-panic (dutch k) height h = ground arith

module _ (params : Params) (m : Market) (s : Registry) (height : BlockHeight) (mtp : Timestamp)
    (fits : mtp + d_otp ≤ params.last_second) where
  kept-ne-none : (r : Ruling Market) → r ≢ panic → kept m r ≢ none
  kept-ne-none (ok m') p = some-ne-none (m', nothing)
  kept-ne-none (err e) p = some-ne-none (m, nothing)
  kept-ne-none panic p = λ _. p refl

  on_buy-ne-none :
      (n : Name) (bob : UnifiedAddress) (r : Ruling (Market × BuyOtp))
      → r ≢ panic
      → on_buy m n bob r ≢ none
  unfolding on_buy
  on_buy-ne-none n bob (ok r) p = some-ne-none _
  on_buy-ne-none n bob (err e) p = some-ne-none _
  on_buy-ne-none n bob panic p = λ _. p refl

  push_challenge-ne-panic :
      (kind : ChallengeKind) (code : OtpCode) → push_challenge params m kind code mtp height ≢ panic
  unfolding push_challenge
  push_challenge-ne-panic kind code h = ground arith

  propose_list-ne-panic :
      (l : Listing) (owner : UnifiedAddress) (code : OtpCode)
      → propose_list params m l owner code mtp height ≢ panic
  unfolding propose_list
  propose_list-ne-panic l owner code = >>=-ne-panic _ _ (clock_ready-ne-panic l.ask height) (λ _.
      if-ne-panic (not (is_owner_listing params owner l.ua l.pay_to)) _ _ (err-ne-panic not_owner) (
        if-ne-panic (Sale.is_open m.sales l.name) _ _ (err-ne-panic buy_open) (
          if-ne-panic (any (λ c. same_list l c.kind) m.challenges) _ _ (ok-ne-panic m) (
            if-ne-panic (code_is_open m.challenges code) _ _ (err-ne-panic code_taken)
              (push_challenge-ne-panic (ChallengeKind.list l) code)))))

  propose_delist-ne-panic :
      (n : Name) (u : UnifiedAddress) (code : OtpCode)
      → propose_delist params m s n u code mtp height ≢ panic
  unfolding propose_delist
  propose_delist-ne-panic n u code = if-ne-panic (is_foreign s n u) _ _ (err-ne-panic not_owner) (
      if-ne-panic (Sale.is_open m.sales n) _ _ (err-ne-panic buy_open) (
        if-ne-panic (not (is_some (listing s n))) _ _ (err-ne-panic not_listed) (
          if-ne-panic (any (λ c. same_delist n u c.kind) m.challenges) _ _ (ok-ne-panic m) (
            if-ne-panic (code_is_open m.challenges code) _ _ (err-ne-panic code_taken)
              (push_challenge-ne-panic (ChallengeKind.delist n u) code)))))

  -- Where the time thirty minutes after the median time fits a `Timestamp`, the admission of a
  -- memo never panics.
  pub admit-ne-none :
      (txid : TxId) (request : MarketRequest) (paid : Zatoshis) (marginal_fee : Zatoshis)
      (pending : Name → Bool) (key : CodeKey)
      → admit params m txid request paid s marginal_fee height mtp pending key ≢ none
  unfolding admit admit_list admit_delist admit_buy
  admit-ne-none txid (list l) paid marginal_fee pending key =
      record-ne-none (record_of s l.name) _ _ (some-ne-none _) (λ r.
        if-ne-none _ _ _ (some-ne-none _)
          (kept-ne-none _ (propose_list-ne-panic l r.ua (listing_code key txid l))))
  admit-ne-none txid (delist n u) paid marginal_fee pending key =
      if-ne-none (is_foreign s n u) _ _ (some-ne-none (m, nothing)) (
        if-ne-none (not (fee_ok marginal_fee paid) || pending n) _ _ (some-ne-none (m, nothing))
          (kept-ne-none _ (propose_delist-ne-panic n u (delist_otp key txid n))))
  admit-ne-none txid (buy n bob) paid marginal_fee pending key =
      record-ne-none (record_of s n) _ _ (some-ne-none _) (λ r. if-ne-none _ _ _ (some-ne-none _) (
        on_buy-ne-none n bob _ (
          open_buy-ne-panic params m s n bob r.ua r.expires_at r.commitment (is_release_due r mtp)
            (pending n) (buy_otp key txid n) mtp height)))
