-- ===== src/Sale/Settle.antt =====
-- mint/sale.rs: `observe`, the payments that settle sales.
use zns_mint.Prelude.{
  Bool, true, false, not, ◌&&◌, List, [], ◌∷◌, Option, none, some, ◌==◌, nat_eq, bytes_eq, leb,
  if◌then◌else◌, map, ◌>>=◌,
}
use zns_mint.Chain.{UnifiedAddress, Timestamp}
use zns_mint.Name.{Name}
use zns_mint.Otp.{OtpCode}
use zns_mint.Payment.{Payment, payment_is_price_plus_otp, amount_eq}
use zns_mint.Sale.{Quote, Sale, SaleQueue, paid, paying}

-- A payment with its flag in `used`.
abbrev pub Flagged : Type 0
Flagged = Bool × Payment

abbrev pub fits : Quote → Flagged → Bool
fits q p = not p.0 && p.1.0 == q.pay_to && payment_is_price_plus_otp p.1.1 q.price q.code

-- The first payment that fits is marked as used; `none` where there is none.
unfoldable pub use_first : Quote → List Flagged → Option (List Flagged)
use_first q [] = none
use_first q (p ∷ ps) =
    let rest = use_first q ps in
    if fits q p
    then some ((true, p.1) ∷ ps)
    else elim rest [ none ↦ none | some ps' ↦ some (p ∷ ps') ]

-- The closure `holder`, tested for the seller.
abbrev pub still_holds : Option UnifiedAddress → UnifiedAddress → Bool
still_holds none alice = false
still_holds (some ua) alice = ua == alice

-- One round of `observe`: the code of a sale that is paid, and the flags after it.
unfoldable pub observe_one :
    (Name → Option UnifiedAddress)
    → Timestamp
    → Sale
    → List Flagged
    → Option (OtpCode × List Flagged)
unfolding use_first
observe_one holder mtp s ps = elim s.phase [
  | paid ↦ none
  | paying q ↦
      if leb q.expires_at mtp
      then none
      else if not (still_holds (holder s.name) s.alice)
      then none
      else do ps' ← use_first q ps; some (q.code, ps')
]

unfoldable pub observe_from :
    (Name → Option UnifiedAddress)
    → Timestamp
    → SaleQueue
    → List Flagged
    → SaleQueue × List (Name × OtpCode)
unfolding observe_one
observe_from holder mtp [] ps = ([], [])
observe_from holder mtp (s ∷ q) ps = elim (observe_one holder mtp s ps) [
  | none ↦ let rest = observe_from holder mtp q ps in (s ∷ rest.0, rest.1)
  | some (code, ps') ↦
      let rest = observe_from holder mtp q ps' in
      (record s { phase = paid } ∷ rest.0, (s.name, code) ∷ rest.1)
]

-- `observe`: the queue after it, and the sales that are paid
unfoldable pub observe :
    SaleQueue
    → (Name → Option UnifiedAddress)
    → List Payment
    → Timestamp
    → SaleQueue × List (Name × OtpCode)
unfolding observe_from
observe q holder payments mtp = observe_from holder mtp q (map (λ p. (false, p)) payments)
