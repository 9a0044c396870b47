-- ===== src/Sale/Owed.antt =====
-- mint/sale.rs: a payment settles one sale, with the whole of its price and code.
use zns_mint.Prelude.{
  ℕ, ◌+◌, ◌-◌, ◌≤◌, ◌≡◌, refl, ap, Bool, true, false, not, ◌&&◌, List, [], ◌∷◌, Option, none, some,
  arith, ◌==◌, nat_eq, leb, if◌then◌else◌, map, Option-cases, Bool-cases, inl, inr, some_if,
  eq-of-==, subst,
}
use zns_mint.Chain.{UnifiedAddress, TransparentAddress, Zatoshis, Timestamp}
use zns_mint.Name.{Name}
use zns_mint.Otp.{OtpCode}
use zns_mint.Payment.{Payment, otp_amount, payment_is_price_plus_otp, amount_eq}
use zns_mint.Sale.{Sale, SaleQueue, Phase, Quote, paying, paid}
use zns_mint.Sale.Settle.{Flagged, fits, use_first, observe_one, observe_from, observe}
use zns_mint.Sale.Observe.{observe_unpaid, observe_paid}

-- What a sale still waits for, at an address: its price and the amount of its code.
abbrev pub due_to : TransparentAddress → Phase → ℕ
due_to a paid = 0
due_to a (paying q) = if q.pay_to == a then q.price + otp_amount q.code else 0

unfoldable pub owed : TransparentAddress → SaleQueue → ℕ
owed a [] = 0
owed a (s ∷ q) = due_to a s.phase + owed a q

-- What the payments of a block bring to an address.
unfoldable pub received : TransparentAddress → List Payment → ℕ
received a [] = 0
received a (p ∷ ps) = (if p.0 == a then p.1 else 0) + received a ps

unused : TransparentAddress → List Flagged → ℕ
unused a [] = 0
unused a (p ∷ ps) = (if not p.0 && p.1.0 == a then p.1.1 else 0) + unused a ps

some_if_inv : (b : Bool) (x y : ℕ) → some_if b x ≡ some y → (b ≡ true) × (x ≡ y)
some_if_inv true x y h = (refl, ground arith)
some_if_inv false x y h = absurd (ground arith)

sub_back : (v p c : ℕ) → leb p v ≡ true → v - p ≡ c → v ≡ p + c
sub_back v p c h e = ground arith

fits_amount :
    (value price : Zatoshis) (code : OtpCode)
    → payment_is_price_plus_otp value price code ≡ true
    → value ≡ price + otp_amount code
unfolding payment_is_price_plus_otp
fits_amount value price code h =
    let e = some_if_inv (leb price value) (value - price) (otp_amount code) (eq-of-== _ _ h) in
    sub_back value price (otp_amount code) e.0 e.1

fits_due :
    (a : TransparentAddress) (q : Quote) (p : Flagged)
    → fits q p ≡ true
    → (if not p.0 && p.1.0 == a then p.1.1 else 0) ≡ due_to a (paying q)
fits_due a q p h = ground (arith, fits_amount p.1.1 q.price q.code)

use_first-unused :
    (a : TransparentAddress) (q : Quote) (ps ps' : List Flagged)
    → use_first q ps ≡ some ps'
    → unused a ps ≡ due_to a (paying q) + unused a ps'
unfolding use_first unused
use_first-unused a q [] ps' h = cc
use_first-unused a q (p ∷ ps) ps' h = elim (Bool-cases (fits q p)) [
  | inl e ↦ ground (arith, fits_due a q p e)
  | inr e ↦ later (use_first-unused a q ps) (use_first q ps) refl e
]
  where
    later :
        ((ps₁ : List Flagged)
          → use_first q ps ≡ some ps₁
          → unused a ps ≡ due_to a (paying q) + unused a ps₁)
        → (o : Option (List Flagged)) → use_first q ps ≡ o
        → fits q p ≡ false
        → unused a (p ∷ ps) ≡ due_to a (paying q) + unused a ps'
    later ih none e f = absurd (ground arith)
    later ih (some ps₁) e f =
        let z : ps' ≡ p ∷ ps₁ = ground arith in
        let i = ih ps₁ e in rw (z, unused) (omega (arith, i))

-- A sale that is paid was due what its payment brought.
observe_one-unused :
    (a : TransparentAddress) (holder : Name → Option UnifiedAddress) (mtp : Timestamp) (s : Sale)
    (ps : List Flagged) (code : OtpCode) (ps' : List Flagged)
    → observe_one holder mtp s ps ≡ some (code, ps')
    → unused a ps ≡ due_to a s.phase + unused a ps'
observe_one-unused a holder mtp s ps code ps' h = split s.phase h
  where
    split :
        (p : Phase)
        → observe_one holder mtp (record s { phase = p }) ps ≡ some (code, ps')
        → unused a ps ≡ due_to a p + unused a ps'
    split paid h = absurd (unfold observe_one in ground arith)
    split (paying q) h = use_first-unused a q ps ps' (unfold observe_one in ground arith)

owed-observe_from :
    (a : TransparentAddress) (holder : Name → Option UnifiedAddress) (mtp : Timestamp)
    (q : SaleQueue) (ps : List Flagged)
    → owed a q ≤ owed a (observe_from holder mtp q ps).0 + unused a ps
owed-observe_from a holder mtp [] ps = unfold owed in omega arith
owed-observe_from a holder mtp (s ∷ q) ps = elim (Option-cases (observe_one holder mtp s ps)) [
  | inl e ↦
      rw (observe_unpaid holder mtp s q ps e)
        (stays s (observe_from holder mtp q ps).0 (owed-observe_from a holder mtp q ps))
  | inr ((code, ps'), e) ↦ rw (observe_paid holder mtp s q ps code ps' e) (
      leaves s (observe_from holder mtp q ps').0 ps'
        (observe_one-unused a holder mtp s ps code ps' e) (owed-observe_from a holder mtp q ps'))
]
  where
    stays :
        (s : Sale) (q' : SaleQueue)
        → owed a q ≤ owed a q' + unused a ps
        → owed a (s ∷ q) ≤ owed a (s ∷ q') + unused a ps
    stays s q' h = unfold owed in omega arith

    leaves :
        (s : Sale) (q' : SaleQueue) (ps' : List Flagged)
        → unused a ps ≡ due_to a s.phase + unused a ps'
        → owed a q ≤ owed a q' + unused a ps'
        → owed a (s ∷ q) ≤ owed a (record s { phase = paid } ∷ q') + unused a ps
    leaves s q' ps' e h = unfold owed in omega arith

unused-payments :
    (a : TransparentAddress) (ps : List Payment)
    → unused a (map (λ p. (false, p)) ps) ≡ received a ps
unfolding unused received
unused-payments a [] = refl
unused-payments a (p ∷ ps) = ap (λ n. (if p.0 == a then p.1 else 0) + n) (unused-payments a ps)

-- For every address, what the open sales of a queue are owed there (price and code together) is at
-- most what they are owed after the payments of a block are observed, and what those payments
-- bring to the address.
pub owed-observe :
    (a : TransparentAddress) (q : SaleQueue) (holder : Name → Option UnifiedAddress)
    (payments : List Payment) (mtp : Timestamp)
    → owed a q ≤ owed a (observe q holder payments mtp).0 + received a payments
unfolding observe
owed-observe a q holder payments mtp =
    subst (λ n. owed a q ≤ owed a (observe q holder payments mtp).0 + n)
      (unused-payments a payments)
      (owed-observe_from a holder mtp q (map (λ p. (false, p)) payments))
