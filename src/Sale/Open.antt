-- ===== src/Sale/Open.antt =====
-- mint/sale.rs: what `SaleQueue::open` pushes.
use zns_mint.Prelude.{
  ◌+◌, ◌≡◌, refl, Bool, true, false, [], ◌∷◌, ◌++◌, Option, none, some, arith, bytes_eq,
  if◌then◌else◌, any, find, ◌>>=◌, ==_refl, some_if,
}
use zns_mint.Chain.{
  Params, UnifiedAddress, TransparentAddress, NameCommitment, Zatoshis, Timestamp, from_seconds,
}
use zns_mint.Name.{Name}
use zns_mint.Term.{Expiry}
use zns_mint.Otp.{OtpCode, d_otp}
use zns_mint.Sale.{
  Sale, SaleQueue, BuyOtp, d_dutch, is_of, is_open, opened, open_sale, get_sale, restore,
}

pub guarded :
    {A B : Type 0} (b : Bool) (o : Option A) (f : A → B) (y : B)
    → (if b then none else do a ← o; some (f a)) ≡ some y
    → (b ≡ false) × ((a : A) × (o ≡ some a) × (f a ≡ y))
guarded true o f y h = absurd (ground arith)
guarded false none f y h = absurd (ground arith)
guarded false (some a) f y h = (refl, (a, refl, ground arith))

module _ (params : Params) (q : SaleQueue) (n : Name) (bob alice : UnifiedAddress)
    (pay_to : TransparentAddress) (price : Zatoshis) (term : Expiry) (live : NameCommitment)
    (code : OtpCode) (by_clock : Bool) (mtp : Timestamp) where
  -- The queue and the reply, by the time at which the code expires.
  abbrev pub pair_of : Timestamp → SaleQueue × BuyOtp
  pair_of e = (
    q ++ opened n bob alice pay_to price term live code by_clock e ∷ [],
    record { code = code; name = n; ua = bob; dutch = some_if by_clock (price, e) },
  )

  -- A sale that opens is the first of its name, and is payable for ten minutes by a clock and for
  -- thirty by a flat price.
  pub open_sale_inv :
      (q' : SaleQueue) (otp : BuyOtp)
      → open_sale params q n bob alice pay_to price term live code by_clock mtp ≡ some (q', otp)
      → (is_open q n ≡ false)
        × ((e : Timestamp) × (from_seconds params (mtp + (if by_clock then d_dutch else d_otp))
              ≡ some e)
            × (pair_of e ≡ (q', otp)))
  unfolding open_sale
  open_sale_inv q' otp h =
      guarded (is_open q n) (from_seconds params (mtp + (if by_clock then d_dutch else d_otp)))
        pair_of (q', otp) h

find-push :
    (p : Sale → Bool) (q : SaleQueue) (x : Sale)
    → any p q ≡ false
    → find p (q ++ x ∷ []) ≡ (if p x then some x else none)
find-push p [] x h = refl
find-push p (y ∷ q) x h = ground (arith, find-push p q x)

-- The sale just opened is the one of its name.
pub get_sale-push :
    (q : SaleQueue) (x : Sale) → is_open q x.name ≡ false → get_sale (q ++ x ∷ []) x.name ≡ some x
unfolding get_sale is_open
get_sale-push q x h = ground (arith, find-push (is_of x.name) q x h, ==_refl x.name)

pub restore-fresh :
    (q : SaleQueue) (x : Sale) → is_open q x.name ≡ false → restore q x ≡ q ++ x ∷ []
unfolding restore
restore-fresh q x h = rw (h, restore) refl
