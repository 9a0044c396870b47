-- ===== src/Listing/Price.antt =====
-- mint/sale.rs: the falling price.
use native.Mathlib.Nat.{div-le_of_le-mul, mul-div_cancel, div-mul-le_self, le-div_iff_mul-le}
use zns_mint.Prelude.{ℕ, ◌-◌, ◌*◌, ◌/◌, ◌≤◌, ◌<◌, ◌≡◌, true, some, arith}
use zns_mint.Chain.{BlockHeight, max_money}
use zns_mint.Listing.{Clock, is_valid, price_at}

-- The share of a drop after `e` of `s` blocks.
abbrev fall : ℕ → ℕ → ℕ → ℕ
fall d e s = d * e / s

fall-le : (d e s : ℕ) → e ≤ s → fall d e s ≤ d
fall-le d e s h = div-le_of_le-mul s (grind arith)

fall_mono : (d e e' s : ℕ) → 0 < s → e ≤ e' → fall d e s ≤ fall d e' s
fall_mono d e e' s p h = (le-div_iff_mul-le p).1 (grind (arith, div-mul-le_self (d * e) s))

fall_end : (d s : ℕ) → 0 < s → fall d s s ≡ d
fall_end d s p = mul-div_cancel d p

fall_start : (d s : ℕ) → fall d 0 s ≡ 0
fall_start d s = grind arith

-- A clock's quote at a block lies between its two prices, and the block lies in its span.
pub price_at_range :
    (c : Clock) (h : BlockHeight) (p : ℕ)
    → price_at c h ≡ some p
    → (c.start ≤ h) × (h ≤ c.end) × (c.min_price ≤ p) × (p ≤ c.start_price)
unfolding price_at
price_at_range c h p e =
    ground (arith, fall-le (c.start_price - c.min_price) (h - c.start) (c.end - c.start))

-- Every block of the span of a valid clock has a quote.
pub price_at_total :
    (c : Clock) (h : BlockHeight)
    → is_valid c ≡ true
    → c.start_price ≤ max_money
    → c.start ≤ h
    → h ≤ c.end
    → (p : ℕ) × (price_at c h ≡ some p)
unfolding price_at
price_at_total c h v m a b = (
  c.start_price - fall (c.start_price - c.min_price) (h - c.start) (c.end - c.start),
  ground arith,
)

-- A valid clock, whose start price is an amount of money, quotes the start price at its first
-- block and the minimum price at its last one.
pub price_at_ends :
    (c : Clock)
    → is_valid c ≡ true
    → c.start_price ≤ max_money
    → (price_at c c.start ≡ some c.start_price) × (price_at c c.end ≡ some c.min_price)
unfolding price_at
price_at_ends c v m =
    let d = c.start_price - c.min_price in
    let s = c.end - c.start in
    (ground (arith, zero_elapsed, fall_start d s), ground (arith, fall_end d s))
  where
    zero_elapsed : c.start - c.start ≡ 0
    zero_elapsed = omega arith

-- Where a clock quotes at two blocks, the later block's quote is no higher.
pub price_at_falls :
    (c : Clock) (h h' : BlockHeight) (p p' : ℕ)
    → h ≤ h'
    → price_at c h ≡ some p
    → price_at c h' ≡ some p'
    → p' ≤ p
unfolding price_at
price_at_falls c h h' p p' le e e' =
    ground (
      arith,
      fall_mono (c.start_price - c.min_price) (h - c.start) (h' - c.start) (c.end - c.start),
    )
