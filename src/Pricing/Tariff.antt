-- ===== src/Pricing/Tariff.antt =====
-- mint/pricing.rs: what a registration costs.
use zns_mint.Prelude.{
  ℕ, ◌*◌, ◌%◌, ◌^◌, ◌≤◌, ◌≡◌, refl, ap, ◌∙◌, [], ◌∷◌, some, arith, leb, length, if◌then◌else◌,
  ◌>>=◌,
}
use native.Mathlib.Nat.{mul-le-mul, mod-eq_of_lt}
use zns_mint.Chain.{Zatoshis, zatoshis}
use zns_mint.Name.{Name}
use zns_mint.Term.{Term, forever, years, max_term_years}
use zns_mint.Pricing.{annual_usd, forever_usd, term_usd, in_zats, quote_at}

-- The dollars of a year, by the length of a name.
abbrev pub yearly : ℕ → ℕ
yearly len =
    if leb len 1
    then 10_000
    else if leb len 2
    then 2_500
    else if leb len 3
    then 800
    else if leb len 4
    then 400
    else if leb len 5
    then 100
    else 20

-- The years that a term is charged for.
abbrev pub charged_years : Term → ℕ
charged_years forever = 3
charged_years (years k) = k

annual_usd-yearly : (n : Name) → 1 ≤ length n → annual_usd n ≡ some (yearly (length n))
unfolding annual_usd
annual_usd-yearly [] h = ground arith
annual_usd-yearly (a ∷ []) h = refl
annual_usd-yearly (a ∷ b ∷ []) h = refl
annual_usd-yearly (a ∷ b ∷ c ∷ []) h = refl
annual_usd-yearly (a ∷ b ∷ c ∷ d ∷ []) h = refl
annual_usd-yearly (a ∷ b ∷ c ∷ d ∷ e ∷ []) h = refl
annual_usd-yearly (a ∷ b ∷ c ∷ d ∷ e ∷ f ∷ n) h = ground arith

-- What a term costs is far below the end of a `u64`.
unwrapped : (y k : ℕ) → y ≤ 10_000 → k ≤ max_term_years → y * k % 2 ^ 64 ≡ y * k
unwrapped y k hy hk = mod-eq_of_lt (omega (arith, mul-le-mul hy hk))

yearly_le : (len : ℕ) → yearly len ≤ 10_000
yearly_le len = ground arith

yearly_falls : (i j : ℕ) → i ≤ j → yearly j ≤ yearly i
yearly_falls i j h = ground arith

term_usd-yearly :
    (n : Name) (term : Term)
    → 1 ≤ length n
    → charged_years term ≤ max_term_years
    → term_usd n term ≡ some (yearly (length n) * charged_years term)
unfolding term_usd forever_usd
term_usd-yearly n forever h le =
    ap (λ o. o >>= λ usd. some (usd * 3 % 2 ^ 64)) (annual_usd-yearly n h)
    ∙ ap some (unwrapped (yearly (length n)) 3 (yearly_le (length n)) le)
term_usd-yearly n (years k) h le =
    ap (λ o. o >>= λ usd. some (usd * k % 2 ^ 64)) (annual_usd-yearly n h)
    ∙ ap some (unwrapped (yearly (length n)) k (yearly_le (length n)) le)

in_zats-zatoshis : (rate usd : ℕ) → in_zats rate usd ≡ zatoshis (usd * rate)
unfolding in_zats
in_zats-zatoshis rate usd = ground arith

-- For a name that is not empty and a term of at most 99 years, a quote never panics and never
-- wraps: it is the product of the yearly price for the name's length, the years (three for a
-- registration that does not end) and the rate, where that fits an amount, and is refused
-- otherwise.
pub quote_at_exact :
    (rate : Zatoshis) (n : Name) (term : Term)
    → 1 ≤ length n
    → charged_years term ≤ max_term_years
    → quote_at rate n term ≡ some (zatoshis (yearly (length n) * charged_years term * rate))
unfolding quote_at
quote_at_exact rate n term h le =
    ap (λ o. o >>= λ usd. some (in_zats rate usd)) (term_usd-yearly n term h le)
    ∙ ap some (in_zats-zatoshis rate (yearly (length n) * charged_years term))
