-- ===== src/Pricing.antt =====
-- mint/pricing.rs: the rate of a round, the price of a name, and the oracle's day.
pub mod Tariff
pub mod Round
pub mod Day
use zns_mint.Prelude.{
  ℕ, zero, suc, ◌+◌, ◌-◌, ◌*◌, ◌/◌, ◌%◌, ◌^◌, Bool, true, false, ◌&&◌, List, [], ◌∷◌, Option, none,
  some, ◌==◌, nat_eq, bytes_eq, Eq, ltb, leb, if◌then◌else◌, length, get_elem?, find, map, codes,
  some_if, ◌>>=◌,
}
use zns_mint.Text.{Bytes}
use zns_mint.Chain.{Timestamp, Zatoshis, zatoshis}
use zns_mint.Name.{Name}
use zns_mint.Term.{Term, forever, years, max_u64}

-- What the code uses of `Decimal`, which is foreign, on values for which its operators do not panic.
-- Nothing is assumed of its arithmetic, which rounds to 28 digits.
-- `mean` is the sum over two, `per_coin` is `COIN` over the price, and `ceil_u64` rounds up to a `u64`.
pub record Decimals (D : Type 0) : Type 0 where
  pub zero_price : D
  pub at_most : D → D → Bool
  pub plus : D → D → D
  pub mean : D → D → D
  pub times : D → ℕ → D
  pub over : D → ℕ → D
  pub per_coin : D → D
  pub ceil_u64 : D → Option ℕ

-- `ANNUAL_USD`
abbrev pub annual_tiers : List ℕ
annual_tiers = 10_000 ∷ 2_500 ∷ 800 ∷ 400 ∷ 100 ∷ []

abbrev pub minimum_usd : ℕ
minimum_usd = 20

abbrev pub forever_multiple : ℕ
forever_multiple = 3

-- `annual_usd`; `none` is the panic on a text of no bytes.
unfoldable pub annual_usd : Name → Option ℕ
annual_usd n = elim (length n) [
  | zero ↦ none
  | suc i ↦ if leb (suc i) (length annual_tiers) then get_elem? annual_tiers i else some minimum_usd
]

unfoldable pub forever_usd : Name → Option ℕ
unfolding annual_usd
forever_usd n = do usd ← annual_usd n; some (usd * forever_multiple % 2 ^ 64)

-- `quote_at`, the price in dollars
unfoldable pub term_usd : Name → Term → Option ℕ
unfolding annual_usd forever_usd
term_usd n forever = forever_usd n
term_usd n (years k) = do usd ← annual_usd n; some (usd * k % 2 ^ 64)

-- The end of `quote_at`: `u64::checked_mul`, then `Zatoshis::from_u64`.
unfoldable pub in_zats : Zatoshis → ℕ → Option Zatoshis
in_zats rate usd = do zats ← some_if (leb (usd * rate) max_u64) (usd * rate); zatoshis zats

-- `Oracle::quote_at`; an outer `none` is a panic.
unfoldable pub quote_at : Zatoshis → Name → Term → Option (Option Zatoshis)
unfolding term_usd in_zats
quote_at rate n term = do usd ← term_usd n term; some (in_zats rate usd)

-- `TRUSTED`
abbrev pub trusted : Bytes
trusted = codes "gemini"

abbrev pub min_day_success_percent : ℕ
min_day_success_percent = 50

module _ {D : Type 0} (dec : Decimals D) where
  place : D → List D → List D
  place x [] = x ∷ []
  place x (y ∷ xs) = if dec.at_most x y then x ∷ y ∷ xs else y ∷ place x xs

  -- `sort_unstable`
  unfoldable pub sort_rates : List D → List D
  unfolding place
  sort_rates [] = []
  sort_rates (x ∷ xs) = place x (sort_rates xs)

  -- The median of sorted rates; `none` is an index out of bounds.
  unfoldable pub middle : List D → Option D
  middle rates =
      let mid = length rates / 2 in
      if length rates % 2 == 1
      then get_elem? rates mid
      else do a ← get_elem? rates (mid - 1); b ← get_elem? rates mid; some (dec.mean a b)

  -- The quote of the trusted exchange.
  unfoldable pub of_trusted : List (Bytes × D) → Option D
  of_trusted quotes = elim (find (λ q. q.0 == trusted) quotes) [ none ↦ none | some q ↦ some q.1 ]

  -- `aggregate`; an outer `none` is a panic.
  unfoldable pub aggregate : List (Bytes × D) → Option (Option D)
  unfolding sort_rates middle of_trusted
  aggregate quotes = elim (length quotes) [
    | zero ↦ some none
    | suc zero ↦ some (of_trusted quotes)
    | suc (suc zero) ↦ some (of_trusted quotes)
    | suc (suc (suc n)) ↦ do rate ← middle (sort_rates (map (λ q. q.1) quotes)); some (some rate)
  ]

  -- `zats_per_usd`
  unfoldable pub zats_per_usd : D → Option Zatoshis
  zats_per_usd usd_per_zec =
      if dec.at_most usd_per_zec dec.zero_price
      then none
      else (do zats ← dec.ceil_u64 (dec.per_coin usd_per_zec); zatoshis zats)

  -- The instants and days of the chain's clock, which are not negative.
  pub record Oracle : Type 0 where
    pub daily_rate : Zatoshis
    pub current_day : ℕ
    pub acc_sum : D
    pub acc_seconds : ℕ
    pub last_price : D
    pub last_ts : Timestamp
    pub rounds_attempted : ℕ
    pub rounds_seen : ℕ

  -- `Oracle::new`; `none` is its `expect`.
  unfoldable pub new : D → ℕ → Timestamp → Option Oracle
  unfolding zats_per_usd
  new initial_price today now = do
    rate ← zats_per_usd initial_price
    some (record {
      daily_rate = rate;
      current_day = today;
      acc_sum = dec.zero_price;
      acc_seconds = 0;
      last_price = initial_price;
      last_ts = now;
      rounds_attempted = 0;
      rounds_seen = 0;
    })

  -- `saturating_add(1)` on a `u32`
  abbrev pub count_round : ℕ → ℕ
  count_round n = if ltb n (2 ^ 32 - 1) then suc n else 2 ^ 32 - 1

  -- `accumulate`, the test that a day publishes. The products of two `u32`s and a percentage fit a
  -- `u64`.
  unfoldable pub publishes : Oracle → Bool
  publishes o =
      ltb 0 o.acc_seconds
      && leb (o.rounds_attempted * min_day_success_percent) (o.rounds_seen * 100)

  -- `accumulate`, the rate after the end of a day
  unfoldable pub next_rate : Oracle → Zatoshis
  next_rate o =
      if publishes o
      then elim (zats_per_usd (dec.over o.acc_sum o.acc_seconds)) [
        | none ↦ o.daily_rate
        | some rate ↦ rate
      ]
      else o.daily_rate

  -- `accumulate`, a new day
  unfoldable pub turn_day : Oracle → ℕ → Oracle
  turn_day o today =
      if ltb o.current_day today
      then record {
        daily_rate = next_rate o;
        current_day = today;
        acc_sum = dec.zero_price;
        acc_seconds = 0;
        last_price = o.last_price;
        last_ts = o.last_ts;
        rounds_attempted = 0;
        rounds_seen = 0;
      }
      else o

  -- `accumulate`, the round that landed with a price, if any. The seconds are summed below `2 ^ 64`.
  unfoldable pub bill : Oracle → Option D → Timestamp → Oracle
  bill o none now = record o { rounds_attempted = count_round o.rounds_attempted }
  bill o (some price) now =
      if dec.at_most price dec.zero_price
      then record o { rounds_attempted = count_round o.rounds_attempted }
      else record {
        daily_rate = o.daily_rate;
        current_day = o.current_day;
        acc_sum = dec.plus o.acc_sum (dec.times o.last_price (now - o.last_ts));
        acc_seconds = o.acc_seconds + (now - o.last_ts);
        last_price = price;
        last_ts = now;
        rounds_attempted = count_round o.rounds_attempted;
        rounds_seen = count_round o.rounds_seen;
      }

  unfoldable pub accumulate : Oracle → Option D → ℕ → Timestamp → Oracle
  accumulate o price today now = if ltb now o.last_ts then o else bill (turn_day o today) price now

  -- `Oracle::quote`
  unfoldable pub quote : Oracle → Name → Term → Option (Option Zatoshis)
  unfolding quote_at
  quote o n term = quote_at o.daily_rate n term
