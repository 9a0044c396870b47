-- ===== src/Pricing/Day.antt =====
-- mint/pricing.rs: `accumulate` over the rounds of a day, and the rate that the next day publishes.
use zns_mint.Prelude.{
  ℕ, suc, ◌+◌, ◌-◌, ◌*◌, ◌≡◌, Bool, not, ◌&&◌, List, [], ◌∷◌, Option, none, some, ltb, leb, length,
  if◌then◌else◌,
}
use zns_mint.Chain.{Timestamp, Zatoshis}
use zns_mint.Pricing.{Decimals, Oracle, zats_per_usd, accumulate}

module _ {D : Type 0} (dec : Decimals D) where
  -- The rounds, each with the median time at which it came.
  abbrev pub Rounds : Type 0
  Rounds = List (Option D × Timestamp)

  abbrev pub accumulate_all : Oracle dec → ℕ → Rounds → Oracle dec
  accumulate_all o today [] = o
  accumulate_all o today ((price, now) ∷ rs) =
      accumulate_all (accumulate dec o price today now) today rs

  -- A price lands where it is positive and its time is not before the last that landed.
  abbrev pub lands : Timestamp → D → Timestamp → Bool
  lands last price now = not (ltb now last) && not (dec.at_most price dec.zero_price)

  -- Each price that landed, with the seconds until the next.
  abbrev pub spans : D → Timestamp → Rounds → List (D × ℕ)
  spans price last [] = []
  spans price last ((none, now) ∷ rs) = spans price last rs
  spans price last ((some q, now) ∷ rs) =
      let later = spans q now rs in
      let same = spans price last rs in
      if lands last q now then (price, now - last) ∷ later else same

  -- How many rounds are not before the last price that landed.
  abbrev pub attempts : Timestamp → Rounds → ℕ
  attempts last [] = 0
  attempts last ((none, now) ∷ rs) =
      let rest = attempts last rs in if ltb now last then rest else suc rest
  attempts last ((some q, now) ∷ rs) =
      let later = attempts now rs in
      let same = attempts last rs in
      if ltb now last then same else if lands last q now then suc later else suc same

  -- The sum of the prices by their seconds, on top of what is there.
  abbrev pub weigh : D → List (D × ℕ) → D
  weigh sum [] = sum
  weigh sum ((price, n) ∷ xs) = weigh (dec.plus sum (dec.times price n)) xs

  abbrev pub seconds : List (D × ℕ) → ℕ
  seconds [] = 0
  seconds ((price, n) ∷ xs) = n + seconds xs

  -- The oracle after rounds that bill these spans.
  pub record Billed (o o' : Oracle dec) (xs : List (D × ℕ)) (n : ℕ) : Type 0 where
    pub rate : o'.daily_rate ≡ o.daily_rate
    pub day : o'.current_day ≡ o.current_day
    pub sum : o'.acc_sum ≡ weigh o.acc_sum xs
    pub time : o'.acc_seconds ≡ o.acc_seconds + seconds xs
    pub seen : o'.rounds_seen ≡ o.rounds_seen + length xs
    pub attempted : o'.rounds_attempted ≡ o.rounds_attempted + n

  abbrev missed : Oracle dec → Oracle dec
  missed o = record o { rounds_attempted = suc o.rounds_attempted }

  abbrev landed : Oracle dec → D → Timestamp → Oracle dec
  landed o price now = record {
    daily_rate = o.daily_rate;
    current_day = o.current_day;
    acc_sum = dec.plus o.acc_sum (dec.times o.last_price (now - o.last_ts));
    acc_seconds = o.acc_seconds + (now - o.last_ts);
    last_price = price;
    last_ts = now;
    rounds_attempted = suc o.rounds_attempted;
    rounds_seen = suc o.rounds_seen;
  }

  abbrev pub or_before : Zatoshis → Option Zatoshis → Zatoshis
  or_before before none = before
  or_before before (some rate) = rate

  -- The rate of a day: that of the sum over the seconds, where there are some and at least half the
  -- attempts landed and it is in range, and otherwise the rate before.
  abbrev pub day_rate : Zatoshis → D → ℕ → ℕ → ℕ → Zatoshis
  day_rate before sum time seen attempted =
      if ltb 0 time && leb attempted (2 * seen)
      then or_before before (zats_per_usd dec (dec.over sum time))
      else before
