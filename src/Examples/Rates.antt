-- ===== src/Examples/Rates.antt =====
-- The pricing of names, with prices that are whole numbers of dollars.
use zns_mint.Prelude.{
  ℕ, ◌>>=◌, zero, suc, ◌+◌, ◌*◌, ◌/◌, ◌≡◌, ◌⊎◌, true, List, [], ◌∷◌, Option, none, some, arith, leb,
  codes, nat_eq, bytes_eq,
}
use zns_mint.Text.{Bytes}
use zns_mint.Chain.{zatoshis}
use zns_mint.Term.{forever}
use zns_mint.Pricing.{Decimals, Oracle, quote_at, aggregate, trusted}
use zns_mint.Pricing.Tariff.{quote_at_exact}
use zns_mint.Pricing.Round.{IsOrder, IsMedian, aggregate-IsMedian}
use zns_mint.Pricing.Day.{Rounds, accumulate_all}

abbrev ceil_div : ℕ → ℕ → ℕ
ceil_div a zero = 0
ceil_div a (suc b) = (a + b) / suc b

abbrev dollars : Decimals ℕ
dollars = record {
  zero_price = 0;
  at_most = leb;
  plus = λ a b. a + b;
  mean = λ a b. (a + b) / 2;
  times = λ a n. a * n;
  over = λ a n. a / n;
  per_coin = λ a. ceil_div 100_000_000 a;
  ceil_u64 = some;
}

quote_at_exact_example :
    quote_at 100_000 (codes "alice") forever ≡ some (zatoshis (100 * 3 * 100_000))
quote_at_exact_example = quote_at_exact 100_000 (codes "alice") forever (omega arith) (omega arith)

dollars-IsOrder : IsOrder dollars
dollars-IsOrder = record { total = total; transitive = transitive }
  where
    total : (a b : ℕ) → (leb a b ≡ true) ⊎ (leb b a ≡ true)
    total a b = ground arith

    transitive : (a b c : ℕ) → leb a b ≡ true → leb b c ≡ true → leb a c ≡ true
    transitive a b c h k = ground arith

abbrev quotes : List (Bytes × ℕ)
quotes = (codes "kraken", 42) ∷ (codes "okx", 39) ∷ (trusted, 41) ∷ []

aggregate-IsMedian_example :
    (o : Option ℕ) × (aggregate dollars quotes ≡ (o >>= λ m. some (some m)))
    × IsMedian dollars dollars-IsOrder o (42 ∷ 39 ∷ 41 ∷ [])
aggregate-IsMedian_example =
    aggregate-IsMedian dollars dollars-IsOrder (codes "kraken", 42) (codes "okx", 39) (trusted, 41)
      []

abbrev oracle : Oracle dollars
oracle = record {
  daily_rate = 2_500_000;
  current_day = 3;
  acc_sum = 4_000;
  acc_seconds = 100;
  last_price = 41;
  last_ts = 900;
  rounds_attempted = 3;
  rounds_seen = 2;
}

-- A price of 42 dollars, a round that failed, and a price of 40 dollars.
abbrev rounds : Rounds dollars
rounds = (some 42, 1000) ∷ (none, 1100) ∷ (some 40, 1300) ∷ []

abbrev after : Oracle dollars
after = accumulate_all dollars oracle 3 rounds
