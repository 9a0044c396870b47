-- ===== src/Market/Counting.antt =====
-- mint/sale.rs: the loop of `Market::answer` over indices, which drops challenges as it goes.
use zns_mint.Prelude.{
  ℕ, zero, suc, ◌+◌, ◌≡◌, refl, ap, ◌∙◌, Bool, true, false, not, List, [], ◌∷◌, some, arith, ◌==◌,
  nat_eq, leb, if◌then◌else◌, map, any, get_elem?, subst, Bool-cases, Option-cases, inl, inr,
  ==_refl,
}
use zns_mint.Prelude.Keys.{Unique, drop_key_absent, any-filter-false}
use zns_mint.Chain.{BlockHeight}
use zns_mint.Otp.{OtpCode, max_attempts}
use zns_mint.Challenge.{MarketChallenge, drop_challenge, has_code}
use zns_mint.Market.{Market, record_all, close_challenge}
use zns_mint.Market.Answer.{positions, set_at, fail_at, fail_all}

abbrev pub bump : MarketChallenge → MarketChallenge
bump c = record c { attempts = c.attempts + 1 }

-- One pass over the challenges: a failure counts against each that passes the test, and the sixth
-- one drops it.
unfoldable pub count_pass : (MarketChallenge → Bool) → List MarketChallenge → List MarketChallenge
count_pass p [] = []
count_pass p (c ∷ cs) =
    if p c
    then (if leb max_attempts (c.attempts + 1) then count_pass p cs else bump c ∷ count_pass p cs)
    else c ∷ count_pass p cs

count_pass_hit :
    (p : MarketChallenge → Bool) (x : MarketChallenge) (cs ds : List MarketChallenge)
    → p x ≡ true
    → ds ≡ count_pass p cs
    → (if leb max_attempts (x.attempts + 1) then ds else bump x ∷ ds) ≡ count_pass p (x ∷ cs)
unfolding count_pass
count_pass_hit p x cs ds e f = ground (arith, e, f)

count_pass_miss :
    (p : MarketChallenge → Bool) (x : MarketChallenge) (cs ds : List MarketChallenge)
    → p x ≡ false
    → ds ≡ count_pass p cs
    → x ∷ ds ≡ count_pass p (x ∷ cs)
unfolding count_pass
count_pass_miss p x cs ds e f = ground (arith, e, f)

-- A market with other challenges.
abbrev holding : List MarketChallenge → Market → Market
holding cs m = record m { challenges = cs }

any-count_pass :
    (p : MarketChallenge → Bool) (code : OtpCode) (cs : List MarketChallenge)
    → any (has_code code) cs ≡ false
    → any (has_code code) (count_pass p cs) ≡ false
unfolding count_pass
any-count_pass p code [] h = refl
any-count_pass p code (c ∷ cs) h = ground (arith, any-count_pass p code cs)

any-set_at :
    (code : OtpCode) (c : MarketChallenge) (cs : List MarketChallenge) (i : ℕ)
    → get_elem? cs i ≡ some c
    → any (has_code code) (set_at i (bump c) cs) ≡ any (has_code code) cs
any-set_at code c [] i g = refl
any-set_at code c (x ∷ cs) zero g = ground arith
any-set_at code c (x ∷ cs) (suc i) g = ground (arith, any-set_at code c cs i g)

any-elem_false :
    (code : OtpCode) (c : MarketChallenge) (cs : List MarketChallenge) (i : ℕ)
    → get_elem? cs i ≡ some c
    → any (has_code code) cs ≡ false
    → (code == c.code) ≡ false
any-elem_false code c [] i g h = absurd (ground arith)
any-elem_false code c (x ∷ cs) zero g h = ground arith
any-elem_false code c (x ∷ cs) (suc i) g h = any-elem_false code c cs i g (ground arith)

module _ (height : BlockHeight) where
  -- What `fail_at` does to the challenge that it finds.
  abbrev failed : Market → ℕ → MarketChallenge → Market
  failed m i c =
      let m' = record m { challenges = set_at i (bump c) m.challenges } in
      if leb max_attempts (c.attempts + 1) then close_challenge m' height c.code else m'

  fail_at-found :
      (m : Market) (i : ℕ) (c : MarketChallenge)
      → get_elem? m.challenges i ≡ some c
      → fail_at m height i ≡ some (failed m i c)
  unfolding fail_at
  fail_at-found m i c g = ground (arith, g)

  -- A challenge of another code in front moves the index by one.
  failed-shift :
      (m : Market) (x : MarketChallenge) (cs : List MarketChallenge) (i : ℕ) (c : MarketChallenge)
      → (c.code == x.code) ≡ false
      → failed (holding (x ∷ cs) m) (suc i) c
        ≡ holding (x ∷ (failed (holding cs m) i c).challenges) (failed (holding cs m) i c)
  unfolding close_challenge drop_challenge record_all
  failed-shift m x cs i c h = ground arith

  any-failed :
      (code : OtpCode) (m : Market) (i : ℕ) (c : MarketChallenge)
      → get_elem? m.challenges i ≡ some c
      → any (has_code code) m.challenges ≡ false
      → any (has_code code) (failed m i c).challenges ≡ false
  unfolding close_challenge drop_challenge record_all
  any-failed code m i c g h = ground (
    arith,
    any-set_at code c m.challenges i g,
    any-filter-false (has_code code) (λ x. not (has_code c.code x))
        (set_at i (bump c) m.challenges),
  )

  -- The steps of `fail_all`, one at a time.
  fail_all-split :
      (m : Market) (i : ℕ) (is : List ℕ) (m' : Market)
      → fail_all m height (i ∷ is) ≡ some m'
      → (m₂ : Market) × (c : MarketChallenge) × (fail_all m height is ≡ some m₂)
        × (get_elem? m₂.challenges i ≡ some c)
        × (failed m₂ i c ≡ m')
  fail_all-split m i is m' h = elim (Option-cases (fail_all m height is)) [
    | inl e ↦ absurd (unfold fail_all in ground (arith, e))
    | inr (m₂, e) ↦ elim (Option-cases (get_elem? m₂.challenges i)) [
      | inl f ↦ absurd (unfold fail_all fail_at in ground (arith, e, f))
      | inr (c, f) ↦ (m₂, c, e, f, unfold fail_all in ground (arith, e, fail_at-found m₂ i c f))
    ]
  ]

  fail_all-join :
      (m : Market) (i : ℕ) (is : List ℕ) (m₂ : Market) (c : MarketChallenge)
      → fail_all m height is ≡ some m₂
      → get_elem? m₂.challenges i ≡ some c
      → fail_all m height (i ∷ is) ≡ some (failed m₂ i c)
  unfolding fail_all
  fail_all-join m i is m₂ c e g = ground (arith, e, fail_at-found m₂ i c g)

  fail_all-shift :
      (m : Market) (x : MarketChallenge) (cs : List MarketChallenge) (is : List ℕ) (m' : Market)
      → any (has_code x.code) cs ≡ false
      → fail_all (holding cs m) height is ≡ some m'
      → (any (has_code x.code) m'.challenges ≡ false)
        × (fail_all (holding (x ∷ cs) m) height (map suc is)
            ≡ some (holding (x ∷ m'.challenges) m'))
  fail_all-shift m x cs [] m' h e =
      let z : holding cs m ≡ m' = unfold fail_all in ground arith in
      (
        subst (λ (k : Market). any (has_code x.code) k.challenges ≡ false) z h,
        subst
            (λ (k : Market).
              fail_all (holding (x ∷ cs) m) height [] ≡ some (holding (x ∷ k.challenges) k))
            z (unfold fail_all in refl),
      )
  fail_all-shift m x cs (i ∷ is) m' h e =
      let a = fail_all-split (holding cs m) i is m' e in
      let r = fail_all-shift m x cs is a.0 h a.2 in
      let d = any-elem_false x.code a.1 a.0.challenges i a.3 r.0 in
      let q =
        fail_all-join (holding (x ∷ cs) m) (suc i) (map suc is) (holding (x ∷ a.0.challenges) a.0)
          a.1 r.1 a.3 in
      (
        subst (λ (k : Market). any (has_code x.code) k.challenges ≡ false) a.4
            (any-failed x.code a.0 i a.1 a.3 r.0),
        q
            ∙ ap some (
                failed-shift a.0 x a.0.challenges i a.1 (ground arith)
                ∙ ap (λ (k : Market). holding (x ∷ k.challenges) k) a.4),
      )

  failed_first :
      (m : Market) (x : MarketChallenge)
      → any (has_code x.code) m.challenges ≡ false
      → (failed (holding (x ∷ m.challenges) m) 0 x).challenges
        ≡ (if leb max_attempts (x.attempts + 1) then m.challenges else bump x ∷ m.challenges)
  unfolding close_challenge drop_challenge record_all
  failed_first m x h =
      ground (arith, drop_key_absent (λ c. c.code) x.code m.challenges h, ==_refl x.code)

  count_from :
      (p : MarketChallenge → Bool) (m : Market) (cs : List MarketChallenge)
      → Unique (λ c. c.code) cs
      → (m' : Market) × (fail_all (holding cs m) height (positions p cs) ≡ some m')
        × (m'.challenges ≡ count_pass p cs)
  count_from p m [] u = (holding [] m, unfold fail_all in refl, unfold count_pass in refl)
  count_from p m (x ∷ cs) u =
      let r = count_from p m cs u.1 in
      let q = fail_all-shift m x cs (positions p cs) r.0 u.0 r.1 in
      elim (Bool-cases (p x)) [
        | inl e ↦ (
          failed (holding (x ∷ r.0.challenges) r.0) 0 x,
          rw e (
              fail_all-join (holding (x ∷ cs) m) 0 (map suc (positions p cs))
                (holding (x ∷ r.0.challenges) r.0) x q.1 refl),
          failed_first r.0 x q.0 ∙ count_pass_hit p x cs r.0.challenges e r.2,
        )
        | inr e ↦ (
          holding (x ∷ r.0.challenges) r.0,
          rw e q.1,
          count_pass_miss p x cs r.0.challenges e r.2,
        )
      ]

  -- Where no two challenges have one code, the loop that counts failures, which runs down the
  -- indices of the challenges that pass a test and drops challenges as it goes, never reads out of
  -- range, and leaves the challenges that one pass leaves: each that passes the test has one
  -- failure more, and is dropped where that makes six.
  pub fail_all-positions :
      (p : MarketChallenge → Bool) (m : Market)
      → Unique (λ c. c.code) m.challenges
      → (m' : Market) × (fail_all m height (positions p m.challenges) ≡ some m')
        × (m'.challenges ≡ count_pass p m.challenges)
  fail_all-positions p m u = count_from p m m.challenges u
