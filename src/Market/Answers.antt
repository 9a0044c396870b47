-- ===== src/Market/Answers.antt =====
-- mint/sale.rs: a response to a challenge changes the view of the market by the events that it logs.
use zns_mint.Prelude.{
  ℕ, zero, suc, ◌+◌, ◌≡◌, refl, ap, ◌∙◌, sym, Bool, true, false, not, ◌&&◌, List, [], ◌∷◌, Option,
  none, some, arith, nat_eq, bytes_eq, if◌then◌else◌, map, any, subst, leb, get_elem?, Option-cases,
  ◌⊎◌, inl, inr, if_cases, is_some, find, ◌>>=◌, ==_refl,
}
use zns_mint.Prelude.Keys.{Unique, any-map, drop_key_absent}
use zns_mint.Chain.{Params, BlockHeight}
use zns_mint.Otp.{OtpMemo, max_attempts}
use zns_mint.Registry.{Registry}
use zns_mint.Registry.Listings.{Ruling, ok, err, panic}
use zns_mint.Sale
use zns_mint.Action
use zns_mint.Action.{action_eq}
use zns_mint.Challenge
use zns_mint.Challenge.{MarketChallenge, ChallengeKind, drop_challenge, has_code}
use zns_mint.Market.{Market, State, challenge_closed, record_event, close_challenge}
use zns_mint.Market.Trade.{list_name, delist_name}
use zns_mint.Market.Answer.{
  fail_at, fail_all, remove_at, set_at, spend, enact, answer, or_else, positions, is_named,
  answers_at,
}
use zns_mint.Market.View.{view, effect, effects, fresh, Valid, fresh-drop_challenge}
use zns_mint.Market.Logged.{
  Logged, Logged-refl, Logged-trans, record_all-Logged, silent, close_challenge-Logged,
}
use zns_mint.Market.Trades.{list_name-Logged, delist_name-Logged}

-- A count against one challenge does not show.
fresh-set_at :
    (cs : List MarketChallenge) (i : ℕ) (c c' : MarketChallenge)
    → get_elem? cs i ≡ some c
    → fresh c' ≡ fresh c
    → map fresh (set_at i c' cs) ≡ map fresh cs
fresh-set_at [] i c c' g e = refl
fresh-set_at (x ∷ cs) zero c c' g e = ground (arith)
fresh-set_at (x ∷ cs) (suc i) c c' g e = ap (λ r. fresh x ∷ r) (fresh-set_at cs i c c' g e)

pub any-at :
    (cs : List MarketChallenge) (i : ℕ) (c : MarketChallenge)
    → get_elem? cs i ≡ some c
    → any (has_code c.code) cs ≡ true
any-at [] i c g = cc
any-at (x ∷ cs) zero c g = ground (arith, ==_refl c.code)
any-at (x ∷ cs) (suc i) c g = ground (arith, any-at cs i c g)

-- Where the codes differ, dropping a code takes off the one challenge that has it.
pub drop_challenge-remove_at :
    (cs : List MarketChallenge) (i : ℕ) (c : MarketChallenge)
    → Unique (λ c. c.code) cs
    → get_elem? cs i ≡ some c
    → drop_challenge cs c.code ≡ remove_at i cs
unfolding drop_challenge
drop_challenge-remove_at [] i c u g = cc
drop_challenge-remove_at (x ∷ cs) zero c u g =
    ground (arith, ==_refl c.code, drop_key_absent (λ c. c.code) c.code cs)
drop_challenge-remove_at (x ∷ cs) (suc i) c u g =
    ground (arith, drop_challenge-remove_at cs i c u.1 g, any-at cs i c g)

Unique-fresh :
    (cs : List MarketChallenge) → Unique (λ c. c.code) (map fresh cs) → Unique (λ c. c.code) cs
Unique-fresh [] u = tt
Unique-fresh (c ∷ cs) u =
    (sym (any-map (has_code c.code) fresh cs (λ _. refl)) ∙ u.0, Unique-fresh cs u.1)

pub Valid-challenges :
    (m : Market) (s : Registry) → Valid (view (m, s)) → Unique (λ c. c.code) m.challenges
Valid-challenges m s u = Unique-fresh m.challenges (unfold view in u.challenges)

-- What a response does: nothing, a failure counted against each challenge that it names, or a
-- challenge spent.
pub data Answered (params : Params) (m : Market) (s : Registry) (r : OtpMemo) (height : BlockHeight)
    (σ : State) (b : Bool) : Type 0 where
  unchanged : (m, s) ≡ σ → b ≡ false → Answered params m s r height σ b
  counted :
      (m' : Market)
      → fail_all m height (positions (is_named r) m.challenges) ≡ some m'
      → (m', s) ≡ σ
      → b ≡ false
      → Answered params m s r height σ b
  spent :
      (i : ℕ) (c : MarketChallenge)
      → find (answers_at r m.challenges) (positions (is_named r) m.challenges) ≡ some i
      → get_elem? m.challenges i ≡ some c
      → spend params m s i c height ≡ σ
      → b ≡ true
      → Answered params m s r height σ b

module _ (params : Params) (m : Market) (s : Registry) (r : OtpMemo) (height : BlockHeight)
    (σ : State) (b : Bool) where
  abbrev named : List ℕ
  named = positions (is_named r) m.challenges

  abbrev on_counted : Option Market → Option (State × Bool)
  on_counted o = do m' ← o; some ((m', s), false)

  abbrev on_spent : ℕ → Option MarketChallenge → Option (State × Bool)
  on_spent i o = do c ← o; some (spend params m s i c height, true)

  after_counting :
      (o : Option Market)
      → fail_all m height (positions (is_named r) m.challenges) ≡ o
      → on_counted o ≡ some (σ, b)
      → Answered params m s r height σ b
  after_counting none e h = absurd (ground arith)
  after_counting (some m') e h = counted m' e (ground arith) (ground arith)

  after_spending :
      (i : ℕ)
      → find (answers_at r m.challenges) (positions (is_named r) m.challenges) ≡ some i
      → (o : Option MarketChallenge) → get_elem? m.challenges i ≡ o
      → on_spent i o ≡ some (σ, b)
      → Answered params m s r height σ b
  after_spending i f none e h = absurd (ground arith)
  after_spending i f (some c) e h = spent i c f e (ground arith) (ground arith)

  abbrev on_tests : Bool → Bool → Option ℕ → Option (State × Bool)
  on_tests foreign empty o =
      if foreign then some ((m, s), false) else if empty then some ((m, s), false) else elim o [
        | none ↦ on_counted (fail_all m height named)
        | some i ↦ on_spent i (get_elem? m.challenges i)
      ]

  after_tests :
      (foreign empty : Bool) (o : Option ℕ)
      → find (answers_at r m.challenges) named ≡ o
      → on_tests foreign empty o ≡ some (σ, b)
      → Answered params m s r height σ b
  after_tests true empty o f h = unchanged (ground arith) (ground arith)
  after_tests false true o f h = unchanged (ground arith) (ground arith)
  after_tests false false none f h = after_counting (fail_all m height named) refl h
  after_tests false false (some i) f h = after_spending i f (get_elem? m.challenges i) refl h

  pub answer_cases : answer params m s r height ≡ some (σ, b) → Answered params m s r height σ b
  answer_cases h =
      after_tests
        (not (Action.is_list r.action)
          && not (Action.is_delist r.action)
          && not (Action.is_auction r.action))
        (not (is_some (get_elem? named 0))) (find (answers_at r m.challenges) named) refl
        (unfold answer in h)

module _ (height : BlockHeight) where
  or_else-Logged :
      (σ : State) (r : Ruling State)
      → ((τ : State) → r ≡ ok τ → Logged height σ τ)
      → Logged height σ (or_else σ r)
  or_else-Logged σ (ok τ) h = h τ refl
  or_else-Logged σ (err e) h = Logged-refl height σ
  or_else-Logged σ panic h = Logged-refl height σ

  enact-Logged :
      (params : Params) (m : Market) (s : Registry) (kind : ChallengeKind)
      → Logged height (m, s) (enact params m s kind height)
  unfolding enact
  enact-Logged params m s (ChallengeKind.list l) =
      or_else-Logged (m, s) (list_name params m s l height) (list_name-Logged height m s params l)
  enact-Logged params m s (ChallengeKind.delist n u) =
      or_else-Logged (m, s) (delist_name m s n u height) (delist_name-Logged height m s n u)

  spend-Logged :
      (params : Params) (m : Market) (s : Registry) (i : ℕ) (c : MarketChallenge)
      → Valid (view (m, s))
      → get_elem? m.challenges i ≡ some c
      → Logged height (m, s) (spend params m s i c height)
  unfolding spend
  spend-Logged params m s i c u g =
      let m' =
        record_event (record m { challenges = remove_at i m.challenges }) height
          (challenge_closed c.code) in
      let p : Logged height (m, s) (m', s) =
        record_all-Logged height m (record m { challenges = remove_at i m.challenges }) s s
          (challenge_closed c.code ∷ []) refl
          (unfold view effects effect in
            ap (λ cs. record (view (m, s)) { challenges = cs })
              (ap (map fresh)
                  (sym (drop_challenge-remove_at m.challenges i c (Valid-challenges m s u) g))
                ∙ fresh-drop_challenge m.challenges c.code))
          refl in
      if_cases (Logged height (m, s)) (Sale.is_open m'.sales (Challenge.name c.kind)) _ _ (λ _. p)
        (λ _. Logged-trans p (enact-Logged params m' s c.kind))

  fail_at-Logged :
      (m : Market) (s : Registry) (i : ℕ) (m' : Market)
      → fail_at m height i ≡ some m'
      → Logged height (m, s) (m', s)
  fail_at-Logged m s i m' h = elim (Option-cases (get_elem? m.challenges i)) [
    | inl e ↦ absurd (unfold fail_at in ground arith)
    | inr (c, e) ↦
        let c' = record c { attempts = c.attempts + 1 } in
        let m₁ = record m { challenges = set_at i c' m.challenges } in
        let p : Logged height (m, s) (m₁, s) = silent height m m₁ s refl (
          unfold view in
          ap (λ cs. record (view (m, s)) { challenges = cs })
            (fresh-set_at m.challenges i c c' e refl)) in
        let z : (if leb max_attempts c'.attempts then close_challenge m₁ height c'.code else m₁)
            ≡ m' =
          unfold fail_at in ground (arith, e) in
        subst (λ x. Logged height (m, s) (x, s)) z
          (if_cases (λ x. Logged height (m, s) (x, s)) (leb max_attempts c'.attempts) _ _
            (λ _. Logged-trans p (close_challenge-Logged height m₁ s c'.code)) (λ _. p))
  ]

  fail_all-Logged :
      (m : Market) (s : Registry) (is : List ℕ) (m' : Market)
      → fail_all m height is ≡ some m'
      → Logged height (m, s) (m', s)
  fail_all-Logged m s [] m' h =
      let e : m ≡ m' = unfold fail_all in ground arith in
      subst (λ x. Logged height (m, s) (x, s)) e (Logged-refl height (m, s))
  fail_all-Logged m s (i ∷ is) m' h =
      step (fail_all-Logged m s is) (Option-cases (fail_all m height is))
    where
      step :
          ((m' : Market) → fail_all m height is ≡ some m' → Logged height (m, s) (m', s))
          → (fail_all m height is ≡ none) ⊎ ((m₁ : Market) × (fail_all m height is ≡ some m₁))
          → Logged height (m, s) (m', s)
      step ih (inl e) = absurd (unfold fail_all in ground arith)
      step ih (inr (m₁, e)) =
          Logged-trans (ih m₁ e) (fail_at-Logged m₁ s i m' (unfold fail_all in ground (arith, e)))

  pub answer-Logged :
      (params : Params) (m : Market) (s : Registry) (r : OtpMemo) (σ : State) (b : Bool)
      → Valid (view (m, s))
      → answer params m s r height ≡ some (σ, b)
      → Logged height (m, s) σ
  answer-Logged params m s r σ b u h = elim (answer_cases params m s r height σ b h) [
    | unchanged e f ↦ subst (Logged height (m, s)) e (Logged-refl height (m, s))
    | counted m' e f g ↦ subst (Logged height (m, s)) f (fail_all-Logged m s _ m' e)
    | spent i c e g f k ↦ subst (Logged height (m, s)) f (spend-Logged params m s i c u g)
  ]
