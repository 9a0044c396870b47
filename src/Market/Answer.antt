-- ===== src/Market/Answer.antt =====
-- mint/sale.rs: `Market::answer`, the response to a challenge.
use zns_mint.Prelude.{
  ℕ, zero, suc, ◌+◌, Bool, true, false, not, ◌&&◌, List, [], ◌∷◌, Option, none, some, ◌==◌, nat_eq,
  bytes_eq, leb, if◌then◌else◌, map, find, get_elem?, is_some, ◌>>=◌,
}
use zns_mint.Chain.{Params, BlockHeight}
use zns_mint.Action
use zns_mint.Action.{action_eq}
use zns_mint.Otp.{OtpMemo, max_attempts}
use zns_mint.Registry.{Registry}
use zns_mint.Registry.Listings.{Ruling, ok, err, panic}
use zns_mint.Sale
use zns_mint.Challenge
use zns_mint.Challenge.{MarketChallenge, ChallengeKind, same_terms}
use zns_mint.Market.{Market, State, challenge_closed, record_all, record_event, close_challenge}
use zns_mint.Market.Trade.{list_name, delist_name}

-- A challenge that the response names.
unfoldable pub is_named : OtpMemo → MarketChallenge → Bool
is_named r c =
    Challenge.name c.kind == r.name
    && Challenge.ua c.kind == r.ua
    && Challenge.action c.kind == r.action

-- `challenge.code == response.code && challenge.same_terms(response)`
unfoldable pub is_answered : OtpMemo → MarketChallenge → Bool
is_answered r c = c.code == r.code && same_terms c.kind r

-- The positions of the elements that pass a test.
abbrev pub positions {ℓ} : {A : Type ℓ} → (A → Bool) → List A → List ℕ
positions p [] = []
positions p (x ∷ xs) = let rest = map suc (positions p xs) in if p x then 0 ∷ rest else rest

-- `Vec::remove`
abbrev pub remove_at {ℓ} : {A : Type ℓ} → ℕ → List A → List A
remove_at i [] = []
remove_at zero (x ∷ xs) = xs
remove_at (suc i) (x ∷ xs) = x ∷ remove_at i xs

abbrev pub set_at {ℓ} : {A : Type ℓ} → ℕ → A → List A → List A
set_at i y [] = []
set_at zero y (x ∷ xs) = y ∷ xs
set_at (suc i) y (x ∷ xs) = x ∷ set_at i y xs

-- `let _ =` drops a refusal.
abbrev pub or_else {ℓ} : {A : Type ℓ} → A → Ruling A → A
or_else a (ok b) = b
or_else a (err e) = a
or_else a panic = a

-- What a challenge asks for, once it is answered.
unfoldable pub enact : Params → Market → Registry → ChallengeKind → BlockHeight → State
enact params m s (ChallengeKind.list l) height = or_else (m, s) (list_name params m s l height)
enact params m s (ChallengeKind.delist n u) height = or_else (m, s) (delist_name m s n u height)

-- A challenge that is answered leaves, and takes effect where no buy is open.
unfoldable pub spend : Params → Market → Registry → ℕ → MarketChallenge → BlockHeight → State
unfolding record_all enact
spend params m s index c height =
    let m' =
      record_event (record m { challenges = remove_at index m.challenges }) height
        (challenge_closed c.code) in
    if Sale.is_open m'.sales (Challenge.name c.kind)
    then (m', s)
    else enact params m' s c.kind height

-- A failure at one index: `none` where the index is out of range, which is a panic.
unfoldable pub fail_at : Market → BlockHeight → ℕ → Option Market
unfolding close_challenge
fail_at m height index = do
  c ← get_elem? m.challenges index
  let c' = record c { attempts = c.attempts + 1 }
  let m' = record m { challenges = set_at index c' m.challenges }
  some (if leb max_attempts c'.attempts then close_challenge m' height c'.code else m')

-- `for index in named.into_iter().rev()`
unfoldable pub fail_all : Market → BlockHeight → List ℕ → Option Market
unfolding fail_at
fail_all m height [] = some m
fail_all m height (index ∷ indices) = do m' ← fail_all m height indices; fail_at m' height index

abbrev pub answers_at : OtpMemo → List MarketChallenge → ℕ → Bool
answers_at r cs index = elim (get_elem? cs index) [ none ↦ false | some c ↦ is_answered r c ]

-- `answer`: the state after it, and whether a challenge was spent. `none` is a panic.
unfoldable pub answer : Params → Market → Registry → OtpMemo → BlockHeight → Option (State × Bool)
unfolding is_named is_answered spend fail_all
answer params m s r height =
    if not (Action.is_list r.action)
      && not (Action.is_delist r.action)
      && not (Action.is_auction r.action)
    then some ((m, s), false)
    else let named = positions (is_named r) m.challenges in
      if not (is_some (get_elem? named 0))
      then some ((m, s), false)
      else elim (find (answers_at r m.challenges) named) [
        | none ↦ do m' ← fail_all m height named; some ((m', s), false)
        | some index ↦ do
          c ← get_elem? m.challenges index
          some (spend params m s index c height, true)
      ]
