-- ===== src/Otp.antt =====
-- mint/treasury/otp.rs: the one-time passcodes and the queue of challenges.
pub mod Code
pub mod Derive
pub mod Laws
pub mod Complete
pub mod Memo
pub mod MemoRoundTrip
use zns_mint.Prelude.{
  ℕ, ◌+◌, ◌<◌, Bool, true, false, not, ◌&&◌, ◌||◌, List, [], ◌∷◌, ◌++◌, Option, none, some, ◌==◌,
  nat_eq, bytes_eq, Eq, ℕ_discrete, ltb, leb, if◌then◌else◌, any, filter, map, find, remove_first,
}
use zns_mint.Chain.{UnifiedAddress, TransparentAddress, Zatoshis, Timestamp}
use zns_mint.Listing.{Clock}
use zns_mint.Name.{Name}
use zns_mint.Action.{Action, action_eq}
use zns_mint.Request
use zns_mint.Request.{Request, request_eq}

-- Thirty minutes, in seconds.
abbrev pub d_otp : ℕ
d_otp = 1800

abbrev pub max_attempts : ℕ
max_attempts = 6

-- The number of a passcode.
abbrev pub OtpCode : Type 0
OtpCode = ℕ

pub record OtpChallenge : Type 0 where
  pub request : Request
  pub code : OtpCode
  pub expires_at : Timestamp
  pub attempts : ℕ

pub data ChallengeState : Type 0 where
  requested relayed : ChallengeState

unfoldable pub ChallengeState-discrete : Discrete ChallengeState
ChallengeState-discrete = hlevel

instance abbrev pub challenge_state_eq : Eq ChallengeState
challenge_state_eq = record { decides = ChallengeState-discrete }

abbrev pub OtpQueue : Type 0
OtpQueue = List (OtpChallenge × ChallengeState)

-- mint.rs: the memo of a challenge, and of its response. Only the market's verbs carry a listing or a
-- clock.
pub record OtpMemo : Type 0 where
  pub code : OtpCode
  pub name : Name
  pub action : Action
  pub ua : UnifiedAddress
  pub listing : Option (TransparentAddress × Zatoshis)
  pub clock : Option (TransparentAddress × Clock)

-- The counter after `attempt`, and its verdict. The queue drops a challenge at six failures, far
-- below what a u32 holds.
unfoldable pub attempt : OtpChallenge → OtpCode → OtpChallenge × Bool
attempt c code =
    if c.code == code then (c, true) else (record c { attempts = c.attempts + 1 }, false)

-- `OtpChallenge::memo`
unfoldable pub memo : OtpChallenge → OtpMemo
memo c = record {
  code = c.code;
  name = Request.name c.request;
  action = Request.action c.request;
  ua = Request.ua c.request;
  listing = none;
  clock = none;
}

-- A response to one request could also name the other.
abbrev pub confusable : Request → Request → Bool
confusable q r =
    Request.name q == Request.name r
    && Request.action q == Request.action r
    && Request.ua q == Request.ua r

abbrev pub clashes : Request → OtpCode → OtpChallenge × ChallengeState → Bool
clashes r code x = confusable x.0.request r && x.0.code == code

-- The loop of `admit`, on the codes that the system's generator gives in turn: the first one that
-- no confusable challenge has.
unfoldable pub fresh_code : OtpQueue → Request → List OtpCode → Option OtpCode
fresh_code q r draws = find (λ code. not (any (clashes r code) q)) draws

abbrev pub asks : Request → OtpChallenge × ChallengeState → Bool
asks r x = x.0.request == r

-- `admit`: `none` where the draws end before a free code, so that the loop goes on.
unfoldable pub admit : OtpQueue → Request → Timestamp → List OtpCode → Option OtpQueue
unfolding fresh_code
admit q r mtp draws = if any (asks r) q then some q else elim (fresh_code q r draws) [
  | none ↦ none
  | some code ↦ some (
      q
      ++ (record { request = r; code = code; expires_at = mtp + d_otp; attempts = 0 }, requested)
        ∷ [])
]

abbrev pub relay_one : OtpChallenge → OtpChallenge × ChallengeState → OtpChallenge × ChallengeState
relay_one sent (c, state) = (c, if c.request == sent.request then relayed else state)

unfoldable pub challenge_issued : OtpQueue → OtpChallenge → OtpQueue
challenge_issued q sent = map (relay_one sent) q

abbrev in_state : ChallengeState → OtpChallenge × ChallengeState → Bool
in_state state x = x.1 == state

-- `requested`
unfoldable pub to_relay : OtpQueue → List OtpChallenge
to_relay q = map (λ x. x.0) (filter (in_state requested) q)

unfoldable pub expire : OtpQueue → Timestamp → OtpQueue
expire q mtp = filter (λ x. ltb mtp x.0.expires_at) q

unfoldable pub drop_challenges : OtpQueue → Name → OtpQueue
drop_challenges q n = filter (λ x. not (Request.name x.0.request == n)) q

-- The closure `named` of `complete`.
abbrev pub named : OtpMemo → OtpChallenge × ChallengeState → Bool
named m x =
    x.1 == relayed
    && Request.name x.0.request == m.name
    && Request.action x.0.request == m.action
    && Request.ua x.0.request == m.ua

abbrev pub answered : OtpMemo → OtpChallenge × ChallengeState → Bool
answered m x = named m x && x.0.code == m.code

-- The closure of `retain_mut` in `complete`: the challenge after it, where it is kept.
unfoldable pub count_failure :
    OtpMemo → OtpChallenge × ChallengeState → Option (OtpChallenge × ChallengeState)
unfolding attempt
count_failure m (c, state) =
    if not (named m (c, state))
    then some (c, state)
    else if (attempt c m.code).1 || ltb (attempt c m.code).0.attempts max_attempts
    then some ((attempt c m.code).0, state)
    else none

abbrev pub put {ℓ} : {A : Type ℓ} → Option A → List A → List A
put none xs = xs
put (some x) xs = x ∷ xs

unfoldable pub count_failures : OtpQueue → OtpMemo → OtpQueue
unfolding count_failure
count_failures [] m = []
count_failures (x ∷ q) m = put (count_failure m x) (count_failures q m)

-- `complete`: the queue after it, and the challenge that the response answers
unfoldable pub complete : OtpQueue → OtpMemo → OtpQueue × Option OtpChallenge
unfolding count_failures attempt
complete q m = elim (find (answered m) q) [
  | some x ↦ (
    remove_first (answered m) q,
    if (attempt x.0 m.code).1 then some (attempt x.0 m.code).0 else none,
  )
  | none ↦ (count_failures q m, none)
]

-- `unrelayed` and `relayed`
unfoldable pub names_in : ChallengeState → OtpQueue → List Name
names_in state q = map (λ x. Request.name x.0.request) (filter (in_state state) q)
