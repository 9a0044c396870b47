-- ===== src/Challenge.antt =====
-- mint/sale.rs: `MarketChallenge`, a list or delist that waits for the controller's code.
use zns_mint.Prelude.{
  ℕ, Bool, true, false, not, ◌&&◌, List, [], ◌∷◌, ◌++◌, Option, none, some, ◌==◌, nat_eq, bytes_eq,
  if◌then◌else◌, any, filter, map, ltb, is_some,
}
use zns_mint.Chain.{Params, UnifiedAddress, TransparentAddress, Zatoshis, BlockHeight, Timestamp}
use zns_mint.Name.{Name}
use zns_mint.Action.{Action, action_eq}
use zns_mint.Listing.{
  Listing, Ask, flat, dutch, Clock, clock_eq, listing_eq, bad_clock, ended, is_valid,
  is_owner_listing,
}
use zns_mint.Otp.{OtpCode, OtpMemo}
use zns_mint.Registry.Listings.{Ruling, ok, err}

-- The unit of a ruling that carries nothing.
pub data Done : Type 0 where
  done : Done

-- `clock_ready`
unfoldable pub clock_ready : Ask → BlockHeight → Ruling Done
clock_ready (flat price) height = ok done
clock_ready (dutch clock) height =
    if not (is_valid clock)
    then err bad_clock
    else if ltb clock.end height
    then err ended
    else ok done

pub data ChallengeKind : Type 0 where
  list : Listing → ChallengeKind
  delist : Name → UnifiedAddress → ChallengeKind

pub record MarketChallenge : Type 0 where
  pub kind : ChallengeKind
  pub code : OtpCode
  pub expires_at : Timestamp
  pub relayed : Bool
  pub attempts : ℕ

abbrev pub name : ChallengeKind → Name
name (list l) = l.name
name (delist n u) = n

abbrev pub ua : ChallengeKind → UnifiedAddress
ua (list l) = l.ua
ua (delist n u) = u

abbrev pub ask_action : Ask → Action
ask_action (flat price) = Action.list
ask_action (dutch clock) = Action.auction

abbrev pub action : ChallengeKind → Action
action (list l) = ask_action l.ask
action (delist n u) = Action.delist

abbrev pub flat_terms : Listing → Ask → Option (TransparentAddress × Zatoshis)
flat_terms l (flat price) = some (l.pay_to, price)
flat_terms l (dutch clock) = none

abbrev pub clock_terms : Listing → Ask → Option (TransparentAddress × Clock)
clock_terms l (flat price) = none
clock_terms l (dutch clock) = some (l.pay_to, clock)

abbrev pub memo_listing : ChallengeKind → Option (TransparentAddress × Zatoshis)
memo_listing (list l) = flat_terms l l.ask
memo_listing (delist n u) = none

abbrev pub memo_clock : ChallengeKind → Option (TransparentAddress × Clock)
memo_clock (list l) = clock_terms l l.ask
memo_clock (delist n u) = none

-- `MarketChallenge::memo`
unfoldable pub memo : MarketChallenge → OtpMemo
memo c = record {
  code = c.code;
  name = name c.kind;
  action = action c.kind;
  ua = ua c.kind;
  listing = memo_listing c.kind;
  clock = memo_clock c.kind;
}

unfoldable pub held_by : Params → ChallengeKind → UnifiedAddress → Bool
held_by params (list l) owner = is_owner_listing params owner l.ua l.pay_to
held_by params (delist n u) owner = u == owner

unfoldable pub same_list : Listing → ChallengeKind → Bool
same_list l (list held) = held == l
same_list l (delist n u) = false

abbrev pub quotes_price :
    Option (TransparentAddress × Zatoshis) → TransparentAddress → Zatoshis → Bool
quotes_price none pay_to price = false
quotes_price (some (addr, quoted)) pay_to price = addr == pay_to && quoted == price

abbrev pub quotes_clock : Option (TransparentAddress × Clock) → TransparentAddress → Clock → Bool
quotes_clock none pay_to clock = false
quotes_clock (some (addr, quoted)) pay_to clock = addr == pay_to && quoted == clock

abbrev pub same_ask : Listing → Ask → OtpMemo → Bool
same_ask l (flat price) response =
    not (is_some response.clock) && quotes_price response.listing l.pay_to price
same_ask l (dutch clock) response = quotes_clock response.clock l.pay_to clock

unfoldable pub same_terms : ChallengeKind → OtpMemo → Bool
same_terms (list l) response = same_ask l l.ask response
same_terms (delist n u) response = not (is_some response.listing) && not (is_some response.clock)

unfoldable pub same_delist : Name → UnifiedAddress → ChallengeKind → Bool
same_delist n u (list l) = false
same_delist n u (delist held owner) = held == n && owner == u

abbrev pub has_code : OtpCode → MarketChallenge → Bool
has_code code c = c.code == code

-- `code_is_open`
unfoldable pub code_is_open : List MarketChallenge → OtpCode → Bool
code_is_open cs code = any (has_code code) cs

-- `restore_challenge`
unfoldable pub restore_challenge : List MarketChallenge → MarketChallenge → List MarketChallenge
unfolding code_is_open
restore_challenge cs c = if code_is_open cs c.code then cs else cs ++ c ∷ []

-- `drop_challenge`
unfoldable pub drop_challenge : List MarketChallenge → OtpCode → List MarketChallenge
drop_challenge cs code = filter (λ c. not (has_code code c)) cs

-- The codes of the challenges that pass a test.
abbrev pub codes_of : (MarketChallenge → Bool) → List MarketChallenge → List OtpCode
codes_of p cs = map (λ c. c.code) (filter p cs)

abbrev pub relay_challenge : OtpCode → MarketChallenge → MarketChallenge
relay_challenge code c = if has_code code c then record c { relayed = true } else c
