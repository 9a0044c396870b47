-- ===== src/Action.antt =====
-- mint.rs: the kinds of action and their verbs.
use zns_mint.Prelude.{
  Bool, ◌≡◌, refl, ◌||◌, Option, none, some, ◌==◌, bytes_eq, Eq, if◌then◌else◌, codes,
  Bytes-discrete, arith,
}
use zns_mint.Text.{Bytes}

pub data Action : Type 0 where
  claim update release sale list delist auction : Action

unfoldable pub Action-discrete : Discrete Action
Action-discrete = hlevel

instance abbrev pub action_eq : Eq Action
action_eq = record { decides = Action-discrete }

unfoldable pub as_str : Action → Bytes
as_str claim = codes "claim"
as_str update = codes "update"
as_str release = codes "release"
as_str sale = codes "sale"
as_str list = codes "list"
as_str delist = codes "delist"
as_str auction = codes "auction"

unfoldable pub parse : Bytes → Option Action
parse verb =
    if verb == codes "claim"
    then some claim
    else if verb == codes "update"
    then some update
    else if verb == codes "release"
    then some release
    else if verb == codes "sale"
    then some sale
    else if verb == codes "list"
    then some list
    else if verb == codes "delist"
    then some delist
    else if verb == codes "auction"
    then some auction
    else none

abbrev pub is_release : Action → Bool
is_release a = a == release

abbrev pub is_claim : Action → Bool
is_claim a = a == claim

abbrev pub is_update : Action → Bool
is_update a = a == update

abbrev pub is_sale : Action → Bool
is_sale a = a == sale

abbrev pub is_list : Action → Bool
is_list a = a == list

abbrev pub is_delist : Action → Bool
is_delist a = a == delist

abbrev pub is_auction : Action → Bool
is_auction a = a == auction

abbrev pub needs_predecessor : Action → Bool
needs_predecessor a = a == update || a == release || a == sale

-- The verb of an action is read back.
pub parse-as_str : (a : Action) → parse (as_str a) ≡ some a
unfolding parse as_str Bytes-discrete
parse-as_str claim = refl
parse-as_str update = refl
parse-as_str release = refl
parse-as_str sale = refl
parse-as_str list = refl
parse-as_str delist = refl
parse-as_str auction = refl

-- A text that reads as an action is that action's verb.
pub as_str-parse : (s : Bytes) (a : Action) → parse s ≡ some a → as_str a ≡ s
unfolding parse as_str
as_str-parse s a h = ground arith
