-- ===== src/Otp/Memo.antt =====
-- mint.rs: the text of a challenge memo, and of its response.
use zns_mint.Prelude.{
  Bool, not, ◌||◌, List, [], ◌∷◌, Option, none, some, ◌==◌, bytes_eq, nat_eq, leb, if◌then◌else◌,
  length, codes, some_if, ◌>>=◌,
}
use zns_mint.Text.{Bytes}
use zns_mint.Text.Split.{split, join}
use zns_mint.Text.Decimal
use zns_mint.Chain.{Params, TransparentAddress, Zatoshis}
use zns_mint.Name
use zns_mint.Name.{Name}
use zns_mint.Action
use zns_mint.Action.{Action, action_eq}
use zns_mint.Note.Codec.{memo_len}
use zns_mint.Listing.{Clock, is_valid}
use zns_mint.Payment.Zec.{encode_zec, decode_zec, decode_height}
use zns_mint.Otp.{OtpMemo}
use zns_mint.Otp.Code.{digits, from_digits}

-- `decode_t1`
unfoldable pub decode_t1 : Params → Bytes → Option TransparentAddress
decode_t1 params text = do t ← params.decode_transparent text; some_if (params.is_pubkey_hash t) t

-- The fields that every sentence begins with.
abbrev pub lead_fields : Params → OtpMemo → List Bytes → List Bytes
lead_fields params m rest =
    codes "ZNS"
    ∷ codes "otp"
    ∷ digits m.code
    ∷ m.name
    ∷ Action.as_str m.action
    ∷ params.encode_ua m.ua
    ∷ rest

unfoldable pub listing_fields : Params → TransparentAddress × Zatoshis → List Bytes
listing_fields params (pay_to, price) = params.encode_transparent pay_to ∷ encode_zec price ∷ []

unfoldable pub clock_fields : Params → TransparentAddress × Clock → List Bytes
clock_fields params (pay_to, clock) =
    params.encode_transparent pay_to
    ∷ encode_zec clock.start_price
    ∷ encode_zec clock.min_price
    ∷ Decimal.print clock.start
    ∷ Decimal.print clock.end
    ∷ []

-- The fields of the sentence.
unfoldable pub sentence_fields : Params → OtpMemo → Option (List Bytes)
unfolding listing_fields clock_fields
sentence_fields params m =
    if Action.is_list m.action
    then elim m.listing [
      | none ↦ none
      | some x ↦ some (lead_fields params m (listing_fields params x))
    ]
    else if Action.is_auction m.action
    then elim m.clock [ none ↦ none | some x ↦ some (lead_fields params m (clock_fields params x)) ]
    else some (lead_fields params m [])

-- `OtpMemo::encode`, the text. `MemoBytes::from_bytes` refuses one of more than 512 bytes.
unfoldable pub encode : Params → OtpMemo → Option Bytes
unfolding sentence_fields
encode params m = if Action.is_claim m.action then none else do
  parts ← sentence_fields params m
  some_if (leb (length (join b':' parts)) memo_len) (join b':' parts)

-- The actions that are challenged.
abbrev pub is_challenged : Action → Bool
is_challenged a =
    Action.is_update a
    || Action.is_release a
    || Action.is_list a
    || Action.is_delist a
    || Action.is_auction a

-- What the fields after the address are.
abbrev pub Terms : Type 0
Terms = Option (TransparentAddress × Zatoshis) × Option (TransparentAddress × Clock)

unfoldable pub decode_listing : Params → List Bytes → Option Terms
unfolding decode_t1
decode_listing params (t ∷ price ∷ []) = do
  pay_to ← decode_t1 params t
  p ← decode_zec price
  some (some (pay_to, p), none)
decode_listing params [] = none
decode_listing params (t ∷ []) = none
decode_listing params (t ∷ price ∷ x ∷ rest) = none

abbrev pub timed : TransparentAddress → Clock → Option Terms
timed pay_to clock = if not (is_valid clock) then none else some (none, some (pay_to, clock))

unfoldable pub decode_clock : Params → List Bytes → Option Terms
unfolding decode_t1
decode_clock params (t ∷ s ∷ m ∷ from ∷ to ∷ []) = do
  pay_to ← decode_t1 params t
  start_price ← decode_zec s
  min_price ← decode_zec m
  start ← decode_height from
  end ← decode_height to
  timed pay_to
      (record { start_price = start_price; min_price = min_price; start = start; end = end })
decode_clock params [] = none
decode_clock params (t ∷ []) = none
decode_clock params (t ∷ s ∷ []) = none
decode_clock params (t ∷ s ∷ m ∷ []) = none
decode_clock params (t ∷ s ∷ m ∷ from ∷ []) = none
decode_clock params (t ∷ s ∷ m ∷ from ∷ to ∷ x ∷ rest) = none

unfoldable pub decode_terms : Params → Action → List Bytes → Option Terms
unfolding decode_listing decode_clock
decode_terms params action rest =
    if Action.is_list action
    then decode_listing params rest
    else if Action.is_auction action
    then decode_clock params rest
    else if length rest == 0
    then some (none, none)
    else none

-- The fields after the two tags.
unfoldable pub decode_sentence :
    Params → Bytes → Bytes → Bytes → Bytes → List Bytes → Option OtpMemo
unfolding decode_terms
decode_sentence params otp named verb u rest = do
  code ← from_digits otp
  name ← Name.parse named
  action ← Action.parse verb
  if not (is_challenged action) then none else do
    ua ← params.decode_controller u
    terms ← decode_terms params action rest
    some (record {
      code = code;
      name = name;
      action = action;
      ua = ua;
      listing = terms.0;
      clock = terms.1;
    })

unfoldable pub decode_fields : Params → List Bytes → Option OtpMemo
unfolding decode_sentence
decode_fields params (zns ∷ tag ∷ otp ∷ named ∷ verb ∷ u ∷ rest) =
    if not (zns == codes "ZNS") || not (tag == codes "otp")
    then none
    else decode_sentence params otp named verb u rest
decode_fields params [] = none
decode_fields params (a ∷ []) = none
decode_fields params (a ∷ b ∷ []) = none
decode_fields params (a ∷ b ∷ c ∷ []) = none
decode_fields params (a ∷ b ∷ c ∷ d ∷ []) = none
decode_fields params (a ∷ b ∷ c ∷ d ∷ e ∷ []) = none

-- `OtpMemo::decode`, on the text that the memo library gives
unfoldable pub decode : Params → Bytes → Option OtpMemo
unfolding decode_fields
decode params text = decode_fields params (split b':' text)
