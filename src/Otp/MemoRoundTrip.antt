-- ===== src/Otp/MemoRoundTrip.antt =====
-- mint.rs: a challenge memo is read back from its text.
use zns_mint.Prelude.{
  ℕ, ◌-◌, ◌^◌, ◌≤◌, ◌<◌, ◌≡◌, ap, ◌∙◌, sym, true, false, List, [], ◌∷◌, Option, none, some, arith,
  bytes_eq, nat_eq, All,
}
use zns_mint.Text.{Bytes}
use zns_mint.Text.Split.{join, Lacks, split-join}
use zns_mint.Text.Decimal
use zns_mint.Chain.{Params, Lawful, TransparentAddress, Zatoshis, max_money}
use zns_mint.Name
use zns_mint.Action
use zns_mint.Action.{Action, action_eq, parse-as_str}
use zns_mint.Request.RoundTrip.{Lacks-name, Lacks-digits, Lacks-all}
use zns_mint.Listing.{Clock, is_valid}
use zns_mint.Payment.Zec.{encode_zec}
use zns_mint.Payment.ZecRoundTrip.{
  decode_zec-encode_zec, all-encode_zec, is_zec_byte, decode_height-print,
}
use zns_mint.Otp.{OtpMemo}
use zns_mint.Otp.Code.{digits, from_digits-digits, all-digits}
use zns_mint.Otp.Memo.{
  decode_t1, lead_fields, listing_fields, clock_fields, sentence_fields, encode, is_challenged,
  decode_listing, decode_clock, decode_terms, decode_sentence, decode_fields, decode,
}

-- An address that a sale can pay.
abbrev Payable : Params → TransparentAddress → Type 0
Payable params t = params.is_pubkey_hash t ≡ true

-- The clock of an auction: it falls, its prices are in the monetary range, its heights are u32.
pub record Sound (k : Clock) : Type 0 where
  pub valid : is_valid k ≡ true
  pub start_price : k.start_price ≤ max_money
  pub min_price : k.min_price ≤ max_money
  pub start : k.start ≤ 2 ^ 32 - 1
  pub end : k.end ≤ 2 ^ 32 - 1

-- What a memo carries besides its address: a price for a list, a clock for an auction.
pub data Carries (params : Params)
    : Action
      → Option (TransparentAddress × Zatoshis)
      → Option (TransparentAddress × Clock)
      → Type 0 where
  price :
      (t : TransparentAddress) (p : Zatoshis)
      → params.is_pubkey_hash t ≡ true
      → p ≤ max_money
      → Carries params Action.list (some (t, p)) none
  clock :
      (t : TransparentAddress) (k : Clock)
      → params.is_pubkey_hash t ≡ true
      → Sound k
      → Carries params Action.auction none (some (t, k))
  nothing :
      (a : Action)
      → Action.is_list a ≡ false
      → Action.is_auction a ≡ false
      → Carries params a none none

-- A memo that the mint can send.
pub record IsValid (params : Params) (m : OtpMemo) : Type 0 where
  pub named : Name.parse m.name ≡ some m.name
  pub code : m.code < 1000000
  pub challenged : is_challenged m.action ≡ true
  pub controller : params.decode_controller (params.encode_ua m.ua) ≡ some m.ua
  pub plain : Lacks b':' (params.encode_ua m.ua)
  pub terms : Carries params m.action m.listing m.clock

decode_t1-encode :
    (params : Params) (t : TransparentAddress)
    → Lawful params
    → params.is_pubkey_hash t ≡ true
    → decode_t1 params (params.encode_transparent t) ≡ some t
unfolding decode_t1
decode_t1-encode params t l h = ground (arith, l.decode_transparent-encode_transparent t, h)

-- What follows the address, by what the memo carries.
abbrev rest_of :
    Params
    → Option (TransparentAddress × Zatoshis)
    → Option (TransparentAddress × Clock)
    → List Bytes
rest_of params (some x) o = listing_fields params x
rest_of params none (some y) = clock_fields params y
rest_of params none none = []

decode_terms-rest :
    (params : Params) (a : Action) (x : Option (TransparentAddress × Zatoshis))
    (y : Option (TransparentAddress × Clock))
    → Lawful params
    → Carries params a x y
    → decode_terms params a (rest_of params x y) ≡ some (x, y)
unfolding decode_terms decode_listing decode_clock listing_fields clock_fields
decode_terms-rest params _ _ _ l (price t p h le) =
    ground (arith, decode_t1-encode params t l h, decode_zec-encode_zec p le)
decode_terms-rest params _ _ _ l (clock t k h s) = ground (
  arith,
  decode_t1-encode params t l h,
  decode_zec-encode_zec k.start_price s.start_price,
  decode_zec-encode_zec k.min_price s.min_price,
  decode_height-print k.start s.start,
  decode_height-print k.end s.end,
  s.valid,
)
decode_terms-rest params _ _ _ l (nothing a p q) = ground (arith, p, q)

decode_fields-lead :
    (params : Params) (m : OtpMemo) (rest : List Bytes)
    → IsValid params m
    → decode_terms params m.action rest ≡ some (m.listing, m.clock)
    → decode_fields params (lead_fields params m rest) ≡ some m
unfolding decode_fields decode_sentence
decode_fields-lead params m rest v h = ground (
  arith,
  h,
  from_digits-digits m.code v.code,
  v.named,
  parse-as_str m.action,
  v.challenged,
  v.controller,
)

sentence_fields-rest :
    (params : Params) (m : OtpMemo)
    → Carries params m.action m.listing m.clock
    → sentence_fields params m ≡ some (lead_fields params m (rest_of params m.listing m.clock))
sentence_fields-rest params m c = split m.action m.listing m.clock c
  where
    split :
        (a : Action) (x : Option (TransparentAddress × Zatoshis))
        (y : Option (TransparentAddress × Clock))
        → Carries params a x y
        → sentence_fields params (record m { action = a; listing = x; clock = y })
          ≡ some (
              lead_fields params
                (record m { action = a; listing = x; clock = y })
                (rest_of params x y))
    split _ _ _ (price t p h le) = unfold sentence_fields in ground arith
    split _ _ _ (clock t k h s) = unfold sentence_fields in ground arith
    split _ _ _ (nothing a p q) = unfold sentence_fields in ground (arith, p, q)

encode-join :
    (params : Params) (m : OtpMemo) (parts : List Bytes) (text : Bytes)
    → sentence_fields params m ≡ some parts
    → encode params m ≡ some text
    → join b':' parts ≡ text
unfolding encode
encode-join params m parts text e h = ground (arith, e)

pub Lacks-zec : (p : Zatoshis) → Lacks b':' (encode_zec p)
Lacks-zec p = Lacks-all is_zec_byte (encode_zec p) (λ c h. ground arith) (all-encode_zec p)

pub Lacks-print : (n : ℕ) → Lacks b':' (Decimal.print n)
Lacks-print n = Lacks-digits (Decimal.print n) (Decimal.print-all n)

Lacks-rest :
    (params : Params) (x : Option (TransparentAddress × Zatoshis))
    (y : Option (TransparentAddress × Clock))
    → Lawful params
    → All (Lacks b':') (rest_of params x y)
unfolding listing_fields clock_fields
Lacks-rest params (some (t, p)) y l = (l.encode_transparent-Lacks t, (Lacks-zec p, tt))
Lacks-rest params none (some (t, k)) l = (
  l.encode_transparent-Lacks t,
  (
    Lacks-zec k.start_price,
    (Lacks-zec k.min_price, (Lacks-print k.start, (Lacks-print k.end, tt))),
  ),
)
Lacks-rest params none none l = tt

Lacks-verb : (a : Action) → Lacks b':' (Action.as_str a)
unfolding Action.as_str
Lacks-verb Action.claim = omega arith
Lacks-verb Action.update = omega arith
Lacks-verb Action.release = omega arith
Lacks-verb Action.sale = omega arith
Lacks-verb Action.list = omega arith
Lacks-verb Action.delist = omega arith
Lacks-verb Action.auction = omega arith

decode-join :
    (params : Params) (p : Bytes) (ps : List Bytes)
    → All (Lacks b':') (p ∷ ps)
    → decode params (join b':' (p ∷ ps)) ≡ decode_fields params (p ∷ ps)
unfolding decode
decode-join params p ps a = ap (decode_fields params) (split-join b':' p ps a)

-- Under the documented laws of the foreign encodings, a challenge memo with a valid name, a code
-- of six digits, an action that is challenged, and the price or the clock that the action carries
-- (amounts in the monetary range, heights of 32 bits, a clock that falls, a public key's address
-- to pay), whose sentence fits a memo, is read back from it.
pub decode-encode_memo :
    (params : Params) (m : OtpMemo) (text : Bytes)
    → Lawful params
    → IsValid params m
    → encode params m ≡ some text
    → decode params text ≡ some m
decode-encode_memo params m text l v h =
    let rest = rest_of params m.listing m.clock in
    let parts = lead_fields params m rest in
    let e = encode-join params m parts text (sentence_fields-rest params m v.terms) h in
    let lacks : All (Lacks b':') parts = (
      omega arith,
      (
        omega arith,
        (
          Lacks-digits (digits m.code) (all-digits m.code),
          (
            Lacks-name m.name v.named,
            (Lacks-verb m.action, (v.plain, Lacks-rest params m.listing m.clock l)),
          ),
        ),
      ),
    ) in
    ap (decode params) (sym e)
    ∙ decode-join params _ _ lacks
    ∙ decode_fields-lead params m rest v
        (decode_terms-rest params m.action m.listing m.clock l v.terms)
