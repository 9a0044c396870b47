-- ===== src/Market/Unread.antt =====
-- mint/sale.rs and mint.rs: the mint does not take its own reply to a buyer for a message.
use zns_mint.Prelude.{
  ◌≡◌, refl, ap, ◌∙◌, sym, Option, none, some, arith, bytes_eq, Bytes-discrete, nat_eq, ℕ_discrete,
  All,
}
use zns_mint.Text.{Bytes}
use zns_mint.Text.Split.{split, join, Lacks, split-join}
use zns_mint.Chain.{Params, Zatoshis, Timestamp}
use zns_mint.Name
use zns_mint.Request.Decode
use zns_mint.Request.Decode.{decode_zns, decode_verb}
use zns_mint.Request.RoundTrip.{Lacks-name, Lacks-digits}
use zns_mint.Otp.Code.{digits, all-digits}
use zns_mint.Otp.Memo
use zns_mint.Otp.Memo.{decode_fields}
use zns_mint.Otp.MemoRoundTrip.{Lacks-zec, Lacks-print}
use zns_mint.Sale.{BuyOtp}
use zns_mint.Market.Decode.{
  unrecognized, reply_fields, encode_reply, decode_market, decode_market_verb, classify,
}

reply-Lacks :
    (params : Params) (r : BuyOtp) (o : Option (Zatoshis × Timestamp))
    → Name.parse r.name ≡ some r.name
    → Lacks b':' (params.encode_ua r.ua)
    → All (Lacks b':') (reply_fields params r o)
reply-Lacks params r none e h = (
  omega arith,
  (omega arith, (Lacks-digits (digits r.code) (all-digits r.code), (Lacks-name r.name e, (h, tt)))),
)
reply-Lacks params r (some (p, t)) e h = (
  omega arith,
  (
    omega arith,
    (
      Lacks-digits (digits r.code) (all-digits r.code),
      (Lacks-name r.name e, (h, (Lacks-zec p, (Lacks-print t, tt)))),
    ),
  ),
)

split-reply :
    (params : Params) (r : BuyOtp) (o : Option (Zatoshis × Timestamp))
    → All (Lacks b':') (reply_fields params r o)
    → split b':' (join b':' (reply_fields params r o)) ≡ reply_fields params r o
split-reply params r none a = split-join b':' _ _ a
split-reply params r (some (p, t)) a = split-join b':' _ _ a

unread_memo :
    (params : Params) (r : BuyOtp) (o : Option (Zatoshis × Timestamp))
    → decode_fields params (reply_fields params r o) ≡ none
unfolding decode_fields Bytes-discrete ℕ_discrete
unread_memo params r none = refl
unread_memo params r (some (p, t)) = refl

unread_request :
    (params : Params) (r : BuyOtp) (o : Option (Zatoshis × Timestamp))
    → decode_zns (decode_verb params) (reply_fields params r o) ≡ none
unfolding decode_zns decode_verb Bytes-discrete ℕ_discrete
unread_request params r none = refl
unread_request params r (some (p, t)) = refl

unread_market :
    (params : Params) (r : BuyOtp) (o : Option (Zatoshis × Timestamp))
    → decode_zns (decode_market_verb params) (reply_fields params r o) ≡ none
unfolding decode_zns decode_market_verb Bytes-discrete ℕ_discrete
unread_market params r none = refl
unread_market params r (some (p, t)) = refl

classify_unread :
    (params : Params) (text : Bytes)
    → Memo.decode params text ≡ none
    → Decode.decode params text ≡ none
    → decode_market params text ≡ none
    → classify params text ≡ unrecognized
unfolding classify
classify_unread params text a b c = ground (arith, a, b, c)

-- The reply to a buyer, for a valid name and an address whose text holds no colon, is taken by the
-- mint, where it comes back as it is, for a payment with no message: neither for a response to a
-- challenge, nor for a request, nor for a market request.
pub classify-encode_reply :
    (params : Params) (r : BuyOtp) (text : Bytes)
    → Name.parse r.name ≡ some r.name
    → Lacks b':' (params.encode_ua r.ua)
    → encode_reply params r ≡ some text
    → classify params text ≡ unrecognized
classify-encode_reply params r text e h f =
    let s = split-reply params r r.dutch (reply-Lacks params r r.dutch e h) in
    let z : join b':' (reply_fields params r r.dutch) ≡ text =
      unfold encode_reply in ground arith in
    let q = ap (split b':') (sym z) ∙ s in
    classify_unread params text
      (unfold Memo.decode in ap (decode_fields params) q ∙ unread_memo params r r.dutch)
      (unfold Decode.decode in
        ap (decode_zns (decode_verb params)) q ∙ unread_request params r r.dutch)
      (unfold decode_market in
        ap (decode_zns (decode_market_verb params)) q ∙ unread_market params r r.dutch)
