-- ===== src/Examples/Market.antt =====
-- The market on a short run: a listing, a buy of it, a payment, and a rollback.
use zns_mint.Prelude.{
  ℕ, get_elem?, ◌+◌, All, ◌==◌, ◌≤◌, ◌≡◌, ◌≢◌, ◌↔◌, refl, Bool, true, false, List, [], ◌∷◌, none,
  some, arith, bytes_eq, nat_eq, ℕ_discrete, Bytes-discrete, any, is_some, ◌⊎◌, codes,
}
use zns_mint.Prelude.Maps.{lookup, insert, remove, bytes_order}
use zns_mint.Text.{Bytes}
use zns_mint.Text.Split.{join}
use zns_mint.Name
use zns_mint.Name.{Name}
use zns_mint.Otp
use zns_mint.Otp.{OtpMemo}
use zns_mint.Otp.Memo.{sentence_fields, listing_fields}
use zns_mint.Otp.MemoRoundTrip
use zns_mint.Otp.MemoRoundTrip.{price, decode-encode_memo}
use zns_mint.Payment.Zec.{encode_zec, zero_padded, trim_end}
use zns_mint.Market.Decode.{encode_reply, classify, unrecognized}
use zns_mint.Market.Unread.{classify-encode_reply}
use zns_mint.Action
use zns_mint.Action.{action_eq}
use zns_mint.Term.{at}
use zns_mint.Listing.{Listing, flat, is_owner_listing}
use zns_mint.Text.Decimal.{parse, scan, print}
use zns_mint.Otp.Code.{digits}
use zns_mint.Payment.{otp_amount, payment_total}
use zns_mint.Registry
use zns_mint.Registry.{Registry, NameRecord, record_of}
use zns_mint.Registry.Listings.{ok, listing, quote, restore_listing, remove_listing}
use zns_mint.Sale.Settle
use zns_mint.Sale
use zns_mint.Sale.{Sale, BuyOtp, Quote, Phase, paying, same_payment, open_sale, get_sale}
use zns_mint.Sale.Owed.{owed, received, owed-observe}
use zns_mint.Challenge.{MarketChallenge, ChallengeKind, memo, has_code, clock_ready, same_terms}
use zns_mint.Market
use zns_mint.Market.{
  Market, State, truncate_to, record_all, open_event, list, delist, challenge_closed, close_where,
  close_challenges,
}
use zns_mint.Market.Trade.{list_name, delist_name, open_buy, quote_listing, quote_ask, open_quoted}
use zns_mint.Market.Answer.{
  remove_at, answer, is_named, is_answered, spend, enact, fail_all, positions,
}
use zns_mint.Market.View.{view, Valid}
use zns_mint.Market.Reach.{
  Reachable, start, step, lists, opens, Replays, view-truncate_to, Reachable-Replays,
}
use zns_mint.Market.Rewind.{Later, now, operates, truncate_to-Later}
use zns_mint.Market.Buys.{open_buy_sound, AsksOther, Opens, by_clock}
use zns_mint.Market.Spent.{answer_sound}
use zns_mint.Market.Counting.{count_pass, fail_all-positions}
use zns_mint.Market.Admit.{fee_ok, buy, opened_for, on_buy, admit_buy, admit}
use zns_mint.Market.Admitted.{Admitted, Pays, buy_of, admit_cases, admit_opened_iff, admit-ne-none}
use zns_mint.Otp.Derive
use zns_mint.Otp.Derive.{from_mac}
use zns_mint.Presale.{CodeKey, buy_otp, ProtectedRow, ProtectedNames, complete, table, is_protected}
use zns_mint.Presale.Table.{row_protects, complete_lem}
use zns_mint.Examples.{small, small-Lawful}
use zns_mint.Examples.Notes.{alice}

-- Alice's record, and her listing for 500 zatoshis.
abbrev alices : NameRecord
alices = record {
  name = alice;
  action = Action.claim;
  ua = 1;
  expires_at = at 100000;
  commitment = 77;
  confirmed_height = 3;
  release_deadline = 100000;
  predecessor_nullifier = 10;
}

abbrev before : Registry
before = record Registry.empty { records = (alice, alices) ∷ [] }

abbrev hers : Listing
hers = record { name = alice; ua = 1; pay_to = 1; ask = flat 500 }

abbrev listed : Registry
listed = record before { listings = (alice, hers) ∷ [] }

abbrev first : Market
first = record {
  sales = [];
  challenges = [];
  events = record { height = 5; event = list hers } ∷ [];
}

lists_her : list_name small Market.empty before hers 5 ≡ ok (first, listed)
unfolding list_name clock_ready Sale.is_open Registry.Listings.list record_of lookup
    is_owner_listing restore_listing insert remove record_all ℕ_discrete Bytes-discrete
lists_her = refl

abbrev quote_of : Quote
quote_of = record { code = 123456; pay_to = 1; price = 500; expires_at = 2800; relayed = false }

abbrev sale_of : Phase → Sale
sale_of p = record {
  name = alice;
  bob = 2;
  alice = 1;
  held = 77;
  term = at 100000;
  dutch = false;
  until = 2800;
  phase = p;
}

abbrev second : Market
second = record {
  sales = sale_of (paying quote_of) ∷ [];
  challenges = [];
  events =
      record { height = 5; event = list hers }
      ∷ record { height = 6; event = open_event (sale_of (paying quote_of)) }
      ∷ [];
}

abbrev reply_of : BuyOtp
reply_of = record { code = 123456; name = alice; ua = 2; dutch = none }

buys :
    open_buy small first listed alice 2 1 (at 100000) 77 false false 123456 1000 6
    ≡ ok (second, reply_of)
unfolding open_buy Sale.is_open listing lookup quote_listing quote_ask is_owner_listing open_quoted
    same_payment payment_total otp_amount digits parse scan open_sale get_sale record_all
    close_where close_challenges ℕ_discrete Bytes-discrete
buys = refl

reaches_second : Reachable small second listed
reaches_second =
    step 6 second listed
      (step 5 first listed (start before refl) (lists hers (first, listed) lists_her))
      (opens alice 2 1 (at 100000) 77 false false 123456 1000 second reply_of buys)

view-truncate_to_example : view (truncate_to second listed 6) ≡ view (second, listed)
view-truncate_to_example = view-truncate_to small second listed 6 reaches_second refl

Reachable-Replays_example : Replays (second, listed)
Reachable-Replays_example = Reachable-Replays small second listed reaches_second

reaches_first : Reachable small first listed
reaches_first = step 5 first listed (start before refl) (lists hers (first, listed) lists_her)

after_first : Later small 5 first listed second listed
after_first =
    operates 6 second listed now (omega arith)
      (opens alice 2 1 (at 100000) 77 false false 123456 1000 second reply_of buys)

truncate_to-Later_example :
    ((truncate_to second listed 5).0 ≡ (truncate_to first listed 5).0)
    × ((truncate_to second listed 5).1.listings ≡ (truncate_to first listed 5).1.listings)
truncate_to-Later_example =
    truncate_to-Later small 5 first second listed listed reaches_first after_first

open_buy_sound_example :
    (◌≡◌ {A = Bool} false false)
    × (◌≡◌ {A = Bool} false false)
    × (any (λ x. x.name == alice) first.sales ≡ false)
    × ((l : Listing) × (price : ℕ) × (listing listed alice ≡ some l)
        × (1 ≡ l.ua)
        × (small.transparent 1 ≡ some l.pay_to)
        × (quote listed alice 6 ≡ some price)
        × All (AsksOther l.pay_to (price + otp_amount 123456)) first.sales
        × Opens first alice 2 1 l.pay_to price
            (by_clock l.ask)
            (at 100000)
            77
            123456
            1000
            (second, reply_of))
open_buy_sound_example =
    open_buy_sound small first listed alice 2 1 (at 100000) 77 false false 123456 1000 6
      (second, reply_of) buys

owed-observe_example :
    owed 1 second.sales
    ≤ owed 1 (Settle.observe second.sales (λ n. some 1) ((1, 123956) ∷ []) 2000).0
      + received 1 ((1, 123956) ∷ [])
owed-observe_example = owed-observe 1 second.sales (λ n. some 1) ((1, 123956) ∷ []) 2000

-- A delist challenge that waits, two failures in.
abbrev waiting : MarketChallenge
waiting = record {
  kind = ChallengeKind.delist alice 1;
  code = 654321;
  expires_at = 3000;
  relayed = true;
  attempts = 5;
}

abbrev asked : Market
asked = record first { challenges = waiting ∷ [] }

asked-Valid : Valid (view (asked, listed))
unfolding view lookup
asked-Valid = record { sales = tt; challenges = (refl, tt); listings = (refl, tt) }

abbrev answered_asked : State × Bool
answered_asked = (
  (
    record {
      sales = [];
      challenges = [];
      events =
          record { height = 5; event = list hers }
          ∷ record { height = 7; event = challenge_closed 654321 }
          ∷ record { height = 7; event = delist alice }
          ∷ [];
    },
    before,
  ),
  true,
)

answers_it : answer small asked listed (memo waiting) 7 ≡ some answered_asked
unfolding answer is_named is_answered same_terms memo spend enact delist_name Sale.is_open
    Registry.Listings.delist record_of lookup remove_listing remove record_all ℕ_discrete
    Bytes-discrete Action.Action-discrete
answers_it = refl

answer_sound_example :
    (c : MarketChallenge) × (i : ℕ) × (get_elem? asked.challenges i ≡ some c)
    × ((memo c).name ≡ (memo waiting).name)
    × ((memo c).ua ≡ (memo waiting).ua)
    × ((memo c).action ≡ (memo waiting).action)
    × ((memo c).code ≡ (memo waiting).code)
    × ((memo c).clock ≡ (memo waiting).clock)
    × ((is_some (memo waiting).clock ≡ true) ⊎ ((memo c).listing ≡ (memo waiting).listing))
    × (answered_asked.0.0.challenges ≡ remove_at i asked.challenges)
    × (any (has_code c.code) answered_asked.0.0.challenges ≡ false)
answer_sound_example =
    answer_sound small asked listed (memo waiting) 7 answered_asked.0 asked-Valid answers_it

fail_all-positions_example :
    (m' : Market) × (fail_all asked 7 (positions (λ c. true) asked.challenges) ≡ some m')
    × (m'.challenges ≡ count_pass (λ c. true) asked.challenges)
fail_all-positions_example = fail_all-positions 7 (λ c. true) asked (refl, tt)

abbrev keys : CodeKey
keys = record {
  key = 1 ∷ [];
  hmac = λ k s. 0 ∷ 1 ∷ 226 ∷ 64 ∷ [];
  txid_bytes = λ t. t ∷ [];
  hash_bytes = λ t. t ∷ [];
}

admits :
    admit small first 9 (buy alice 2) 500000 listed 5000 6 1000 (λ n. false) keys
    ≡ some (second, opened_for alice)
unfolding admit admit_buy on_buy fee_ok record_of buy_otp Derive.buy from_mac open_buy Sale.is_open
    listing lookup quote_listing quote_ask is_owner_listing open_quoted same_payment payment_total
    otp_amount digits parse scan open_sale get_sale record_all close_where close_challenges
    ℕ_discrete Bytes-discrete
admits = refl

admit_cases_example :
    Admitted small first listed 6 1000
      (λ n. false)
      keys
      9
      5000
      500000
      (buy alice 2)
      second
      (opened_for alice)
admit_cases_example =
    admit_cases small first listed 6 1000 (λ n. false) keys 9 5000 500000 (buy alice 2) second
      (opened_for alice) admits

admit_opened_iff_example :
    admit small first 9 (buy alice 2) 500000 listed 5000 6 1000 (λ n. false) keys
      ≡ some (second, opened_for alice)
    ↔ ((r : NameRecord) × (otp : BuyOtp) × Pays 5000 500000
        × (record_of listed alice ≡ some r)
        × (buy_of small first listed 6 1000 (λ n. false) keys 9 5000 500000 alice 2 r
            ≡ ok (second, otp)))
admit_opened_iff_example =
    admit_opened_iff small first listed 6 1000 (λ n. false) keys 9 5000 500000 alice 2 second

admit-ne-none_example :
    admit small first 9 (buy alice 2) 500000 listed 5000 6 1000 (λ n. false) keys ≢ none
admit-ne-none_example =
    admit-ne-none small first listed 6 1000 (omega arith) 9 (buy alice 2) 500000 5000 (λ n. false)
      keys

abbrev rows : List ProtectedRow
rows =
    record { name = alice; expiry_at = some 50 }
    ∷ record { name = []; expiry_at = none }
    ∷ record { name = alice; expiry_at = some 70 }
    ∷ []

complete_lem_example :
    (t : ProtectedNames) × (complete rows 3 (some 3) ≡ table t)
    × ((n : Name) (mtp : ℕ) → is_protected t n mtp ≡ any (row_protects n mtp) rows)
complete_lem_example = complete_lem rows 3

-- The challenge of a listing, and its sentence.
abbrev challenge_of : OtpMemo
challenge_of = record {
  code = 123456;
  name = alice;
  action = Action.list;
  ua = 1;
  listing = some (2, 500);
  clock = none;
}

abbrev its_sentence : Bytes
its_sentence = codes "ZNS:otp:123456:alice:list:uu:uuu:0.000005"

is_sent : Otp.Memo.encode small challenge_of ≡ some its_sentence
unfolding Otp.Memo.encode sentence_fields listing_fields digits Action.as_str Action.Action-discrete
    encode_zec print zero_padded trim_end join ℕ_discrete
is_sent = refl

challenge_of-IsValid : MemoRoundTrip.IsValid small challenge_of
challenge_of-IsValid = record {
  named = unfold Name.parse ℕ_discrete in refl;
  code = omega arith;
  challenged = unfold Action.Action-discrete in refl;
  controller = refl;
  plain = omega arith;
  terms = price 2 500 refl (omega arith);
}

decode-encode_memo_example : Otp.Memo.decode small its_sentence ≡ some challenge_of
decode-encode_memo_example =
    decode-encode_memo small challenge_of its_sentence small-Lawful challenge_of-IsValid is_sent

abbrev reply_text : Bytes
reply_text = codes "ZNS:buyotp:123456:alice:uuu"

replies : encode_reply small reply_of ≡ some reply_text
unfolding encode_reply digits join ℕ_discrete
replies = refl

classify-encode_reply_example : classify small reply_text ≡ unrecognized
classify-encode_reply_example =
    classify-encode_reply small reply_of reply_text (unfold Name.parse ℕ_discrete in refl)
      (omega arith) replies
