-- ===== src/Examples/Queues.antt =====
-- The queues, the market, the anchors and the clock at concrete values.
use zns_mint.Prelude.{
  ℕ, ◌⊎◌, ◌+◌, ◌*◌, ◌/◌, ◌≤◌, ◌<◌, ◌≡◌, ◌↔◌, refl, false, not, ◌&&◌, ◌||◌, [], ◌∷◌, ◌++◌, ltb, none,
  some, arith, length, any, ◌==◌, bytes_eq, nat_eq, ℕ_discrete, Bytes-discrete,
}
use zns_mint.Prelude.Sets.{contains}
use zns_mint.Prelude.Maps.{bytes_order}
use zns_mint.Chain.{max_money}
use zns_mint.Note.Queue.{
  NameNoteQueue, authorized, seen, sent, note_pending, mark_sent, drop_note, admit,
}
use zns_mint.Note.Reconcile
use zns_mint.Note.Reconcile.{reconcile_seen, admit-IsValid}
use zns_mint.Request
use zns_mint.Request.{Request, Request-discrete}
use zns_mint.Otp
use zns_mint.Otp.{
  OtpQueue, OtpChallenge, OtpMemo, ChallengeState, requested, relayed, asks, complete, memo,
}
use zns_mint.Otp.Laws
use zns_mint.Otp.Laws.{issue-IsValid}
use zns_mint.Otp.Complete.{complete_sound}
use zns_mint.Mtp.{MtpTracker, current, header_time_ok, accepted, max_time_since_median}
use zns_mint.Mtp.Median.{count, times, current-median, header_time_ok_iff}
use zns_mint.Treasury.{refund_output, fee_actions, RefundRequest, refund_eq}
use zns_mint.Treasury.Laws.{refund_output_iff}
use zns_mint.Listing.{Listing, Clock, flat, price_at}
use zns_mint.Listing.Price.{price_at_falls}
use zns_mint.Anchor.{retire_spent, retire_all}
use zns_mint.Anchor.Laws.{contains-retire_spent, is_the}
use mathlib.Core.List.{Memᴰ}
use zns_mint.Note.Queue.{Order}
use zns_mint.Note.Confirmed.{Waiting, Resolved, reconcile_seen_iff}
use zns_mint.Registry.{Registry, NameRecord, record_of}
use zns_mint.Registry.Listings.{list, ok, restore_listing}
use zns_mint.Registry.Market.{list_iff}
use zns_mint.Examples.{small}
use zns_mint.Examples.Notes.{alice, moved}
use zns_mint.Examples.Chain.{seeded, seeded-IsValid, owned}

abbrev orders : NameNoteQueue
orders = record { note = moved; origin = 3; state = authorized } ∷ []

orders-IsValid : Reconcile.IsValid orders
orders-IsValid n = ground arith

admit-IsValid_example : Reconcile.IsValid (admit orders 4 moved).0
admit-IsValid_example = admit-IsValid orders 4 moved orders-IsValid

abbrev order : Order
order = record { note = moved; origin = 3; state = authorized }

reconcile_seen_iff_example : Memᴰ order (reconcile_seen small owned orders) ↔ (
    Waiting small owned orders order ⊎ ((order.state ≡ seen) × Resolved small owned orders order))
reconcile_seen_iff_example = reconcile_seen_iff small owned orders order

abbrev out : NameNoteQueue
out = record { note = moved; origin = 3; state = sent 44 } ∷ []

goes_out : mark_sent orders alice 44 ≡ some out
unfolding mark_sent
goes_out = ground arith

gone : drop_note orders alice ≡ some []
unfolding drop_note note_pending
gone = ground arith

-- A relayed challenge of an update, one failure in.
abbrev challenge : OtpChallenge
challenge = record {
  request = Request.update alice 1 none;
  code = 123456;
  expires_at = 5000;
  attempts = 1;
}

abbrev pending : OtpQueue
pending = (challenge, relayed) ∷ []

pending-IsValid : Otp.Laws.IsValid pending
pending-IsValid = (refl, omega arith, tt)

abbrev both : OtpQueue
both =
    pending
    ++ (
      record { request = Request.release alice 1; code = 7; expires_at = 1810; attempts = 0 },
      requested,
    )
      ∷ []

issued : Otp.admit pending (Request.release alice 1) 10 (7 ∷ []) ≡ some both
unfolding Otp.admit Request-discrete ℕ_discrete
issued = ground arith

issue-IsValid_example : Otp.Laws.IsValid both
issue-IsValid_example =
    issue-IsValid pending (Request.release alice 1) 10 (7 ∷ []) both pending-IsValid issued

completes : (complete pending (memo challenge)).1 ≡ some challenge
unfolding complete memo ℕ_discrete Bytes-discrete
completes = ground arith

complete_sound_example :
    Request.name challenge.request ≡ (memo challenge).name
    × Request.action challenge.request ≡ (memo challenge).action
    × Request.ua challenge.request ≡ (memo challenge).ua
    × challenge.code ≡ (memo challenge).code
    × any (asks challenge.request) (complete pending (memo challenge)).0 ≡ false
complete_sound_example = complete_sound pending (memo challenge) challenge pending-IsValid completes

abbrev tracker : MtpTracker
tracker = (1, 100) ∷ (2, 300) ∷ (3, 200) ∷ []

middle : current tracker ≡ some 200
unfolding current
middle = refl

current-median_example :
    (count (λ y. ltb y 200) (times tracker) ≤ length (times tracker) / 2)
    × (count (λ y. ltb 200 y) (times tracker) + length (times tracker) / 2 < length (times tracker))
current-median_example = current-median tracker 200 middle

header_time_ok_iff_example :
    header_time_ok tracker 250 ≡ accepted
    ↔ ((m : ℕ) × (current tracker ≡ some m) × (m < 250) × (250 ≤ m + max_time_since_median))
header_time_ok_iff_example = header_time_ok_iff tracker 250

refund_output_iff_example :
    refund_output 600000 5000 ≡ some 100000
    ↔ ((5000 * fee_actions ≤ max_money) × (0 < 100000) × (100000 + 5000 * fee_actions ≡ 600000))
refund_output_iff_example = refund_output_iff 600000 5000 100000

abbrev refund : RefundRequest
refund = record {
  payment = 9;
  recipient = 1;
  amount = 100000;
  name = alice;
  height = 8;
  note = none;
}

abbrev clock : Clock
clock = record { start_price = 1000; min_price = 100; start = 10; end = 100 }

price_at_falls_example : 400 ≤ 700
price_at_falls_example =
    price_at_falls clock 40 70 700 400 (omega arith) (unfold price_at in refl)
      (unfold price_at in refl)

contains-retire_spent_example : contains 11 (retire_spent seeded (10 ∷ []) (some 11) 7).live ≡ (
    (contains 11 seeded.live && not (contains 11 (10 ∷ [])))
    || ((retire_all seeded.live (10 ∷ []) 0).1 == 1 && is_the (some 11) 11))
contains-retire_spent_example = contains-retire_spent seeded (10 ∷ []) (some 11) 7 11 seeded-IsValid

abbrev offer : Listing
offer = record { name = alice; ua = 1; pay_to = 1; ask = flat 5000000 }

abbrev listed : Registry
listed = record owned { listings = (alice, offer) ∷ [] }

list_iff_example : list small owned offer ≡ ok listed ↔ (
    (r : NameRecord) × (record_of owned alice ≡ some r)
    × (r.ua ≡ 1)
    × (small.transparent r.ua ≡ some 1)
    × (listed ≡ restore_listing owned offer))
list_iff_example = list_iff small owned listed offer
