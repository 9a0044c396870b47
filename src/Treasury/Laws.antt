-- ===== src/Treasury/Laws.antt =====
-- mint/treasury/refund.rs: no refund pays more than what came in, and each is paid once.
use zns_mint.Prelude.{
  ℕ, suc, ◌+◌, ◌-◌, ◌*◌, ◌≤◌, ◌<◌, ◌≡◌, ◌↔◌, refl, Bool, false, List, [], ◌∷◌, ◌++◌, Option, none,
  some, arith, ◌==◌, nat_eq, leb, if◌then◌else◌, filter,
}
use zns_mint.Text.{Bytes}
use zns_mint.Chain.{UnifiedAddress, TxId, Zatoshis, BlockHeight, max_money}
use zns_mint.Name.{Name}
use zns_mint.Request.{Request}
use zns_mint.Treasury.{
  RequestQueue, record_request, truncate_requests, refund_output, fee_actions, RefundRequest,
  refund_eq, RefundQueue, admit_with_note, paid, truncate_refunds,
}

filter-concat {ℓ} :
    {A : Type ℓ}
    → (p : A → Bool) (xs : List A) (x : A) → p x ≡ false
    → filter p (xs ++ x ∷ []) ≡ filter p xs
filter-concat p [] x e = ground arith
filter-concat p (y ∷ xs) x e = ground (arith, filter-concat p xs x e)

-- A payment is refunded with an amount exactly where the withheld fee is an amount of money, the
-- amount is positive, and the amount and the fee make up the payment.
pub refund_output_iff :
    (refundable marginal_fee amount : Zatoshis)
    → refund_output refundable marginal_fee ≡ some amount ↔ (
        (marginal_fee * fee_actions ≤ max_money)
        × (0 < amount)
        × (amount + marginal_fee * fee_actions ≡ refundable))
unfolding refund_output
refund_output_iff refundable marginal_fee amount = ground arith

-- What the queue owes in all.
abbrev pub owed : RefundQueue → ℕ
owed [] = 0
owed (r ∷ q) = r.amount + owed q

-- How many entries equal a refund.
abbrev pub copies : RefundRequest → RefundQueue → ℕ
copies r [] = 0
copies r (x ∷ q) = if x == r then suc (copies r q) else copies r q

owed-append : (q : RefundQueue) (r : RefundRequest) → owed (q ++ r ∷ []) ≡ owed q + r.amount
owed-append [] r = omega arith
owed-append (x ∷ q) r = ground (arith, owed-append q r)

-- An admission owes no more than was paid.
pub owed-admit_with_note :
    (q : RefundQueue) (marginal_fee : Zatoshis) (txid : TxId) (to : UnifiedAddress) (n : Name)
    (h : BlockHeight) (refundable : Zatoshis) (sentence : Option Bytes)
    → owed (admit_with_note q marginal_fee txid to n h refundable sentence) ≤ owed q + refundable
unfolding admit_with_note
owed-admit_with_note q marginal_fee txid to n h refundable sentence =
    split (refund_output refundable marginal_fee) refl
  where
    split :
        (o : Option Zatoshis)
        → refund_output refundable marginal_fee ≡ o
        → owed (elim o [
          | none ↦ q
          | some amount ↦
              q
              ++ record {
                payment = txid;
                recipient = to;
                amount = amount;
                name = n;
                height = h;
                note = sentence;
              }
                ∷ []
        ])
          ≤ owed q + refundable
    split none e = omega arith
    split (some amount) e =
        let f = (refund_output_iff refundable marginal_fee amount).0 e in
        ground (
          arith,
          owed-append q (record {
            payment = txid;
            recipient = to;
            amount = amount;
            name = n;
            height = h;
            note = sentence;
          }),
          f.2,
        )

-- When a refund is paid, one entry that equals it leaves the queue where there is one, and the
-- entries that equal any other refund are as many as before.
pub copies-paid :
    (q : RefundQueue) (built r : RefundRequest)
    → copies r (paid q built) ≡ (if built == r then copies r q - 1 else copies r q)
unfolding paid
copies-paid [] built r = ground arith
copies-paid (x ∷ q) built r = ground (arith, copies-paid q built r)

-- Rewinding to below a block takes its refund out again.
pub truncate_refunds-admit_with_note :
    (q : RefundQueue) (marginal_fee : Zatoshis) (txid : TxId) (to : UnifiedAddress) (n : Name)
    (h ancestor : BlockHeight) (refundable : Zatoshis) (sentence : Option Bytes)
    → ancestor < h
    → truncate_refunds (admit_with_note q marginal_fee txid to n h refundable sentence) ancestor
      ≡ truncate_refunds q ancestor
unfolding admit_with_note truncate_refunds
truncate_refunds-admit_with_note q marginal_fee txid to n h ancestor refundable sentence lt =
    split (refund_output refundable marginal_fee)
  where
    split :
        (o : Option Zatoshis)
        → filter
            (λ r. leb r.height ancestor)
            (elim o [
              | none ↦ q
              | some amount ↦
                  q
                  ++ record {
                    payment = txid;
                    recipient = to;
                    amount = amount;
                    name = n;
                    height = h;
                    note = sentence;
                  }
                    ∷ []
            ])
          ≡ filter (λ r. leb r.height ancestor) q
    split none = refl
    split (some amount) =
        filter-concat (λ r. leb r.height ancestor) q
          (record {
            payment = txid;
            recipient = to;
            amount = amount;
            name = n;
            height = h;
            note = sentence;
          })
          (ground arith)

-- And so it does with a request.
pub truncate_requests-record_request :
    (q : RequestQueue) (txid : TxId) (r : Request) (paid : Zatoshis) (h ancestor : BlockHeight)
    → ancestor < h
    → truncate_requests (record_request q txid r paid h) ancestor ≡ truncate_requests q ancestor
unfolding truncate_requests record_request
truncate_requests-record_request q txid r paid h ancestor lt =
    filter-concat (λ r. leb r.height ancestor) q
      (record { txid = txid; request = r; paid = paid; height = h }) (ground arith)
