-- ===== src/Treasury.antt =====
-- mint/treasury.rs and mint/treasury/refund.rs: the requests to decide and the refunds due.
pub mod Laws
use zns_mint.Prelude.{
  ℕ, ◌+◌, ◌-◌, ◌*◌, ◌/◌, Bool, true, false, not, ◌&&◌, List, [], ◌∷◌, ◌++◌, Option, none, some, Eq,
  ℕ_discrete, Bytes-discrete, ◌==◌, nat_eq, ltb, leb, if◌then◌else◌, filter, map, remove_first,
  ◌>>=◌, some_if,
}
use zns_mint.Text.{Bytes}
use zns_mint.Chain.{UnifiedAddress, TxId, Zatoshis, BlockHeight, zatoshis}
use zns_mint.Name.{Name}
use zns_mint.Request
use zns_mint.Request.{Request}

-- A recognised request: what it paid, and the block that carried it.
pub record Queued : Type 0 where
  pub txid : TxId
  pub request : Request
  pub paid : Zatoshis
  pub height : BlockHeight

abbrev pub RequestQueue : Type 0
RequestQueue = List Queued

-- `RequestQueue::record`
unfoldable pub record_request :
    RequestQueue → TxId → Request → Zatoshis → BlockHeight → RequestQueue
record_request q txid request paid height =
    q ++ record { txid = txid; request = request; paid = paid; height = height } ∷ []

-- `RequestQueue::names`
abbrev pub names : RequestQueue → List Name
names q = map (λ r. Request.name r.request) q

-- `RequestQueue::resolved`
unfoldable pub resolved : RequestQueue → TxId → RequestQueue
resolved q txid = filter (λ r. not (r.txid == txid)) q

-- `RequestQueue::truncate_to`
unfoldable pub truncate_requests : RequestQueue → BlockHeight → RequestQueue
truncate_requests q ancestor = filter (λ r. leb r.height ancestor) q

abbrev pub fee_actions : ℕ
fee_actions = 100

-- `refund_output`: products and differences out of the monetary range are refused.
unfoldable pub refund_output : Zatoshis → Zatoshis → Option Zatoshis
refund_output paid marginal_fee = do
  fee ← zatoshis (marginal_fee * fee_actions)
  if leb fee paid then some_if (ltb 0 (paid - fee)) (paid - fee) else none

-- `access_code_penalty`
abbrev pub access_code_penalty : Zatoshis → Zatoshis
access_code_penalty price = price / 100

pub record RefundRequest : Type 0 where
  pub payment : TxId
  pub recipient : UnifiedAddress
  pub amount : Zatoshis
  pub name : Name
  pub height : BlockHeight
  pub note : Option Bytes

unfoldable pub RefundRequest-discrete : Discrete RefundRequest
unfolding ℕ_discrete Bytes-discrete
RefundRequest-discrete = hlevel ℕ_discrete

instance abbrev pub refund_eq : Eq RefundRequest
refund_eq = record { decides = RefundRequest-discrete }

abbrev pub RefundQueue : Type 0
RefundQueue = List RefundRequest

-- `admit_with_note`
unfoldable pub admit_with_note :
    RefundQueue
    → Zatoshis
    → TxId
    → UnifiedAddress
    → Name
    → BlockHeight
    → Zatoshis
    → Option Bytes
    → RefundQueue
unfolding refund_output
admit_with_note q marginal_fee txid recipient name height refundable note =
    elim (refund_output refundable marginal_fee) [
      | none ↦ q
      | some amount ↦
          q
          ++ record {
            payment = txid;
            recipient = recipient;
            amount = amount;
            name = name;
            height = height;
            note = note;
          }
            ∷ []
    ]

-- `admit`
abbrev pub admit :
    RefundQueue → Zatoshis → TxId → UnifiedAddress → Name → BlockHeight → Zatoshis → RefundQueue
admit q marginal_fee txid recipient name height refundable =
    admit_with_note q marginal_fee txid recipient name height refundable none

-- `due`
unfoldable pub due : RefundQueue → BlockHeight → List RefundRequest
due q tip = filter (λ r. ltb r.height tip) q

-- `paid`
unfoldable pub paid : RefundQueue → RefundRequest → RefundQueue
paid q built = remove_first (λ r. r == built) q

-- `RefundQueue::truncate_to`
unfoldable pub truncate_refunds : RefundQueue → BlockHeight → RefundQueue
truncate_refunds q ancestor = filter (λ r. leb r.height ancestor) q
