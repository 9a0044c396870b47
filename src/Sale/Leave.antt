-- ===== src/Sale/Leave.antt =====
-- mint/sale.rs: `expire`, `reconcile` and `poll`, which sales stay, and the notes to sign.
use zns_mint.Prelude.{
  Bool, true, false, not, ◌||◌, List, [], ◌∷◌, Option, none, some, ◌==◌, nat_eq, bytes_eq, ltb,
  if◌then◌else◌, filter, map,
}
use zns_mint.Chain.{UnifiedAddress, NameCommitment, Timestamp}
use zns_mint.Name.{Name}
use zns_mint.Note.{NameNote}
use zns_mint.Registry.{Registry, record_of}
use zns_mint.Registry.Authorize.{sale_transfer}
use zns_mint.Payment.{amount_eq}
use zns_mint.Sale.{Phase, Sale, SaleQueue, is_settled, paid, paying}

abbrev pub in_time : Timestamp → Phase → Bool
in_time mtp paid = true
in_time mtp (paying q) = ltb mtp q.expires_at

-- The sales that a test keeps, and the names of the others.
abbrev pub retain_sales : (Sale → Bool) → SaleQueue → SaleQueue × List Name
retain_sales keep q = (filter keep q, map (λ s. s.name) (filter (λ s. not (keep s)) q))

unfoldable pub expire : SaleQueue → Timestamp → SaleQueue × List Name
expire q mtp = retain_sales (λ s. in_time mtp s.phase) q

-- The note that a sale stands on is still the live one.
abbrev pub is_live : Option (UnifiedAddress × NameCommitment) → Sale → Bool
is_live none s = false
is_live (some (ua, commitment)) s = not (not (ua == s.alice) || not (commitment == s.held))

unfoldable pub reconcile :
    SaleQueue → (Name → Option (UnifiedAddress × NameCommitment)) → SaleQueue × List Name
reconcile q live = retain_sales (λ s. is_live (live s.name) s) q

-- What `poll` does with one sale.
pub data Verdict : Type 0 where
  wait : Verdict
  sign : NameNote → Verdict
  leave : Verdict

unfoldable pub poll_one : Registry → (Name → Bool) → Sale → Verdict
poll_one registry pending s =
    if not (is_settled s.phase)
    then wait
    else if pending s.name
    then wait
    else elim (record_of registry s.name) [
      | none ↦ leave
      | some r ↦
          if r.ua == s.bob || not (r.ua == s.alice) || not (r.commitment == s.held)
          then leave
          else elim (sale_transfer registry s.name s.bob s.term s.held) [
            | none ↦ leave
            | some note ↦ sign note
          ]
    ]

abbrev pub signed : Verdict → List NameNote → List NameNote
signed wait notes = notes
signed (sign note) notes = note ∷ notes
signed leave notes = notes

unfoldable pub notes_due : Registry → (Name → Bool) → SaleQueue → List NameNote
unfolding poll_one
notes_due registry pending [] = []
notes_due registry pending (s ∷ q) =
    signed (poll_one registry pending s) (notes_due registry pending q)

abbrev pub stays : Verdict → Bool
stays wait = true
stays (sign note) = true
stays leave = false

-- `poll`: the queue after it, the notes to sign, and the names that leave
unfoldable pub poll : SaleQueue → Registry → (Name → Bool) → SaleQueue × List NameNote × List Name
unfolding poll_one notes_due
poll q registry pending =
    let kept = retain_sales (λ s. stays (poll_one registry pending s)) q in
    (kept.0, notes_due registry pending q, kept.1)
