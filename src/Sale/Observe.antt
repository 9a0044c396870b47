-- ===== src/Sale/Observe.antt =====
-- mint/sale.rs: `SaleQueue::observe` marks the sales that it reports.
use zns_mint.Prelude.{
  ◌≡◌, refl, ap, ◌∙◌, false, List, [], ◌∷◌, Option, none, some, arith, nat_eq, bytes_eq, any,
  Option-cases, inl, inr, ==_refl,
}
use zns_mint.Prelude.Keys.{Unique}
use zns_mint.Chain.{UnifiedAddress, Timestamp}
use zns_mint.Name.{Name}
use zns_mint.Otp.{OtpCode}
use zns_mint.Sale.{Sale, SaleQueue, Phase, paying, paid, is_of, mark_sale, mark_paid, settle}
use zns_mint.Sale.Settle.{Flagged, observe_one, observe_from}

abbrev pub marks : List (Name × OtpCode) → SaleQueue → SaleQueue
marks [] q = q
marks (p ∷ ps) q = marks ps (mark_paid q p.0 p.1)

mark_paid_absent :
    (q : SaleQueue) (n : Name) (code : OtpCode) → any (is_of n) q ≡ false → mark_paid q n code ≡ q
unfolding mark_paid
mark_paid_absent [] n code h = refl
mark_paid_absent (s ∷ q) n code h = ground (arith, mark_paid_absent q n code)

-- A sale that is paid has the code that is reported.
observe_one-code :
    (holder : Name → Option UnifiedAddress) (mtp : Timestamp) (s : Sale) (ps : List Flagged)
    (code : OtpCode) (ps' : List Flagged)
    → observe_one holder mtp s ps ≡ some (code, ps')
    → settle code s.phase ≡ paid
unfolding observe_one
observe_one-code holder mtp s ps code ps' h = split s.phase h
  where
    split :
        (p : Phase)
        → observe_one holder mtp (record s { phase = p }) ps ≡ some (code, ps')
        → settle code p ≡ paid
    split paid h = refl
    split (paying q) h = ground arith

mark_reported :
    (s : Sale) (code : OtpCode)
    → settle code s.phase ≡ paid
    → mark_sale s.name code s ≡ record s { phase = paid }
mark_reported s code h = ap (λ p. record s { phase = p }) (ground (arith, ==_refl s.name))

mark_both :
    (s s' : Sale) (q : SaleQueue) (n : Name) (code : OtpCode)
    → mark_sale n code s ≡ s'
    → mark_paid q n code ≡ q
    → mark_paid (s ∷ q) n code ≡ s' ∷ q
unfolding mark_paid
mark_both s s' q n code a b = λ i. a i ∷ b i

mark_other :
    (s : Sale) (q : SaleQueue) (n : Name) (code : OtpCode)
    → is_of n s ≡ false
    → mark_paid (s ∷ q) n code ≡ s ∷ mark_paid q n code
unfolding mark_paid
mark_other s q n code h = ap (λ s'. s' ∷ mark_paid q n code) (ground arith)

module _ (holder : Name → Option UnifiedAddress) (mtp : Timestamp) where
  pub observe_unpaid :
      (s : Sale) (q : SaleQueue) (ps : List Flagged)
      → observe_one holder mtp s ps ≡ none
      → observe_from holder mtp (s ∷ q) ps
        ≡ (s ∷ (observe_from holder mtp q ps).0, (observe_from holder mtp q ps).1)
  unfolding observe_from
  observe_unpaid s q ps e = rw (e, observe_from) refl

  pub observe_paid :
      (s : Sale) (q : SaleQueue) (ps : List Flagged) (code : OtpCode) (ps' : List Flagged)
      → observe_one holder mtp s ps ≡ some (code, ps')
      → observe_from holder mtp (s ∷ q) ps ≡ (
        record s { phase = paid } ∷ (observe_from holder mtp q ps').0,
        (s.name, code) ∷ (observe_from holder mtp q ps').1,
      )
  unfolding observe_from
  observe_paid s q ps code ps' e = rw (e, observe_from) refl

  -- The reports of a queue that lacks a name leave a sale of that name alone.
  marks_other :
      (q : SaleQueue) (ps : List Flagged) (s : Sale) (r : SaleQueue)
      → any (is_of s.name) q ≡ false
      → marks (observe_from holder mtp q ps).1 (s ∷ r)
        ≡ s ∷ marks (observe_from holder mtp q ps).1 r
  marks_other [] ps s r h = unfold observe_from in refl
  marks_other (z ∷ q) ps s r h = elim (Option-cases (observe_one holder mtp z ps)) [
    | inl e ↦ rw (observe_unpaid z q ps e) (marks_other q ps s r (ground arith))
    | inr ((code, ps'), e) ↦ rw (observe_paid z q ps code ps' e) (
        ap (marks (observe_from holder mtp q ps').1) (mark_other s r z.name code (ground arith))
        ∙ marks_other q ps' s (mark_paid r z.name code) (ground arith))
  ]

  -- Marking the reported sales, one after the other, gives the queue that `observe` leaves.
  pub marks-observe_from :
      (q : SaleQueue) (ps : List Flagged)
      → Unique (λ s. s.name) q
      → marks (observe_from holder mtp q ps).1 q ≡ (observe_from holder mtp q ps).0
  marks-observe_from [] ps u = unfold observe_from in refl
  marks-observe_from (s ∷ q) ps u = elim (Option-cases (observe_one holder mtp s ps)) [
    | inl e ↦
        rw (observe_unpaid s q ps e)
          (marks_other q ps s q u.0 ∙ ap (λ r. s ∷ r) (marks-observe_from q ps u.1))
    | inr ((code, ps'), e) ↦ rw (observe_paid s q ps code ps' e) (
        ap (marks (observe_from holder mtp q ps').1) (
          mark_both s (record s { phase = paid }) q s.name code
            (mark_reported s code (observe_one-code holder mtp s ps code ps' e))
            (mark_paid_absent q s.name code u.0))
        ∙ marks_other q ps' (record s { phase = paid }) q u.0
        ∙ ap (λ r. record s { phase = paid } ∷ r) (marks-observe_from q ps' u.1))
  ]
