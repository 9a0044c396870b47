-- ===== src/Registry/Invariant.antt =====
-- mint/registry.rs: what every confirmed transaction keeps, and what a rewind undoes.
use zns_mint.Prelude.{◌<◌, ◌≡◌, refl, sym, ap, subst, ◌∙◌, List, [], ◌∷◌, ◌++◌, arith, bytes_eq}
use zns_mint.Chain.{Params, BlockHeight, Timestamp}
use zns_mint.Name.{Name}
use zns_mint.Anchor
use zns_mint.Anchor.{AnchorPool, truncate_to}
use zns_mint.Anchor.Rewind.{truncate_to-adopt, truncate_to-retire_spent}
use zns_mint.Anchor.Laws.{adopt-IsValid, retire_spent-IsValid, truncate_to-IsValid}
use zns_mint.Registry.{
  Registry, NameRecord, record_of, record_history, set_record, live_at_end, pop_above,
  truncate_to_height,
}
use zns_mint.Registry.Accept.{Confirmed, confirm, adopt_anchor}
use zns_mint.Registry.Coherence.{
  Coherent, set_record-Coherent, anchors-Coherent, record_history-set_record,
}
use zns_mint.Registry.Steps.{Steps, here, retired, adopted, recorded, confirm-Steps}
use zns_mint.Registry.Truncate.{record_history-truncate, truncate_to_height-Coherent}

-- What a registry is after every operation: coherent, with a well-formed anchor pool.
pub record IsValid (s : Registry) : Type 0 where
  pub coherent : Coherent s
  pub pool : Anchor.Laws.IsValid s.anchors

Steps-Coherent : {h : BlockHeight} {s t : Registry} → Steps h s t → Coherent s → Coherent t
unfolding adopt_anchor
Steps-Coherent here c = c
Steps-Coherent {h} (retired {t} st nfs successor) c =
    anchors-Coherent t (Anchor.retire_spent t.anchors nfs successor h) (Steps-Coherent st c)
Steps-Coherent {h} (adopted {t} st nf) c =
    anchors-Coherent t (Anchor.adopt t.anchors h nf) (Steps-Coherent st c)
Steps-Coherent (recorded {t} st r e) c = set_record-Coherent t r (Steps-Coherent st c)

-- The anchors of a registry play no part in a record.
set_record-anchors : (s : Registry) (r : NameRecord) → (set_record s r).anchors ≡ s.anchors
unfolding set_record
set_record-anchors s r = refl

Steps-pool :
    {h : BlockHeight} {s t : Registry}
    → Steps h s t
    → Anchor.Laws.IsValid s.anchors
    → Anchor.Laws.IsValid t.anchors
unfolding adopt_anchor
Steps-pool here v = v
Steps-pool {h} (retired {t} st nfs successor) v =
    retire_spent-IsValid t.anchors nfs successor h (Steps-pool st v)
Steps-pool {h} (adopted {t} st nf) v = adopt-IsValid t.anchors h nf (Steps-pool st v)
Steps-pool (recorded {t} st r e) v =
    subst Anchor.Laws.IsValid (sym (set_record-anchors t r)) (Steps-pool st v)

-- Any confirmed transaction, whatever it holds, takes a valid registry to a valid one: each name
-- has one record and one chain, a name is live exactly with the record that its chain ends in, and
-- every set of anchors has no element twice and at most 40.
pub confirm-IsValid :
    (params : Params) (s : Registry) (tx : Confirmed) (h : BlockHeight) (mtp : Timestamp)
    → IsValid s
    → IsValid (confirm params s tx h mtp)
confirm-IsValid params s tx h mtp v = record {
  coherent = Steps-Coherent (confirm-Steps params s tx h mtp) v.coherent;
  pool = Steps-pool (confirm-Steps params s tx h mtp) v.pool;
}

truncate-anchors :
    (s : Registry) (height : BlockHeight)
    → (truncate_to_height s height).anchors ≡ truncate_to s.anchors height
unfolding truncate_to_height
truncate-anchors s height = refl

-- A rewind to any height takes a valid registry to a valid one.
pub truncate_to_height-IsValid :
    (s : Registry) (height : BlockHeight) → IsValid s → IsValid (truncate_to_height s height)
truncate_to_height-IsValid s height v = record {
  coherent = truncate_to_height-Coherent s height v.coherent;
  pool =
      subst Anchor.Laws.IsValid (sym (truncate-anchors s height))
        (truncate_to-IsValid s.anchors height v.pool);
}

pop_above-concat :
    (height : BlockHeight) (rs : List NameRecord) (r : NameRecord)
    → height < r.confirmed_height
    → pop_above height (rs ++ r ∷ []) ≡ pop_above height rs
unfolding pop_above
pop_above-concat height [] r lt = ground arith
pop_above-concat height (x ∷ rs) r lt = ground (arith, pop_above-concat height rs r lt)

anchors-history :
    (s : Registry) (p : AnchorPool) (n : Name)
    → record_history (record s { anchors = p }) n ≡ record_history s n
unfolding record_history
anchors-history s p n = refl

-- A rewind below a step sees the chains, and the anchors, that were there before it.
Steps-history :
    {h : BlockHeight} {s t : Registry}
    → (height : BlockHeight) (n : Name) → height < h
    → Steps h s t
    → pop_above height (record_history t n) ≡ pop_above height (record_history s n)
unfolding adopt_anchor
Steps-history height n lt here = refl
Steps-history {h} height n lt (retired {t} st nfs successor) =
    ap (pop_above height) (anchors-history t (Anchor.retire_spent t.anchors nfs successor h) n)
    ∙ Steps-history height n lt st
Steps-history {h} height n lt (adopted {t} st nf) =
    ap (pop_above height) (anchors-history t (Anchor.adopt t.anchors h nf) n)
    ∙ Steps-history height n lt st
Steps-history height n lt (recorded {t} st r e) = ground (
  arith,
  record_history-set_record t r n,
  pop_above-concat height (record_history t n) r (ground arith),
  Steps-history height n lt st,
)

Steps-anchors :
    {h : BlockHeight} {s t : Registry}
    → (height : BlockHeight) → height < h
    → Steps h s t
    → truncate_to t.anchors height ≡ truncate_to s.anchors height
unfolding adopt_anchor
Steps-anchors height lt here = refl
Steps-anchors {h} height lt (retired {t} st nfs successor) =
    truncate_to-retire_spent t.anchors nfs successor height h lt ∙ Steps-anchors height lt st
Steps-anchors {h} height lt (adopted {t} st nf) =
    truncate_to-adopt t.anchors nf height h lt ∙ Steps-anchors height lt st
Steps-anchors height lt (recorded {t} st r e) =
    ap (λ p. truncate_to p height) (set_record-anchors t r) ∙ Steps-anchors height lt st

-- Two registries that agree on every name, every chain and the anchors.
pub record Agree (s t : Registry) : Type 0 where
  pub records : (n : Name) → record_of s n ≡ record_of t n
  pub chains : (n : Name) → record_history s n ≡ record_history t n
  pub anchors : s.anchors ≡ t.anchors

-- Take a valid registry and any transaction that is confirmed at a height above `height`.
-- Rewinding to `height` after it gives the same record and the same chain of every name, and the
-- same anchor pool, as rewinding without it.
pub truncate_to_height-confirm :
    (params : Params) (s : Registry) (tx : Confirmed) (h height : BlockHeight) (mtp : Timestamp)
    → IsValid s
    → height < h
    → Agree (truncate_to_height (confirm params s tx h mtp) height) (truncate_to_height s height)
truncate_to_height-confirm params s tx h height mtp v lt = record {
  records = λ n. c'.live n ∙ ap (λ rs. live_at_end rs) (chain n) ∙ sym (c.live n);
  chains = chain;
  anchors =
      truncate-anchors after height
      ∙ Steps-anchors height lt steps
      ∙ sym (truncate-anchors s height);
}
  where
    after : Registry
    after = confirm params s tx h mtp

    steps : Steps h s after
    steps = confirm-Steps params s tx h mtp

    valid : Coherent after
    valid = Steps-Coherent steps v.coherent

    c' : Coherent (truncate_to_height after height)
    c' = truncate_to_height-Coherent after height valid

    c : Coherent (truncate_to_height s height)
    c = truncate_to_height-Coherent s height v.coherent

    chain :
        (n : Name)
        → record_history (truncate_to_height after height) n
          ≡ record_history (truncate_to_height s height) n
    chain n =
        record_history-truncate after height n valid
        ∙ Steps-history height n lt steps
        ∙ sym (record_history-truncate s height n v.coherent)
