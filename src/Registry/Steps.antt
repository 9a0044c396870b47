-- ===== src/Registry/Steps.antt =====
-- mint/registry.rs: what an operation at a height can do to a registry, in small steps.
use zns_mint.Prelude.{
  ◌≡◌, refl, Bool, true, false, not, ◌&&◌, ◌||◌, List, [], ◌∷◌, Option, none, some, if◌then◌else◌,
  if_cases, is_some, length,
}
use zns_mint.Chain.{Params, BlockHeight, Nullifier, Timestamp}
use zns_mint.Name.{Name}
use zns_mint.Action.{Action}
use zns_mint.Note
use zns_mint.Note.{NameNote}
use zns_mint.Anchor.{is_ceremony_fill}
use zns_mint.Registry.{Registry, NameRecord, record_of, create, set_record}
use zns_mint.Registry.Accept.{
  zero_outputs, successor_of, Confirmed, names_spent_by, release_names, mark_released,
  follow_spends, adopt_anchor, accept_claim, accept_successor, accept_note, adopt_all, confirm,
  predecessor_spent, release_predecessor, retire, spends_one_anchor, built_before_release, is_prev,
}

-- A registry is reached at a height by spends of anchors, adoptions, and records of that height.
pub data Steps (h : BlockHeight) (s : Registry) : Registry → Type 0 where
  here : Steps h s s
  retired :
      {t : Registry}
      → Steps h s t
      → (nfs : List Nullifier) (successor : Option Nullifier) → Steps h s (retire t nfs successor h)
  adopted : {t : Registry} → Steps h s t → (nf : Nullifier) → Steps h s (adopt_anchor t h nf)
  recorded :
      {t : Registry}
      → Steps h s t
      → (r : NameRecord) → r.confirmed_height ≡ h
      → Steps h s (set_record t r)

module _ (h : BlockHeight) (s : Registry) where
  release_names-Steps :
      (ns : List Name) (t : Registry) → Steps h s t → Steps h s (release_names t ns h)
  unfolding release_names
  release_names-Steps [] t st = st
  release_names-Steps (n ∷ ns) t st = release_names-Steps ns _ (marked (record_of t n))
    where
      marked :
          (o : Option NameRecord)
          → Steps h s (elim o [
            | none ↦ t
            | some r ↦ set_record t (record r { action = Action.release; confirmed_height = h })
          ])
      marked none = st
      marked (some r) = recorded st _ refl

  mark_released-Steps :
      (t : Registry) (nfs : List Nullifier) → Steps h s t → Steps h s (mark_released t nfs h)
  unfolding mark_released
  mark_released-Steps t nfs st = release_names-Steps (names_spent_by t nfs) t st

  follow_spends-Steps :
      (t : Registry) (nfs : List Nullifier) → Steps h s t → Steps h s (follow_spends t nfs h)
  unfolding follow_spends
  follow_spends-Steps t nfs st = mark_released-Steps _ nfs (retired st nfs none)

  adopt_all-Steps :
      (nfs : List Nullifier) (t : Registry) → Steps h s t → Steps h s (adopt_all t nfs h)
  unfolding adopt_all
  adopt_all-Steps [] t st = st
  adopt_all-Steps (nf ∷ nfs) t st = adopt_all-Steps nfs _ (adopted st nf)

  abbrev After : Registry × Bool → Type 0
  After x = Steps h s x.0

  create-Steps :
      (params : Params) (t : Registry) (note : NameNote) (nf : Nullifier) (mtp : Timestamp)
      → Steps h s t
      → Steps h s (set_record t (create params note nf h mtp))
  unfolding create
  create-Steps params t note nf mtp st = recorded st (create params note nf h mtp) refl

  accept_claim-Steps :
      (params : Params) (t : Registry) (note : NameNote) (nf : Nullifier)
      (successor : Option Nullifier) (nfs : List Nullifier) (mtp : Timestamp) (expiry : BlockHeight)
      → Steps h s t
      → After (accept_claim params t note nf successor nfs h mtp expiry)
  unfolding accept_claim
  accept_claim-Steps params t note nf successor nfs mtp expiry st =
      let free = not (is_some (record_of t (Note.name note))) in
      let after = not (built_before_release params t (Note.name note) expiry) in
      let seated = if spends_one_anchor t nfs && free && after then successor else none in
      let st' = retired st nfs seated in
      if_cases After (not (is_some successor) || not (spends_one_anchor t nfs)) _ _
        (λ _. mark_released-Steps _ nfs st')
        λ _.
          if_cases After (not free || not after) _ _ (λ _. st')
            λ _. create-Steps params _ note nf mtp st'

  accept_successor-Steps :
      (params : Params) (t : Registry) (note : NameNote) (nf : Nullifier) (nfs : List Nullifier)
      (mtp : Timestamp)
      → Steps h s t
      → After (accept_successor params t note nf nfs h mtp)
  unfolding accept_successor release_predecessor
  accept_successor-Steps params t note nf nfs mtp st = split (predecessor_spent t note nfs)
    where
      split :
          (o : Option NameRecord)
          → After (elim o [
            | none ↦ (follow_spends t nfs h, false)
            | some r ↦
                if not (is_prev r note)
                then (release_predecessor params t (Note.name note) r nf h mtp, false)
                else (set_record t (create params note nf h mtp), true)
          ])
      split none = follow_spends-Steps t nfs st
      split (some r) =
          if_cases After (not (is_prev r note)) _ _
            (λ _. create-Steps params t (Note.release (Note.name note) r.ua r.commitment) nf mtp st)
            (λ _. create-Steps params t note nf mtp st)

  accept_note-Steps :
      (params : Params) (t : Registry) (note : NameNote) (nf : Nullifier) (tx : Confirmed)
      (mtp : Timestamp)
      → Steps h s t
      → After (accept_note params t note nf tx h mtp)
  unfolding accept_note
  accept_note-Steps params t (Note.claim n u e) nf tx mtp st =
      accept_claim-Steps params t (Note.claim n u e) nf (successor_of tx.outputs) tx.spends mtp
        tx.expiry st
  accept_note-Steps params t (Note.update n u e p) nf tx mtp st =
      accept_successor-Steps params t (Note.update n u e p) nf tx.spends mtp st
  accept_note-Steps params t (Note.release n u p) nf tx mtp st =
      accept_successor-Steps params t (Note.release n u p) nf tx.spends mtp st
  accept_note-Steps params t (Note.sale n u e p) nf tx mtp st =
      accept_successor-Steps params t (Note.sale n u e p) nf tx.spends mtp st

-- A confirmed transaction at a height moves the registry by steps of that height.
pub confirm-Steps :
    (params : Params) (s : Registry) (tx : Confirmed) (h : BlockHeight) (mtp : Timestamp)
    → Steps h s (confirm params s tx h mtp)
unfolding confirm
confirm-Steps params s tx h mtp = split tx.notes
  where
    start : Registry
    start =
        if is_ceremony_fill (length (zero_outputs tx.outputs)) (length tx.notes)
        then adopt_all s (zero_outputs tx.outputs) h
        else s

    begin : Steps h s start
    begin =
        if_cases (Steps h s) (is_ceremony_fill (length (zero_outputs tx.outputs)) (length tx.notes))
          _ _ (λ _. adopt_all-Steps h s (zero_outputs tx.outputs) s here) (λ _. here)

    split :
        (notes : List (NameNote × Nullifier))
        → Steps h s (elim notes [
          | [] ↦ follow_spends start tx.spends h
          | (note, nf) ∷ rest ↦ elim rest [
            | [] ↦ (accept_note params start note nf tx h mtp).0
            | _ ∷ _ ↦ follow_spends start tx.spends h
          ]
        ])
    split [] = follow_spends-Steps h s start tx.spends begin
    split ((note, nf) ∷ []) = accept_note-Steps h s params start note nf tx mtp begin
    split ((note, nf) ∷ x ∷ rest) = follow_spends-Steps h s start tx.spends begin
