-- ===== src/Registry/Accepted.antt =====
-- mint/registry.rs: when a confirmed Name Note is accepted, and what it changes then.
use zns_mint.Prelude.{
  ◌+◌, ◌≡◌, refl, ap, ◌∙◌, Bool, true, false, not, ◌&&◌, ◌||◌, List, [], ◌∷◌, Option, none, some,
  arith, is_some, ◌==◌, bytes_eq, nat_eq, texts_eq, ◌↔◌, if_cases, if◌then◌else◌, any, All, length,
  map, filter, last?, leb, ◌<◌, subst, Bool-cases, ◌⊎◌, inl, inr,
}
use zns_mint.Prelude.Sets.{contains}
use zns_mint.Chain.{Params, BlockHeight, Nullifier, Timestamp}
use zns_mint.Name.{Name}
use zns_mint.Action
use zns_mint.Action.{Action, action_eq}
use zns_mint.Note
use zns_mint.Note.{NameNote, expiry_or_never}
use zns_mint.Note.Hash.{commitment}
use zns_mint.Term.{liveness_interval}
use zns_mint.Registry.{Registry, NameRecord, record_of, record_history, set_record, create}
use zns_mint.Registry.Accept.{
  successor_of, names_spent_by, follow_spends, retire, built_before_release, spends_one_anchor,
  accept_claim, accept_successor, accept_note, predecessor_spent, release_predecessor, is_prev,
  Confirmed,
}
use zns_mint.Registry.Coherence.{record_of-set_record}
use zns_mint.Registry.Spent.{record_of-retire}

-- The record of a name after an accepted note, field by field.
abbrev pub recorded : Params → NameNote → Nullifier → BlockHeight → Timestamp → Option NameRecord
recorded params note nf h mtp =
    if Action.is_release (Note.action note)
    then none
    else some (record {
      name = Note.name note;
      action = Note.action note;
      ua = Note.ua note;
      expires_at = expiry_or_never note;
      commitment = commitment params note;
      confirmed_height = h;
      release_deadline = mtp + liveness_interval;
      predecessor_nullifier = nf;
    })

created :
    (params : Params) (s : Registry) (note : NameNote) (nf : Nullifier) (h : BlockHeight)
    (mtp : Timestamp) (n : Name)
    → record_of (set_record s (create params note nf h mtp)) n
      ≡ (if Note.name note == n then recorded params note nf h mtp else record_of s n)
unfolding create
created params s note nf h mtp n = record_of-set_record s (create params note nf h mtp) n

-- Where a step is accepted, the note's own record is what changed.
abbrev RecordsOnly :
    Params → Registry → NameNote → Nullifier → BlockHeight → Timestamp → Registry × Bool → Type 0
RecordsOnly params s note nf h mtp x =
    (n : Name)
    → x.1 ≡ true
    → record_of x.0 n
      ≡ (if Note.name note == n then recorded params note nf h mtp else record_of s n)

accept_claim-record :
    (params : Params) (s : Registry) (note : NameNote) (nf : Nullifier)
    (successor : Option Nullifier) (nfs : List Nullifier) (h : BlockHeight) (mtp : Timestamp)
    (expiry : BlockHeight)
    → RecordsOnly params s note nf h mtp (accept_claim params s note nf successor nfs h mtp expiry)
unfolding accept_claim
accept_claim-record params s note nf successor nfs h mtp expiry =
    let free = not (is_some (record_of s (Note.name note))) in
    let after = not (built_before_release params s (Note.name note) expiry) in
    let seated = if spends_one_anchor s nfs && free && after then successor else none in
    let Q = RecordsOnly params s note nf h mtp in
    if_cases Q (not (is_some successor) || not (spends_one_anchor s nfs)) _ _
      (λ _ n e. ground arith)
      λ _.
        if_cases Q (not free || not after) _ _ (λ _ n e. ground arith)
          λ _ n e.
            created params (retire s nfs seated h) note nf h mtp n
            ∙ ap (λ o. if Note.name note == n then recorded params note nf h mtp else o)
                (record_of-retire s nfs seated h n)

-- `accept_successor` once it knows the predecessor.
abbrev on_spent :
    Params
    → Registry
    → NameNote
    → Nullifier
    → List Nullifier
    → BlockHeight
    → Timestamp
    → Option NameRecord
    → Registry × Bool
on_spent params s note nf nfs h mtp none = (follow_spends s nfs h, false)
on_spent params s note nf nfs h mtp (some r) =
    if not (is_prev r note)
    then (release_predecessor params s (Note.name note) r nf h mtp, false)
    else (set_record s (create params note nf h mtp), true)

accept_successor-record :
    (params : Params) (s : Registry) (note : NameNote) (nf : Nullifier) (nfs : List Nullifier)
    (h : BlockHeight) (mtp : Timestamp)
    → RecordsOnly params s note nf h mtp (accept_successor params s note nf nfs h mtp)
unfolding accept_successor release_predecessor
accept_successor-record params s note nf nfs h mtp = split (predecessor_spent s note nfs)
  where
    split :
        (o : Option NameRecord)
        → RecordsOnly params s note nf h mtp (on_spent params s note nf nfs h mtp o)
    split none = λ n e. ground arith
    split (some r) =
        if_cases (RecordsOnly params s note nf h mtp) (not (is_prev r note)) _ _
          (λ _ n e. ground arith) (λ _ n e. created params s note nf h mtp n)

-- Where a confirmed note of any action is accepted, the record of its own name becomes the note's
-- name, action, controller, expiry and commitment with its nullifier, the height of its block and
-- a deadline one Julian year after the block's median time, or none where the note releases; the
-- record of every other name is kept.
pub accept_note-record :
    (params : Params) (s : Registry) (note : NameNote) (nf : Nullifier) (tx : Confirmed)
    (h : BlockHeight) (mtp : Timestamp) (n : Name)
    → (accept_note params s note nf tx h mtp).1 ≡ true
    → record_of (accept_note params s note nf tx h mtp).0 n
      ≡ (if Note.name note == n then recorded params note nf h mtp else record_of s n)
unfolding accept_note
accept_note-record params s (Note.claim m u e) nf tx h mtp n a =
    accept_claim-record params s (Note.claim m u e) nf (successor_of tx.outputs) tx.spends h mtp
      tx.expiry n a
accept_note-record params s (Note.update m u e p) nf tx h mtp n a =
    accept_successor-record params s (Note.update m u e p) nf tx.spends h mtp n a
accept_note-record params s (Note.release m u p) nf tx h mtp n a =
    accept_successor-record params s (Note.release m u p) nf tx.spends h mtp n a
accept_note-record params s (Note.sale m u e p) nf tx h mtp n a =
    accept_successor-record params s (Note.sale m u e p) nf tx.spends h mtp n a

predecessor_spent_fwd :
    (s : Registry) (note : NameNote) (nfs : List Nullifier) (r : NameRecord)
    → predecessor_spent s note nfs ≡ some r
    → any (λ nf. contains nf s.anchors.live) nfs ≡ false
      × names_spent_by s nfs ≡ Note.name note ∷ []
      × record_of s (Note.name note) ≡ some r
unfolding predecessor_spent
predecessor_spent_fwd s note nfs r e = ground arith

predecessor_spent_bwd :
    (s : Registry) (note : NameNote) (nfs : List Nullifier)
    → any (λ nf. contains nf s.anchors.live) nfs ≡ false
    → names_spent_by s nfs ≡ Note.name note ∷ []
    → predecessor_spent s note nfs ≡ record_of s (Note.name note)
unfolding predecessor_spent
predecessor_spent_bwd s note nfs e f = ground arith

is_prev_iff :
    (r : NameRecord) (note : NameNote)
    → is_prev r note ≡ true ↔ Note.prev_rcm note ≡ some r.commitment
is_prev_iff r note = ground arith

-- A note that follows a record (an update, a release or a sale) is accepted exactly where the
-- transaction spends no live anchor, the spent nullifiers are of the record of its name and of no
-- other, and the note names that record's commitment.
pub accept_successor_iff :
    (params : Params) (s : Registry) (note : NameNote) (nf : Nullifier) (nfs : List Nullifier)
    (h : BlockHeight) (mtp : Timestamp)
    → (accept_successor params s note nf nfs h mtp).1 ≡ true ↔ (
        (r : NameRecord) × any (λ nf. contains nf s.anchors.live) nfs ≡ false
        × names_spent_by s nfs ≡ Note.name note ∷ []
        × record_of s (Note.name note) ≡ some r
        × Note.prev_rcm note ≡ some r.commitment)
unfolding accept_successor
accept_successor_iff params s note nf nfs h mtp = split (predecessor_spent s note nfs) refl
  where
    split :
        (o : Option NameRecord)
        → predecessor_spent s note nfs ≡ o
        → (on_spent params s note nf nfs h mtp o).1 ≡ true ↔ (
            (r : NameRecord) × any (λ nf. contains nf s.anchors.live) nfs ≡ false
            × names_spent_by s nfs ≡ Note.name note ∷ []
            × record_of s (Note.name note) ≡ some r
            × Note.prev_rcm note ≡ some r.commitment)
    split none e =
        (λ a. ground arith, λ (x, p, q, u, v). ground (arith, predecessor_spent_bwd s note nfs p q))
    split (some r) e = (
      λ a.
          let f = predecessor_spent_fwd s note nfs r e in
          (r, f.0, f.1, f.2, ground (arith, is_prev_iff r note)),
      λ (x, p, q, u, v). ground (arith, predecessor_spent_bwd s note nfs p q, is_prev_iff r note),
    )

-- No record was written by a note whose nullifier is among those spent.
abbrev SpendsNone : List Nullifier → List (Name × NameRecord) → Type 0
SpendsNone nfs = All (λ e. contains e.1.predecessor_nullifier nfs ≡ false)

-- Where the last record of the name is a release, the transaction cannot be mined at or below the
-- last height that one built before the release could be mined at.
abbrev BuiltAfter : Params → BlockHeight → Option NameRecord → Type 0
BuiltAfter params expiry o =
    (r : NameRecord)
    → o ≡ some r
    → r.action ≡ Action.release
    → r.confirmed_height + params.expiry_delta r.confirmed_height < expiry

SpendsNone-iff :
    (nfs : List Nullifier) (rs : List (Name × NameRecord))
    → length (map (λ e. e.0) (filter (λ e. contains e.1.predecessor_nullifier nfs) rs)) ≡ 0
      ↔ SpendsNone nfs rs
SpendsNone-iff nfs [] = (λ _. tt, λ _. refl)
SpendsNone-iff nfs (e ∷ rs) = ground (arith, SpendsNone-iff nfs rs)

one_iff : (nfs : List Nullifier) → length nfs ≡ 1 ↔ ((a : Nullifier) × nfs ≡ a ∷ [])
one_iff [] = (λ e. ground arith, λ (a, e). ground arith)
one_iff (a ∷ []) = (λ _. (a, refl), λ _. refl)
one_iff (a ∷ b ∷ nfs) = (λ e. absurd (omega arith), λ (c, e). ground arith)

spends_one_anchor_iff :
    (s : Registry) (nfs : List Nullifier)
    → spends_one_anchor s nfs ≡ true ↔ (
        ((a : Nullifier) × filter (λ nf. contains nf s.anchors.live) nfs ≡ a ∷ [])
        × SpendsNone nfs s.records)
unfolding spends_one_anchor
spends_one_anchor_iff s nfs =
    let one = one_iff (filter (λ nf. contains nf s.anchors.live) nfs) in
    let free = SpendsNone-iff nfs s.records in
    (
      λ e. (one.0 (ground arith), free.0 (ground arith)),
      λ (a, n). let x = one.1 a in let y = free.1 n in ground arith,
    )

release_iff : (a : Action) → Action.is_release a ≡ true ↔ a ≡ Action.release
release_iff a = ground arith

BuiltAfter-iff :
    (params : Params) (s : Registry) (n : Name) (expiry : BlockHeight)
    → built_before_release params s n expiry ≡ false
      ↔ BuiltAfter params expiry (last? (record_history s n))
unfolding built_before_release
BuiltAfter-iff params s n expiry = split (last? (record_history s n))
  where
    early :
        (r : NameRecord)
        → (Action.is_release r.action ≡ true) ⊎ (Action.is_release r.action ≡ false)
        → (r.action ≡ Action.release
            → r.confirmed_height + params.expiry_delta r.confirmed_height < expiry)
        → (Action.is_release r.action
            && leb expiry (r.confirmed_height + params.expiry_delta r.confirmed_height))
          ≡ false
    early r (inl e) b = let lt = b ((release_iff r.action).0 e) in ground arith
    early r (inr e) b = ground arith

    split :
        (o : Option NameRecord)
        → (elim o [
          | none ↦ false
          | some latest ↦
              Action.is_release latest.action
              && leb expiry (latest.confirmed_height + params.expiry_delta latest.confirmed_height)
        ])
            ≡ false
          ↔ BuiltAfter params expiry o
    split none = (λ _ r e a. ground arith, λ _. refl)
    split (some r) = (
      λ e q p.
          let z : r ≡ q = ground arith in
          subst
            (λ x.
              x.action ≡ Action.release
              → x.confirmed_height + params.expiry_delta x.confirmed_height < expiry)
            z (λ a. ground arith),
      λ b. early r (Bool-cases (Action.is_release r.action)) (b r refl),
    )

guards :
    (params : Params) (s : Registry) (note : NameNote) (nf : Nullifier)
    (successor : Option Nullifier) (nfs : List Nullifier) (h : BlockHeight) (mtp : Timestamp)
    (expiry : BlockHeight)
    → (accept_claim params s note nf successor nfs h mtp expiry).1 ≡ true ↔ (
        is_some successor ≡ true
        × spends_one_anchor s nfs ≡ true
        × record_of s (Note.name note) ≡ none
        × built_before_release params s (Note.name note) expiry ≡ false)
unfolding accept_claim
guards params s note nf successor nfs h mtp expiry = ground arith

-- A claim is accepted exactly where it hands in a successor anchor, one of the nullifiers that its
-- transaction spends is a live anchor and no other is, none of them wrote a record, its name has
-- no record, and, where the name's last record is a release, the transaction's expiry height is
-- above the height of that release and the expiry delta in force there.
pub accept_claim_iff :
    (params : Params) (s : Registry) (note : NameNote) (nf : Nullifier)
    (successor : Option Nullifier) (nfs : List Nullifier) (h : BlockHeight) (mtp : Timestamp)
    (expiry : BlockHeight)
    → (accept_claim params s note nf successor nfs h mtp expiry).1 ≡ true ↔ (
        is_some successor ≡ true
        × ((a : Nullifier) × filter (λ n. contains n s.anchors.live) nfs ≡ a ∷ [])
        × All (λ e. contains e.1.predecessor_nullifier nfs ≡ false) s.records
        × record_of s (Note.name note) ≡ none
        × ((r : NameRecord)
            → last? (record_history s (Note.name note)) ≡ some r
            → r.action ≡ Action.release
            → r.confirmed_height + params.expiry_delta r.confirmed_height < expiry))
accept_claim_iff params s note nf successor nfs h mtp expiry =
    let g = guards params s note nf successor nfs h mtp expiry in
    let one = spends_one_anchor_iff s nfs in
    let after = BuiltAfter-iff params s (Note.name note) expiry in
    (
      λ e. let x = g.0 e in let y = one.0 x.1 in (x.0, y.0, y.1, x.2, after.0 x.3),
      λ (a, b, c, d, e). g.1 (a, one.1 (b, c), d, after.1 e),
    )
