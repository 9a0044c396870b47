-- ===== src/Registry/Accept.antt =====
-- mint/registry.rs: what a confirmed transaction does to the records and the anchors.
use zns_mint.Prelude.{
  ◌+◌, Bool, true, false, not, ◌&&◌, ◌||◌, List, [], ◌∷◌, Option, none, some, ◌==◌, nat_eq,
  bytes_eq, texts_eq, leb, if◌then◌else◌, is_some, any, map, filter, length, last?,
}
use zns_mint.Prelude.Sets.{contains}
use zns_mint.Chain.{Params, Nullifier, Zatoshis, BlockHeight, Timestamp}
use zns_mint.Name.{Name}
use zns_mint.Action
use zns_mint.Action.{Action, action_eq}
use zns_mint.Note
use zns_mint.Note.{NameNote}
use zns_mint.Anchor
use zns_mint.Registry.{Registry, NameRecord, create, record_of, record_history, set_record}

-- `names_spent_by`: in the order of the names
unfoldable pub names_spent_by : Registry → List Nullifier → List Name
names_spent_by s nfs =
    map (λ e. e.0) (filter (λ e. contains e.1.predecessor_nullifier nfs) s.records)

-- The loop of `mark_released`.
unfoldable pub release_names : Registry → List Name → BlockHeight → Registry
release_names s [] height = s
release_names s (n ∷ ns) height =
    release_names
      (elim (record_of s n) [
        | none ↦ s
        | some r ↦ set_record s (record r { action = Action.release; confirmed_height = height })
      ])
      ns height

unfoldable pub mark_released : Registry → List Nullifier → BlockHeight → Registry
unfolding release_names names_spent_by
mark_released s nfs height = release_names s (names_spent_by s nfs) height

-- `self.anchors.retire_spent` on the registry
abbrev pub retire : Registry → List Nullifier → Option Nullifier → BlockHeight → Registry
retire s nfs successor height = record s {
  anchors = Anchor.retire_spent s.anchors nfs successor height;
}

unfoldable pub follow_spends : Registry → List Nullifier → BlockHeight → Registry
unfolding mark_released
follow_spends s nfs height = mark_released (retire s nfs none height) nfs height

unfoldable pub adopt_anchor : Registry → BlockHeight → Nullifier → Registry
adopt_anchor s height nf = record s { anchors = Anchor.adopt s.anchors height nf }

-- `built_before_release`
unfoldable pub built_before_release : Params → Registry → Name → BlockHeight → Bool
built_before_release params s n expiry = elim (last? (record_history s n)) [
  | none ↦ false
  | some latest ↦
      Action.is_release latest.action
      && leb expiry (latest.confirmed_height + params.expiry_delta latest.confirmed_height)
]

-- The nullifiers that are live anchors, as they stand in the transaction.
abbrev pub spent_anchors : Registry → List Nullifier → List Nullifier
spent_anchors s nfs = filter (λ nf. contains nf s.anchors.live) nfs

-- One anchor and no Name Note.
unfoldable pub spends_one_anchor : Registry → List Nullifier → Bool
unfolding names_spent_by
spends_one_anchor s nfs = length (spent_anchors s nfs) == 1 && length (names_spent_by s nfs) == 0

-- `accept_claim`: the registry after it, and the verdict. The successor that the pool is offered is
-- the filtered one. The assertion that the note is a claim holds where `accept_note` calls it, and so
-- do those of the other three.
unfoldable pub accept_claim :
    Params
    → Registry
    → NameNote
    → Nullifier
    → Option Nullifier
    → List Nullifier
    → BlockHeight
    → Timestamp
    → BlockHeight
    → Registry × Bool
unfolding mark_released built_before_release spends_one_anchor
accept_claim params s note nullifier successor nfs height mtp expiry =
    let name_free = not (is_some (record_of s (Note.name note))) in
    let built_after_release = not (built_before_release params s (Note.name note) expiry) in
    let seated =
      if spends_one_anchor s nfs && name_free && built_after_release then successor else none in
    let s' = retire s nfs seated height in
    if not (is_some successor) || not (spends_one_anchor s nfs)
    then (mark_released s' nfs height, false)
    else if not name_free || not built_after_release
    then (s', false)
    else (set_record s' (create params note nullifier height mtp), true)

-- `predecessor_spent`
unfoldable pub predecessor_spent : Registry → NameNote → List Nullifier → Option NameRecord
unfolding names_spent_by
predecessor_spent s note nfs =
    if any (λ nf. contains nf s.anchors.live) nfs
    then none
    else if names_spent_by s nfs == Note.name note ∷ []
    then record_of s (Note.name note)
    else none

-- `release_predecessor`
unfoldable pub release_predecessor :
    Params → Registry → Name → NameRecord → Nullifier → BlockHeight → Timestamp → Registry
release_predecessor params s n r nullifier height mtp =
    set_record s (create params (Note.release n r.ua r.commitment) nullifier height mtp)

abbrev pub is_prev : NameRecord → NameNote → Bool
is_prev r note = elim (Note.prev_rcm note) [ none ↦ false | some p ↦ p == r.commitment ]

-- The body that `accept_update`, `accept_release` and `accept_sale` share word for word.
unfoldable pub accept_successor :
    Params
    → Registry
    → NameNote
    → Nullifier
    → List Nullifier
    → BlockHeight
    → Timestamp
    → Registry × Bool
unfolding follow_spends predecessor_spent release_predecessor
accept_successor params s note nullifier nfs height mtp = elim (predecessor_spent s note nfs) [
  | none ↦ (follow_spends s nfs height, false)
  | some r ↦
      if not (is_prev r note)
      then (release_predecessor params s (Note.name note) r nullifier height mtp, false)
      else (set_record s (create params note nullifier height mtp), true)
]

-- `accept_update`, `accept_release` and `accept_sale`
unfoldable pub accept_update :
    Params
    → Registry
    → NameNote
    → Nullifier
    → List Nullifier
    → BlockHeight
    → Timestamp
    → Registry × Bool
unfolding accept_successor
accept_update = accept_successor

unfoldable pub accept_release :
    Params
    → Registry
    → NameNote
    → Nullifier
    → List Nullifier
    → BlockHeight
    → Timestamp
    → Registry × Bool
unfolding accept_successor
accept_release = accept_successor

unfoldable pub accept_sale :
    Params
    → Registry
    → NameNote
    → Nullifier
    → List Nullifier
    → BlockHeight
    → Timestamp
    → Registry × Bool
unfolding accept_successor
accept_sale = accept_successor

-- What one scanned transaction tells the registry: its Name Notes with their nullifiers, the
-- nullifiers it spends, the values and nullifiers of its outputs to the Registry's account, and the
-- height up to which it can be mined.
pub record Confirmed : Type 0 where
  pub notes : List (NameNote × Nullifier)
  pub spends : List Nullifier
  pub outputs : List (Zatoshis × Option Nullifier)
  pub expiry : BlockHeight

-- `ceremony`: the nullifiers of the outputs of no value
unfoldable pub zero_outputs : List (Zatoshis × Option Nullifier) → List Nullifier
zero_outputs [] = []
zero_outputs ((value, none) ∷ outputs) = zero_outputs outputs
zero_outputs ((value, some nf) ∷ outputs) =
    let rest = zero_outputs outputs in if value == 0 then nf ∷ rest else rest

-- `successor`: the one output, where it has no value
unfoldable pub successor_of : List (Zatoshis × Option Nullifier) → Option Nullifier
successor_of [] = none
successor_of ((value, nf) ∷ []) = if value == 0 then nf else none
successor_of (o ∷ p ∷ outputs) = none

-- The match on the action in `apply_block`.
unfoldable pub accept_note :
    Params → Registry → NameNote → Nullifier → Confirmed → BlockHeight → Timestamp → Registry × Bool
unfolding accept_claim accept_update accept_release accept_sale
accept_note params s (Note.claim n u e) nf tx height mtp =
    accept_claim params s (Note.claim n u e) nf (successor_of tx.outputs) tx.spends height mtp
      tx.expiry
accept_note params s (Note.update n u e p) nf tx height mtp =
    accept_update params s (Note.update n u e p) nf tx.spends height mtp
accept_note params s (Note.release n u p) nf tx height mtp =
    accept_release params s (Note.release n u p) nf tx.spends height mtp
accept_note params s (Note.sale n u e p) nf tx height mtp =
    accept_sale params s (Note.sale n u e p) nf tx.spends height mtp

unfoldable pub adopt_all : Registry → List Nullifier → BlockHeight → Registry
adopt_all s [] height = s
adopt_all s (nf ∷ nfs) height = adopt_all (adopt_anchor s height nf) nfs height

-- The confirmation pass of `apply_block` for one transaction of a block that is not below the birthday.
unfoldable pub confirm : Params → Registry → Confirmed → BlockHeight → Timestamp → Registry
unfolding accept_note adopt_all adopt_anchor
confirm params s tx height mtp =
    let s' =
      if Anchor.is_ceremony_fill (length (zero_outputs tx.outputs)) (length tx.notes)
      then adopt_all s (zero_outputs tx.outputs) height
      else s in
    elim tx.notes [
      | [] ↦ follow_spends s' tx.spends height
      | (note, nf) ∷ rest ↦ elim rest [
        | [] ↦ (accept_note params s' note nf tx height mtp).0
        | _ ∷ _ ↦ follow_spends s' tx.spends height
      ]
    ]
