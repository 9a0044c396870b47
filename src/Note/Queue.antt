-- ===== src/Note/Queue.antt =====
-- mint/note.rs: `NameNoteQueue`, the Name Notes from authorization to canonical confirmation.
use zns_mint.Prelude.{
  ◌+◌, Bool, true, false, not, ◌&&◌, List, [], ◌∷◌, ◌++◌, Option, none, some, ◌==◌, nat_eq,
  bytes_eq, Eq, ℕ_discrete, leb, if◌then◌else◌, any, filter, remove_first, map,
}
use zns_mint.Chain.{BlockHeight}
use zns_mint.Name.{Name}
use zns_mint.Note.{NameNote, name}

pub data NameNoteState : Type 0 where
  authorized : NameNoteState
  sent : BlockHeight → NameNoteState
  seen : NameNoteState

unfoldable pub NameNoteState-discrete : Discrete NameNoteState
unfolding ℕ_discrete
NameNoteState-discrete = hlevel ℕ_discrete

instance abbrev pub state_eq : Eq NameNoteState
state_eq = record { decides = NameNoteState-discrete }

pub record Order : Type 0 where
  pub note : NameNote
  pub origin : BlockHeight
  pub state : NameNoteState

abbrev pub NameNoteQueue : Type 0
NameNoteQueue = List Order

-- An unresolved order for the name.
abbrev pub owns : Name → Order → Bool
owns n o = not (o.state == seen) && name o.note == n

unfoldable pub note_pending : NameNoteQueue → Name → Bool
note_pending q n = any (owns n) q

-- `admit`: the new queue, and whether the note was taken.
unfoldable pub admit : NameNoteQueue → BlockHeight → NameNote → NameNoteQueue × Bool
admit q origin note =
    if note_pending q (name note)
    then (q, false)
    else (q ++ record { note = note; origin = origin; state = authorized } ∷ [], true)

abbrev reauthorize : Order → Order
reauthorize o = if o.state == seen then record o { state = authorized } else o

unfoldable pub rewind_to : NameNoteQueue → BlockHeight → NameNoteQueue
rewind_to q ancestor = map reauthorize (filter (λ o. leb o.origin ancestor) q)

abbrev pub awaits : Name → Order → Bool
awaits n o = o.state == authorized && name o.note == n

-- `mark_sent`: `none` where no authorized order owns the name, which is a panic.
unfoldable pub mark_sent : NameNoteQueue → Name → BlockHeight → Option NameNoteQueue
mark_sent [] n expiry = none
mark_sent (o ∷ q) n expiry =
    let rest = mark_sent q n expiry in
    if awaits n o
    then some (record o { state = sent expiry } ∷ q)
    else elim rest [ none ↦ none | some q' ↦ some (o ∷ q') ]

-- One order of `expire_sent`.
abbrev pub unsend : BlockHeight → NameNoteState → NameNoteState
unsend tip authorized = authorized
unsend tip (sent expiry) = if leb expiry (tip + 1) then authorized else sent expiry
unsend tip seen = seen

abbrev pub unsend_order : BlockHeight → Order → Order
unsend_order tip o = record o { state = unsend tip o.state }

unfoldable pub expire_sent : NameNoteQueue → BlockHeight → NameNoteQueue
expire_sent q tip = map (unsend_order tip) q

unfoldable pub authorized_notes : NameNoteQueue → List NameNote
authorized_notes q = map (λ o. o.note) (filter (λ o. o.state == authorized) q)

unfoldable pub authorized_names : NameNoteQueue → List Name
authorized_names q = map (λ o. name o.note) (filter (λ o. not (o.state == seen)) q)

-- `drop_note`: `none` where no unresolved order owns the name, which is a panic.
unfoldable pub drop_note : NameNoteQueue → Name → Option NameNoteQueue
drop_note q n = if note_pending q n then some (remove_first (owns n) q) else none
