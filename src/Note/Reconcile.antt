-- ===== src/Note/Reconcile.antt =====
-- mint/note.rs: `NameNoteQueue` against the registry, and one unresolved order of a name at most.
use zns_mint.Prelude.{
  ℕ, suc, ◌+◌, ◌-◌, ◌≤◌, ◌≡◌, refl, sym, ap, ◌∙◌, Bool, true, false, not, ◌&&◌, ◌||◌, [], ◌∷◌, ◌++◌,
  Option, none, some, arith, ◌==◌, nat_eq, bytes_eq, if◌then◌else◌, eq-of-==, Bool-cases, ◌⊎◌, inl,
  inr, any, filter, remove_first, map, leb,
}
use zns_mint.Chain.{Params, BlockHeight}
use zns_mint.Name.{Name}
use zns_mint.Action
use zns_mint.Action.{action_eq}
use zns_mint.Note
use zns_mint.Note.{NameNote}
use zns_mint.Note.Hash.{commitment}
use zns_mint.Note.Queue.{
  NameNoteQueue, NameNoteState, Order, authorized, sent, seen, state_eq, owns, note_pending, admit,
  awaits, mark_sent, unsend, unsend_order, expire_sent, drop_note,
}
use zns_mint.Registry.{Registry, record_of, record_history}

-- A record of the note at or after the order's origin.
abbrev pub is_confirmed : Params → Registry → Order → Bool
is_confirmed params s o =
    any (λ r. leb o.origin r.confirmed_height && r.commitment == commitment params o.note)
      (record_history s (Note.name o.note))

abbrev pub see : Params → Registry → Order → Order
see params s o = if is_confirmed params s o then record o { state = seen } else o

abbrev pub still_follows : Registry → NameNote → Bool
still_follows s note = elim (record_of s (Note.name note)) [
  | none ↦ false
  | some r ↦ elim (Note.prev_rcm note) [ none ↦ false | some p ↦ r.commitment == p ]
]

-- The test of the `retain` in `reconcile_seen`.
abbrev pub is_current : Registry → Order → Bool
is_current s o = o.state == seen || Action.is_claim (Note.action o.note) || still_follows s o.note

unfoldable pub reconcile_seen : Params → Registry → NameNoteQueue → NameNoteQueue
reconcile_seen params s q = filter (is_current s) (map (see params s) q)

-- How many unresolved orders a name has.
abbrev pub unresolved : Name → NameNoteQueue → ℕ
unresolved n [] = 0
unresolved n (o ∷ q) = if owns n o then suc (unresolved n q) else unresolved n q

-- A name has one unresolved order at most.
abbrev pub IsValid : NameNoteQueue → Type 0
IsValid q = (n : Name) → unresolved n q ≤ 1

unresolved-none : (n : Name) (q : NameNoteQueue) → note_pending q n ≡ false → unresolved n q ≡ 0
unfolding note_pending
unresolved-none n [] e = refl
unresolved-none n (o ∷ q) e = ground (arith, unresolved-none n q)

unresolved-concat :
    (n : Name) (q : NameNoteQueue) (o : Order)
    → unresolved n (q ++ o ∷ []) ≡ unresolved n q + unresolved n (o ∷ [])
unresolved-concat n [] o = ground arith
unresolved-concat n (x ∷ q) o = ground (arith, unresolved-concat n q o)

-- Where each name has one unresolved order at most, that holds after an admission too, whether the
-- note is taken or refused.
pub admit-IsValid :
    (q : NameNoteQueue) (origin : BlockHeight) (note : NameNote)
    → IsValid q
    → IsValid (admit q origin note).0
unfolding admit
admit-IsValid q origin note v n = ground (
  arith,
  v n,
  unresolved-none (Note.name note) q,
  unresolved-concat n q (record { note = note; origin = origin; state = authorized }),
)

unresolved-see :
    (params : Params) (s : Registry) (n : Name) (q : NameNoteQueue)
    → unresolved n (map (see params s) q) ≤ unresolved n q
unresolved-see params s n [] = ground arith
unresolved-see params s n (o ∷ q) = ground (arith, unresolved-see params s n q)

unresolved-filter :
    (k : Order → Bool) (n : Name) (q : NameNoteQueue) → unresolved n (filter k q) ≤ unresolved n q
unresolved-filter k n [] = ground arith
unresolved-filter k n (o ∷ q) = ground (arith, unresolved-filter k n q)

-- Where each name has one unresolved order at most, that holds after the orders are compared with
-- any registry.
pub reconcile_seen-IsValid :
    (params : Params) (s : Registry) (q : NameNoteQueue)
    → IsValid q
    → IsValid (reconcile_seen params s q)
unfolding reconcile_seen
reconcile_seen-IsValid params s q v n =
    let a = unresolved-filter (is_current s) n (map (see params s) q) in
    let b = unresolved-see params s n q in let c = v n in omega arith

owns-unsend : (tip : BlockHeight) (n : Name) (o : Order) → owns n (unsend_order tip o) ≡ owns n o
owns-unsend tip n o = split o.state
  where
    split :
        (st : NameNoteState)
        → (not (unsend tip st == seen) && Note.name o.note == n)
          ≡ (not (st == seen) && Note.name o.note == n)
    split authorized = refl
    split (sent expiry) = ground arith
    split seen = refl

-- The return of expired orders to the authorized ones keeps the number of unresolved orders of
-- every name.
pub unresolved-expire_sent :
    (q : NameNoteQueue) (tip : BlockHeight) (n : Name)
    → unresolved n (expire_sent q tip) ≡ unresolved n q
unfolding expire_sent
unresolved-expire_sent [] tip n = refl
unresolved-expire_sent (o ∷ q) tip n =
    ground (arith, owns-unsend tip n o, unresolved-expire_sent q tip n)

-- A broadcast of a name's order keeps the number of unresolved orders of every name.
pub unresolved-mark_sent :
    (q : NameNoteQueue) (m : Name) (expiry : BlockHeight) (q' : NameNoteQueue) (n : Name)
    → mark_sent q m expiry ≡ some q'
    → unresolved n q' ≡ unresolved n q
unfolding mark_sent
unresolved-mark_sent [] m expiry q' n e = ground arith
unresolved-mark_sent (o ∷ q) m expiry q' n e =
    split (λ q''. unresolved-mark_sent q m expiry q'' n) (mark_sent q m expiry) refl
      (Bool-cases (awaits m o))
  where
    split :
        ((q'' : NameNoteQueue)
          → mark_sent q m expiry ≡ some q''
          → unresolved n q'' ≡ unresolved n q)
        → (x : Option NameNoteQueue) → mark_sent q m expiry ≡ x
        → (awaits m o ≡ true) ⊎ (awaits m o ≡ false)
        → unresolved n q' ≡ unresolved n (o ∷ q)
    split ih x f (inl a) =
        let same : record o { state = sent expiry } ∷ q ≡ q' = ground arith in
        ap (unresolved n) (sym same) ∙ ground arith
    split ih none f (inr a) = ground arith
    split ih (some q'') f (inr a) =
        let same : o ∷ q'' ≡ q' = ground arith in
        ap (unresolved n) (sym same) ∙ ground (arith, ih q'' f)

owns_other : (m n : Name) (o : Order) → owns m o ≡ true → owns n o ≡ (m == n)
owns_other m n o e = ground arith

owns_same : (m n : Name) (o : Order) → owns m o ≡ false → (m == n) ≡ true → owns n o ≡ false
owns_same m n o e f = ap (λ k. owns k o) (sym (eq-of-== m n f)) ∙ e

one_fewer :
    (k : ℕ) (b : Bool) → k ≡ (if b then (if b then suc k else k) - 1 else (if b then suc k else k))
one_fewer k true = omega arith
one_fewer k false = refl

later :
    (k r : ℕ) (b c : Bool)
    → (c ≡ true → b ≡ false)
    → r ≡ (if c then k - 1 else k)
    → (if b then suc r else r)
      ≡ (if c then (if b then suc k else k) - 1 else (if b then suc k else k))
later k r b c h e = ground arith

unresolved-remove_first :
    (m n : Name) (q : NameNoteQueue)
    → unresolved n (remove_first (owns m) q)
      ≡ (if m == n then unresolved n q - 1 else unresolved n q)
unresolved-remove_first m n [] = ground arith
unresolved-remove_first m n (o ∷ q) = split (unresolved-remove_first m n q) (owns m o) refl
  where
    split :
        unresolved n (remove_first (owns m) q)
          ≡ (if m == n then unresolved n q - 1 else unresolved n q)
        → (b : Bool) → owns m o ≡ b
        → unresolved n (if b then q else o ∷ remove_first (owns m) q)
          ≡ (if m == n then unresolved n (o ∷ q) - 1 else unresolved n (o ∷ q))
    split ih true e =
        one_fewer (unresolved n q) (m == n)
        ∙ ap
            (λ b.
              if m == n
              then (if b then suc (unresolved n q) else unresolved n q) - 1
              else (if b then suc (unresolved n q) else unresolved n q))
            (sym (owns_other m n o e))
    split ih false e =
        later (unresolved n q) (unresolved n (remove_first (owns m) q)) (owns n o) (m == n)
          (owns_same m n o e) ih

-- Where each name has one unresolved order at most and a note of a name is dropped, that name has
-- none left, and every other name has as many as before.
pub drop_note_lem :
    (q : NameNoteQueue) (m : Name) (q' : NameNoteQueue) (n : Name)
    → IsValid q
    → drop_note q m ≡ some q'
    → unresolved n q' ≡ (if m == n then 0 else unresolved n q)
unfolding drop_note
drop_note_lem q m q' n v e =
    let same : remove_first (owns m) q ≡ q' = ground arith in
    ap (unresolved n) (sym same) ∙ ground (arith, unresolved-remove_first m n q, v n)
