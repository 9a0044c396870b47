-- ===== src/Note/Confirmed.antt =====
-- mint/note.rs: which orders `reconcile_seen` leaves unresolved.
use zns_mint.Prelude.{
  ◌≤◌, ◌≡◌, ◌≢◌, ◌↔◌, ◌⊎◌, inl, inr, refl, sym, ap, ◌∙◌, Bool, true, false, ◌&&◌, ◌||◌, [], ◌∷◌,
  Option, none, some, arith, ◌==◌, nat_eq, if◌then◌else◌, Bool-cases, ==_ne, ==_refl, filter, map,
  leb,
}
use mathlib.Core.List.Memᴰ
use mathlib.Core.List.{Memᴰ}
use zns_mint.Prelude.Members.{any-false, any-true, mem_if, mem_if_tail}
use zns_mint.Chain.{Params, NameCommitment}
use zns_mint.Action
use zns_mint.Action.{Action, action_eq}
use zns_mint.Note
use zns_mint.Note.{NameNote}
use zns_mint.Note.Hash.{commitment}
use zns_mint.Note.Queue
use zns_mint.Note.Queue.{NameNoteQueue, Order, seen, state_eq}
use zns_mint.Note.Reconcile.{is_confirmed, see, still_follows, is_current, reconcile_seen}
use zns_mint.Registry.{Registry, NameRecord, record_of, record_history}

-- No record of the name, at or after the order's origin, is of its note.
abbrev pub Unconfirmed : Params → Registry → Order → Type 0
Unconfirmed params s o =
    (r : NameRecord)
    → Memᴰ r (record_history s (Note.name o.note))
    → o.origin ≤ r.confirmed_height
    → r.commitment ≢ commitment params o.note

-- The note is a claim, or names the commitment of the live record of its name.
abbrev pub Follows : Registry → NameNote → Type 0
Follows s note =
    (Note.action note ≡ Action.claim)
    ⊎ ((r : NameRecord) × (record_of s (Note.name note) ≡ some r)
        × (Note.prev_rcm note ≡ some r.commitment))

Unconfirmed-iff :
    (params : Params) (s : Registry) (o : Order)
    → is_confirmed params s o ≡ false ↔ Unconfirmed params s o
Unconfirmed-iff params s o =
    let history = record_history s (Note.name o.note) in
    let test : NameRecord → Bool =
      λ r. leb o.origin r.confirmed_height && r.commitment == commitment params o.note in
    (
      λ h r i le e. let f = (any-false test history).0 h r i in ground arith,
      λ u. (any-false test history).1 (λ r i. let f = u r i in ground arith),
    )

names_it :
    (o : Option NameRecord) (p : Option NameCommitment)
    → (elim o as (λ _. Bool) [
      | none ↦ false
      | some r ↦ elim p as (λ _. Bool) [ none ↦ false | some c ↦ r.commitment == c ]
    ])
        ≡ true
      ↔ ((r : NameRecord) × (o ≡ some r) × (p ≡ some r.commitment))
names_it none p = (λ h. absurd (ground arith), λ (r, e, f). absurd (ground arith))
names_it (some r) none = (λ h. absurd (ground arith), λ (q, e, f). absurd (ground arith))
names_it (some r) (some c) = (
  λ h. (r, refl, ground arith),
  λ (q, e, f). let z : r.commitment ≡ q.commitment = ground arith in ground arith,
)

Follows-iff :
    (s : Registry) (note : NameNote)
    → (Action.is_claim (Note.action note) || still_follows s note) ≡ true ↔ Follows s note
Follows-iff s note =
    let names = names_it (record_of s (Note.name note)) (Note.prev_rcm note) in
    (
      λ h. elim (Bool-cases (Action.is_claim (Note.action note))) [
        | inl e ↦ inl (ground arith)
        | inr e ↦ inr (names.0 (ground arith))
      ],
      λ f. elim f [
        | inl e ↦ let z = ==_refl Action.claim in rw (e, z) refl
        | inr r ↦ let n = names.1 r in ground arith
      ],
    )

-- What is left of one order.
abbrev Kept : Params → Registry → Order → Type 0
Kept params s o =
    (is_confirmed params s o ≡ false)
    × ((Action.is_claim (Note.action o.note) || still_follows s o.note) ≡ true)

module _ (params : Params) (s : Registry) (o : Order) (waits : o.state ≢ seen) where
  current-rest :
      is_current s o ≡ true
      → (Action.is_claim (Note.action o.note) || still_follows s o.note) ≡ true
  current-rest h = ground (arith, ==_ne o.state seen waits)

  from_one :
      (x : Order)
      → o ≡ see params s x
      → is_current s (see params s x) ≡ true
      → (o ≡ x) × Kept params s o
  from_one x e k = elim (Bool-cases (is_confirmed params s x)) [
    | inl c ↦
        let z : o ≡ record x { state = seen } = e ∙ rw c refl in
        absurd (waits (ap (λ (y : Order). y.state) z))
    | inr c ↦
        let z : o ≡ x = e ∙ rw c refl in
        let now : is_current s o ≡ true = ap (is_current s) e ∙ k in
        (z, (ap (is_confirmed params s) z ∙ c, current-rest now))
  ]

  to_one : Kept params s o → (see params s o ≡ o) × (is_current s o ≡ true)
  to_one k = (rw k.0 refl, ground arith)

  fwd :
      (q : NameNoteQueue)
      → Memᴰ o (filter (is_current s) (map (see params s) q))
      → Memᴰ o q × Kept params s o
  fwd [] i = absurd (Memᴰ.not-nil i)
  fwd (x ∷ q) i = split (fwd q) (is_current s (see params s x)) refl i
    where
      split :
          (Memᴰ o (filter (is_current s) (map (see params s) q)) → Memᴰ o q × Kept params s o)
          → (b : Bool) → is_current s (see params s x) ≡ b
          → Memᴰ o (
              if b
              then see params s x ∷ filter (is_current s) (map (see params s) q)
              else filter (is_current s) (map (see params s) q))
          → Memᴰ o (x ∷ q) × Kept params s o
      split ih false e j = let r = ih j in (Memᴰ.tail r.0, r.1)
      split ih true e j = elim (Memᴰ.cases_cons j) [
        | inl h ↦ let r = from_one x h e in (Memᴰ.head r.0, r.1)
        | inr k ↦ let r = ih k in (Memᴰ.tail r.0, r.1)
      ]

  filter-cons :
      (x : Order) (q : NameNoteQueue)
      → Memᴰ o (filter (is_current s) q)
      → Memᴰ o (filter (is_current s) (x ∷ q))
  filter-cons x q i =
      elim (is_current s x)
        as (λ b. Memᴰ o (if b then x ∷ filter (is_current s) q else filter (is_current s) q)) [
          | true ↦ Memᴰ.tail i
          | false ↦ i
        ]

  bwd :
      (q : NameNoteQueue)
      → Memᴰ o q
      → Kept params s o
      → Memᴰ o (filter (is_current s) (map (see params s) q))
  bwd [] i k = absurd (Memᴰ.not-nil i)
  bwd (x ∷ q) i k = elim (Memᴰ.cases_cons i) [
    | inl e ↦
        let t = to_one k in
        let z : see params s x ≡ o = ap (see params s) (sym e) ∙ t.0 in
        let now : is_current s (see params s x) ≡ true = ap (is_current s) z ∙ t.1 in
        rw now (Memᴰ.head (sym z))
    | inr j ↦ filter-cons (see params s x) (map (see params s) q) (bwd q j k)
  ]

order_eq : (x y : Order) → x.note ≡ y.note → x.origin ≡ y.origin → x.state ≡ y.state → x ≡ y
order_eq x y a b c = cc (a, b, c)

-- A record of the name, at or after the order's origin, is of its note.
abbrev pub Matched : Params → Registry → Order → Type 0
Matched params s o =
    (r : NameRecord) × Memᴰ r (record_history s (Note.name o.note))
    × (o.origin ≤ r.confirmed_height)
    × (r.commitment ≡ commitment params o.note)

Matched-iff :
    (params : Params) (s : Registry) (o : Order)
    → is_confirmed params s o ≡ true ↔ Matched params s o
Matched-iff params s o =
    let history = record_history s (Note.name o.note) in
    let test : NameRecord → Bool =
      λ r. leb o.origin r.confirmed_height && r.commitment == commitment params o.note in
    (
      λ h.
          let x = (any-true test history).0 h in
          (x.0, x.1, ground (arith, x.2), ground (arith, x.2)),
      λ (r, i, le, e). (any-true test history).1 (r, i, ground arith),
    )

-- An order of the queue that is seen, or is now.
abbrev pub Resolved : Params → Registry → NameNoteQueue → Order → Type 0
Resolved params s q o =
    (x : Order) × Memᴰ x q
    × (x.note ≡ o.note)
    × (x.origin ≡ o.origin)
    × ((x.state ≡ seen) ⊎ Matched params s x)

module _ (params : Params) (s : Registry) (o : Order) (done : o.state ≡ seen) where
  seen_from :
      (q : NameNoteQueue)
      → Memᴰ o (filter (is_current s) (map (see params s) q))
      → (x : Order) × Memᴰ x q × (o ≡ see params s x)
  seen_from [] i = absurd (Memᴰ.not-nil i)
  seen_from (x ∷ q) i =
      elim (mem_if (is_current s (see params s x)) (see params s x)
        (filter (is_current s) (map (see params s) q)) i) [
          | inl e ↦ (x, Memᴰ.head refl, e)
          | inr j ↦ let (y, k, e) = seen_from q j in (y, Memᴰ.tail k, e)
        ]

  resolve :
      (x : Order)
      → o ≡ see params s x
      → (x.note ≡ o.note) × (x.origin ≡ o.origin) × ((x.state ≡ seen) ⊎ Matched params s x)
  resolve x e = elim (Bool-cases (is_confirmed params s x)) [
    | inl c ↦
        let z : o ≡ record x { state = seen } = e ∙ rw c refl in
        (
          sym (ap (λ (y : Order). y.note) z),
          sym (ap (λ (y : Order). y.origin) z),
          inr ((Matched-iff params s x).0 c),
        )
    | inr c ↦
        let z : o ≡ x = e ∙ rw c refl in
        (
          sym (ap (λ (y : Order). y.note) z),
          sym (ap (λ (y : Order). y.origin) z),
          inl (sym (ap (λ (y : Order). y.state) z) ∙ done),
        )
  ]

  see_it :
      (x : Order)
      → x.note ≡ o.note
      → x.origin ≡ o.origin
      → (x.state ≡ seen) ⊎ Matched params s x
      → see params s x ≡ o
  see_it x a b c = elim (Bool-cases (is_confirmed params s x)) [
    | inl e ↦ rw e (order_eq (record x { state = seen }) o a b (sym done))
    | inr e ↦ elim c [
      | inl f ↦ rw e (order_eq x o a b (f ∙ sym done))
      | inr f ↦ let t = (Matched-iff params s x).1 f in absurd (ground arith)
    ]
  ]

  current_seen : is_current s o ≡ true
  current_seen = let z = ==_refl seen in rw (done, z) refl

  seen_to :
      (q : NameNoteQueue) (x : Order)
      → Memᴰ x q
      → see params s x ≡ o
      → Memᴰ o (filter (is_current s) (map (see params s) q))
  seen_to [] x i e = absurd (Memᴰ.not-nil i)
  seen_to (y ∷ q) x i e = elim (Memᴰ.cases_cons i) [
    | inl z ↦
        let f : see params s y ≡ o = ap (see params s) (sym z) ∙ e in
        let now : is_current s (see params s y) ≡ true = ap (is_current s) f ∙ current_seen in
        rw now (Memᴰ.head (sym f))
    | inr j ↦ mem_if_tail (is_current s (see params s y)) (see params s y) _ (seen_to q x j e)
  ]

-- An order that still waits: no record confirms it, and its note is not stale.
abbrev pub Waiting : Params → Registry → NameNoteQueue → Order → Type 0
Waiting params s q o = (o.state ≢ seen) × Memᴰ o q × Unconfirmed params s o × Follows s o.note

state_cases : (o : Order) → (o.state ≡ seen) ⊎ (o.state ≢ seen)
state_cases o = elim (Queue.NameNoteState-discrete o.state seen) [ yes e ↦ inl e | no e ↦ inr e ]

-- An order is in the queue after its comparison with a registry exactly where one of these holds.
-- It is not seen, it was in the queue before, no record of its name at or after its origin has its
-- note's commitment, and its note is a claim or names the commitment of the live record of its
-- name. Or it is seen, and the queue before had an order of the same note and origin that was seen
-- or that has such a record.
pub reconcile_seen_iff :
    (params : Params) (s : Registry) (q : NameNoteQueue) (o : Order)
    → Memᴰ o (reconcile_seen params s q)
      ↔ (Waiting params s q o ⊎ ((o.state ≡ seen) × Resolved params s q o))
unfolding reconcile_seen
reconcile_seen_iff params s q o = (
  λ i. elim (state_cases o) [
    | inl done ↦
        let f = seen_from params s o done q i in
        let r = resolve params s o done f.0 f.2 in inr (done, (f.0, f.1, r.0, r.1, r.2))
    | inr waits ↦
        let r = fwd params s o waits q i in
        inl (waits, r.0, (Unconfirmed-iff params s o).0 r.1.0, (Follows-iff s o.note).0 r.1.1)
  ],
  λ c. elim c [
    | inl (waits, i, u, f) ↦
        bwd params s o waits q i ((Unconfirmed-iff params s o).1 u, (Follows-iff s o.note).1 f)
    | inr (done, r) ↦ seen_to params s o done q r.0 r.1 (see_it params s o done r.0 r.2 r.3 r.4)
  ],
)
