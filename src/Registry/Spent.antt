-- ===== src/Registry/Spent.antt =====
-- mint/registry.rs: the names that a transaction's spends take out of the registry.
use zns_mint.Prelude.{
  ◌≡◌, refl, sym, ap, ◌∙◌, Bool, false, List, [], ◌∷◌, Option, none, some, arith, ◌==◌, bytes_eq,
  if◌then◌else◌, any, map, filter,
}
use zns_mint.Prelude.Maps.{lookup, Distinct, bytes_order}
use zns_mint.Prelude.Sets.{contains}
use zns_mint.Chain.{BlockHeight, Nullifier}
use zns_mint.Name.{Name}
use zns_mint.Action
use zns_mint.Registry.{Registry, NameRecord, record_of, set_record}
use zns_mint.Registry.Accept.{names_spent_by, release_names, mark_released, follow_spends, retire}
use zns_mint.Registry.Coherence.{
  Coherent, record_of-set_record, set_record-Coherent, anchors-Coherent, history-Named,
}
use zns_mint.Registry.Truncate.{live_at_end-name}

-- The record of a name is of that name.
pub record_of-name :
    (s : Registry) (n : Name) (r : NameRecord) → Coherent s → record_of s n ≡ some r → r.name ≡ n
record_of-name s n r c e = live_at_end-name n _ r (history-Named s n c.named) (sym (c.live n) ∙ e)

abbrev pub is_spent : Option NameRecord → List Nullifier → Bool
is_spent none nfs = false
is_spent (some r) nfs = contains r.predecessor_nullifier nfs

abbrev names : Name → List Name → Bool
names n ns = any (λ m. m == n) ns

abbrev spent_by : List Nullifier → List (Name × NameRecord) → List Name
spent_by nfs m = map (λ e. e.0) (filter (λ e. contains e.1.predecessor_nullifier nfs) m)

spent_by-absent :
    (n : Name) (nfs : List Nullifier) (m : List (Name × NameRecord))
    → lookup n m ≡ none
    → names n (spent_by nfs m) ≡ false
unfolding lookup
spent_by-absent n nfs [] e = refl
spent_by-absent n nfs ((j, r) ∷ m) e = ground (arith, spent_by-absent n nfs m)

spent_by-lookup :
    (n : Name) (nfs : List Nullifier) (m : List (Name × NameRecord))
    → Distinct m
    → names n (spent_by nfs m) ≡ is_spent (lookup n m) nfs
unfolding lookup
spent_by-lookup n nfs [] d = refl
spent_by-lookup n nfs ((j, r) ∷ m) d =
    ground (arith, spent_by-lookup n nfs m d.1, spent_by-absent n nfs m)

abbrev release_one : Registry → Name → BlockHeight → Registry
release_one s n height = elim (record_of s n) [
  | none ↦ s
  | some r ↦ set_record s (record r { action = Action.release; confirmed_height = height })
]

release_one-Coherent :
    (s : Registry) (n : Name) (height : BlockHeight)
    → Coherent s
    → Coherent (release_one s n height)
release_one-Coherent s n height c = split (record_of s n)
  where
    split :
        (o : Option NameRecord)
        → Coherent (elim o [
          | none ↦ s
          | some r ↦ set_record s (record r { action = Action.release; confirmed_height = height })
        ])
    split none = c
    split (some r) = set_record-Coherent s _ c

release_one_lem :
    (s : Registry) (n m : Name) (height : BlockHeight)
    → Coherent s
    → record_of (release_one s m height) n ≡ (if m == n then none else record_of s n)
release_one_lem s n m height c = split (record_of s m) refl
  where
    split :
        (o : Option NameRecord)
        → record_of s m ≡ o
        → record_of
            (elim o [
              | none ↦ s
              | some r ↦
                  set_record s (record r { action = Action.release; confirmed_height = height })
            ])
            n
          ≡ (if m == n then none else record_of s n)
    split none e = ground arith
    split (some r) e = ground (
      arith,
      record_of-set_record s (record r { action = Action.release; confirmed_height = height }) n,
      record_of-name s m r c e,
    )

record_of-release_names :
    (ns : List Name) (s : Registry) (n : Name) (height : BlockHeight)
    → Coherent s
    → record_of (release_names s ns height) n ≡ (if names n ns then none else record_of s n)
unfolding release_names
record_of-release_names [] s n height c = refl
record_of-release_names (m ∷ ns) s n height c = ground (
  arith,
  record_of-release_names ns (release_one s m height) n height (release_one-Coherent s m height c),
  release_one_lem s n m height c,
)

-- `mark_released` takes out exactly the names whose predecessor is spent.
pub record_of-mark_released :
    (s : Registry) (nfs : List Nullifier) (n : Name) (height : BlockHeight)
    → Coherent s
    → record_of (mark_released s nfs height) n
      ≡ (if is_spent (record_of s n) nfs then none else record_of s n)
record_of-mark_released s nfs n height c =
    unfold mark_released in
    record_of-release_names (names_spent_by s nfs) s n height c
    ∙ ap (λ b. if b then none else record_of s n)
        (unfold names_spent_by record_of in spent_by-lookup n nfs s.records c.records_distinct)

pub record_of-retire :
    (s : Registry) (nfs : List Nullifier) (successor : Option Nullifier) (height : BlockHeight)
    (n : Name)
    → record_of (retire s nfs successor height) n ≡ record_of s n
unfolding record_of
record_of-retire s nfs successor height n = refl

-- In a coherent registry `follow_spends` takes out the record of exactly those names whose
-- record's nullifier is among the spent ones, and keeps every other record.
pub record_of-follow_spends :
    (s : Registry) (nfs : List Nullifier) (n : Name) (height : BlockHeight)
    → Coherent s
    → record_of (follow_spends s nfs height) n
      ≡ (if is_spent (record_of s n) nfs then none else record_of s n)
unfolding follow_spends record_of
record_of-follow_spends s nfs n height c =
    record_of-mark_released (retire s nfs none height) nfs n height (anchors-Coherent s _ c)
