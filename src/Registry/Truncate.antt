-- ===== src/Registry/Truncate.antt =====
-- mint/registry.rs: `truncate_to_height` rebuilds coherent records.
use zns_mint.Prelude.{
  ◌≡◌, refl, ◌∙◌, List, [], ◌∷◌, Option, none, some, arith, ◌==◌, bytes_eq, if◌then◌else◌, All,
}
use zns_mint.Prelude.Maps.{lookup, insert, Distinct, bytes_order, lookup-insert, Distinct-insert}
use zns_mint.Chain.{BlockHeight}
use zns_mint.Name.{Name}
use zns_mint.Action.{action_eq}
use zns_mint.Registry.{
  Registry, NameRecord, record_of, record_history, or_empty, live_at_end, pop_above, pop_history,
  rebuild, truncate_to_height,
}
use zns_mint.Registry.Coherence.{Coherent, Named}

pop_above-Named :
    (h : BlockHeight) (n : Name) (rs : List NameRecord)
    → All (λ r. r.name ≡ n) rs
    → All (λ r. r.name ≡ n) (pop_above h rs)
unfolding pop_above
pop_above-Named h n [] a = tt
pop_above-Named h n (r ∷ rs) a = ground (arith, pop_above-Named h n rs a.1)

lookup-pop_history-none :
    (h : BlockHeight) (n : Name) (m : List (Name × List NameRecord))
    → lookup n m ≡ none
    → lookup n (pop_history h m) ≡ none
unfolding lookup pop_history
lookup-pop_history-none h n [] e = refl
lookup-pop_history-none h n ((j, rs) ∷ m) e = ground (arith, lookup-pop_history-none h n m)

lookup-pop_history :
    (h : BlockHeight) (n : Name) (m : List (Name × List NameRecord))
    → Distinct m
    → or_empty (lookup n (pop_history h m)) ≡ pop_above h (or_empty (lookup n m))
unfolding lookup pop_history
lookup-pop_history h n [] d = unfold pop_above in refl
lookup-pop_history h n ((j, rs) ∷ m) d =
    ground (arith, lookup-pop_history h n m d.1, lookup-pop_history-none h n m)

Distinct-pop_history :
    (h : BlockHeight) (m : List (Name × List NameRecord)) → Distinct m → Distinct (pop_history h m)
unfolding pop_history
Distinct-pop_history h [] d = tt
Distinct-pop_history h ((j, rs) ∷ m) d =
    ground (arith, Distinct-pop_history h m d.1, lookup-pop_history-none h j m d.0)

pop_history-Named :
    (h : BlockHeight) (m : List (Name × List NameRecord))
    → All Named m
    → All Named (pop_history h m)
unfolding pop_history
pop_history-Named h [] a = tt
pop_history-Named h ((j, rs) ∷ m) a =
    ground (arith, pop_history-Named h m a.1, pop_above-Named h j rs a.0)

pub live_at_end-name :
    (n : Name) (rs : List NameRecord) (r : NameRecord)
    → All (λ x. x.name ≡ n) rs
    → live_at_end rs ≡ some r
    → r.name ≡ n
live_at_end-name n [] r a e = cc
live_at_end-name n (x ∷ []) r a e = ground arith
live_at_end-name n (x ∷ y ∷ rs) r a e = live_at_end-name n (y ∷ rs) r a.1 e

abbrev or_else {ℓ} : {A : Type ℓ} → Option A → Option A → Option A
or_else none b = b
or_else (some a) b = some a

or_else-none {ℓ} : {A : Type ℓ} → (o : Option A) → or_else o none ≡ o
or_else-none none = refl
or_else-none (some a) = refl

Distinct-rebuild :
    (m : List (Name × List NameRecord)) (acc : List (Name × NameRecord))
    → Distinct acc
    → Distinct (rebuild m acc)
unfolding rebuild
Distinct-rebuild [] acc d = d
Distinct-rebuild ((n, rs) ∷ m) acc d = Distinct-rebuild m _ (kept (live_at_end rs))
  where
    kept : (o : Option NameRecord) → Distinct (elim o [ none ↦ acc | some r ↦ insert r.name r acc ])
    kept none = d
    kept (some r) = Distinct-insert r.name r acc d

abbrev put_live : Option NameRecord → List (Name × NameRecord) → List (Name × NameRecord)
put_live o acc = elim o [ none ↦ acc | some r ↦ insert r.name r acc ]

lookup-put_live :
    (n j : Name) (rs : List NameRecord) (acc : List (Name × NameRecord)) (o : Option NameRecord)
    → All (λ r. r.name ≡ j) rs
    → live_at_end rs ≡ o
    → lookup n (put_live o acc) ≡ (if j == n then or_else o (lookup n acc) else lookup n acc)
lookup-put_live n j rs acc none a e = ground arith
lookup-put_live n j rs acc (some r) a e =
    ground (arith, lookup-insert r.name n r acc, live_at_end-name j rs r a e)

lookup-rebuild :
    (n : Name) (m : List (Name × List NameRecord)) (acc : List (Name × NameRecord))
    → Distinct m
    → All Named m
    → lookup n (rebuild m acc) ≡ or_else (live_at_end (or_empty (lookup n m))) (lookup n acc)
unfolding rebuild lookup
lookup-rebuild n [] acc d a = refl
lookup-rebuild n ((j, rs) ∷ m) acc d a = ground (
  arith,
  lookup-rebuild n m (put_live (live_at_end rs) acc) d.1 a.1,
  lookup-put_live n j rs acc (live_at_end rs) a.0 refl,
)

-- In a coherent registry a rewind takes from the chain of each name the records at its end that
-- are above the height, back to the last one that is not, and changes nothing else of it.
pub record_history-truncate :
    (s : Registry) (height : BlockHeight) (n : Name)
    → Coherent s
    → record_history (truncate_to_height s height) n ≡ pop_above height (record_history s n)
unfolding record_history truncate_to_height
record_history-truncate s height n c = lookup-pop_history height n s.history c.history_distinct

-- A rewound registry is coherent.
pub truncate_to_height-Coherent :
    (s : Registry) (height : BlockHeight) → Coherent s → Coherent (truncate_to_height s height)
truncate_to_height-Coherent s height c = record {
  records_distinct =
      unfold truncate_to_height in Distinct-rebuild (pop_history height s.history) [] tt;
  history_distinct =
      unfold truncate_to_height in Distinct-pop_history height s.history c.history_distinct;
  named = unfold truncate_to_height in pop_history-Named height s.history c.named;
  live = λ n.
      unfold truncate_to_height record_of record_history lookup in
      lookup-rebuild n (pop_history height s.history) []
        (Distinct-pop_history height s.history c.history_distinct)
        (pop_history-Named height s.history c.named)
      ∙ or_else-none (live_at_end (or_empty (lookup n (pop_history height s.history))));
}
