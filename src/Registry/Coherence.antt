-- ===== src/Registry/Coherence.antt =====
-- mint/registry.rs: the records are what the history says, after every operation.
use zns_mint.Prelude.{
  ◌≡◌, refl, inl, inr, List, [], ◌∷◌, ◌++◌, none, some, arith, ◌==◌, bytes_eq, if◌then◌else◌,
  if_cases, Option-cases, All, All-append, last?-concat,
}
use zns_mint.Prelude.Maps.{
  lookup, Distinct, bytes_order, lookup-insert, lookup-remove, Distinct-insert, Distinct-remove,
  All-insert, All-lookup,
}
use zns_mint.Name.{Name}
use zns_mint.Action
use zns_mint.Action.{Action, action_eq}
use zns_mint.Anchor.{AnchorPool}
use zns_mint.Registry.{
  Registry, NameRecord, empty, record_of, record_history, or_empty, set_record, live_at_end,
}

-- A chain under a name holds records of that name.
abbrev pub Named : Name × List NameRecord → Type 0
Named e = All (λ r. r.name ≡ e.0) e.1

-- Each name has one record and one chain; a chain is of its name; and a name is live exactly with
-- the record at the end of its chain, unless that one releases it.
pub record Coherent (s : Registry) : Type 0 where
  pub records_distinct : Distinct s.records
  pub history_distinct : Distinct s.history
  pub named : All Named s.history
  pub live : (n : Name) → record_of s n ≡ live_at_end (record_history s n)

-- What `set_record` does to the record of a name.
pub record_of-set_record :
    (s : Registry) (r : NameRecord) (n : Name)
    → record_of (set_record s r) n ≡ (
        if r.name == n
        then (if Action.is_release r.action then none else some r)
        else record_of s n)
unfolding set_record record_of
record_of-set_record s r n =
    ground (arith, lookup-insert r.name n r s.records, lookup-remove r.name n s.records)

-- What `set_record` does to the chain of a name.
pub record_history-set_record :
    (s : Registry) (r : NameRecord) (n : Name)
    → record_history (set_record s r) n
      ≡ (if r.name == n then record_history s n ++ r ∷ [] else record_history s n)
unfolding set_record record_history
record_history-set_record s r n =
    ground (arith, lookup-insert r.name n (or_empty (lookup r.name s.history) ++ r ∷ []) s.history)

live_at_end-concat :
    (rs : List NameRecord) (r : NameRecord)
    → live_at_end (rs ++ r ∷ []) ≡ (if Action.is_release r.action then none else some r)
live_at_end-concat rs r = ground (arith, last?-concat rs r)

pub history-Named :
    (s : Registry) (n : Name) → All Named s.history → All (λ r. r.name ≡ n) (record_history s n)
unfolding record_history
history-Named s n h = elim (Option-cases (lookup n s.history)) [
  | inl e ↦ rw e tt
  | inr (rs, e) ↦ rw e (All-lookup Named n s.history rs h e)
]

pub set_record-Coherent : (s : Registry) (r : NameRecord) → Coherent s → Coherent (set_record s r)
set_record-Coherent s r c = record {
  records_distinct =
      unfold set_record in
      if_cases Distinct (Action.is_release r.action) _ _
        (λ _. Distinct-remove r.name s.records c.records_distinct)
        (λ _. Distinct-insert r.name r s.records c.records_distinct);
  history_distinct = unfold set_record in Distinct-insert r.name _ s.history c.history_distinct;
  named =
      unfold set_record in
      All-insert Named r.name _ s.history
        (All-append (λ x. x.name ≡ r.name) _ (r ∷ []) (history-Named s r.name c.named) (refl, tt))
        c.named;
  live = λ n. ground (
    arith,
    record_of-set_record s r n,
    record_history-set_record s r n,
    live_at_end-concat (record_history s n) r,
    c.live n,
  );
}

-- The anchors play no part in coherence.
pub anchors-Coherent :
    (s : Registry) (p : AnchorPool) → Coherent s → Coherent (record s { anchors = p })
anchors-Coherent s p c = record {
  records_distinct = c.records_distinct;
  history_distinct = c.history_distinct;
  named = c.named;
  live = λ n. unfold record_of record_history in c.live n;
}

pub empty-Coherent : Coherent empty
empty-Coherent = record {
  records_distinct = tt;
  history_distinct = tt;
  named = tt;
  live = λ n. unfold record_of record_history lookup in refl;
}
