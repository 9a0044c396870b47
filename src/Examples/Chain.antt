-- ===== src/Examples/Chain.antt =====
-- The registry and its neighbours on a short chain: one claim, then one update of it.
use zns_mint.Prelude.{
  ℕ, ◌+◌, ◌<◌, All, filter, last?, false, ◌≡◌, ◌↔◌, refl, true, false, [], ◌∷◌, none, some, arith,
  any, is_some, if◌then◌else◌, ◌==◌, bytes_eq, nat_eq, ℕ_discrete, Bytes-discrete,
}
use zns_mint.Prelude.Sets.{contains}
use zns_mint.Prelude.Maps.{lookup, bytes_order}
use zns_mint.Term.{at, years}
use zns_mint.Note
use zns_mint.Action
use zns_mint.Note.{NameNote}
use zns_mint.Anchor
use zns_mint.Anchor.{AnchorPool}
use zns_mint.Anchor.Laws
use zns_mint.Registry
use zns_mint.Registry.{
  Registry, NameRecord, record_of, record_history, create, truncate_to_height, pop_above,
}
use zns_mint.Registry.Accept.{
  Confirmed, confirm, successor_of, accept_note, accept_claim, accept_successor, names_spent_by,
  spends_one_anchor, built_before_release, follow_spends,
}
use zns_mint.Registry.Coherence.{empty-Coherent, anchors-Coherent}
use zns_mint.Registry.Invariant
use zns_mint.Registry.Invariant.{
  Agree, confirm-IsValid, truncate_to_height-IsValid, truncate_to_height-confirm,
}
use zns_mint.Registry.Spent.{record_of-follow_spends, is_spent}
use zns_mint.Registry.Accepted.{
  recorded, accept_note-record, accept_successor_iff, accept_claim_iff,
}
use zns_mint.Registry.Authorized.{updates, Authorized-accept_successor}
use zns_mint.Request.{Request}
use zns_mint.Registry.Authorize.{authorize_update}
use zns_mint.Term.{extend}
use zns_mint.Examples.{small}
use zns_mint.Examples.Notes.{alice, moved}

abbrev pub seeded : AnchorPool
seeded = record { live = 10 ∷ 20 ∷ []; checkpoints = (1, 10 ∷ 20 ∷ []) ∷ []; established = some 1 }

abbrev start : Registry
start = record Registry.empty { anchors = seeded }

pub seeded-IsValid : Anchor.Laws.IsValid seeded
unfolding contains ℕ_discrete
seeded-IsValid = record {
  live = ((refl, (refl, tt)), omega arith);
  kept = (((refl, (refl, tt)), omega arith), tt);
}

start-IsValid : Invariant.IsValid start
start-IsValid = record {
  coherent = anchors-Coherent Registry.empty seeded empty-Coherent;
  pool = seeded-IsValid;
}

abbrev claimed : NameNote
claimed = Note.claim alice 1 (at 1000)

abbrev claim_tx : Confirmed
claim_tx = record {
  notes = (claimed, 100) ∷ [];
  spends = 10 ∷ [];
  outputs = (0, some 11) ∷ [];
  expiry = 50;
}

confirm-IsValid_example : Invariant.IsValid (confirm small start claim_tx 5 77)
confirm-IsValid_example = confirm-IsValid small start claim_tx 5 77 start-IsValid

truncate_to_height-IsValid_example :
    Invariant.IsValid (truncate_to_height (confirm small start claim_tx 5 77) 5)
truncate_to_height-IsValid_example =
    truncate_to_height-IsValid (confirm small start claim_tx 5 77) 5
      (confirm-IsValid small start claim_tx 5 77 start-IsValid)

truncate_to_height-confirm_example :
    Agree (truncate_to_height (confirm small start claim_tx 5 77) 4) (truncate_to_height start 4)
truncate_to_height-confirm_example =
    truncate_to_height-confirm small start claim_tx 5 4 77 start-IsValid (omega arith)

-- The registry where the claim is recorded.
abbrev held : NameRecord
held = create small claimed 100 5 77

abbrev pub owned : Registry
owned = record start { records = (alice, held) ∷ []; history = (alice, held ∷ []) ∷ [] }

accept_claim_iff_example :
    (accept_claim small start claimed 100 (some 11) (10 ∷ []) 5 77 50).1 ≡ true ↔ (
      is_some {A = ℕ} (some 11) ≡ true
      × ((a : ℕ) × filter (λ n. contains n start.anchors.live) (10 ∷ []) ≡ a ∷ [])
      × All (λ e. contains e.1.predecessor_nullifier (10 ∷ []) ≡ false) start.records
      × record_of start alice ≡ none
      × ((r : NameRecord)
          → last? (record_history start alice) ≡ some r
          → r.action ≡ Action.release
          → r.confirmed_height + small.expiry_delta r.confirmed_height < 50))
accept_claim_iff_example = accept_claim_iff small start claimed 100 (some 11) (10 ∷ []) 5 77 50

accepts : (accept_note small start claimed 100 claim_tx 5 77).1 ≡ true
unfolding accept_note successor_of record_of lookup record_history contains ℕ_discrete
    built_before_release spends_one_anchor
accepts = refl

accept_note-record_example :
    record_of (accept_note small start claimed 100 claim_tx 5 77).0 alice
    ≡ (if alice == alice then recorded small claimed 100 5 77 else record_of start alice)
accept_note-record_example = accept_note-record small start claimed 100 claim_tx 5 77 alice accepts

accept_successor_iff_example : (accept_successor small owned moved 200 (100 ∷ []) 6 99).1 ≡ true ↔ (
    (r : NameRecord) × any (λ nf. contains nf owned.anchors.live) (100 ∷ []) ≡ false
    × names_spent_by owned (100 ∷ []) ≡ alice ∷ []
    × record_of owned alice ≡ some r
    × Note.prev_rcm moved ≡ some r.commitment)
accept_successor_iff_example = accept_successor_iff small owned moved 200 (100 ∷ []) 6 99

-- An answered request for another year.
abbrev asked : Request
asked = Request.update alice 2 (some (years 1))

abbrev answer : NameNote
answer = Note.update alice 2 (at (1000 + 31557600)) held.commitment

answered : authorize_update small owned asked 90 ≡ some answer
unfolding authorize_update record_of lookup extend ℕ_discrete Bytes-discrete create
answered = refl

none_spent : any (λ nf. contains nf owned.anchors.live) (100 ∷ []) ≡ false
unfolding contains ℕ_discrete
none_spent = refl

only_alice : names_spent_by owned (100 ∷ []) ≡ alice ∷ []
unfolding names_spent_by contains create ℕ_discrete
only_alice = refl

Authorized-accept_successor_example :
    (accept_successor small owned answer 200 (100 ∷ []) 6 99).1 ≡ true
Authorized-accept_successor_example =
    Authorized-accept_successor small owned answer 200 (100 ∷ []) 6 90 99 (updates asked answered)
      none_spent only_alice

abbrev after : Registry
after = confirm small start claim_tx 5 77

record_of-follow_spends_example :
    record_of (follow_spends after (100 ∷ []) 6) alice
    ≡ (if is_spent (record_of after alice) (100 ∷ []) then none else record_of after alice)
record_of-follow_spends_example =
    record_of-follow_spends after (100 ∷ []) alice 6
      (confirm-IsValid small start claim_tx 5 77 start-IsValid).coherent
