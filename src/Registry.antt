-- ===== src/Registry.antt =====
-- mint/registry.rs: the records of the names, their history, the listings and the anchors.
pub mod Authorize
pub mod Accept
pub mod Listings
pub mod Coherence
pub mod Steps
pub mod Truncate
pub mod Invariant
pub mod Spent
pub mod Market
pub mod Accepted
pub mod Authorized
use zns_mint.Prelude.{
  ℕ, ◌+◌, Bool, true, false, not, ◌&&◌, ◌||◌, List, [], ◌∷◌, ◌++◌, Option, none, some, ◌==◌, nat_eq,
  ltb, leb, if◌then◌else◌, any, is_some, last?, ◌≡◌,
}
use zns_mint.Prelude.Maps.{lookup, insert, remove, retain, bytes_order}
use zns_mint.Chain.{Params, UnifiedAddress, Nullifier, NameCommitment, BlockHeight, Timestamp}
use zns_mint.Name.{Name}
use zns_mint.Action
use zns_mint.Action.{Action, action_eq}
use zns_mint.Term.{Expiry, expired, liveness_interval}
use zns_mint.Note
use zns_mint.Note.{NameNote, expiry_or_never}
use zns_mint.Note.Hash.{commitment}
use zns_mint.Anchor
use zns_mint.Anchor.{AnchorPool}
use zns_mint.Listing.{Listing}

pub record NameRecord : Type 0 where
  pub name : Name
  pub action : Action
  pub ua : UnifiedAddress
  pub expires_at : Expiry
  pub commitment : NameCommitment
  pub confirmed_height : BlockHeight
  pub release_deadline : Timestamp
  pub predecessor_nullifier : Nullifier

-- `NameRecord::has_expired`
abbrev pub has_expired : NameRecord → Timestamp → Bool
has_expired r mtp = expired r.expires_at mtp

-- `NameRecord::is_release_due`
abbrev pub is_release_due : NameRecord → Timestamp → Bool
is_release_due r mtp = has_expired r mtp || leb r.release_deadline mtp

-- `NameRecord::create`. The deadline is in range, since a median time is a u32.
unfoldable pub create : Params → NameNote → Nullifier → BlockHeight → Timestamp → NameRecord
create params note spent confirmed_height mtp = record {
  name = Note.name note;
  action = Note.action note;
  ua = Note.ua note;
  expires_at = expiry_or_never note;
  commitment = commitment params note;
  confirmed_height = confirmed_height;
  release_deadline = mtp + liveness_interval;
  predecessor_nullifier = spent;
}

pub record Registry : Type 0 where
  pub records : List (Name × NameRecord)
  pub history : List (Name × List NameRecord)
  pub listings : List (Name × Listing)
  pub anchors : AnchorPool

-- `Registry::new`
abbrev pub empty : Registry
empty = record { records = []; history = []; listings = []; anchors = Anchor.empty }

-- `Registry::record` and `Registry::record_history`
unfoldable pub record_of : Registry → Name → Option NameRecord
record_of s n = lookup n s.records

abbrev pub or_empty {ℓ} : {A : Type ℓ} → Option (List A) → List A
or_empty none = []
or_empty (some xs) = xs

unfoldable pub record_history : Registry → Name → List NameRecord
record_history s n = or_empty (lookup n s.history)

unfoldable pub is_available : Registry → Name → Bool
is_available s n = not (is_some (record_of s n))

-- `Registry::set_record`. A debug build also asserts that the heights of a name's records do not fall.
unfoldable pub set_record : Registry → NameRecord → Registry
unfolding record_history
set_record s r = record s {
  history = insert r.name (record_history s r.name ++ r ∷ []) s.history;
  records =
      if Action.is_release r.action then remove r.name s.records else insert r.name r s.records;
}

-- `while last.confirmed_height > height { pop }`
unfoldable pub pop_above : BlockHeight → List NameRecord → List NameRecord
pop_above height [] = []
pop_above height (r ∷ rs) = elim (pop_above height rs) [
  | [] ↦ if ltb height r.confirmed_height then [] else r ∷ []
  | x ∷ xs ↦ r ∷ x ∷ xs
]

-- The first loop of `truncate_to_height`.
unfoldable pub pop_history :
    BlockHeight → List (Name × List NameRecord) → List (Name × List NameRecord)
pop_history height [] = []
pop_history height ((n, rs) ∷ m) = elim (pop_above height rs) [
  | [] ↦ pop_history height m
  | x ∷ xs ↦ (n, x ∷ xs) ∷ pop_history height m
]

-- The record at the end of a chain, where it does not release the name.
abbrev pub live_at_end : List NameRecord → Option NameRecord
live_at_end rs = elim (last? rs) [
  | none ↦ none
  | some r ↦ if Action.is_release r.action then none else some r
]

-- The second loop of `truncate_to_height`.
unfoldable pub rebuild :
    List (Name × List NameRecord) → List (Name × NameRecord) → List (Name × NameRecord)
rebuild [] acc = acc
rebuild ((n, rs) ∷ m) acc =
    rebuild m (elim (live_at_end rs) [ none ↦ acc | some r ↦ insert r.name r acc ])

unfoldable pub truncate_to_height : Registry → BlockHeight → Registry
unfolding pop_history rebuild
truncate_to_height s height =
    let kept = pop_history height s.history in
    record s {
      history = kept;
      records = rebuild kept [];
      anchors = Anchor.truncate_to s.anchors height;
    }
