-- ===== src/Anchor.antt =====
-- mint/registry/anchor_pool.rs: the pool of nullifiers that confer claim authority.
pub mod Laws
pub mod Rewind
use zns_mint.Prelude.{
  ℕ, ◌+◌, Bool, true, false, not, ◌&&◌, ◌||◌, List, [], ◌∷◌, Option, none, some, ◌==◌, nat_eq, ltb,
  leb, if◌then◌else◌, length, is_some, last?,
}
use zns_mint.Prelude.Maps.{insert, retain, nat_order}
use zns_mint.Prelude.Sets.{contains, add, take_out}
use zns_mint.Chain.{Nullifier, BlockHeight}

abbrev pub anchor_pool_size : ℕ
anchor_pool_size = 40

unfoldable pub is_ceremony_fill : ℕ → ℕ → Bool
is_ceremony_fill zero_value_outputs name_notes =
    zero_value_outputs == anchor_pool_size && name_notes == 0

pub record AnchorPool : Type 0 where
  pub live : List Nullifier
  pub checkpoints : List (BlockHeight × List Nullifier)
  pub established : Option BlockHeight

-- `AnchorPool::default`
abbrev pub empty : AnchorPool
empty = record { live = []; checkpoints = []; established = none }

abbrev pub is_full : AnchorPool → Bool
is_full p = leb anchor_pool_size (length p.live)

abbrev pub adoption_closed : AnchorPool → Bool
adoption_closed p = is_some p.established

unfoldable pub adopt : AnchorPool → BlockHeight → Nullifier → AnchorPool
adopt p height nf =
    if adoption_closed p || is_full p || contains nf p.live
    then p
    else let live = add nf p.live in
      record {
        live = live;
        checkpoints = insert height live p.checkpoints;
        established = if length live == anchor_pool_size then some height else p.established;
      }

-- The loop of `retire_spent`: the anchors left, and how many retired.
unfoldable pub retire_all : List Nullifier → List Nullifier → ℕ → List Nullifier × ℕ
retire_all live [] retired = (live, retired)
retire_all live (nf ∷ nfs) retired =
    retire_all (take_out nf live) nfs (if contains nf live then retired + 1 else retired)

-- The anchors after the successor has joined, if it joins.
unfoldable pub succeed : List Nullifier → ℕ → Option Nullifier → List Nullifier
succeed live retired none = live
succeed live retired (some nf) = if retired == 1 then add nf live else live

unfoldable pub retire_spent :
    AnchorPool → List Nullifier → Option Nullifier → BlockHeight → AnchorPool
unfolding retire_all succeed
retire_spent p nfs successor height =
    let left = retire_all p.live nfs 0 in
    let live = succeed left.0 left.1 successor in
    if ltb 0 left.1
    then record p { live = live; checkpoints = insert height live p.checkpoints }
    else record p { live = live }

-- The value under the greatest key.
abbrev newest : List (BlockHeight × List Nullifier) → List Nullifier
newest m = elim (last? m) [ none ↦ [] | some e ↦ e.1 ]

unfoldable pub truncate_to : AnchorPool → BlockHeight → AnchorPool
truncate_to p height =
    let kept = retain (λ h _. leb h height) p.checkpoints in
    record {
      live = newest kept;
      checkpoints = kept;
      established = elim p.established [
        | none ↦ none
        | some e ↦ if ltb height e then none else some e
      ];
    }
