-- ===== src/Anchor/Rewind.antt =====
-- mint/registry/anchor_pool.rs: a rewind undoes what happened above its height.
use zns_mint.Prelude.{◌<◌, ◌≡◌, List, Option, arith, leb}
use zns_mint.Prelude.Sets.{add}
use zns_mint.Prelude.Maps.{nat_order, retain-insert}
use zns_mint.Chain.{Nullifier, BlockHeight}
use zns_mint.Anchor.{AnchorPool, adopt, retire_spent, truncate_to, retire_all, succeed}

-- An adoption above `height` leaves no trace below it.
pub truncate_to-adopt :
    (p : AnchorPool) (nf : Nullifier) (height h : BlockHeight)
    → height < h
    → truncate_to (adopt p h nf) height ≡ truncate_to p height
unfolding truncate_to adopt
truncate_to-adopt p nf height h lt =
    ground (arith, retain-insert (λ k. leb k height) h (add nf p.live) p.checkpoints (ground arith))

-- Nor do the spends of a transaction above it.
pub truncate_to-retire_spent :
    (p : AnchorPool) (nfs : List Nullifier) (successor : Option Nullifier) (height h : BlockHeight)
    → height < h
    → truncate_to (retire_spent p nfs successor h) height ≡ truncate_to p height
unfolding truncate_to retire_spent
truncate_to-retire_spent p nfs successor height h lt = ground (
  arith,
  retain-insert (λ k. leb k height) h
      (succeed (retire_all p.live nfs 0).0 (retire_all p.live nfs 0).1 successor) p.checkpoints
      (ground arith),
)
