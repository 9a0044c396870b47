-- ===== src/Anchor/Laws.antt =====
-- mint/registry/anchor_pool.rs: authority is succeeded and never minted.
use zns_mint.Prelude.{
  ℕ, ◌+◌, ◌≤◌, ◌≡◌, refl, Bool, false, not, ◌&&◌, ◌||◌, List, [], ◌∷◌, Option, none, some, arith,
  leb, ltb, ◌==◌, nat_eq, if◌then◌else◌, if_cases, length, filter, All,
}
use zns_mint.Prelude.Maps.{retain, nat_order, All-insert, All-retain}
use zns_mint.Prelude.Sets.{
  contains, add, take_out, Unique, contains-add, contains-take_out, length-add, length-take_out,
  Unique-add, Unique-take_out,
}
use zns_mint.Chain.{Nullifier, BlockHeight}
use zns_mint.Anchor.{
  AnchorPool, anchor_pool_size, adopt, adoption_closed, is_full, retire_spent, truncate_to,
  retire_all, succeed, newest,
}

-- A set of anchors within the standing size.
abbrev pub IsPool : List Nullifier → Type 0
IsPool s = Unique s × (length s ≤ anchor_pool_size)

-- The live set, and each set that a rewind could bring back.
pub record IsValid (p : AnchorPool) : Type 0 where
  pub live : IsPool p.live
  pub kept : All (λ (e : BlockHeight × List Nullifier). IsPool e.1) p.checkpoints

retire_all-Unique : (s nfs : List Nullifier) (n : ℕ) → Unique s → Unique (retire_all s nfs n).0
unfolding retire_all
retire_all-Unique s [] n u = u
retire_all-Unique s (nf ∷ nfs) n u =
    retire_all-Unique (take_out nf s) nfs _ (Unique-take_out nf s u)

-- Each retirement takes one anchor away.
retire_all-length :
    (s nfs : List Nullifier) (n : ℕ)
    → length (retire_all s nfs n).0 + (retire_all s nfs n).1 ≡ length s + n
unfolding retire_all
retire_all-length s [] n = refl
retire_all-length s (nf ∷ nfs) n = ground (
  arith,
  retire_all-length (take_out nf s) nfs (if contains nf s then n + 1 else n),
  length-take_out nf s,
)

-- What is left is what was live and is not spent.
retire_all-contains :
    (s nfs : List Nullifier) (n : ℕ) (x : Nullifier)
    → Unique s
    → contains x (retire_all s nfs n).0 ≡ (contains x s && not (contains x nfs))
unfolding retire_all contains
retire_all-contains s [] n x u = ground arith
retire_all-contains s (nf ∷ nfs) n x u = ground (
  arith,
  retire_all-contains (take_out nf s) nfs (if contains nf s then n + 1 else n) x,
  Unique-take_out nf s u,
  contains-take_out nf x s u,
)

succeed-Unique :
    (s : List Nullifier) (n : ℕ) (successor : Option Nullifier)
    → Unique s
    → Unique (succeed s n successor)
unfolding succeed
succeed-Unique s n none u = u
succeed-Unique s n (some nf) u = ground (arith, Unique-add nf s u)

length-succeed :
    (s : List Nullifier) (n : ℕ) (successor : Option Nullifier)
    → length (succeed s n successor) ≤ length s + n
unfolding succeed
length-succeed s n none = omega arith
length-succeed s n (some nf) = ground (arith, length-add nf s)

-- The spends of a transaction never enlarge the live set, whatever successor it offers.
pub length-retire_spent :
    (p : AnchorPool) (nfs : List Nullifier) (successor : Option Nullifier) (h : BlockHeight)
    → length (retire_spent p nfs successor h).live ≤ length p.live
unfolding retire_spent
length-retire_spent p nfs successor h =
    let l = retire_all-length p.live nfs 0 in
    let m = length-succeed (retire_all p.live nfs 0).0 (retire_all p.live nfs 0).1 successor in
    ground arith

abbrev pub is_the : Option Nullifier → Nullifier → Bool
is_the none x = false
is_the (some nf) x = nf == x

-- In a valid pool, an anchor is live after the spends of a transaction exactly where it was live
-- and is not spent, or it is the successor that is offered and exactly one anchor retired.
pub contains-retire_spent :
    (p : AnchorPool) (nfs : List Nullifier) (successor : Option Nullifier) (h : BlockHeight)
    (x : Nullifier)
    → IsValid p
    → contains x (retire_spent p nfs successor h).live ≡ (
        (contains x p.live && not (contains x nfs))
        || ((retire_all p.live nfs 0).1 == 1 && is_the successor x))
unfolding retire_spent
contains-retire_spent p nfs none h x v =
    unfold succeed in ground (arith, retire_all-contains p.live nfs 0 x v.live.0)
contains-retire_spent p nfs (some nf) h x v =
    unfold succeed in
    ground (
      arith,
      retire_all-contains p.live nfs 0 x v.live.0,
      contains-add nf x (retire_all p.live nfs 0).0,
    )

-- The nullifiers of a transaction that are live anchors.
abbrev pub anchors_in : List Nullifier → List Nullifier → List Nullifier
anchors_in live nfs = filter (λ nf. contains nf live) nfs

anchors_in-take_out :
    (s nfs : List Nullifier) (nf : Nullifier)
    → Unique s
    → contains nf nfs ≡ false
    → anchors_in (take_out nf s) nfs ≡ anchors_in s nfs
unfolding contains
anchors_in-take_out s [] nf u h = refl
anchors_in-take_out s (x ∷ nfs) nf u h =
    ground (arith, anchors_in-take_out s nfs nf u, contains-take_out nf x s u)

-- Where no nullifier stands twice, the count of retirements is the count of live anchors among them.
pub retire_all-count :
    (s nfs : List Nullifier) (n : ℕ)
    → Unique s
    → Unique nfs
    → (retire_all s nfs n).1 ≡ length (anchors_in s nfs) + n
unfolding retire_all
retire_all-count s [] n u w = omega arith
retire_all-count s (nf ∷ nfs) n u w = ground (
  arith,
  retire_all-count (take_out nf s) nfs (if contains nf s then n + 1 else n),
  Unique-take_out nf s u,
  anchors_in-take_out s nfs nf u,
)

-- Adoption keeps the live set within the standing size.
pub adopt-IsValid :
    (p : AnchorPool) (h : BlockHeight) (nf : Nullifier) → IsValid p → IsValid (adopt p h nf)
unfolding adopt
adopt-IsValid p h nf v =
    if_cases IsValid (adoption_closed p || is_full p || contains nf p.live) p _ (λ _. v)
      λ e.
        let grown : IsPool (add nf p.live) =
          (Unique-add nf p.live v.live.0, ground (arith, length-add nf p.live)) in
        record {
          live = grown;
          kept =
              All-insert (λ (x : BlockHeight × List Nullifier). IsPool x.1) h _ p.checkpoints grown
                v.kept;
        }

pub retire_spent-IsValid :
    (p : AnchorPool) (nfs : List Nullifier) (successor : Option Nullifier) (h : BlockHeight)
    → IsValid p
    → IsValid (retire_spent p nfs successor h)
unfolding retire_spent
retire_spent-IsValid p nfs successor h v =
    if_cases IsValid (ltb 0 (retire_all p.live nfs 0).1) _ _
      (λ _. record {
        live = left;
        kept =
            All-insert (λ (x : BlockHeight × List Nullifier). IsPool x.1) h _ p.checkpoints left
              v.kept;
      })
      (λ _. record { live = left; kept = v.kept })
  where
    left : IsPool (succeed (retire_all p.live nfs 0).0 (retire_all p.live nfs 0).1 successor)
    left = (
      succeed-Unique _ _ successor (retire_all-Unique p.live nfs 0 v.live.0),
      omega (
        arith,
        length-succeed (retire_all p.live nfs 0).0 (retire_all p.live nfs 0).1 successor,
        retire_all-length p.live nfs 0,
        v.live.1,
      ),
    )

newest-IsPool :
    (m : List (BlockHeight × List Nullifier)) → All (λ e. IsPool e.1) m → IsPool (newest m)
newest-IsPool [] h = (tt, omega arith)
newest-IsPool (e ∷ []) h = h.0
newest-IsPool (e ∷ f ∷ m) h = newest-IsPool (f ∷ m) h.1

pub truncate_to-IsValid : (p : AnchorPool) (h : BlockHeight) → IsValid p → IsValid (truncate_to p h)
unfolding truncate_to
truncate_to-IsValid p h v = record { live = newest-IsPool _ kept; kept = kept }
  where
    kept :
        All
          (λ (e : BlockHeight × List Nullifier). IsPool e.1)
          (retain (λ k _. leb k h) p.checkpoints)
    kept = All-retain (λ (e : BlockHeight × List Nullifier). IsPool e.1) (λ k _. leb k h) _ v.kept
