-- ===== src/Registry/Authorized.antt =====
-- mint/registry.rs: what the mint authorizes is accepted when it confirms.
use zns_mint.Prelude.{
  ◌≡◌, true, false, List, [], ◌∷◌, Option, some, arith, bytes_eq, nat_eq, texts_eq, any,
  Option-cases, inl, inr,
}
use zns_mint.Prelude.Sets.{contains}
use zns_mint.Chain.{Params, BlockHeight, Nullifier, Timestamp, UnifiedAddress, NameCommitment}
use zns_mint.Name.{Name}
use zns_mint.Action.{action_eq}
use zns_mint.Term.{Term, Expiry, extend}
use zns_mint.Note
use zns_mint.Note.{NameNote}
use zns_mint.Request.{Request}
use zns_mint.Registry.{Registry, NameRecord, record_of}
use zns_mint.Registry.Authorize.{authorize_update, authorize_release, sale_transfer}
use zns_mint.Registry.Accept.{names_spent_by, accept_successor}
use zns_mint.Registry.Accepted.{accept_successor_iff}

-- What the mint may write after the record of a name: an answered update or release, or a sale.
pub data Authorized (params : Params) (s : Registry) (mtp : Timestamp) (note : NameNote)
    : Type 0 where
  updates :
      (q : Request) → authorize_update params s q mtp ≡ some note → Authorized params s mtp note
  releases : (q : Request) → authorize_release s q ≡ some note → Authorized params s mtp note
  sells :
      (n : Name) (bob : UnifiedAddress) (e : Expiry) (held : NameCommitment)
      → sale_transfer s n bob e held ≡ some note
      → Authorized params s mtp note

abbrev Follows : Registry → NameNote → Type 0
Follows s note =
    (r : NameRecord) × record_of s (Note.name note) ≡ some r
    × Note.prev_rcm note ≡ some r.commitment

update_form :
    (params : Params) (s : Registry) (n : Name) (u : UnifiedAddress) (term : Option Term)
    (mtp : Timestamp) (note : NameNote) (r : NameRecord)
    → record_of s n ≡ some r
    → authorize_update params s (Request.update n u term) mtp ≡ some note
    → (e : Expiry) × note ≡ Note.update n u e r.commitment
unfolding authorize_update
update_form params s n u term mtp note r f a =
    elim (Option-cases (extend params r.expires_at term mtp)) [
      | inl x ↦ ground arith
      | inr (e, x) ↦ (e, ground arith)
    ]

update-Follows :
    (params : Params) (s : Registry) (q : Request) (mtp : Timestamp) (note : NameNote)
    → authorize_update params s q mtp ≡ some note
    → Follows s note
unfolding authorize_update
update-Follows params s (Request.update n u term) mtp note a = elim (Option-cases (record_of s n)) [
  | inl f ↦ ground arith
  | inr (r, f) ↦
      let (e, x) = update_form params s n u term mtp note r f a in (r, ground arith, ground arith)
]
update-Follows params s (Request.claim n u term code) mtp note a = ground arith
update-Follows params s (Request.release n u) mtp note a = ground arith

release-Follows :
    (s : Registry) (q : Request) (note : NameNote)
    → authorize_release s q ≡ some note
    → Follows s note
unfolding authorize_release
release-Follows s (Request.release n u) note a = elim (Option-cases (record_of s n)) [
  | inl f ↦ ground arith
  | inr (r, f) ↦ (r, ground arith, ground arith)
]
release-Follows s (Request.claim n u term code) note a = ground arith
release-Follows s (Request.update n u term) note a = ground arith

sale-Follows :
    (s : Registry) (n : Name) (bob : UnifiedAddress) (e : Expiry) (held : NameCommitment)
    (note : NameNote)
    → sale_transfer s n bob e held ≡ some note
    → Follows s note
unfolding sale_transfer
sale-Follows s n bob e held note a = elim (Option-cases (record_of s n)) [
  | inl f ↦ ground arith
  | inr (r, f) ↦ (r, ground arith, ground arith)
]

Authorized-Follows :
    (params : Params) (s : Registry) (mtp : Timestamp) (note : NameNote)
    → Authorized params s mtp note
    → Follows s note
Authorized-Follows params s mtp note (updates q a) = update-Follows params s q mtp note a
Authorized-Follows params s mtp note (releases q a) = release-Follows s q note a
Authorized-Follows params s mtp note (sells n bob e held a) = sale-Follows s n bob e held note a

-- A note that the mint authorizes against the live record (for an answered update or release, or a
-- sale) is accepted, at any height and median time, when it confirms against that registry in a
-- transaction that spends the record of its name, no other record and no live anchor.
pub Authorized-accept_successor :
    (params : Params) (s : Registry) (note : NameNote) (nf : Nullifier) (nfs : List Nullifier)
    (h : BlockHeight) (now mtp : Timestamp)
    → Authorized params s now note
    → any (λ nf. contains nf s.anchors.live) nfs ≡ false
    → names_spent_by s nfs ≡ Note.name note ∷ []
    → (accept_successor params s note nf nfs h mtp).1 ≡ true
Authorized-accept_successor params s note nf nfs h now mtp a none_spent spent =
    let (r, e, p) = Authorized-Follows params s now note a in
    (accept_successor_iff params s note nf nfs h mtp).1 (r, none_spent, spent, e, p)
