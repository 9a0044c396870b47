-- ===== src/Registry/Authorize.antt =====
-- mint/registry.rs: what the mint may write next for a name.
use zns_mint.Prelude.{
  Bool, false, not, ◌&&◌, List, Option, none, some, ◌==◌, nat_eq, ltb, if◌then◌else◌, is_some,
  ◌>>=◌, some_if, map, filter, find,
}
use zns_mint.Chain.{Params, UnifiedAddress, Nullifier, NameCommitment, BlockHeight, Timestamp}
use zns_mint.Name.{Name}
use zns_mint.Term.{Expiry, Term, never, claim_expiry, extend, expiry_eq}
use zns_mint.Note
use zns_mint.Note.{NameNote}
use zns_mint.Note.Queue.{NameNoteQueue, note_pending}
use zns_mint.Request
use zns_mint.Request.{Request}
use zns_mint.Registry.{Registry, NameRecord, record_of, is_available, is_release_due}

-- `authorize_claim`
unfoldable pub authorize_claim :
    Params → Registry → Name → UnifiedAddress → Term → Timestamp → Option NameNote
authorize_claim params s n u term mtp =
    if not (is_available s n)
    then none
    else do e ← claim_expiry params term mtp; some (Note.claim n u e)

-- `authorize_update`, for the request of an answered challenge
unfoldable pub authorize_update : Params → Registry → Request → Timestamp → Option NameNote
authorize_update params s (Request.update n u term) mtp = do
  r ← record_of s n
  if is_release_due r mtp
      then none
      else do e ← extend params r.expires_at term mtp; some (Note.update n u e r.commitment)
authorize_update params s (Request.claim n u term code) mtp = none
authorize_update params s (Request.release n u) mtp = none

-- `authorize_release`, for the request of an answered challenge
unfoldable pub authorize_release : Registry → Request → Option NameNote
authorize_release s (Request.release n u) = do
  r ← record_of s n
  if not (r.ua == u) then none else some (Note.release n u r.commitment)
authorize_release s (Request.claim n u term code) = none
authorize_release s (Request.update n u term) = none

-- `sale_transfer`
unfoldable pub sale_transfer :
    Registry → Name → UnifiedAddress → Expiry → NameCommitment → Option NameNote
sale_transfer s n bob e held = do
  r ← record_of s n
  if not (r.commitment == held) then none else some (Note.sale n bob e r.commitment)

-- `NameRecord::is_challengeable`
unfoldable pub is_challengeable : NameRecord → BlockHeight → Timestamp → Bool
is_challengeable r trigger_height mtp_now =
    not (is_release_due r mtp_now) && ltb r.confirmed_height trigger_height

-- The match of `NameRecord::allows_challenge`.
unfoldable pub allows_verb : NameRecord → Request → Bool
allows_verb r (Request.update n u term) = not (r.expires_at == never && is_some term)
allows_verb r (Request.release n u) = u == r.ua
allows_verb r (Request.claim n u term code) = false

-- `NameRecord::allows_challenge`
unfoldable pub allows_challenge : NameRecord → Request → BlockHeight → Timestamp → Bool
allows_challenge r request trigger_height mtp_now =
    is_challengeable r trigger_height mtp_now && allows_verb r request

-- `authorize_challenge`
unfoldable pub authorize_challenge :
    Registry → NameNoteQueue → Request → BlockHeight → Timestamp → Option NameRecord
authorize_challenge s q request trigger_height mtp_now = do
  r ← record_of s (Request.name request)
  if note_pending q (Request.name request)
      then none
      else some_if (allows_challenge r request trigger_height mtp_now) r

-- `challengeable`
unfoldable pub challengeable :
    Registry → NameNoteQueue → Name → BlockHeight → Timestamp → Option NameRecord
challengeable s q n trigger_height mtp_now =
    if note_pending q n
    then none
    else do r ← record_of s n; some_if (is_challengeable r trigger_height mtp_now) r

-- `releases_due`: in the order of the names
unfoldable pub releases_due : Registry → Timestamp → List (Name × NameNote)
releases_due s mtp =
    map (λ e. (e.0, Note.release e.0 e.1.ua e.1.commitment))
      (filter (λ e. is_release_due e.1 mtp) s.records)

-- `spendable_claim_anchor`
unfoldable pub spendable_claim_anchor : Registry → (Nullifier → Bool) → Option Nullifier
spendable_claim_anchor s spendable = find spendable s.anchors.live
