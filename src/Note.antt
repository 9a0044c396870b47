-- ===== src/Note.antt =====
-- mint/note.rs: the Name Note and its fields.
pub mod Codec
pub mod RoundTrip
pub mod Hash
pub mod Queue
pub mod Reconcile
pub mod Confirmed
use zns_mint.Prelude.{ℕ, Option, none, some, Eq, ℕ_discrete, Bytes-discrete}
use zns_mint.Chain.{UnifiedAddress, NameCommitment}
use zns_mint.Name.{Name}
use zns_mint.Action.{Action}
use zns_mint.Term.{Expiry, Expiry-discrete, never}

pub data NameNote : Type 0 where
  claim : Name → UnifiedAddress → Expiry → NameNote
  update : Name → UnifiedAddress → Expiry → NameCommitment → NameNote
  release : Name → UnifiedAddress → NameCommitment → NameNote
  sale : Name → UnifiedAddress → Expiry → NameCommitment → NameNote

unfoldable pub NameNote-discrete : Discrete NameNote
unfolding ℕ_discrete Bytes-discrete Expiry-discrete
NameNote-discrete = hlevel (ℕ_discrete, Expiry-discrete)

instance abbrev pub note_eq : Eq NameNote
note_eq = record { decides = NameNote-discrete }

abbrev pub name : NameNote → Name
name (claim n _ _) = n
name (update n _ _ _) = n
name (release n _ _) = n
name (sale n _ _ _) = n

abbrev pub action : NameNote → Action
action (claim _ _ _) = Action.claim
action (update _ _ _ _) = Action.update
action (release _ _ _) = Action.release
action (sale _ _ _ _) = Action.sale

abbrev pub ua : NameNote → UnifiedAddress
ua (claim _ u _) = u
ua (update _ u _ _) = u
ua (release _ u _) = u
ua (sale _ u _ _) = u

abbrev pub expires_at : NameNote → Option Expiry
expires_at (claim _ _ e) = some e
expires_at (update _ _ e _) = some e
expires_at (release _ _ _) = none
expires_at (sale _ _ e _) = some e

abbrev pub prev_rcm : NameNote → Option NameCommitment
prev_rcm (claim _ _ _) = none
prev_rcm (update _ _ _ p) = some p
prev_rcm (release _ _ p) = some p
prev_rcm (sale _ _ _ p) = some p

-- `self.expires_at().unwrap_or(Expiry::Never)`
abbrev pub expiry_or_never : NameNote → Expiry
expiry_or_never n = elim (expires_at n) [ none ↦ never | some e ↦ e ]
