-- ===== src/Request.antt =====
-- mint.rs: a name request, decoded before authorization.
pub mod Decode
pub mod RoundTrip
use zns_mint.Prelude.{ℕ, Option, Eq, ℕ_discrete, Bytes-discrete}
use zns_mint.Chain.{UnifiedAddress}
use zns_mint.Name.{Name}
use zns_mint.Action.{Action}
use zns_mint.Term.{Term, Term-discrete}

-- The number that a six-digit access code stands for.
abbrev pub AccessCode : Type 0
AccessCode = ℕ

pub data Request : Type 0 where
  claim : Name → UnifiedAddress → Term → Option AccessCode → Request
  update : Name → UnifiedAddress → Option Term → Request
  release : Name → UnifiedAddress → Request

unfoldable pub Request-discrete : Discrete Request
unfolding ℕ_discrete Bytes-discrete Term-discrete
Request-discrete = hlevel (ℕ_discrete, Term-discrete)

instance abbrev pub request_eq : Eq Request
request_eq = record { decides = Request-discrete }

abbrev pub name : Request → Name
name (claim n _ _ _) = n
name (update n _ _) = n
name (release n _) = n

abbrev pub action : Request → Action
action (claim _ _ _ _) = Action.claim
action (update _ _ _) = Action.update
action (release _ _) = Action.release

abbrev pub ua : Request → UnifiedAddress
ua (claim _ u _ _) = u
ua (update _ u _) = u
ua (release _ u) = u
