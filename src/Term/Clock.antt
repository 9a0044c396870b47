-- ===== src/Term/Clock.antt =====
-- mint/note.rs: what a term does to an expiry.
use zns_mint.Prelude.{ℕ, ◌+◌, ◌*◌, ◌≤◌, ◌≡◌, ◌≢◌, refl, ap, false, Option, none, some, arith}
use zns_mint.Chain.{Params, Timestamp}
use zns_mint.Term.{
  Expiry, never, at, Term, forever, years, extend, claim_expiry, expired, liveness_interval,
  max_term_years,
}

-- The rule for an extension: an update with no term keeps the expiry, one with years moves a fixed
-- expiry by so many years, and one with `forever` drops a fixed expiry. A registration with no
-- fixed expiry takes no term.
pub data Extends (e : Expiry) (term : Option Term) (e' : Expiry) : Type 0 where
  keeps : term ≡ none → e' ≡ e → Extends e term e'
  banks :
      (t n : ℕ)
      → e ≡ at t
      → term ≡ some (years n)
      → e' ≡ at (t + n * liveness_interval)
      → Extends e term e'
  upgrades : (t : ℕ) → e ≡ at t → term ≡ some forever → e' ≡ never → Extends e term e'

-- An expiry lies no more than 99 years ahead.
abbrev pub InHorizon : Expiry → Timestamp → Type 0
InHorizon never mtp = Unit {0}
InHorizon (at t) mtp = t ≤ mtp + max_term_years * liveness_interval

-- An expiry is a time that a `Timestamp` can hold.
abbrev pub Fits : Params → Expiry → Type 0
Fits params never = Unit {0}
Fits params (at t) = t ≤ params.last_second

extend-Extends :
    (params : Params) (e : Expiry) (term : Option Term) (mtp : Timestamp) {e' : Expiry}
    → extend params e term mtp ≡ some e'
    → Extends e term e'
unfolding extend
extend-Extends params never none mtp h = keeps refl (ground arith)
extend-Extends params (at t) none mtp h = keeps refl (ground arith)
extend-Extends params never (some term) mtp h = cc
extend-Extends params (at t) (some forever) mtp h = upgrades t refl refl (ground arith)
extend-Extends params (at t) (some (years n)) mtp h = banks t n refl refl (ground arith)

extend-InHorizon :
    (params : Params) (e : Expiry) (term : Option Term) (mtp : Timestamp) (e' : Expiry)
    → extend params e term mtp ≡ some e'
    → InHorizon e' mtp
unfolding extend
extend-InHorizon params never none mtp never h = tt
extend-InHorizon params e term mtp never h = tt
extend-InHorizon params never none mtp (at u) h = ground arith
extend-InHorizon params (at t) none mtp (at u) h = ground arith
extend-InHorizon params never (some term) mtp (at u) h = ground arith
extend-InHorizon params (at t) (some forever) mtp (at u) h = ground arith
extend-InHorizon params (at t) (some (years n)) mtp (at u) h = ground arith

-- An expiry that `extend` returns follows the rule for the term asked (no term keeps it, years
-- move a fixed one on, `forever` drops a fixed one), and lies no more than 99 years after the
-- median time.
pub extend_sound :
    (params : Params) (e : Expiry) (term : Option Term) (mtp : Timestamp) {e' : Expiry}
    → extend params e term mtp ≡ some e'
    → Extends e term e' × InHorizon e' mtp
extend_sound params e term mtp {e'} h =
    (extend-Extends params e term mtp h, extend-InHorizon params e term mtp e' h)

-- `extend` returns every expiry that follows the rule for the term, lies no more than 99 years
-- after the median time, and fits a `Timestamp`.
pub extend_complete :
    (params : Params) (e : Expiry) (term : Option Term) (mtp : Timestamp) (e' : Expiry)
    → Extends e term e'
    → InHorizon e' mtp
    → Fits params e'
    → extend params e term mtp ≡ some e'
unfolding extend
extend_complete params never term mtp e' (keeps p q) h f = ground arith
extend_complete params (at t) term mtp never (keeps p q) h f = ground arith
extend_complete params (at t) term mtp (at u) (keeps p q) h f = ground arith
extend_complete params e term mtp never (banks t n p q r) h f = ground arith
extend_complete params e term mtp (at u) (banks t n p q r) h f = ground arith
extend_complete params e term mtp e' (upgrades t p q r) h f = ground arith

-- What had not expired at a time before `extend` has not expired at that time after it.
pub extend_not_expired :
    (params : Params) (e : Expiry) (term : Option Term) (mtp now : Timestamp) (e' : Expiry)
    → extend params e term mtp ≡ some e'
    → expired e now ≡ false
    → expired e' now ≡ false
unfolding extend
extend_not_expired params never none mtp now e' h k = ground arith
extend_not_expired params (at t) none mtp now e' h k = ground arith
extend_not_expired params never (some term) mtp now e' h k = ground arith
extend_not_expired params (at t) (some forever) mtp now e' h k = ground arith
extend_not_expired params (at t) (some (years n)) mtp now e' h k = ground arith

-- The expiry of a claim, for a term other than zero years, has not passed at the median time of
-- the claim.
pub claim_expiry_not_expired :
    (params : Params) (term : Term) (mtp : Timestamp) (e : Expiry)
    → term ≢ years 0
    → claim_expiry params term mtp ≡ some e
    → expired e mtp ≡ false
unfolding claim_expiry
claim_expiry_not_expired params forever mtp e nz h = ground arith
claim_expiry_not_expired params (years n) mtp e nz h = ground (arith, positive)
  where
    positive : n ≢ 0
    positive z = nz (ap years z)
