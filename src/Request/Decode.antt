-- ===== src/Request/Decode.antt =====
-- mint.rs: `Request::decode` on the text of a memo, with `decode_zns` and `decode_name_and_ua`; the
-- access code's text of mint/presale.rs.
use zns_mint.Prelude.{
  not, List, [], ◌∷◌, Option, none, some, ◌==◌, nat_eq, bytes_eq, if◌then◌else◌, ◌>>=◌, codes,
  length,
}
use zns_mint.Text.{Bytes}
use zns_mint.Text.Split.{split}
use zns_mint.Chain.{Params, UnifiedAddress}
use zns_mint.Name
use zns_mint.Name.{Name, is_name_byte}
use zns_mint.Term.{Term, forever, parse_term}
use zns_mint.Term.Grammar.{term_field}
use zns_mint.Otp.Code.{digits, from_digits}
use zns_mint.Request.{Request, claim, update, release, AccessCode}

-- The fields that a parser has not read stand behind its value.
abbrev Rest : Type 0 → Type 0
Rest A = Option (A × List Bytes)

-- `decode_name_and_ua`
unfoldable pub decode_name_and_ua :
    Params → List Bytes → Option ((Name × UnifiedAddress) × List Bytes)
decode_name_and_ua params [] = none
decode_name_and_ua params (n ∷ []) = none
decode_name_and_ua params (n ∷ u ∷ rest) = do
  n' ← Name.parse n
  if length u == 0 then none else do u' ← params.decode_controller u; some ((n', u'), rest)

-- `AccessCode::parse` has the text of a passcode.
abbrev pub parse_code : Bytes → Option AccessCode
parse_code = from_digits

-- The first fields of a claim: a term, or a code and a term.
unfoldable pub claim_lead : List Bytes → Option ((Option AccessCode × Term) × List Bytes)
claim_lead [] = none
claim_lead (first ∷ rest) = elim (parse_term first) [
  | some term ↦ some ((none, term), rest)
  | none ↦ do
    code ← parse_code first
    elim rest [
      | [] ↦ none
      | next ∷ rest' ↦ do term ← parse_term next; some ((some code, term), rest')
    ]
]

-- The term of an update.
unfoldable pub update_term : Bytes → Option (Option Term)
update_term field =
    if field == codes "none"
    then some none
    else if field == codes "forever"
    then some (some forever)
    else do term ← parse_term field; some (some term)

-- The three arms of the match on the verb in `Request::decode`.
unfoldable pub decode_claim : Params → List Bytes → Option (Request × List Bytes)
unfolding decode_name_and_ua claim_lead
decode_claim params fields = do
  lead ← claim_lead fields
  named ← decode_name_and_ua params lead.1
  some (claim named.0.0 named.0.1 lead.0.1 lead.0.0, named.1)

unfoldable pub decode_update : Params → List Bytes → Option (Request × List Bytes)
unfolding decode_name_and_ua update_term
decode_update params [] = none
decode_update params (first ∷ rest) = do
  term ← update_term first
  named ← decode_name_and_ua params rest
  some (update named.0.0 named.0.1 term, named.1)

unfoldable pub decode_release : Params → List Bytes → Option (Request × List Bytes)
unfolding decode_name_and_ua
decode_release params fields = do
  named ← decode_name_and_ua params fields
  some (release named.0.0 named.0.1, named.1)

unfoldable pub decode_verb : Params → Bytes → List Bytes → Option (Request × List Bytes)
unfolding decode_claim decode_update decode_release
decode_verb params verb fields =
    if verb == codes "claim"
    then decode_claim params fields
    else if verb == codes "update"
    then decode_update params fields
    else if verb == codes "release"
    then decode_release params fields
    else none

-- `decode_zns`: a field that is left unread refuses the memo.
unfoldable pub decode_zns :
    {A : Type 0} → (Bytes → List Bytes → Option (A × List Bytes)) → List Bytes → Option A
decode_zns parse [] = none
decode_zns parse (tag ∷ []) = none
decode_zns parse (tag ∷ verb ∷ fields) =
    if not (tag == codes "ZNS")
    then none
    else do x ← parse verb fields; if length x.1 == 0 then some x.0 else none

-- `Request::decode`, on the text that the memo library gives
unfoldable pub decode : Params → Bytes → Option Request
unfolding decode_zns decode_verb
decode params text = decode_zns (decode_verb params) (split b':' text)

-- The fields that a wallet writes for a request.
unfoldable pub fields : Params → Request → List Bytes
fields params (claim n u term none) =
    codes "ZNS" ∷ codes "claim" ∷ term_field term ∷ n ∷ params.encode_ua u ∷ []
fields params (claim n u term (some code)) =
    codes "ZNS" ∷ codes "claim" ∷ digits code ∷ term_field term ∷ n ∷ params.encode_ua u ∷ []
fields params (update n u none) =
    codes "ZNS" ∷ codes "update" ∷ codes "none" ∷ n ∷ params.encode_ua u ∷ []
fields params (update n u (some term)) =
    codes "ZNS" ∷ codes "update" ∷ term_field term ∷ n ∷ params.encode_ua u ∷ []
fields params (release n u) = codes "ZNS" ∷ codes "release" ∷ n ∷ params.encode_ua u ∷ []
