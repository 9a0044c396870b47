-- ===== src/Request/RoundTrip.antt =====
-- mint.rs: a request is read back from the text that a wallet writes for it.
use zns_mint.Prelude.{
  ℕ, ◌<◌, ◌≡◌, ◌≢◌, refl, ap, ◌∙◌, true, List, [], ◌∷◌, Option, none, some, arith, nat_eq, bytes_eq,
  codes, all, Bool, All, All-append, Bytes-discrete, ℕ_discrete,
}
use zns_mint.Text.{Bytes, is_digit}
use zns_mint.Text.Split.{split, join, Lacks, split-join}
use zns_mint.Chain.{Params, UnifiedAddress}
use zns_mint.Name
use zns_mint.Name.{Name, is_name_byte}
use zns_mint.Name.Laws.{parse_iff}
use zns_mint.Text.Decimal
use zns_mint.Term.{Term, forever, years, parse_term, strip_suffix}
use zns_mint.Term.Grammar.{term_field, InRange, parse_term-term_field}
use zns_mint.Otp.Code.{digits, all-digits, from_digits-digits}
use zns_mint.Request
use zns_mint.Request.{Request, claim, update, release, AccessCode}
use zns_mint.Request.Decode.{
  decode_name_and_ua, claim_lead, update_term, decode_claim, decode_update, decode_release,
  decode_verb, decode_zns, decode, fields,
}

abbrev pub TermInRange : Request → Type 0
TermInRange (claim n u term code) = InRange term
TermInRange (update n u none) = Unit {0}
TermInRange (update n u (some term)) = InRange term
TermInRange (release n u) = Unit {0}

abbrev pub CodeInRange : Request → Type 0
CodeInRange (claim n u term (some code)) = code < 1000000
CodeInRange (claim n u term none) = Unit {0}
CodeInRange (update n u term) = Unit {0}
CodeInRange (release n u) = Unit {0}

-- A request that a wallet can write: a name, a term in range, a code of six digits, and a shielded
-- address whose text has no separator.
pub record IsValid (params : Params) (r : Request) : Type 0 where
  pub parsed : Name.parse (Request.name r) ≡ some (Request.name r)
  pub term : TermInRange r
  pub code : CodeInRange r
  pub shielded : params.decode_controller (params.encode_ua (Request.ua r)) ≡ some (Request.ua r)
  pub text : params.encode_ua (Request.ua r) ≢ []
  pub plain : Lacks b':' (params.encode_ua (Request.ua r))

named_back :
    (params : Params) (n : Name) (u : UnifiedAddress) (s : Bytes)
    → Name.parse n ≡ some n
    → params.decode_controller s ≡ some u
    → s ≢ []
    → decode_name_and_ua params (n ∷ s ∷ []) ≡ some ((n, u), [])
unfolding decode_name_and_ua
named_back params n u [] e f ne = absurd (ne refl)
named_back params n u (c ∷ s) e f ne = ground arith

strip_suffix-digits : (s : Bytes) → all is_digit s ≡ true → strip_suffix b'y' s ≡ none
unfolding strip_suffix
strip_suffix-digits [] a = refl
strip_suffix-digits (x ∷ []) a = ground arith
strip_suffix-digits (x ∷ y ∷ s) a = ground (arith, strip_suffix-digits (y ∷ s))

not_forever : (s : Bytes) → all is_digit s ≡ true → s ≢ codes "forever"
not_forever [] a e = ground arith
not_forever (c ∷ s) a e = ground arith

parse_term-code : (code : AccessCode) → parse_term (digits code) ≡ none
unfolding parse_term
parse_term-code code = ground (
  arith,
  strip_suffix-digits (digits code) (all-digits code),
  not_forever (digits code) (all-digits code),
)

claim_back :
    (term : Term) (code : Option AccessCode) (n : Name) (u : UnifiedAddress)
    → TermInRange (claim n u term code)
    → CodeInRange (claim n u term code)
    → (rest : List Bytes)
    → claim_lead
        (elim code [ none ↦ term_field term ∷ rest | some c ↦ digits c ∷ term_field term ∷ rest ])
      ≡ some ((code, term), rest)
unfolding claim_lead
claim_back term none n u t c rest = ground (arith, parse_term-term_field term t)
claim_back term (some code) n u t c rest =
    ground (arith, parse_term-term_field term t, parse_term-code code, from_digits-digits code c)

parse_term-none : parse_term (codes "none") ≡ none
unfolding parse_term strip_suffix Bytes-discrete ℕ_discrete
parse_term-none = refl

parse_term-forever : parse_term (codes "forever") ≡ some forever
unfolding parse_term Bytes-discrete ℕ_discrete
parse_term-forever = refl

update_back :
    (n : Name) (u : UnifiedAddress) (term : Option Term)
    → TermInRange (update n u term)
    → update_term (elim term [ none ↦ codes "none" | some t ↦ term_field t ]) ≡ some term
unfolding update_term
update_back n u none t = ground arith
update_back n u (some term) t =
    ground (arith, parse_term-term_field term t, parse_term-none, parse_term-forever)

-- The fields of a request are read back.
decode_zns-fields :
    (params : Params) (r : Request)
    → IsValid params r
    → decode_zns (decode_verb params) (fields params r) ≡ some r
unfolding decode_zns decode_verb decode_claim decode_update decode_release fields
decode_zns-fields params (claim n u term none) v =
    let b = named_back params n u (params.encode_ua u) v.parsed v.shielded v.text in
    let c = claim_back term none n u v.term v.code (n ∷ params.encode_ua u ∷ []) in
    ground (arith, b, c)
decode_zns-fields params (claim n u term (some code)) v =
    let b = named_back params n u (params.encode_ua u) v.parsed v.shielded v.text in
    let c = claim_back term (some code) n u v.term v.code (n ∷ params.encode_ua u ∷ []) in
    ground (arith, b, c)
decode_zns-fields params (update n u none) v =
    let b = named_back params n u (params.encode_ua u) v.parsed v.shielded v.text in
    ground (arith, b, update_back n u none v.term)
decode_zns-fields params (update n u (some term)) v =
    let b = named_back params n u (params.encode_ua u) v.parsed v.shielded v.text in
    ground (arith, b, update_back n u (some term) v.term)
decode_zns-fields params (release n u) v =
    ground (arith, named_back params n u (params.encode_ua u) v.parsed v.shielded v.text)

pub Lacks-all :
    (p : ℕ → Bool) (s : Bytes) → ((c : ℕ) → p c ≡ true → c ≢ b':') → all p s ≡ true → Lacks b':' s
Lacks-all p [] f a = tt
Lacks-all p (c ∷ s) f a = (f c (ground arith), Lacks-all p s f (ground arith))

pub Lacks-name : (n : Bytes) → Name.parse n ≡ some n → Lacks b':' n
Lacks-name n e = Lacks-all is_name_byte n (λ c h. ground arith) ((parse_iff n n).0 e).3

pub Lacks-digits : (s : Bytes) → all is_digit s ≡ true → Lacks b':' s
Lacks-digits s a = Lacks-all is_digit s (λ c h. ground arith) a

Lacks-term_field : (t : Term) → Lacks b':' (term_field t)
unfolding term_field
Lacks-term_field forever = omega arith
Lacks-term_field (years n) =
    All-append (λ c. c ≢ b':') (Decimal.print n) (codes "y")
      (Lacks-digits (Decimal.print n) (Decimal.print-all n)) (omega arith)

fields-Lacks :
    (params : Params) (r : Request) → IsValid params r → All (Lacks b':') (fields params r)
unfolding fields
fields-Lacks params (claim n u term none) v =
    (omega arith, (omega arith, (Lacks-term_field term, (Lacks-name n v.parsed, (v.plain, tt)))))
fields-Lacks params (claim n u term (some code)) v = (
  omega arith,
  (
    omega arith,
    (
      Lacks-digits (digits code) (all-digits code),
      (Lacks-term_field term, (Lacks-name n v.parsed, (v.plain, tt))),
    ),
  ),
)
fields-Lacks params (update n u none) v =
    (omega arith, (omega arith, (omega arith, (Lacks-name n v.parsed, (v.plain, tt)))))
fields-Lacks params (update n u (some term)) v =
    (omega arith, (omega arith, (Lacks-term_field term, (Lacks-name n v.parsed, (v.plain, tt)))))
fields-Lacks params (release n u) v =
    (omega arith, (omega arith, (Lacks-name n v.parsed, (v.plain, tt))))

split-fields :
    (params : Params) (r : Request)
    → All (Lacks b':') (fields params r)
    → split b':' (join b':' (fields params r)) ≡ fields params r
unfolding fields
split-fields params (claim n u term none) a = split-join b':' _ _ a
split-fields params (claim n u term (some code)) a = split-join b':' _ _ a
split-fields params (update n u none) a = split-join b':' _ _ a
split-fields params (update n u (some term)) a = split-join b':' _ _ a
split-fields params (release n u) a = split-join b':' _ _ a

-- A request with a valid name, a term in range, an access code of six digits if any, and a
-- shielded address whose text is read back and holds no colon, is read back from the text that its
-- fields make.
pub decode-fields :
    (params : Params) (r : Request)
    → IsValid params r
    → decode params (join b':' (fields params r)) ≡ some r
unfolding decode
decode-fields params r v =
    ap (decode_zns (decode_verb params)) (split-fields params r (fields-Lacks params r v))
    ∙ decode_zns-fields params r v
