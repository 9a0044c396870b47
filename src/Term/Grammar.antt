-- ===== src/Term/Grammar.antt =====
-- mint/note.rs: the texts of expiries and terms are canonical: each value has one text.
use zns_mint.Prelude.{
  ℕ, zero, suc, ◌≤◌, ◌≡◌, refl, ◌≢◌, inl, inr, true, false, [], ◌∷◌, ◌++◌, some, arith, length, all,
  codes, Option-cases, ◌==◌, nat_eq, bytes_eq, Bytes-discrete, ltb, ◌&&◌,
}
use zns_mint.Text.{Bytes, is_digit}
use zns_mint.Text.Decimal
use zns_mint.Text.Decimal.{first_is}
use zns_mint.Text.Decimal.Canonical.{print-parse}
use zns_mint.Text.Decimal.Length.{length-print}
use zns_mint.Chain.{Params}
use zns_mint.Term.{
  Expiry, never, at, Term, forever, years, field_bytes, parse_expiry, parse_term, strip_suffix,
  max_i64, max_u64,
}

-- The text of a term in a request.
unfoldable pub term_field : Term → Bytes
term_field forever = codes "forever"
term_field (years n) = Decimal.print n ++ codes "y"

strip_suffix-concat : (b : ℕ) (s : Bytes) → strip_suffix b (s ++ b ∷ []) ≡ some s
unfolding strip_suffix
strip_suffix-concat b [] = ground arith
strip_suffix-concat b (c ∷ []) = ground arith
strip_suffix-concat b (c ∷ d ∷ s) = ground (arith, strip_suffix-concat b (d ∷ s))

concat-strip_suffix : (b : ℕ) (s r : Bytes) → strip_suffix b s ≡ some r → s ≡ r ++ b ∷ []
unfolding strip_suffix
concat-strip_suffix b [] r h = cc
concat-strip_suffix b (c ∷ []) r h = ground arith
concat-strip_suffix b (c ∷ d ∷ s) r h = elim (Option-cases (strip_suffix b (d ∷ s))) [
  | inl e ↦ ground arith
  | inr (q, e) ↦ ground (arith, concat-strip_suffix b (d ∷ s) q e)
]

-- What `Expiry` can hold of a time.
abbrev pub Representable : Params → Expiry → Type 0
Representable params never = Unit {0}
Representable params (at t) = (t ≤ params.last_second) × (t ≤ max_i64)

print-ne-none : (n : ℕ) → (Decimal.print n == codes "none") ≡ false
print-ne-none n = ground (arith, Decimal.print-all n, clash (Decimal.print n))
  where
    clash : (s : Bytes) → s ≡ codes "none" → all is_digit s ≡ false
    clash s e = rw e

pub print_no_zero :
    (t : ℕ) → (ltb 1 (length (Decimal.print t)) && first_is b'0' (Decimal.print t)) ≡ false
print_no_zero zero = unfold Decimal.print in ground arith
print_no_zero (suc t) = ground (arith, Decimal.print-first (suc t))

-- The text of an expiry that is representable (`none`, or a second that both an i64 and a
-- `Timestamp` hold) is read back as that expiry.
pub parse_expiry-field_bytes :
    (params : Params) (e : Expiry)
    → Representable params e
    → parse_expiry params (field_bytes e) ≡ some e
unfolding parse_expiry field_bytes
parse_expiry-field_bytes params never r = unfold Bytes-discrete in refl
parse_expiry-field_bytes params (at t) r =
    rw (print-ne-none t, Decimal.print-all t, print_no_zero t)
      (ground (
        arith,
        Decimal.parse-print max_i64 t r.1,
        length-print t 19 (omega arith),
        Decimal.print-ne-nil t,
        nonempty (Decimal.print t),
      ))
  where
    nonempty : (s : Bytes) → s ≢ [] → (length s == 0) ≡ false
    nonempty [] h = absurd (h refl)
    nonempty (c ∷ s) h = ground arith

-- A text that reads as an expiry is the text that the expiry is written to.
pub field_bytes-parse_expiry :
    (params : Params) (s : Bytes) (e : Expiry) → parse_expiry params s ≡ some e → field_bytes e ≡ s
unfolding parse_expiry field_bytes
field_bytes-parse_expiry params s never h = ground arith
field_bytes-parse_expiry params s (at t) h = ground (arith, print-parse max_i64 s t)

-- A term that a request can name: `forever`, or one to 99 years.
abbrev pub InRange : Term → Type 0
InRange forever = Unit {0}
InRange (years n) = (1 ≤ n) × (n ≤ 99)

-- The text of a term in range (`forever`, or one to 99 years) is read back as that term.
pub parse_term-term_field : (t : Term) → InRange t → parse_term (term_field t) ≡ some t
unfolding parse_term term_field
parse_term-term_field forever r = unfold Bytes-discrete in refl
parse_term-term_field (years n) r = ground (
  arith,
  strip_suffix-concat b'y' (Decimal.print n),
  Decimal.print-all n,
  Decimal.print-first n,
  Decimal.parse-print max_u64 n (omega arith),
  Decimal.print-ne-nil n,
  nonempty (Decimal.print n),
  not_forever (Decimal.print n),
)
  where
    nonempty : (s : Bytes) → s ≢ [] → (length s == 0) ≡ false
    nonempty [] h = absurd (h refl)
    nonempty (c ∷ s) h = ground arith

    not_forever : (s : Bytes) → all is_digit s ≡ true → s ++ codes "y" ≢ codes "forever"
    not_forever [] h = λ e. cc
    not_forever (c ∷ s) h = λ e. ground arith

-- A text that reads as a term is the one text of that term, and the term is `forever` or one to 99
-- years.
pub term_field-parse_term :
    (s : Bytes) (t : Term) → parse_term s ≡ some t → (term_field t ≡ s) × InRange t
unfolding parse_term term_field
term_field-parse_term s forever h = (ground arith, tt)
term_field-parse_term s (years n) h = elim (Option-cases (strip_suffix b'y' s)) [
  | inl e ↦ ground arith
  | inr (r, e) ↦ ground (arith, concat-strip_suffix b'y' s r e, print-parse max_u64 r n)
]
