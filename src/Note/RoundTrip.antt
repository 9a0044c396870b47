-- ===== src/Note/RoundTrip.antt =====
-- mint/note.rs: a valid note is read back from its memo, and a memo that reads as a note is that
-- note's memo.
use zns_mint.Prelude.{
  ℕ, zero, suc, ◌-◌, ◌<◌, ◌≤◌, ◌≡◌, refl, ◌≢◌, Bool, true, false, not, List, [], ◌∷◌, ◌++◌, some,
  ◌==◌, nat_eq, bytes_eq, all, any, length, replicate, codes, All, All-append, arith, ==_refl,
  length-append, length-replicate,
}
use zns_mint.Text.{Bytes, is_digit}
use zns_mint.Text.Split.{split, join, Lacks, split-join}
use zns_mint.Text.Decimal
use zns_mint.Text.Hex
use zns_mint.Text.Hex.{is_hex}
use zns_mint.Text.Utf8.{is_utf8_ascii}
use zns_mint.Chain.{Params, Lawful, UnifiedAddress, NameCommitment, commitment_bound}
use zns_mint.Name
use zns_mint.Name.{Name, is_name_byte}
use zns_mint.Name.Laws.{parse_iff}
use zns_mint.Action
use zns_mint.Action.{Action, action_eq, parse-as_str}
use zns_mint.Term.{Expiry, never, at, field_bytes, expiry_eq}
use zns_mint.Term.Grammar.{Representable, parse_expiry-field_bytes}
use zns_mint.Note.{NameNote, claim, update, release, sale, name, action, ua, expiry_or_never}
use zns_mint.Note.Codec.{
  memo_len, zero32, prev_bytes, fields, memo_text, encode, before_nul, from_nul, build,
  decode_fields, decode,
}

-- A byte that does not end a field or the text.
abbrev pub Plain : ℕ → Type 0
Plain c = (c ≢ b':') × (c < 0x80) × (c ≢ 0)

abbrev Text : ℕ → Type 0
Text c = (c < 0x80) × (c ≢ 0)

-- A scalar whose bytes are not all zero.
abbrev pub IsPredecessor : Params → NameCommitment → Type 0
IsPredecessor params p = (p < commitment_bound) × (params.commitment_bytes p ≢ zero32)

-- A predecessor of its own: none for a claim, and not the zero commitment for the others.
abbrev pub HasPredecessor : Params → NameNote → Type 0
HasPredecessor params (claim n u e) = Unit {0}
HasPredecessor params (update n u e p) = IsPredecessor params p
HasPredecessor params (release n u p) = IsPredecessor params p
HasPredecessor params (sale n u e p) = IsPredecessor params p

-- What the mint's construction of a note gives: a parsed name, an expiry in range, a predecessor
-- where there is one, and a text that fits the memo.
pub record IsValid (params : Params) (n : NameNote) : Type 0 where
  pub parsed : Name.parse (name n) ≡ some (name n)
  pub representable : Representable params (expiry_or_never n)
  pub predecessor : HasPredecessor params n
  pub fits : length (memo_text params n) ≤ memo_len

All-all :
    (P : ℕ → Type 0) (p : ℕ → Bool) (s : Bytes)
    → ((c : ℕ) → p c ≡ true → P c)
    → all p s ≡ true
    → All P s
All-all P p [] f h = tt
All-all P p (c ∷ s) f h = (f c (ground arith), All-all P p s f (ground arith))

All-map {ℓ κ} :
    {P : ℕ → Type ℓ} {Q : ℕ → Type κ} (s : Bytes) → ((c : ℕ) → P c → Q c) → All P s → All Q s
All-map [] f h = tt
All-map (c ∷ s) f h = (f c h.0, All-map s f h.1)

name-Plain : (s : Bytes) → Name.parse s ≡ some s → All Plain s
name-Plain s h = All-all Plain is_name_byte s (λ c e. ground arith) (((parse_iff s s).0 h).3)

digits-Plain : (s : Bytes) → all is_digit s ≡ true → All Plain s
digits-Plain s h = All-all Plain is_digit s (λ c e. ground arith) h

hex-Plain : (s : Bytes) → all is_hex s ≡ true → All Plain s
hex-Plain s h = All-all Plain is_hex s (λ c e. ground arith) h

expiry-Plain : (e : Expiry) → All Plain (field_bytes e)
unfolding field_bytes
expiry-Plain never = omega arith
expiry-Plain (at t) = digits-Plain _ (Decimal.print-all t)

verb-Plain : (a : Action) → All Plain (Action.as_str a)
unfolding Action.as_str
verb-Plain Action.claim = omega arith
verb-Plain Action.update = omega arith
verb-Plain Action.release = omega arith
verb-Plain Action.sale = omega arith
verb-Plain Action.list = omega arith
verb-Plain Action.delist = omega arith
verb-Plain Action.auction = omega arith

fields-Lacks : (ps : List Bytes) → All (All Plain) ps → All (Lacks b':') ps
fields-Lacks [] h = tt
fields-Lacks (p ∷ ps) h = (All-map p (λ c x. x.0) h.0, fields-Lacks ps h.1)

All-join : (ps : List Bytes) → All (All Plain) ps → All Text (join b':' ps)
unfolding join
All-join [] h = tt
All-join (p ∷ []) h = All-map p (λ c x. (x.1, x.2)) h.0
All-join (p ∷ q ∷ ps) h =
    All-append Text p (b':' ∷ join b':' (q ∷ ps)) (All-map p (λ c x. (x.1, x.2)) h.0)
      ((omega arith, omega arith), All-join (q ∷ ps) h.1)

before_nul-padded : (s : Bytes) (k : ℕ) → All Text s → before_nul (s ++ replicate k 0) ≡ s
unfolding before_nul
before_nul-padded [] zero h = refl
before_nul-padded [] (suc k) h = ground arith
before_nul-padded (c ∷ s) k h = ground (arith, before_nul-padded s k h.1)

from_nul-padded : (s : Bytes) (k : ℕ) → All Text s → from_nul (s ++ replicate k 0) ≡ replicate k 0
unfolding from_nul
from_nul-padded [] zero h = refl
from_nul-padded [] (suc k) h = ground arith
from_nul-padded (c ∷ s) k h = ground (arith, from_nul-padded s k h.1)

padding_zero : (k : ℕ) → any {A = ℕ} (λ b. not (b == 0)) (replicate k 0) ≡ false
padding_zero zero = refl
padding_zero (suc k) = ground (arith, padding_zero k)

nonempty : (s : Bytes) → s ≢ [] → (length s == 0) ≡ false
nonempty [] h = absurd (h refl)
nonempty (c ∷ s) h = ground arith

Plain-of_parts :
    (s : Bytes) → Lacks b':' s → All (λ c. c < 0x80) s → All (λ c. c ≢ 0) s → All Plain s
Plain-of_parts [] a b c = tt
Plain-of_parts (x ∷ s) a b c = ((a.0, b.0, c.0), Plain-of_parts s a.1 b.1 c.1)

module _ (params : Params) (lawful : Lawful params) where
  prev_bytes-length : (n : NameNote) → length (prev_bytes params n) ≡ 32
  prev_bytes-length (claim n u e) = refl
  prev_bytes-length (update n u e p) = lawful.commitment_bytes-length p
  prev_bytes-length (release n u p) = lawful.commitment_bytes-length p
  prev_bytes-length (sale n u e p) = lawful.commitment_bytes-length p

  prev_bytes_range : (n : NameNote) → All (λ b. b < 256) (prev_bytes params n)
  prev_bytes_range (claim n u e) = omega arith
  prev_bytes_range (update n u e p) = lawful.commitment_bytes_range p
  prev_bytes_range (release n u p) = lawful.commitment_bytes_range p
  prev_bytes_range (sale n u e p) = lawful.commitment_bytes_range p

  ua-Plain : (u : UnifiedAddress) → All Plain (params.encode_ua u)
  ua-Plain u =
      Plain-of_parts _ (lawful.encode_ua-Lacks u) (lawful.encode_ua_ascii u)
        (lawful.encode_ua-no-nul u)

  fields-Plain : (n : NameNote) → IsValid params n → All (All Plain) (fields params n)
  fields-Plain n v = (
    omega arith,
    (
      verb-Plain (action n),
      (
        name-Plain (name n) v.parsed,
        (
          ua-Plain (ua n),
          (
            expiry-Plain (expiry_or_never n),
            (hex-Plain _ (Hex.all-encode _ (prev_bytes_range n)), tt),
          ),
        ),
      ),
    ),
  )

  pub build-fields :
      (n : NameNote)
      → IsValid params n
      → build params (action n) (name n) (ua n) (expiry_or_never n) (prev_bytes params n) ≡ some n
  unfolding build
  build-fields (claim n u e) v = ground (arith, ==_refl zero32)
  build-fields (update n u e p) v =
      ground (arith, v.predecessor.1, lawful.commitment_of-bytes p v.predecessor.0)
  build-fields (release n u p) v =
      ground (arith, v.predecessor.1, lawful.commitment_of-bytes p v.predecessor.0)
  build-fields (sale n u e p) v =
      ground (arith, v.predecessor.1, lawful.commitment_of-bytes p v.predecessor.0)

  hex_length : (n : NameNote) → length (Hex.encode (prev_bytes params n)) ≡ 64
  hex_length n = omega (arith, Hex.length-encode (prev_bytes params n), prev_bytes-length n)

  decode_fields-fields :
      (n : NameNote) → IsValid params n → decode_fields params (fields params n) ≡ some n
  unfolding decode_fields
  decode_fields-fields n v =
      rw
        (
          v.parsed,
          lawful.decode_ua-encode_ua (ua n),
          parse_expiry-field_bytes params _ v.representable,
          hex_length n,
          Hex.all-encode _ (prev_bytes_range n),
          Hex.decode-encode _ (prev_bytes_range n),
          parse-as_str (action n),
          nonempty _ (lawful.encode_ua-ne-nil (ua n)),
        )
        (ground (arith, build-fields n v, ==_refl (codes "ZNS")))

  abbrev padded : NameNote → Bytes
  padded n = memo_text params n ++ replicate (memo_len - length (memo_text params n)) 0

  memo_text-Text : (n : NameNote) → IsValid params n → All Text (memo_text params n)
  memo_text-Text n v = All-join (fields params n) (fields-Plain n v)

  split-text : (n : NameNote) → IsValid params n → split b':' (memo_text params n) ≡ fields params n
  split-text n v = split-join b':' _ _ (fields-Lacks (fields params n) (fields-Plain n v))

  encode-padded : (n : NameNote) → IsValid params n → encode params n ≡ some (padded n)
  unfolding encode
  encode-padded n v = ground (arith, v.fits)

  decode-padded : (n : NameNote) → IsValid params n → decode params (padded n) ≡ some n
  unfolding decode
  decode-padded n v = rw (
    before_nul-padded (memo_text params n) _ (memo_text-Text n v),
    from_nul-padded (memo_text params n) _ (memo_text-Text n v),
    padding_zero,
    is_utf8_ascii (memo_text params n) (All-map _ (λ c h. h.0) (memo_text-Text n v)),
    split-text n v,
    decode_fields-fields n v,
    encode-padded n v,
    ==_refl (padded n),
  )

  length-padded : (n : NameNote) → IsValid params n → length (padded n) ≡ memo_len
  length-padded n v = omega (
    arith,
    v.fits,
    length-append (memo_text params n) (replicate (memo_len - length (memo_text params n)) 0),
    length-replicate {A = ℕ} (memo_len - length (memo_text params n)) 0,
  )

  -- Under the documented laws of the address and commitment encodings, take a note with a name
  -- that parses, an expiry in range, a predecessor (where it has one) that is a canonical scalar
  -- whose bytes are not all zero, and a text that fits the memo. It is written to a memo of 512
  -- bytes, and that memo is read back as the note.
  pub decode-encode :
      (n : NameNote)
      → IsValid params n
      → (m : Bytes) × (encode params n ≡ some m)
        × (length m ≡ memo_len)
        × (decode params m ≡ some n)
  decode-encode n v = (padded n, encode-padded n v, length-padded n v, decode-padded n v)

-- A memo that reads as a note is the memo that the note is written to.
pub encode-decode :
    (params : Params) (m : Bytes) (n : NameNote)
    → decode params m ≡ some n
    → encode params n ≡ some m
unfolding decode
encode-decode params m n h = ground arith
