-- ===== src/Note/Hash.antt =====
-- mint/note.rs: the bytes that the ZNS commitment of a note hashes, and that they determine the note.
use zns_mint.Prelude.{
  ℕ, ◌/◌, ◌%◌, ◌^◌, ◌≤◌, ◌<◌, ◌≡◌, refl, ap, List, [], ◌∷◌, ◌++◌, arith, length, codes, All,
  length-append,
}
use zns_mint.Text.{Bytes}
use zns_mint.Text.Split.{join}
use zns_mint.Chain.{Params, Lawful, NameCommitment}
use zns_mint.Action
use zns_mint.Action.{Action, parse-as_str}
use zns_mint.Term.{field_bytes, parse_expiry}
use zns_mint.Term.Grammar.{parse_expiry-field_bytes}
use zns_mint.Note.{NameNote, name, action, ua, expiry_or_never}
use zns_mint.Note.Codec.{prev_bytes, fields}
use zns_mint.Note.RoundTrip.{IsValid, build-fields}

-- `(n as u32).to_le_bytes()`
abbrev le32 : ℕ → Bytes
le32 n = (n % 2 ^ 8) ∷ (n / 2 ^ 8 % 2 ^ 8) ∷ (n / 2 ^ 16 % 2 ^ 8) ∷ (n / 2 ^ 24 % 2 ^ 8) ∷ []

-- The closure `absorb`: a field behind its length.
unfoldable pub absorb : Bytes → Bytes
absorb b = le32 (length b) ++ b

-- What `tagged_zns_hash` feeds to BLAKE2b, in order.
unfoldable pub preimage : Bytes → Bytes → Bytes → Bytes → Bytes → Bytes → Bytes
preimage tag verb n u e prev =
    absorb (codes "ZcashName/v1")
    ++ (absorb tag ++ (absorb verb ++ (absorb n ++ (absorb u ++ (absorb e ++ prev)))))

-- The bytes hashed for a note under a tag.
unfoldable pub note_preimage : Params → Bytes → NameNote → Bytes
note_preimage params tag n =
    preimage tag (Action.as_str (action n)) (name n) (params.encode_ua (ua n))
      (field_bytes (expiry_or_never n)) (prev_bytes params n)

-- `NameNote::rcm`, and `NameNote::commitment` around it
unfoldable pub commitment : Params → NameNote → NameCommitment
commitment params n = params.hash_to_scalar (note_preimage params (codes "rcm") n)

-- `NameNote::psi`
unfoldable pub psi : Params → NameNote → ℕ
psi params n = params.hash_to_base (note_preimage params (codes "psi") n)

append_cancel : (a b s t : Bytes) → length a ≡ length b → a ++ s ≡ b ++ t → (a ≡ b) × (s ≡ t)
append_cancel [] [] s t l e = (refl, e)
append_cancel [] (y ∷ b) s t l e = absurd (omega arith)
append_cancel (x ∷ a) [] s t l e = absurd (omega arith)
append_cancel (x ∷ a) (y ∷ b) s t l e = ground (arith, append_cancel a b s t)

le32_injective : (m n : ℕ) → m < 2 ^ 32 → n < 2 ^ 32 → le32 m ≡ le32 n → m ≡ n
le32_injective m n h k e = ground arith

abbrev pub Short : Bytes → Type 0
Short b = length b < 2 ^ 32

absorb_cancel :
    (a b s t : Bytes) → Short a → Short b → absorb a ++ s ≡ absorb b ++ t → (a ≡ b) × (s ≡ t)
unfolding absorb
absorb_cancel a b s t h k e =
    let head =
      append_cancel (le32 (length a)) (le32 (length b)) (a ++ s) (b ++ t) refl (ground arith) in
    append_cancel a b s t (le32_injective (length a) (length b) h k head.0) head.1

-- The fields of two equal inputs are equal, whatever they hold, if each is shorter than 2^32 bytes.
pub preimage_injective :
    (tag tag' verb verb' n n' u u' e e' prev prev' : Bytes)
    → All Short (tag ∷ verb ∷ n ∷ u ∷ e ∷ [])
    → All Short (tag' ∷ verb' ∷ n' ∷ u' ∷ e' ∷ [])
    → preimage tag verb n u e prev ≡ preimage tag' verb' n' u' e' prev'
    → (tag ≡ tag') × (verb ≡ verb') × (n ≡ n') × (u ≡ u') × (e ≡ e') × (prev ≡ prev')
unfolding preimage
preimage_injective tag tag' verb verb' n n' u u' e e' prev prev' h k eq =
    let prefix = codes "ZcashName/v1" in
    let a = absorb_cancel prefix prefix _ _ (omega arith) (omega arith) eq in
    let b = absorb_cancel tag tag' _ _ h.0 k.0 a.1 in
    let c = absorb_cancel verb verb' _ _ h.1.0 k.1.0 b.1 in
    let d = absorb_cancel n n' _ _ h.1.1.0 k.1.1.0 c.1 in
    let f = absorb_cancel u u' _ _ h.1.1.1.0 k.1.1.1.0 d.1 in
    let g = absorb_cancel e e' _ _ h.1.1.1.1.0 k.1.1.1.1.0 f.1 in (b.0, c.0, d.0, f.0, g.0, g.1)

length-join : (sep : ℕ) (ps : List Bytes) → All (λ p. length p ≤ length (join sep ps)) ps
unfolding join
length-join sep [] = tt
length-join sep (p ∷ []) = (omega arith, tt)
length-join sep (p ∷ q ∷ ps) = (
  omega (arith, length-append p (sep ∷ join sep (q ∷ ps))),
  All-le (q ∷ ps) (omega (arith, length-append p (sep ∷ join sep (q ∷ ps))))
      (length-join sep (q ∷ ps)),
)
  where
    All-le :
        (qs : List Bytes) {m k : ℕ}
        → m ≤ k
        → All (λ p. length p ≤ m) qs
        → All (λ p. length p ≤ k) qs
    All-le [] h a = tt
    All-le (q ∷ qs) h a = (omega arith, All-le qs h a.1)

as_str_injective : (a b : Action) → Action.as_str a ≡ Action.as_str b → a ≡ b
as_str_injective a b e = cc (parse-as_str a, parse-as_str b, ap Action.parse e)

module _ (params : Params) (lawful : Lawful params) where
  fields_Short :
      (n : NameNote)
      → IsValid params n
      → All Short (
          Action.as_str (action n)
          ∷ name n
          ∷ params.encode_ua (ua n)
          ∷ field_bytes (expiry_or_never n)
          ∷ [])
  fields_Short n v =
      let l = length-join b':' (fields params n) in
      let f = v.fits in (omega arith, (omega arith, (omega arith, (omega arith, tt))))

  expiry_injective :
      (n n' : NameNote)
      → IsValid params n
      → IsValid params n'
      → field_bytes (expiry_or_never n) ≡ field_bytes (expiry_or_never n')
      → expiry_or_never n ≡ expiry_or_never n'
  expiry_injective n n' v v' e = cc (
    parse_expiry-field_bytes params (expiry_or_never n) v.representable,
    parse_expiry-field_bytes params (expiry_or_never n') v'.representable,
    ap (parse_expiry params) e,
  )

  ua_injective : (u u' : ℕ) → params.encode_ua u ≡ params.encode_ua u' → u ≡ u'
  ua_injective u u' e =
      cc (lawful.decode_ua-encode_ua u, lawful.decode_ua-encode_ua u', ap params.decode_ua e)

  -- Under the documented laws of the address and commitment encodings, two notes, each with a name
  -- that parses, an expiry in range, a canonical predecessor that is not zero (where it has one)
  -- and a text that fits the memo, have the same hash input under two tags of fewer than 2^32
  -- bytes only where the tags and the notes are the same.
  pub note_preimage_injective :
      (tag tag' : Bytes) (n n' : NameNote)
      → Short tag
      → Short tag'
      → IsValid params n
      → IsValid params n'
      → note_preimage params tag n ≡ note_preimage params tag' n'
      → (tag ≡ tag') × (n ≡ n')
  unfolding note_preimage
  note_preimage_injective tag tag' n n' s s' v v' e =
      let eqs =
        preimage_injective tag tag' _ _ _ _ _ _ _ _ _ _ (s, fields_Short n v)
          (s', fields_Short n' v') e in
      (
        eqs.0,
        cc (
          build-fields params lawful n v,
          build-fields params lawful n' v',
          as_str_injective (action n) (action n') eqs.1,
          eqs.2,
          ua_injective (ua n) (ua n') eqs.3,
          expiry_injective n n' v v' eqs.4,
          eqs.5,
        ),
      )
