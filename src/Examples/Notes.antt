-- ===== src/Examples/Notes.antt =====
-- The names, the terms and the Name Notes at concrete values.
use zns_mint.Prelude.{
  ℕ, ◌-◌, ◌*◌, ◌≤◌, ◌≡◌, ◌↔◌, refl, true, some, arith, length, codes, replicate, all,
  Bytes-discrete, ℕ_discrete,
}
use zns_mint.Text.{Bytes}
use zns_mint.Text.Split.{join}
use zns_mint.Text.Decimal
use zns_mint.Text.Hex
use zns_mint.Action
use zns_mint.Name
use zns_mint.Name.{Name, is_name_byte}
use zns_mint.Name.Laws.{parse_iff}
use zns_mint.Term.{
  at, years, extend, claim_expiry, field_bytes, parse_expiry, parse_term, strip_suffix,
}
use zns_mint.Term.Clock.{Extends, banks, InHorizon, extend_sound, extend_complete}
use zns_mint.Note
use zns_mint.Note.{NameNote}
use zns_mint.Note.Codec.{memo_len, encode, decode, memo_text}
use zns_mint.Note.RoundTrip
use zns_mint.Note.RoundTrip.{decode-encode}
use zns_mint.Note.Hash.{note_preimage_injective}
use zns_mint.Request.{Request}
use zns_mint.Request.Decode
use zns_mint.Request.RoundTrip.{IsValid, decode-fields}
use zns_mint.Otp.Derive.{list_message_injective}
use zns_mint.Examples.{small, small-Lawful}

abbrev pub alice : Name
alice = codes "alice"

parse_iff_example :
    (Name.parse alice ≡ some alice)
    ↔ ((alice ≡ alice) × (1 ≤ length alice) × (length alice ≤ 63) × (all is_name_byte alice ≡ true))
parse_iff_example = parse_iff alice alice

-- A year past the epoch, seen a day before it ends.
abbrev year : ℕ
year = 31557600

two_more : extend small (at year) (some (years 2)) (year - 86400) ≡ some (at (3 * year))
unfolding extend
two_more = ground arith

extend_sound_example :
    Extends (at year) (some (years 2)) (at (3 * year)) × InHorizon (at (3 * year)) (year - 86400)
extend_sound_example = extend_sound small (at year) (some (years 2)) (year - 86400) two_more

extend_complete_example :
    extend small (at year) (some (years 2)) (year - 86400) ≡ some (at (3 * year))
extend_complete_example =
    extend_complete small (at year) (some (years 2)) (year - 86400) (at (3 * year))
      (banks year 2 refl refl refl) (omega arith) (omega arith)

five_years : claim_expiry small (years 5) year ≡ some (at (6 * year))
unfolding claim_expiry
five_years = refl

parsed_year : parse_expiry small (codes "31557600") ≡ some (at year)
unfolding parse_expiry Decimal.parse ℕ_discrete Bytes-discrete
parsed_year = refl

parsed_term : parse_term (codes "5y") ≡ some (years 5)
unfolding parse_term strip_suffix Decimal.parse ℕ_discrete Bytes-discrete
parsed_term = refl

abbrev pub moved : NameNote
moved = Note.update alice 1 (at 86) 7

moved-length : length (memo_text small moved) ≡ 87
unfolding join Action.as_str field_bytes Decimal.print Hex.encode ℕ_discrete
moved-length = refl

moved_fits : length (memo_text small moved) ≤ memo_len
moved_fits = omega (arith, moved-length)

moved-IsValid : RoundTrip.IsValid small moved
moved-IsValid = record {
  parsed = (parse_iff alice alice).1 (refl, ground arith, ground arith, ground arith);
  representable = ground arith;
  predecessor = (ground arith, λ e. ground arith);
  fits = moved_fits;
}

decode-encode_example :
    (m : Bytes) × (encode small moved ≡ some m)
    × (length m ≡ memo_len)
    × (decode small m ≡ some moved)
decode-encode_example = decode-encode small small-Lawful moved moved-IsValid

note_preimage_injective_example : (codes "rcm" ≡ codes "rcm") × (moved ≡ moved)
note_preimage_injective_example =
    note_preimage_injective small small-Lawful (codes "rcm") (codes "rcm") moved moved (omega arith)
      (omega arith) moved-IsValid moved-IsValid refl

-- A request with an access code, and another that the mint challenges with a price.
abbrev coded : Request
coded = Request.claim alice 1 (years 2) (some 4711)

coded-IsValid : IsValid small coded
coded-IsValid = record {
  parsed = (parse_iff alice alice).1 (refl, ground arith, ground arith, ground arith);
  term = ground arith;
  code = ground arith;
  shielded = small-Lawful.decode_ua-encode_ua 1;
  text = small-Lawful.encode_ua-ne-nil 1;
  plain = small-Lawful.encode_ua-Lacks 1;
}

decode-fields_example : Decode.decode small (join b':' (Decode.fields small coded)) ≡ some coded
decode-fields_example = decode-fields small coded coded-IsValid

abbrev txid : Bytes
txid = replicate 32 9

abbrev asking : ℕ
asking = 5000

list_message_injective_example :
    (txid ≡ txid) × (alice ≡ alice) × (asking ≡ asking) × (codes "t1" ≡ codes "t1")
list_message_injective_example =
    list_message_injective txid txid alice alice asking asking (codes "t1") (codes "t1") refl refl
      (omega arith) (omega arith) (omega arith) (omega arith) refl
