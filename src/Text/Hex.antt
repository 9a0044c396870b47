-- ===== src/Text/Hex.antt =====
-- `hex::encode` and `hex::decode` in lower case, as the memo codec uses them.
use zns_mint.Prelude.{
  ℕ, ◌+◌, ◌-◌, ◌*◌, ◌/◌, ◌%◌, ◌<◌, ◌≡◌, refl, Bool, true, ◌&&◌, ◌||◌, List, [], ◌∷◌, Option, none,
  some, arith, nat_eq, ltb, leb, if◌then◌else◌, all, All, length, ◌>>=◌,
}

abbrev pub hex_digit : ℕ → ℕ
hex_digit d = if ltb d 10 then b'0' + d else b'a' + (d - 10)

-- `matches!(b, b'0'..=b'9' | b'a'..=b'f')`
abbrev pub is_hex : ℕ → Bool
is_hex c = (leb b'0' c && leb c b'9') || (leb b'a' c && leb c b'f')

abbrev hex_value : ℕ → ℕ
hex_value c = if leb c b'9' then c - b'0' else (c - b'a') + 10

unfoldable pub encode : List ℕ → List ℕ
encode [] = []
encode (b ∷ bs) = hex_digit (b / 16) ∷ hex_digit (b % 16) ∷ encode bs

-- The caller has tested that each byte is a lower-case hexadecimal digit.
unfoldable pub decode : List ℕ → Option (List ℕ)
decode [] = some []
decode (a ∷ []) = none
decode (a ∷ b ∷ s) = do rest ← decode s; some ((hex_value a * 16 + hex_value b) ∷ rest)

hex_digits :
    (b : ℕ) → b < 256 → hex_value (hex_digit (b / 16)) * 16 + hex_value (hex_digit (b % 16)) ≡ b
hex_digits b h = ground arith

pub decode-encode : (bs : List ℕ) → All (λ b. b < 256) bs → decode (encode bs) ≡ some bs
unfolding encode decode
decode-encode [] h = refl
decode-encode (b ∷ bs) h = ground (arith, decode-encode bs h.1, hex_digits b h.0)

pub all-encode : (bs : List ℕ) → All (λ b. b < 256) bs → all is_hex (encode bs) ≡ true
unfolding encode
all-encode [] h = refl
all-encode (b ∷ bs) h = ground (arith, all-encode bs h.1)

pub length-encode : (bs : List ℕ) → length (encode bs) ≡ 2 * length bs
unfolding encode
length-encode [] = refl
length-encode (b ∷ bs) = omega (arith, length-encode bs)
