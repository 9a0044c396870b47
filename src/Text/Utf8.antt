-- ===== src/Text/Utf8.antt =====
-- `std::str::from_utf8`: whether bytes are well-formed UTF-8.
use zns_mint.Prelude.{
  ℕ, ◌-◌, ◌<◌, ◌≡◌, Bool, true, false, ◌&&◌, List, [], ◌∷◌, arith, ◌==◌, nat_eq, ltb, leb,
  if◌then◌else◌, All,
}

-- The bytes still due of a character, and the range of the next one.
record Due : Type 0 where
  count : ℕ
  low : ℕ
  high : ℕ

abbrev due : ℕ → ℕ → ℕ → Due
due n lo hi = record { count = n; low = lo; high = hi }

-- What a first byte asks for; a byte that starts nothing asks for the impossible.
first_byte : ℕ → Due
first_byte c =
    if ltb c 0x80
    then due 0 0x80 0xbf
    else if ltb c 0xc2
    then due 1 1 0
    else if leb c 0xdf
    then due 1 0x80 0xbf
    else if c == 0xe0
    then due 2 0xa0 0xbf
    else if c == 0xed
    then due 2 0x80 0x9f
    else if leb c 0xef
    then due 2 0x80 0xbf
    else if c == 0xf0
    then due 3 0x90 0xbf
    else if leb c 0xf3
    then due 3 0x80 0xbf
    else if c == 0xf4
    then due 3 0x80 0x8f
    else due 1 1 0

utf8_from : Due → List ℕ → Bool
unfolding first_byte
utf8_from d [] = d.count == 0
utf8_from d (c ∷ s) =
    let start = utf8_from (first_byte c) s in
    let more = utf8_from (due (d.count - 1) 0x80 0xbf) s in
    if d.count == 0 then start else if leb d.low c && leb c d.high then more else false

unfoldable pub is_utf8 : List ℕ → Bool
unfolding utf8_from
is_utf8 s = utf8_from (due 0 0x80 0xbf) s

-- ASCII is UTF-8.
utf8_from_ascii :
    (lo hi : ℕ) (s : List ℕ) → All (λ c. c < 0x80) s → utf8_from (due 0 lo hi) s ≡ true
unfolding utf8_from
utf8_from_ascii lo hi [] h = ground arith
utf8_from_ascii lo hi (c ∷ s) h = ground (arith, utf8_from_ascii 0x80 0xbf s h.1)

pub is_utf8_ascii : (s : List ℕ) → All (λ c. c < 0x80) s → is_utf8 s ≡ true
unfolding is_utf8
is_utf8_ascii s h = utf8_from_ascii 0x80 0xbf s h
