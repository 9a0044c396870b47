-- ===== src/Payment/Zec.antt =====
-- mint/sale.rs: prices and heights as texts.
use zns_mint.Prelude.{
  ℕ, zero, suc, ◌+◌, ◌*◌, ◌/◌, ◌%◌, ◌^◌, ◌-◌, not, ◌&&◌, ◌||◌, [], ◌∷◌, ◌++◌, Option, none, some,
  ◌==◌, nat_eq, ltb, leb, if◌then◌else◌, all, length, some_if, ◌>>=◌,
}
use zns_mint.Text.{Bytes, is_digit}
use zns_mint.Text.Decimal
use zns_mint.Text.Decimal.{first_is}
use zns_mint.Term.{max_u64}
use zns_mint.Chain.{Zatoshis, BlockHeight, zatoshis}

-- `str::split_once`: the text before the first separator, and the text after it.
unfoldable pub split_once : ℕ → Bytes → Option (Bytes × Bytes)
split_once sep [] = none
split_once sep (c ∷ s) =
    let rest = split_once sep s in
    if c == sep then some ([], s) else elim rest [ none ↦ none | some (a, b) ↦ some (c ∷ a, b) ]

-- `str::trim_end_matches` of one character.
unfoldable pub trim_end : ℕ → Bytes → Bytes
trim_end b [] = []
trim_end b (c ∷ s) = elim (trim_end b s) [
  | [] ↦ if c == b then [] else c ∷ []
  | x ∷ xs ↦ c ∷ x ∷ xs
]

-- `format!("{s:0<k}")`
unfoldable pub pad_end : ℕ → ℕ → Bytes → Bytes
pad_end zero b s = s
pad_end (suc k) b [] = b ∷ pad_end k b []
pad_end (suc k) b (c ∷ s) = c ∷ pad_end k b s

-- `format!("{n:0k}")`, for a number below `10 ^ k`.
unfoldable pub zero_padded : ℕ → ℕ → Bytes
zero_padded zero n = []
zero_padded (suc k) n = zero_padded k (n / 10) ++ (b'0' + n % 10) ∷ []

abbrev pub coin : ℕ
coin = 100_000_000

abbrev pub or_whole : Bytes → Option (Bytes × Bytes) → Bytes × Bytes
or_whole text none = (text, [])
or_whole text (some p) = p

-- `u64::checked_mul` and `u64::checked_add`
abbrev pub fits_u64 : ℕ → Option ℕ
fits_u64 n = some_if (leb n max_u64) n

-- The zatoshis of the decimal places.
unfoldable pub frac_zats : Bytes → Option ℕ
frac_zats frac = if length frac == 0 then some 0 else Decimal.parse max_u64 (pad_end 8 b'0' frac)

unfoldable pub decode_parts : Bytes → Bytes → Option Zatoshis
unfolding frac_zats
decode_parts whole frac =
    if length whole == 0
      || (ltb 1 (length whole) && first_is b'0' whole)
      || not (all is_digit whole)
      || ltb 8 (length frac)
      || not (all is_digit frac)
    then none
    else do
      w ← Decimal.parse max_u64 whole
      f ← frac_zats frac
      scaled ← fits_u64 (w * coin)
      sum ← fits_u64 (scaled + f)
      zatoshis sum

unfoldable pub decode_zec : Bytes → Option Zatoshis
unfolding split_once decode_parts
decode_zec text = let parts = or_whole text (split_once b'.' text) in decode_parts parts.0 parts.1

unfoldable pub encode_zec : Zatoshis → Bytes
unfolding zero_padded trim_end
encode_zec zats =
    if zats % coin == 0
    then Decimal.print (zats / coin)
    else Decimal.print (zats / coin) ++ b'.' ∷ trim_end b'0' (zero_padded 8 (zats % coin))

unfoldable pub decode_height : Bytes → Option BlockHeight
decode_height text =
    if length text == 0 || (ltb 1 (length text) && first_is b'0' text) || not (all is_digit text)
    then none
    else Decimal.parse (2 ^ 32 - 1) text
