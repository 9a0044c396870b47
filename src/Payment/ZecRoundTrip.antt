-- ===== src/Payment/ZecRoundTrip.antt =====
-- mint/sale.rs: a price is read back from its text.
use zns_mint.Prelude.{
  ℕ, zero, suc, ◌+◌, ◌*◌, ◌/◌, ◌%◌, ◌^◌, ◌-◌, ◌≤◌, ◌<◌, ◌≡◌, ◌≢◌, refl, ap, ◌∙◌, sym, Bool, true,
  false, ◌||◌, [], ◌∷◌, ◌++◌, none, some, arith, ◌==◌, nat_eq, if◌then◌else◌, all, length,
  ℕ_discrete, length-append, all-append, Bool-cases, inl, inr,
}
use zns_mint.Text.{Bytes, is_digit}
use zns_mint.Text.Decimal
use zns_mint.Text.Decimal.{first_is, scan, parse, parse-print, print-all, print-ne-nil}
use zns_mint.Term.{max_u64}
use zns_mint.Term.Grammar.{print_no_zero}
use zns_mint.Chain.{Zatoshis, max_money}
use zns_mint.Payment.Zec.{
  split_once, trim_end, pad_end, zero_padded, coin, or_whole, frac_zats, decode_parts, decode_zec,
  encode_zec, decode_height,
}

split_once-digits :
    (w f : Bytes) → all is_digit w ≡ true → split_once b'.' (w ++ b'.' ∷ f) ≡ some (w, f)
unfolding split_once
split_once-digits [] f a = ground arith
split_once-digits (c ∷ w) f a = ground (arith, split_once-digits w f)

split_once-none : (w : Bytes) → all is_digit w ≡ true → split_once b'.' w ≡ none
unfolding split_once
split_once-none [] a = refl
split_once-none (c ∷ w) a = ground (arith, split_once-none w)

-- Padding undoes the trim of a text that is as long as the padding.
pad_end-trim_end : (b k : ℕ) (s : Bytes) → length s ≡ k → pad_end k b (trim_end b s) ≡ s
unfolding pad_end trim_end
pad_end-trim_end b zero [] e = refl
pad_end-trim_end b (suc k) [] e = absurd (ground arith)
pad_end-trim_end b zero (c ∷ s) e = absurd (ground arith)
pad_end-trim_end b (suc k) (c ∷ s) e = split (trim_end b s) (pad_end-trim_end b k s (ground arith))
  where
    split :
        (t : Bytes)
        → pad_end k b t ≡ s
        → pad_end (suc k) b (elim t [ [] ↦ if c == b then [] else c ∷ [] | x ∷ xs ↦ c ∷ x ∷ xs ])
          ≡ c ∷ s
    split [] h = ground (arith, h)
    split (x ∷ xs) h = ap (λ r. c ∷ r) h

trim_end-all : (b : ℕ) (s : Bytes) → all is_digit s ≡ true → all is_digit (trim_end b s) ≡ true
unfolding trim_end
trim_end-all b [] a = refl
trim_end-all b (c ∷ s) a = ground (arith, trim_end-all b s)

length-trim_end : (b : ℕ) (s : Bytes) → length (trim_end b s) ≤ length s
unfolding trim_end
length-trim_end b [] = omega arith
length-trim_end b (c ∷ s) = ground (arith, length-trim_end b s)

length-zero_padded : (k n : ℕ) → length (zero_padded k n) ≡ k
unfolding zero_padded
length-zero_padded zero n = refl
length-zero_padded (suc k) n =
    length-append (zero_padded k (n / 10)) ((b'0' + n % 10) ∷ [])
    ∙ ap (λ m. m + 1) (length-zero_padded k (n / 10))
    ∙ omega arith

zero_padded-all : (k n : ℕ) → all is_digit (zero_padded k n) ≡ true
unfolding zero_padded
zero_padded-all zero n = refl
zero_padded-all (suc k) n =
    all-append is_digit (zero_padded k (n / 10)) ((b'0' + n % 10) ∷ [])
    ∙ ground (arith, zero_padded-all k (n / 10))

scan-push :
    (top : ℕ) (s : Bytes) (acc m d : ℕ)
    → scan top s acc ≡ some m
    → d < 10
    → m * 10 + d ≤ top
    → scan top (s ++ (b'0' + d) ∷ []) acc ≡ some (m * 10 + d)
unfolding scan
scan-push top [] acc m d h lt le = ground arith
scan-push top (c ∷ s) acc m d h lt le = ground (arith, scan-push top s (acc * 10 + (c - b'0')) m d)

scan-zero_padded : (top k n : ℕ) → n < 10 ^ k → n ≤ top → scan top (zero_padded k n) 0 ≡ some n
unfolding zero_padded
scan-zero_padded top zero n lt le = unfold scan in ap some (omega arith)
scan-zero_padded top (suc k) n lt le =
    scan-push top (zero_padded k (n / 10)) 0 (n / 10) (n % 10)
      (scan-zero_padded top k (n / 10) (omega arith) (omega arith)) (omega arith) (omega arith)
    ∙ ap some (omega arith)

length-ne-zero : (s : Bytes) → s ≢ [] → (length s == 0) ≡ false
length-ne-zero [] h = absurd (h refl)
length-ne-zero (c ∷ s) h = ground arith

-- The places of a price that is no whole number of coins.
frac_zats-trim_end :
    (n : ℕ) → n < coin → n ≢ 0 → frac_zats (trim_end b'0' (zero_padded 8 n)) ≡ some n
frac_zats-trim_end n lt nz = places (trim_end b'0' (zero_padded 8 n)) refl
  where
    padded : pad_end 8 b'0' (trim_end b'0' (zero_padded 8 n)) ≡ zero_padded 8 n
    padded = pad_end-trim_end b'0' 8 (zero_padded 8 n) (length-zero_padded 8 n)

    read : scan max_u64 (zero_padded 8 n) 0 ≡ some n
    read = scan-zero_padded max_u64 8 n (ground arith) (ground arith)

    places : (t : Bytes) → trim_end b'0' (zero_padded 8 n) ≡ t → frac_zats t ≡ some n
    places [] e = absurd (none_left (ap (pad_end 8 b'0') (sym e) ∙ padded))
      where
        none_left : pad_end 8 b'0' [] ≡ zero_padded 8 n → ⊥
        none_left q =
            let z : scan max_u64 (pad_end 8 b'0' []) 0 ≡ some n =
              ap (λ s. scan max_u64 s 0) q ∙ read in
            nz (unfold scan pad_end ℕ_discrete in ground (arith, z))
    places (c ∷ t) e =
        let z : scan max_u64 (pad_end 8 b'0' (c ∷ t)) 0 ≡ some n =
          ap (λ s. scan max_u64 (pad_end 8 b'0' s) 0) (sym e)
          ∙ ap (λ s. scan max_u64 s 0) padded
          ∙ read in
        unfold frac_zats parse pad_end in ground (arith, z)

decode_parts-print :
    (w f : ℕ) (frac : Bytes)
    → frac_zats frac ≡ some f
    → all is_digit frac ≡ true
    → length frac ≤ 8
    → w * coin + f ≤ max_money
    → decode_parts (Decimal.print w) frac ≡ some (w * coin + f)
unfolding decode_parts
decode_parts-print w f frac e a le fits = ground (
  arith,
  e,
  length-ne-zero (Decimal.print w) (print-ne-nil w),
  print_no_zero w,
  print-all w,
  parse-print max_u64 w (omega arith),
)

read_back :
    (text whole frac : Bytes)
    → or_whole text (split_once b'.' text) ≡ (whole, frac)
    → decode_zec text ≡ decode_parts whole frac
unfolding decode_zec
read_back text whole frac e = ap (λ (p : Bytes × Bytes). decode_parts p.0 p.1) e

-- A price in the monetary range is read back from its text.
pub decode_zec-encode_zec :
    (zats : Zatoshis) → zats ≤ max_money → decode_zec (encode_zec zats) ≡ some zats
decode_zec-encode_zec zats le = elim (Bool-cases (zats % coin == 0)) [
  | inl e ↦
      let w = zats / coin in
      let q : w * coin + 0 ≡ zats = ground (arith, e) in
      let t : encode_zec zats ≡ Decimal.print w = unfold encode_zec in rw (e, encode_zec) refl in
      ap decode_zec t
      ∙ read_back (Decimal.print w) (Decimal.print w) []
          (ap (or_whole (Decimal.print w)) (split_once-none (Decimal.print w) (print-all w)))
      ∙ decode_parts-print w 0 [] (unfold frac_zats ℕ_discrete in refl) refl (omega arith)
          (omega (arith, q))
      ∙ ap some q
  | inr e ↦
      let w = zats / coin in
      let f = zats % coin in
      let places = trim_end b'0' (zero_padded 8 f) in
      let q : w * coin + f ≡ zats = omega arith in
      let t : encode_zec zats ≡ Decimal.print w ++ b'.' ∷ places =
        unfold encode_zec in rw (e, encode_zec) refl in
      ap decode_zec t
      ∙ read_back (Decimal.print w ++ b'.' ∷ places) (Decimal.print w) places (
          ap (or_whole (Decimal.print w ++ b'.' ∷ places))
            (split_once-digits (Decimal.print w) places (print-all w)))
      ∙ decode_parts-print w f places (frac_zats-trim_end f (omega arith) (ground (arith, e)))
          (trim_end-all b'0' (zero_padded 8 f) (zero_padded-all 8 f))
          (omega (arith, length-trim_end b'0' (zero_padded 8 f), length-zero_padded 8 f))
          (omega (arith, q))
      ∙ ap some q
]

-- The text of a price holds digits and a point.
abbrev pub is_zec_byte : ℕ → Bool
is_zec_byte c = is_digit c || c == b'.'

digits_zec : (s : Bytes) → all is_digit s ≡ true → all is_zec_byte s ≡ true
digits_zec [] a = refl
digits_zec (c ∷ s) a = ground (arith, digits_zec s)

pub all-encode_zec : (zats : Zatoshis) → all is_zec_byte (encode_zec zats) ≡ true
unfolding encode_zec
all-encode_zec zats =
    let w = Decimal.print (zats / coin) in
    let t = trim_end b'0' (zero_padded 8 (zats % coin)) in
    ground (
      arith,
      digits_zec w (print-all (zats / coin)),
      all-append is_zec_byte w (b'.' ∷ t),
      digits_zec t
          (trim_end-all b'0' (zero_padded 8 (zats % coin)) (zero_padded-all 8 (zats % coin))),
    )

-- A height is read back from its print.
pub decode_height-print : (h : ℕ) → h ≤ 2 ^ 32 - 1 → decode_height (Decimal.print h) ≡ some h
unfolding decode_height
decode_height-print h le = ground (
  arith,
  length-ne-zero (Decimal.print h) (print-ne-nil h),
  print_no_zero h,
  print-all h,
  parse-print (2 ^ 32 - 1) h le,
)
