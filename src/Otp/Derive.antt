-- ===== src/Otp/Derive.antt =====
-- mint/treasury/otp.rs: the codes that are derived from a request, so that a rescan finds them again.
use zns_mint.Prelude.{
  ℕ, ◌+◌, ◌*◌, ◌/◌, ◌%◌, ◌^◌, ◌<◌, ◌≡◌, ◌≢◌, refl, sym, ap, ◌∙◌, [], ◌∷◌, ◌++◌, arith, length,
  codes, All,
}
use zns_mint.Text.{Bytes}

-- HMAC-SHA256, by the key and the message.
abbrev pub Hmac : Type 0
Hmac = Bytes → Bytes → Bytes

-- `to_be_bytes` of a u32 and of a u64.
abbrev pub be32 : ℕ → Bytes
be32 n = (n / 2 ^ 24 % 256) ∷ (n / 2 ^ 16 % 256) ∷ (n / 2 ^ 8 % 256) ∷ (n % 256) ∷ []

abbrev pub be64 : ℕ → Bytes
be64 n =
    (n / 2 ^ 56 % 256)
    ∷ (n / 2 ^ 48 % 256)
    ∷ (n / 2 ^ 40 % 256)
    ∷ (n / 2 ^ 32 % 256)
    ∷ (n / 2 ^ 24 % 256)
    ∷ (n / 2 ^ 16 % 256)
    ∷ (n / 2 ^ 8 % 256)
    ∷ (n % 256)
    ∷ []

pub record AuctionBind : Type 0 where
  pub start_price : ℕ
  pub min_price : ℕ
  pub start : ℕ
  pub end : ℕ

-- `u32::from_be_bytes` of the first four bytes. A digest has 32.
abbrev from_be_bytes : Bytes → ℕ
from_be_bytes (a ∷ b ∷ c ∷ d ∷ s) = ((a * 256 + b) * 256 + c) * 256 + d
from_be_bytes (a ∷ b ∷ c ∷ []) = 0
from_be_bytes (a ∷ b ∷ []) = 0
from_be_bytes (a ∷ []) = 0
from_be_bytes [] = 0

-- `from_mac`
unfoldable pub from_mac : Bytes → ℕ
from_mac digest = from_be_bytes digest % 1000000

-- What each code's HMAC takes in, update by update.
unfoldable pub buy_message : Bytes → Bytes → Bytes
buy_message txid name = codes "ZNS:buyotp" ++ (txid ++ name)

unfoldable pub list_message : Bytes → Bytes → ℕ → Bytes → Bytes
list_message txid name price pay_to =
    codes "ZNS:listotp" ++ (txid ++ (name ++ (be64 price ++ pay_to)))

unfoldable pub auction_message : Bytes → Bytes → AuctionBind → Bytes → Bytes
auction_message txid name bind pay_to =
    codes "ZNS:auctionotp"
    ++ (txid
        ++ (name
            ++ (be64 bind.start_price
                ++ (be64 bind.min_price ++ (be32 bind.start ++ (be32 bind.end ++ pay_to))))))

unfoldable pub delist_message : Bytes → Bytes → Bytes
delist_message txid name = codes "ZNS:delistotp" ++ (txid ++ name)

-- `OtpCode::buy`, `list`, `auction` and `delist`
unfoldable pub buy : Hmac → Bytes → Bytes → Bytes → ℕ
unfolding buy_message from_mac
buy hmac key txid name = from_mac (hmac key (buy_message txid name))

unfoldable pub list : Hmac → Bytes → Bytes → Bytes → ℕ → Bytes → ℕ
unfolding list_message from_mac
list hmac key txid name price pay_to = from_mac (hmac key (list_message txid name price pay_to))

unfoldable pub auction : Hmac → Bytes → Bytes → Bytes → AuctionBind → Bytes → ℕ
unfolding auction_message from_mac
auction hmac key txid name bind pay_to = from_mac (hmac key (auction_message txid name bind pay_to))

unfoldable pub delist : Hmac → Bytes → Bytes → Bytes → ℕ
unfolding delist_message from_mac
delist hmac key txid name = from_mac (hmac key (delist_message txid name))

prefix_cancel : (a b s t : Bytes) → length a ≡ length b → a ++ s ≡ b ++ t → (a ≡ b) × (s ≡ t)
prefix_cancel [] [] s t l e = (refl, e)
prefix_cancel [] (y ∷ b) s t l e = absurd (omega arith)
prefix_cancel (x ∷ a) [] s t l e = absurd (omega arith)
prefix_cancel (x ∷ a) (y ∷ b) s t l e = ground (arith, prefix_cancel a b s t)

-- A zero byte ends a name.
name_ends :
    (n m s t : Bytes)
    → All (λ c. c ≢ 0) n
    → All (λ c. c ≢ 0) m
    → n ++ 0 ∷ s ≡ m ++ 0 ∷ t
    → (n ≡ m) × (s ≡ t)
name_ends [] [] s t a b e = ground arith
name_ends [] (y ∷ m) s t a b e = absurd (ground (arith, b.0))
name_ends (x ∷ n) [] s t a b e = absurd (ground (arith, a.0))
name_ends (x ∷ n) (y ∷ m) s t a b e = ground (arith, name_ends n m s t a.1 b.1)

be64_high : (p : ℕ) → p < 2 ^ 56 → p / 2 ^ 56 % 256 ≡ 0
be64_high p lt = omega arith

-- The digits of a price in base 256 are its own.
be64_injective : (p q : ℕ) → p < 2 ^ 56 → q < 2 ^ 56 → be64 p ≡ be64 q → p ≡ q
be64_injective p q lp lq e = ground arith

abbrev low : ℕ → Bytes
low n =
    (n / 2 ^ 48 % 256)
    ∷ (n / 2 ^ 40 % 256)
    ∷ (n / 2 ^ 32 % 256)
    ∷ (n / 2 ^ 24 % 256)
    ∷ (n / 2 ^ 16 % 256)
    ∷ (n / 2 ^ 8 % 256)
    ∷ (n % 256)
    ∷ []

be64-low : (p : ℕ) → p < 2 ^ 56 → be64 p ≡ 0 ∷ low p
be64-low p lt = ap (λ c. c ∷ low p) (be64_high p lt)

-- Two list challenges whose transaction ids have 32 bytes, whose names hold no zero byte, and
-- whose prices are below 2^56, feed the HMAC the same message only where the ids, the names, the
-- prices and the addresses to pay are the same.
pub list_message_injective :
    (txid txid' n n' : Bytes) (p p' : ℕ) (t t' : Bytes)
    → length txid ≡ 32
    → length txid' ≡ 32
    → All (λ c. c ≢ 0) n
    → All (λ c. c ≢ 0) n'
    → p < 2 ^ 56
    → p' < 2 ^ 56
    → list_message txid n p t ≡ list_message txid' n' p' t'
    → (txid ≡ txid') × (n ≡ n') × (p ≡ p') × (t ≡ t')
unfolding list_message
list_message_injective txid txid' n n' p p' t t' l l' z z' lt lt' e =
    let a =
      prefix_cancel (codes "ZNS:listotp") (codes "ZNS:listotp") (txid ++ (n ++ (be64 p ++ t)))
        (txid' ++ (n' ++ (be64 p' ++ t'))) refl e in
    let b =
      prefix_cancel txid txid' (n ++ (be64 p ++ t)) (n' ++ (be64 p' ++ t')) (l ∙ sym l') a.1 in
    let f : n ++ 0 ∷ (low p ++ t) ≡ n' ++ 0 ∷ (low p' ++ t') =
      ap (λ x. n ++ (x ++ t)) (sym (be64-low p lt))
      ∙ b.1
      ∙ ap (λ x. n' ++ (x ++ t')) (be64-low p' lt') in
    let c = name_ends n n' (low p ++ t) (low p' ++ t') z z' f in
    let d = prefix_cancel (low p) (low p') t t' refl c.1 in
    let g : be64 p ≡ be64 p' = be64-low p lt ∙ ap (λ x. 0 ∷ x) d.0 ∙ sym (be64-low p' lt') in
    (b.0, c.0, be64_injective p p' lt lt' g, d.1)
