-- ===== src/Text.antt =====
-- The text operations of Rust's standard library that the memo grammars use, over bytes.
pub mod Split
pub mod Decimal
pub mod Hex
pub mod Utf8
use zns_mint.Prelude.{ℕ, List, Bool, ◌&&◌, leb}

abbrev pub Bytes : Type 0
Bytes = List ℕ

-- `u8::is_ascii_digit`
abbrev pub is_digit : ℕ → Bool
is_digit c = leb b'0' c && leb c b'9'
