-- ===== src/Name.antt =====
-- mint.rs: names.
pub mod Laws
use zns_mint.Prelude.{
  ℕ, Bool, true, false, ◌&&◌, ◌||◌, List, [], ◌∷◌, Option, none, some, ◌==◌, nat_eq, ltb, leb,
  if◌then◌else◌, all, length, codes,
}
use zns_mint.Text.{Bytes}

-- The text of a `Name`; `parse` is the one way to make one.
abbrev pub Name : Type 0
Name = Bytes

abbrev pub max_name_len : ℕ
max_name_len = 63

-- `matches!(b, b'a'..=b'z' | b'0'..=b'9')`
abbrev pub is_name_byte : ℕ → Bool
is_name_byte b = (leb b'a' b && leb b b'z') || (leb b'0' b && leb b b'9')

unfoldable pub parse : Bytes → Option Name
parse s =
    if length s == 0 || ltb max_name_len (length s)
    then none
    else if all is_name_byte s
    then some s
    else none
