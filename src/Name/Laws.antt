-- ===== src/Name/Laws.antt =====
-- mint.rs: what `Name::parse` accepts.
use zns_mint.Prelude.{◌≤◌, ◌≡◌, ◌↔◌, true, some, arith, length, all}
use zns_mint.Text.{Bytes}
use zns_mint.Name.{Name, parse, is_name_byte}

-- `parse` accepts the texts of one to 63 lower-case letters and digits, as they stand, and no other.
pub parse_iff :
    (s : Bytes) (n : Name)
    → (parse s ≡ some n)
      ↔ ((n ≡ s) × (1 ≤ length s) × (length s ≤ 63) × (all is_name_byte s ≡ true))
unfolding parse
parse_iff s n = (λ h. ground arith, λ h. ground arith)
