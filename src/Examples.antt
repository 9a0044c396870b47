-- ===== src/Examples.antt =====
-- A network of small encodings, on which the laws of the foreign code hold.
pub mod Notes
pub mod Chain
pub mod Queues
pub mod Market
pub mod Rates
use zns_mint.Prelude.{
  ℕ, zero, suc, ◌+◌, ◌-◌, ◌*◌, ◌/◌, ◌%◌, ◌^◌, ◌≤◌, ◌<◌, ◌≡◌, ◌≢◌, refl, sym, ap, ◌∙◌, Bool, true,
  false, List, [], ◌∷◌, Option, none, some, arith, ◌==◌, nat_eq, if◌then◌else◌, length, replicate,
  length-replicate, All, some_if, ltb,
}
use zns_mint.Text.{Bytes}
use zns_mint.Text.Split.{Lacks}
use zns_mint.Chain.{Params, Lawful, UnifiedAddress, commitment_bound}

-- The last `k` bytes of a number, the lowest one first.
abbrev le_bytes : ℕ → ℕ → Bytes
le_bytes zero c = []
le_bytes (suc k) c = (c % 256) ∷ le_bytes k (c / 256)

abbrev from_le_bytes : Bytes → ℕ
from_le_bytes [] = 0
from_le_bytes (b ∷ s) = b + 256 * from_le_bytes s

from_le_bytes-le_bytes : (k c : ℕ) → c < 256 ^ k → from_le_bytes (le_bytes k c) ≡ c
from_le_bytes-le_bytes zero c lt = omega arith
from_le_bytes-le_bytes (suc k) c lt =
    let e = from_le_bytes-le_bytes k (c / 256) (omega arith) in omega arith

length-le_bytes : (k c : ℕ) → length (le_bytes k c) ≡ k
length-le_bytes zero c = refl
length-le_bytes (suc k) c = ap suc (length-le_bytes k (c / 256))

le_bytes_range : (k c : ℕ) → All (λ b. b < 256) (le_bytes k c)
le_bytes_range zero c = tt
le_bytes_range (suc k) c = (omega arith, le_bytes_range k (c / 256))

-- An address as so many letters.
abbrev letters : UnifiedAddress → Bytes
letters u = replicate (suc u) b'u'

abbrev from_letters : Bytes → Option UnifiedAddress
from_letters [] = none
from_letters (c ∷ s) = some (length s)

All-replicate {κ} : (P : ℕ → Type κ) (n c : ℕ) → P c → All P (replicate n c)
All-replicate P zero c h = tt
All-replicate P (suc n) c h = (h, All-replicate P n c h)

-- The hash adds the bytes up, so that the examples can be read.
abbrev total : Bytes → ℕ
total [] = 0
total (b ∷ s) = b + total s

abbrev pub small : Params
small = record {
  encode_ua = letters;
  decode_ua = from_letters;
  decode_controller = from_letters;
  transparent = λ u. some u;
  decode_transparent = from_letters;
  is_pubkey_hash = λ t. true;
  encode_transparent = letters;
  hash_to_scalar = total;
  hash_to_base = total;
  commitment_bytes = le_bytes 32;
  commitment_of = λ s.
      if length s == 32
      then some_if (ltb (from_le_bytes s) commitment_bound) (from_le_bytes s)
      else none;
  expiry_delta = λ h. 40;
  last_second = 10000000000;
}

pub small-Lawful : Lawful small
small-Lawful = record {
  decode_ua-encode_ua = λ u. ap (λ n. some n) (length-replicate {A = ℕ} u b'u');
  decode_transparent-encode_transparent = λ t. ap (λ n. some n) (length-replicate {A = ℕ} t b'u');
  encode_transparent-Lacks = λ t. All-replicate (λ c. c ≢ b':') (suc t) b'u' (omega arith);
  encode_ua-ne-nil = λ u e. ground arith;
  encode_ua-Lacks = λ u. All-replicate (λ c. c ≢ b':') (suc u) b'u' (omega arith);
  encode_ua_ascii = λ u. All-replicate (λ c. c < 0x80) (suc u) b'u' (omega arith);
  encode_ua-no-nul = λ u. All-replicate (λ c. c ≢ 0) (suc u) b'u' (omega arith);
  commitment_of-bytes =
      λ c lt. ground (arith, length-le_bytes 32 c, from_le_bytes-le_bytes 32 c (omega arith));
  commitment_bytes-length = λ c. length-le_bytes 32 c;
  commitment_bytes_range = λ c. le_bytes_range 32 c;
}
