-- ===== src/Chain.antt =====
-- What the mint takes from the libraries that it calls. A value of a foreign type (an address, a
-- nullifier, a commitment, a transaction id) is only compared and handed on, and stands here as the
-- number that is its identity; what the mint computes from one is a field of `Params`.
use zns_mint.Prelude.{ℕ, Bool, ◌<◌, ◌≡◌, ◌≢◌, [], Option, some, All, length, leb, some_if}
use zns_mint.Text.{Bytes}
use zns_mint.Text.Split.{Lacks}

-- `zcash_keys::address::UnifiedAddress`
abbrev pub UnifiedAddress : Type 0
UnifiedAddress = ℕ

-- `transparent::address::TransparentAddress`
abbrev pub TransparentAddress : Type 0
TransparentAddress = ℕ

-- `orchard::note::Nullifier`
abbrev pub Nullifier : Type 0
Nullifier = ℕ

-- `orchard::note::NoteCommitTrapdoor`, the inside of a `NameCommitment`
abbrev pub NameCommitment : Type 0
NameCommitment = ℕ

abbrev pub TxId : Type 0
TxId = ℕ

-- `BlockHeight`, a u32
abbrev pub BlockHeight : Type 0
BlockHeight = ℕ

-- `time::Timestamp` in whole seconds. The mint's are not before the epoch: they are header times,
-- sums with positive intervals, and numbers read from digits.
abbrev pub Timestamp : Type 0
Timestamp = ℕ

-- `Zatoshis`, at most `max_money`
abbrev pub Zatoshis : Type 0
Zatoshis = ℕ

abbrev pub max_money : ℕ
max_money = 2_100_000_000_000_000

-- `Zatoshis::from_u64`
abbrev pub zatoshis : ℕ → Option Zatoshis
zatoshis n = some_if (leb n max_money) n

-- The network parameters with the foreign functions that depend on them.
pub record Params : Type 0 where
  -- `ua.encode(params)`
  pub encode_ua : UnifiedAddress → Bytes
  -- `unified::Address::decode` with the tests of network and revision and `UnifiedAddress::try_from`
  pub decode_ua : Bytes → Option UnifiedAddress
  -- `decode_ua` with no metadata item and no unknown receiver, and a shielded receiver
  pub decode_controller : Bytes → Option UnifiedAddress
  -- `ua.transparent()`
  pub transparent : UnifiedAddress → Option TransparentAddress
  -- `Address::decode` where the address is transparent, whether it is the hash of a public key, and
  -- `Address::Transparent(address).encode`
  pub decode_transparent : Bytes → Option TransparentAddress
  pub is_pubkey_hash : TransparentAddress → Bool
  pub encode_transparent : TransparentAddress → Bytes
  -- BLAKE2b-512 of the absorbed bytes, reduced into the Pallas scalar field
  pub hash_to_scalar : Bytes → NameCommitment
  -- BLAKE2b-512 of the absorbed bytes, reduced into the Pallas base field
  pub hash_to_base : Bytes → ℕ
  -- `NoteCommitTrapdoor::to_bytes` and `from_bytes`
  pub commitment_bytes : NameCommitment → Bytes
  pub commitment_of : Bytes → Option NameCommitment
  -- `default_tx_expiry_delta(BranchId::for_height(params, height))`
  pub expiry_delta : BlockHeight → ℕ
  -- the greatest second that a `Timestamp` can hold
  pub last_second : ℕ

-- A commitment is a Pallas scalar, below the prime order of the scalar field. The bytes of a number
-- that is not below it are no encoding that `from_bytes` takes.
abbrev pub commitment_bound : ℕ
commitment_bound = 0x40000000000000000000000000000000224698fc0994a8dd8c46eb2100000001

-- The documented behaviour of the address and commitment encodings.
pub record Lawful (params : Params) : Type 0 where
  pub decode_ua-encode_ua : (u : UnifiedAddress) → params.decode_ua (params.encode_ua u) ≡ some u
  pub encode_ua-ne-nil : (u : UnifiedAddress) → params.encode_ua u ≢ []
  -- Bech32m text has no separator of ours
  pub encode_ua-Lacks : (u : UnifiedAddress) → Lacks b':' (params.encode_ua u)
  pub encode_ua_ascii : (u : UnifiedAddress) → All (λ c. c < 0x80) (params.encode_ua u)
  pub encode_ua-no-nul : (u : UnifiedAddress) → All (λ c. c ≢ 0) (params.encode_ua u)
  pub decode_transparent-encode_transparent :
      (t : TransparentAddress) → params.decode_transparent (params.encode_transparent t) ≡ some t
  -- Base58 text has no separator of ours
  pub encode_transparent-Lacks : (t : TransparentAddress) → Lacks b':' (params.encode_transparent t)
  pub commitment_of-bytes :
      (c : NameCommitment)
      → c < commitment_bound
      → params.commitment_of (params.commitment_bytes c) ≡ some c
  pub commitment_bytes-length : (c : NameCommitment) → length (params.commitment_bytes c) ≡ 32
  pub commitment_bytes_range : (c : NameCommitment) → All (λ b. b < 256) (params.commitment_bytes c)

-- `Timestamp::from_seconds`
abbrev pub from_seconds : Params → ℕ → Option Timestamp
from_seconds params s = some_if (leb s params.last_second) s
