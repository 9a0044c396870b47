-- ===== src/Note/Codec.antt =====
-- mint/note.rs: `NameNote::encode` and `NameNote::decode`, the 512-byte memo.
use zns_mint.Prelude.{
  ℕ, ◌-◌, not, ◌||◌, List, [], ◌∷◌, ◌++◌, Option, none, some, ◌==◌, nat_eq, bytes_eq, leb,
  if◌then◌else◌, all, any, length, replicate, codes, some_if, ◌>>=◌,
}
use zns_mint.Text.{Bytes}
use zns_mint.Text.Split.{split, join}
use zns_mint.Text.Hex
use zns_mint.Text.Hex.{is_hex}
use zns_mint.Text.Utf8.{is_utf8}
use zns_mint.Chain.{Params, UnifiedAddress}
use zns_mint.Name
use zns_mint.Name.{Name}
use zns_mint.Action
use zns_mint.Action.{Action, action_eq}
use zns_mint.Term.{Expiry, never, field_bytes, parse_expiry, expiry_eq}
use zns_mint.Note.{
  NameNote, claim, update, release, sale, name, action, ua, prev_rcm, expiry_or_never,
}

abbrev pub memo_len : ℕ
memo_len = 512

abbrev pub zero32 : Bytes
zero32 = replicate 32 0

-- `self.prev_rcm().map(|r| r.to_bytes()).unwrap_or([0u8; 32])`
abbrev pub prev_bytes : Params → NameNote → Bytes
prev_bytes params n = elim (prev_rcm n) [ none ↦ zero32 | some p ↦ params.commitment_bytes p ]

-- The six fields of a memo.
abbrev pub fields : Params → NameNote → List Bytes
fields params n =
    codes "ZNS"
    ∷ Action.as_str (action n)
    ∷ name n
    ∷ params.encode_ua (ua n)
    ∷ field_bytes (expiry_or_never n)
    ∷ Hex.encode (prev_bytes params n)
    ∷ []

-- The text in front of the padding.
abbrev pub memo_text : Params → NameNote → Bytes
memo_text params n = join b':' (fields params n)

-- `none` where the text does not fit, which panics in the slice of the memo.
unfoldable pub encode : Params → NameNote → Option Bytes
encode params n =
    some_if (leb (length (memo_text params n)) memo_len)
      (memo_text params n ++ replicate (memo_len - length (memo_text params n)) 0)

-- The bytes in front of the first NUL.
unfoldable pub before_nul : Bytes → Bytes
before_nul [] = []
before_nul (c ∷ s) = let rest = before_nul s in if c == 0 then [] else c ∷ rest

-- The bytes from the first NUL on.
unfoldable pub from_nul : Bytes → Bytes
from_nul [] = []
from_nul (c ∷ s) = let rest = from_nul s in if c == 0 then c ∷ s else rest

-- The note that the fields name, by its action: a claim has the zero predecessor, each other has
-- one that is not zero, and a release has no expiry.
unfoldable pub build : Params → Action → Name → UnifiedAddress → Expiry → Bytes → Option NameNote
build params Action.claim n u e prev = if prev == zero32 then some (claim n u e) else none
build params Action.update n u e prev =
    if prev == zero32 then none else params.commitment_of prev >>= λ p. some (update n u e p)
build params Action.sale n u e prev =
    if prev == zero32 then none else params.commitment_of prev >>= λ p. some (sale n u e p)
build params Action.release n u e prev =
    if not (e == never) || prev == zero32
    then none
    else params.commitment_of prev >>= λ p. some (release n u p)
build params Action.list n u e prev = none
build params Action.delist n u e prev = none
build params Action.auction n u e prev = none

-- The fields of a memo as a note. The test `ua_str.is_empty()` stands here once for the four arms.
unfoldable pub decode_fields : Params → List Bytes → Option NameNote
unfolding build
decode_fields params (tag ∷ verb ∷ n ∷ u ∷ e ∷ prev ∷ []) =
    if not (tag == codes "ZNS") then none else do
      n' ← Name.parse n
      u' ← params.decode_ua u
      e' ← parse_expiry params e
      if not (length prev == 64) || not (all is_hex prev) then none else do
        prev' ← Hex.decode prev
        a ← Action.parse verb
        if length u == 0 then none else build params a n' u' e' prev'
decode_fields params _ = none

-- `NameNote::decode`
unfoldable pub decode : Params → Bytes → Option NameNote
unfolding decode_fields before_nul from_nul
decode params memo =
    if any (λ b. not (b == 0)) (from_nul memo) || not (is_utf8 (before_nul memo)) then none else do
      note ← decode_fields params (split b':' (before_nul memo))
      again ← encode params note
      some_if (again == memo) note
