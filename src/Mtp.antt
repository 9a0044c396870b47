-- ===== src/Mtp.antt =====
-- mint/mtp.rs: the median of the last block times.
pub mod Median
pub mod Window
use zns_mint.Prelude.{
  ℕ, zero, suc, ◌+◌, ◌-◌, ◌*◌, ◌/◌, ◌≤◌, ◌<◌, Bool, true, false, not, List, [], ◌∷◌, ◌++◌, Option,
  none, some, ◌==◌, nat_eq, ltb, leb, if◌then◌else◌, length, get_elem?, filter, map, drop,
}
use zns_mint.Chain.{BlockHeight, Timestamp}

abbrev pub mtp_window : ℕ
mtp_window = 11

abbrev pub max_time_since_median : ℕ
max_time_since_median = 90 * 60

-- The block times, the oldest one first.
abbrev pub MtpTracker : Type 0
MtpTracker = List (BlockHeight × ℕ)

-- `update`
unfoldable pub update : MtpTracker → BlockHeight → ℕ → MtpTracker
update tracker height timestamp =
    (if leb mtp_window (length tracker) then drop 1 tracker else tracker)
    ++ (height, timestamp) ∷ []

-- Where `backfill` starts: a subtraction that saturates.
abbrev pub backfill_start : BlockHeight → BlockHeight
backfill_start till = till - (mtp_window - 1)

-- The loop of `backfill` from a height, so many blocks on, and the blocks' times as the node gives
-- them. A failure ends it.
unfoldable pub backfill_from :
    MtpTracker → BlockHeight → ℕ → (BlockHeight → Option ℕ) → MtpTracker × Bool
unfolding update
backfill_from tracker h zero fetch = (tracker, true)
backfill_from tracker h (suc k) fetch = elim (fetch h) [
  | none ↦ (tracker, false)
  | some timestamp ↦ backfill_from (update tracker h timestamp) (h + 1) k fetch
]

-- `backfill`: the tracker after it, and whether every block's time was there
unfoldable pub backfill : MtpTracker → BlockHeight → (BlockHeight → Option ℕ) → MtpTracker × Bool
unfolding backfill_from
backfill tracker till fetch =
    backfill_from tracker (backfill_start till) (till + 1 - backfill_start till) fetch

place : ℕ → List ℕ → List ℕ
place x [] = x ∷ []
place x (y ∷ xs) = if leb x y then x ∷ y ∷ xs else y ∷ place x xs

-- `sort_unstable` on integers, whose result does not depend on the way it sorts
unfoldable pub sort : List ℕ → List ℕ
unfolding place
sort [] = []
sort (x ∷ xs) = place x (sort xs)

-- `current`, in seconds
unfoldable pub current : MtpTracker → Option Timestamp
unfolding sort
current tracker = let stamps = sort (map (λ b. b.1) tracker) in get_elem? stamps (length stamps / 2)

-- The verdicts of `header_time_ok`.
pub data HeaderTime : Type 0 where
  accepted unavailable not_after_median too_far_ahead : HeaderTime

unfoldable pub header_time_ok : MtpTracker → ℕ → HeaderTime
unfolding current
header_time_ok tracker timestamp = elim (current tracker) [
  | none ↦ unavailable
  | some median ↦
      if leb timestamp median
      then not_after_median
      else if ltb (median + max_time_since_median) timestamp
      then too_far_ahead
      else accepted
]

unfoldable pub truncate_to : MtpTracker → BlockHeight → MtpTracker
truncate_to tracker height = filter (λ b. leb b.0 height) tracker
