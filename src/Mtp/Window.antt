-- ===== src/Mtp/Window.antt =====
-- mint/mtp.rs: which blocks the tracker holds.
use zns_mint.Prelude.{
  ℕ, zero, suc, ◌+◌, ◌-◌, ◌≤◌, ◌<◌, ◌≡◌, refl, sym, ap, ◌∙◌, true, [], ◌∷◌, ◌++◌, some, arith, leb,
  if◌then◌else◌, if_cases, length, drop, All, All-append, length-append, append_assoc, append-nil,
}
use zns_mint.Chain.{BlockHeight}
use zns_mint.Mtp.{MtpTracker, update, backfill, backfill_from, backfill_start, mtp_window}

-- Heights rise, all up to the last one.
abbrev pub Rising : MtpTracker → Type 0
Rising [] = Unit {0}
Rising (b ∷ t) = All (λ c. b.0 < c.0) t × Rising t

pub record IsValid (t : MtpTracker) : Type 0 where
  pub bounded : length t ≤ mtp_window
  pub rising : Rising t

length-drop_one : (t : MtpTracker) → length (drop 1 t) ≡ length t - 1
length-drop_one [] = refl
length-drop_one (b ∷ t) = omega arith

Rising-concat :
    (t : MtpTracker) (b : BlockHeight × ℕ)
    → Rising t
    → All (λ c. c.0 < b.0) t
    → Rising (t ++ b ∷ [])
Rising-concat [] b r a = (tt, tt)
Rising-concat (c ∷ t) b r a =
    (All-append (λ x. c.0 < x.0) t (b ∷ []) r.0 (a.0, tt), Rising-concat t b r.1 a.1)

Rising-drop : (t : MtpTracker) → Rising t → Rising (drop 1 t)
Rising-drop [] r = tt
Rising-drop (b ∷ t) r = r.1

All-drop : (h : BlockHeight) (t : MtpTracker) → All (λ c. c.0 < h) t → All (λ c. c.0 < h) (drop 1 t)
All-drop h [] a = tt
All-drop h (b ∷ t) a = a.1

-- A later block keeps the tracker within its eleven blocks, in order.
pub update-IsValid :
    (t : MtpTracker) (h : BlockHeight) (timestamp : ℕ)
    → IsValid t
    → All (λ c. c.0 < h) t
    → IsValid (update t h timestamp)
unfolding update
update-IsValid t h timestamp v a = record {
  bounded = ground (
    arith,
    length-append (drop 1 t) ((h, timestamp) ∷ []),
    length-append t ((h, timestamp) ∷ []),
    length-drop_one t,
    v.bounded,
  );
  rising =
      if_cases (λ s. Rising (s ++ (h, timestamp) ∷ [])) (leb mtp_window (length t)) (drop 1 t) t
        (λ _. Rising-concat (drop 1 t) (h, timestamp) (Rising-drop t v.rising) (All-drop h t a))
        (λ _. Rising-concat t (h, timestamp) v.rising a);
}

-- The blocks from `h` on, `k` of them, as the node gives them.
unfoldable pub blocks : (BlockHeight → ℕ) → BlockHeight → ℕ → MtpTracker
blocks time h zero = []
blocks time h (suc k) = (h, time h) ∷ blocks time (h + 1) k

length-blocks : (time : BlockHeight → ℕ) (h : BlockHeight) (k : ℕ) → length (blocks time h k) ≡ k
unfolding blocks
length-blocks time h zero = refl
length-blocks time h (suc k) = ap suc (length-blocks time (h + 1) k)

backfill_from-blocks :
    (time : BlockHeight → ℕ) (t : MtpTracker) (h : BlockHeight) (k : ℕ)
    → length t + k ≤ mtp_window
    → backfill_from t h k (λ i. some (time i)) ≡ (t ++ blocks time h k, true)
unfolding backfill_from blocks update
backfill_from-blocks time t h zero le = ap (λ s. (s, true)) (sym (append-nil t))
backfill_from-blocks time t h (suc k) le =
    ap (λ s. backfill_from (s ++ (h, time h) ∷ []) (h + 1) k (λ i. some (time i)))
      (room t (omega arith))
    ∙ backfill_from-blocks time (t ++ (h, time h) ∷ []) (h + 1) k
        (ground (arith, length-append t ((h, time h) ∷ [])))
    ∙ ap (λ s. (s, true)) (append_assoc t ((h, time h) ∷ []) (blocks time (h + 1) k))
  where
    room :
        (t : MtpTracker)
        → length t < mtp_window
        → (if leb mtp_window (length t) then drop 1 t else t) ≡ t
    room t lt = ground arith

-- Where the node gives every block, a backfill of an empty tracker succeeds, and holds the blocks
-- from ten below `till`, or from the first one, up to `till` in order.
pub backfill-blocks :
    (time : BlockHeight → ℕ) (till : BlockHeight)
    → backfill [] till (λ h. some (time h))
      ≡ (blocks time (backfill_start till) (till + 1 - backfill_start till), true)
unfolding backfill
backfill-blocks time till =
    backfill_from-blocks time [] (backfill_start till) (till + 1 - backfill_start till)
      (ground arith)
