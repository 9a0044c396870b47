-- ===== src/Otp/Laws.antt =====
-- mint/treasury/otp.rs: at most one challenge of a request, and a code that tells them apart.
use zns_mint.Prelude.{
  ◌+◌, ◌<◌, ◌≡◌, refl, ap, ◌∙◌, Bool, true, false, not, ◌&&◌, ◌||◌, List, [], ◌∷◌, ◌++◌, Option,
  none, some, arith, ◌==◌, nat_eq, bytes_eq, if_cases, subst, Bool-cases, any, filter, find,
  remove_first, Option-cases, inl, inr, any-append,
}
use zns_mint.Chain.{Timestamp}
use zns_mint.Action.{action_eq}
use zns_mint.Request.{Request, request_eq}
use zns_mint.Otp.{
  OtpQueue, OtpChallenge, OtpMemo, OtpCode, ChallengeState, requested, challenge_state_eq,
  confusable, clashes, asks, fresh_code, admit, attempt, count_failure, count_failures, put,
  max_attempts, d_otp,
}

-- Two challenges in the queue: other requests, and no response that fits both.
abbrev pub apart : OtpChallenge × ChallengeState → OtpQueue → Bool
apart x q = not (any (asks x.0.request) q) && not (any (clashes x.0.request x.0.code) q)

-- Every challenge is below the limit of failures, and apart from those behind it.
abbrev pub IsValid : OtpQueue → Type 0
IsValid [] = Unit {0}
IsValid (x ∷ q) = (apart x q ≡ true) × (x.0.attempts < max_attempts) × IsValid q

find-holds :
    (p : OtpCode → Bool) (xs : List OtpCode) (c : OtpCode) → find p xs ≡ some c → p c ≡ true
find-holds p [] c e = ground arith
find-holds p (x ∷ xs) c e = ground (arith, find-holds p xs c)

-- apart is symmetric.
apart-sym :
    (x y : OtpChallenge × ChallengeState)
    → (asks x.0.request y ≡ false × clashes x.0.request x.0.code y ≡ false)
    → (asks y.0.request x ≡ false × clashes y.0.request y.0.code x ≡ false)
apart-sym x y a = (ground arith, ground arith)

concat-IsValid :
    (q : OtpQueue) (y : OtpChallenge × ChallengeState)
    → IsValid q
    → apart y q ≡ true
    → y.0.attempts < max_attempts
    → IsValid (q ++ y ∷ [])
concat-IsValid [] y v a lt = (refl, lt, tt)
concat-IsValid (x ∷ q) y v a lt = (
  ground (
    arith,
    any-append (asks x.0.request) q (y ∷ []),
    any-append (clashes x.0.request x.0.code) q (y ∷ []),
    apart-sym y x,
  ),
  v.1,
  concat-IsValid q y v.2 (ground arith) lt,
)

-- Where `admit` ends, whatever codes are drawn, it keeps the queue valid: no request has two
-- challenges, no response fits two of them, and each has fewer than six failures.
pub issue-IsValid :
    (q : OtpQueue) (r : Request) (mtp : Timestamp) (draws : List OtpCode) (q' : OtpQueue)
    → IsValid q
    → admit q r mtp draws ≡ some q'
    → IsValid q'
unfolding admit
issue-IsValid q r mtp draws q' v e = elim (Bool-cases (any (asks r) q)) [
  | inl asked ↦ subst IsValid (ground arith) v
  | inr free ↦ elim (Option-cases (fresh_code q r draws)) [
    | inl f ↦ ground arith
    | inr (code, f) ↦
        let fresh =
          find-holds (λ c. not (any (clashes r c) q)) draws code (unfold fresh_code in f) in
        subst IsValid (ground arith) (
          concat-IsValid q
            (record { request = r; code = code; expires_at = mtp + d_otp; attempts = 0 }, requested)
            v (ground arith) (ground arith))
  ]
]

-- A queue keeps its order when it loses challenges.
any-filter :
    (p k : OtpChallenge × ChallengeState → Bool) (q : OtpQueue)
    → any p q ≡ false
    → any p (filter k q) ≡ false
any-filter p k [] e = refl
any-filter p k (x ∷ q) e = ground (arith, any-filter p k q)

filter-IsValid :
    (k : OtpChallenge × ChallengeState → Bool) (q : OtpQueue) → IsValid q → IsValid (filter k q)
filter-IsValid k [] v = tt
filter-IsValid k (x ∷ q) v =
    if_cases IsValid (k x) (x ∷ filter k q) (filter k q)
      (λ _. (
        ground (
          arith,
          any-filter (asks x.0.request) k q,
          any-filter (clashes x.0.request x.0.code) k q,
        ),
        v.1,
        filter-IsValid k q v.2,
      ))
      (λ _. filter-IsValid k q v.2)

any-remove_first :
    (p k : OtpChallenge × ChallengeState → Bool) (q : OtpQueue)
    → any p q ≡ false
    → any p (remove_first k q) ≡ false
any-remove_first p k [] e = refl
any-remove_first p k (x ∷ q) e = ground (arith, any-remove_first p k q)

pub remove_first-IsValid :
    (k : OtpChallenge × ChallengeState → Bool) (q : OtpQueue)
    → IsValid q
    → IsValid (remove_first k q)
remove_first-IsValid k [] v = tt
remove_first-IsValid k (x ∷ q) v =
    if_cases IsValid (k x) q (x ∷ remove_first k q) (λ _. v.2)
      (λ _. (
        ground (
          arith,
          any-remove_first (asks x.0.request) k q,
          any-remove_first (clashes x.0.request x.0.code) k q,
        ),
        v.1,
        remove_first-IsValid k q v.2,
      ))

-- A counted failure keeps a challenge's request and code, and its room for more.
count_failure-keeps :
    (m : OtpMemo) (x y : OtpChallenge × ChallengeState)
    → count_failure m x ≡ some y
    → y.0.request ≡ x.0.request
      × y.0.code ≡ x.0.code
      × (x.0.attempts < max_attempts → y.0.attempts < max_attempts)
unfolding count_failure attempt
count_failure-keeps m (c, s) (d, t) e = (ground arith, ground arith, λ lt. ground arith)

any-asks-put :
    (r : Request) (m : OtpMemo) (x : OtpChallenge × ChallengeState) (q : OtpQueue)
    (o : Option (OtpChallenge × ChallengeState))
    → count_failure m x ≡ o
    → asks r x ≡ false
    → any (asks r) (put o q) ≡ any (asks r) q
any-asks-put r m x q none e a = refl
any-asks-put r m x q (some y) e a = let k = count_failure-keeps m x y e in ground (arith, k.0)

any-asks-count :
    (r : Request) (m : OtpMemo) (q : OtpQueue)
    → any (asks r) q ≡ false
    → any (asks r) (count_failures q m) ≡ false
unfolding count_failures
any-asks-count r m [] e = refl
any-asks-count r m (x ∷ q) e =
    any-asks-put r m x (count_failures q m) (count_failure m x) refl (ground arith)
    ∙ any-asks-count r m q (ground arith)

any-clashes-put :
    (r : Request) (code : OtpCode) (m : OtpMemo) (x : OtpChallenge × ChallengeState) (q : OtpQueue)
    (o : Option (OtpChallenge × ChallengeState))
    → count_failure m x ≡ o
    → clashes r code x ≡ false
    → any (clashes r code) (put o q) ≡ any (clashes r code) q
any-clashes-put r code m x q none e a = refl
any-clashes-put r code m x q (some y) e a =
    let k = count_failure-keeps m x y e in
    ap (λ b. b || any (clashes r code) q)
      (ap (λ z. confusable z r && y.0.code == code) k.0
        ∙ ap (λ z. confusable x.0.request r && z == code) k.1
        ∙ a)

any-clashes-count :
    (r : Request) (code : OtpCode) (m : OtpMemo) (q : OtpQueue)
    → any (clashes r code) q ≡ false
    → any (clashes r code) (count_failures q m) ≡ false
unfolding count_failures
any-clashes-count r code m [] e = refl
any-clashes-count r code m (x ∷ q) e =
    any-clashes-put r code m x (count_failures q m) (count_failure m x) refl (ground arith)
    ∙ any-clashes-count r code m q (ground arith)

apart-count :
    (m : OtpMemo) (x y : OtpChallenge × ChallengeState) (q : OtpQueue)
    → y.0.request ≡ x.0.request
    → y.0.code ≡ x.0.code
    → apart x q ≡ true
    → apart y (count_failures q m) ≡ true
apart-count m x y q e f a =
    let asked = any-asks-count x.0.request m q (ground arith) in
    let clashed = any-clashes-count x.0.request x.0.code m q (ground arith) in
    ap
      (λ r.
        not (any (asks r) (count_failures q m))
        && not (any (clashes r y.0.code) (count_failures q m)))
      e
    ∙ ap
        (λ c.
          not (any (asks x.0.request) (count_failures q m))
          && not (any (clashes x.0.request c) (count_failures q m)))
        f
    ∙ ground (arith, asked, clashed)

put-IsValid :
    (m : OtpMemo) (x : OtpChallenge × ChallengeState) (q : OtpQueue)
    (o : Option (OtpChallenge × ChallengeState))
    → count_failure m x ≡ o
    → apart x q ≡ true
    → x.0.attempts < max_attempts
    → IsValid (count_failures q m)
    → IsValid (put o (count_failures q m))
put-IsValid m x q none e a lt v = v
put-IsValid m x q (some y) e a lt v =
    let k = count_failure-keeps m x y e in (apart-count m x y q k.0 k.1 a, k.2 lt, v)

pub count_failures-IsValid : (q : OtpQueue) (m : OtpMemo) → IsValid q → IsValid (count_failures q m)
unfolding count_failures
count_failures-IsValid [] m v = tt
count_failures-IsValid (x ∷ q) m v =
    put-IsValid m x q (count_failure m x) refl v.0 v.1 (count_failures-IsValid q m v.2)
