-- ===== src/Otp/Complete.antt =====
-- mint/treasury/otp.rs: what a response does to the queue, and what it completes.
use zns_mint.Prelude.{
  ◌≡◌, refl, sym, ap, ◌∙◌, Bool, true, false, not, ◌&&◌, ◌||◌, [], ◌∷◌, Option, none, some, arith,
  nat_eq, bytes_eq, if◌then◌else◌, subst, any, find, remove_first, map,
}
use zns_mint.Action.{action_eq}
use zns_mint.Request
use zns_mint.Request.{Request, request_eq}
use zns_mint.Otp.{
  OtpQueue, OtpChallenge, OtpMemo, OtpCode, ChallengeState, challenge_state_eq, clashes, asks,
  challenge_issued, relay_one, answered, attempt, count_failures, complete,
}
use zns_mint.Otp.Laws.{IsValid, remove_first-IsValid, count_failures-IsValid}

-- `complete`, once the search is done.
abbrev outcome :
    OtpQueue → OtpMemo → Option (OtpChallenge × ChallengeState) → OtpQueue × Option OtpChallenge
outcome q m none = (count_failures q m, none)
outcome q m (some x) = (
  remove_first (answered m) q,
  if (attempt x.0 m.code).1 then some (attempt x.0 m.code).0 else none,
)

-- A response, right or wrong, keeps the queue of challenges valid.
pub complete-IsValid : (q : OtpQueue) (m : OtpMemo) → IsValid q → IsValid (complete q m).0
unfolding complete
complete-IsValid q m v = split (find (answered m) q)
  where
    split : (o : Option (OtpChallenge × ChallengeState)) → IsValid (outcome q m o).0
    split none = count_failures-IsValid q m v
    split (some x) = remove_first-IsValid (answered m) q v

find_answered :
    (p : OtpChallenge × ChallengeState → Bool) (q : OtpQueue) (x : OtpChallenge × ChallengeState)
    → find p q ≡ some x
    → p x ≡ true
find_answered p [] x e = ground arith
find_answered p (y ∷ q) x e = ground (arith, find_answered p q x)

find-asks :
    (p : OtpChallenge × ChallengeState → Bool) (r : Request) (q : OtpQueue)
    (x : OtpChallenge × ChallengeState)
    → find p q ≡ some x
    → any (asks r) q ≡ false
    → asks r x ≡ false
find-asks p r [] x e a = ground arith
find-asks p r (y ∷ q) x e a = ground (arith, find-asks p r q x)

removed :
    (p : OtpChallenge × ChallengeState → Bool) (q : OtpQueue) (x : OtpChallenge × ChallengeState)
    → IsValid q
    → find p q ≡ some x
    → any (asks x.0.request) (remove_first p q) ≡ false
removed p [] x v e = refl
removed p (y ∷ q) x v e = ground (arith, removed p q x v.2, find-asks p y.0.request q x)

attempt_right :
    (d c : OtpChallenge) (code : OtpCode)
    → d.code ≡ code
    → (if (attempt d code).1 then some (attempt d code).0 else none) ≡ some c
    → c ≡ d
unfolding attempt
attempt_right d c code e f = ground arith

-- In a valid queue, a challenge that a response completes has the name, the action, the address
-- and the code of the response, and no challenge of its request is left.
pub complete_sound :
    (q : OtpQueue) (m : OtpMemo) (c : OtpChallenge)
    → IsValid q
    → (complete q m).1 ≡ some c
    → Request.name c.request ≡ m.name
      × Request.action c.request ≡ m.action
      × Request.ua c.request ≡ m.ua
      × c.code ≡ m.code
      × any (asks c.request) (complete q m).0 ≡ false
unfolding complete
complete_sound q m c v = split (find (answered m) q) refl
  where
    split :
        (o : Option (OtpChallenge × ChallengeState))
        → find (answered m) q ≡ o
        → (outcome q m o).1 ≡ some c
        → Request.name c.request ≡ m.name
          × Request.action c.request ≡ m.action
          × Request.ua c.request ≡ m.ua
          × c.code ≡ m.code
          × any (asks c.request) (outcome q m o).0 ≡ false
    split none f e = ground arith
    split (some x) f e =
        let a = find_answered (answered m) q x f in
        let same : c ≡ x.0 = attempt_right x.0 c m.code (ground arith) e in
        subst
          (λ d.
            Request.name d.request ≡ m.name
            × Request.action d.request ≡ m.action
            × Request.ua d.request ≡ m.ua
            × d.code ≡ m.code
            × any (asks d.request) (remove_first (answered m) q) ≡ false)
          (sym same)
          (ground arith, ground arith, ground arith, ground arith, removed (answered m) q x v f)

any-asks-relay :
    (r : Request) (sent : OtpChallenge) (q : OtpQueue)
    → any (asks r) (map (relay_one sent) q) ≡ any (asks r) q
any-asks-relay r sent [] = refl
any-asks-relay r sent (x ∷ q) = ap (λ b. asks r x || b) (any-asks-relay r sent q)

any-clashes-relay :
    (r : Request) (code : OtpCode) (sent : OtpChallenge) (q : OtpQueue)
    → any (clashes r code) (map (relay_one sent) q) ≡ any (clashes r code) q
any-clashes-relay r code sent [] = refl
any-clashes-relay r code sent (x ∷ q) =
    ap (λ b. clashes r code x || b) (any-clashes-relay r code sent q)

-- The acceptance of a memo keeps the queue valid.
pub challenge_issued-IsValid :
    (q : OtpQueue) (sent : OtpChallenge) → IsValid q → IsValid (challenge_issued q sent)
unfolding challenge_issued
challenge_issued-IsValid [] sent v = tt
challenge_issued-IsValid (x ∷ q) sent v = (
  ap (λ b. not b && not (any (clashes x.0.request x.0.code) (map (relay_one sent) q)))
        (any-asks-relay x.0.request sent q)
      ∙ ap (λ b. not (any (asks x.0.request) q) && not b)
          (any-clashes-relay x.0.request x.0.code sent q)
      ∙ v.0,
  v.1,
  challenge_issued-IsValid q sent v.2,
)
