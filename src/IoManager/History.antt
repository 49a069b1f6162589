-- ===== src/IoManager/History.antt =====
-- Histories of an I/O request that writes: its segments' answers, in any order, and what they add up to.
use kt.Base.{
  ℕ, zero, suc, ◌+◌, ◌≤◌, ◌<◌, ◌≡◌, refl, ap, Bool, true, ◌&&◌, ◌-◌, ◌^◌, ◌==◌, if◌then◌else◌, some,
  List, [], ◌∷◌, ◌++◌, arith, get_elem?, set,
}
use kt.IoManager.Answers.{
  SegReq, IoRequest, DmsRq, Effect, commit_user_request, dms_rq_left, iorf_submit_request,
  write_pl_ci_user, write_pl_endfn,
}

-- An I/O request and its segments.
pub record Parts : Type 0 where
  pub io : IoRequest
  pub segs : List SegReq

-- Blocks of a segment have been written by enough datanodes for the user, with this result, or by
-- all of them.
pub data Answer : Type 0 where
  for_user : ℕ → Bool → Answer
  for_mds : ℕ → Answer

unfoldable pub handle : SegReq → IoRequest → Answer → SegReq × IoRequest × List Effect
unfolding write_pl_ci_user write_pl_endfn
handle s r (for_user n res) = write_pl_ci_user s r n res
handle s r (for_mds n) = write_pl_endfn s r n

-- The blocks have not been answered so before.
abbrev pub IsDue : Answer → SegReq → Type 0
IsDue (for_user n res) s = (0 < n) × (n ≤ s.ci_user_remain_lb)
IsDue (for_mds n) s = (0 < n) × (n ≤ s.ci_mds_remain_lb)

abbrev pub note : Answer → List Bool → List Bool
note (for_user n res) rs = res ∷ rs
note (for_mds n) rs = rs

unfoldable pub answer : Parts → ℕ → SegReq → Answer → Parts
answer q i s a = let (s', r', more) = handle s q.io a in record { io = r'; segs = set q.segs i s' }

-- A history of answers that are handled one after another, with the results for the user and the effects, the last first.
pub data History (p : Parts) : List Bool → List Effect → Parts → Type 0 where
  start : History p [] [] p
  next :
      {rs : List Bool} {es : List Effect} {q : Parts} (i : ℕ) (s : SegReq) (a : Answer)
      → History p rs es q
      → get_elem? q.segs i ≡ some s
      → IsDue a s
      → History p (note a rs) ((handle s q.io a).2 ++ es) (answer q i s a)

-- A sum over the segments, and a conjunction.
abbrev pub sum_of : (SegReq → ℕ) → List SegReq → ℕ
sum_of f [] = 0
sum_of f (s ∷ ss) = f s + sum_of f ss

abbrev pub all_of : (SegReq → Bool) → List SegReq → Bool
all_of f [] = true
all_of f (s ∷ ss) = f s && all_of f ss

abbrev pub conj : List Bool → Bool
conj [] = true
conj (b ∷ bs) = b && conj bs

pub sum_of-set :
    (f : SegReq → ℕ) (ss : List SegReq) (i : ℕ) (s s' : SegReq)
    → get_elem? ss i ≡ some s
    → sum_of f (set ss i s') + f s ≡ sum_of f ss + f s'
sum_of-set f [] i s s' e = cc
sum_of-set f (x ∷ ss) zero s s' e = let h : f x ≡ f s = cc in omega (arith, h)
sum_of-set f (x ∷ ss) (suc i) s s' e = omega (arith, sum_of-set f ss i s s' e)

pub sum_of-le :
    (f : SegReq → ℕ) (ss : List SegReq) (i : ℕ) (s : SegReq)
    → get_elem? ss i ≡ some s
    → f s ≤ sum_of f ss
sum_of-le f [] i s e = cc
sum_of-le f (x ∷ ss) zero s e = let h : f x ≡ f s = cc in omega (arith, h)
sum_of-le f (x ∷ ss) (suc i) s e = omega (arith, sum_of-le f ss i s e)

-- One more conjunct at a segment.
pub all_of-set :
    (f : SegReq → Bool) (ss : List SegReq) (i : ℕ) (s s' : SegReq) (b : Bool)
    → get_elem? ss i ≡ some s
    → f s' ≡ (b && f s)
    → all_of f (set ss i s') ≡ (b && all_of f ss)
all_of-set f [] i s s' b e h = cc
all_of-set f (x ∷ ss) zero s s' b e h = let k : f x ≡ f s = cc in ground (arith, h, k)
all_of-set f (x ∷ ss) (suc i) s s' b e h = ground (arith, all_of-set f ss i s s' b e h)

-- What the requests of the block layer were told, and how often the request was sent on.
abbrev pub user_effects : List Effect → List Effect
user_effects [] = []
user_effects (commit_user_request b ∷ es) = commit_user_request b ∷ user_effects es
user_effects (dms_rq_left q ∷ es) = dms_rq_left q ∷ user_effects es
user_effects (_ ∷ es) = user_effects es

abbrev pub submits : List Effect → ℕ
submits [] = 0
submits (iorf_submit_request ∷ es) = suc (submits es)
submits (_ ∷ es) = submits es

pub user_effects-append :
    (xs ys : List Effect) → user_effects (xs ++ ys) ≡ user_effects xs ++ user_effects ys
user_effects-append [] ys = refl
user_effects-append (commit_user_request b ∷ xs) ys =
    ap (λ l. commit_user_request b ∷ l) (user_effects-append xs ys)
user_effects-append (dms_rq_left q ∷ xs) ys =
    ap (λ l. dms_rq_left q ∷ l) (user_effects-append xs ys)
user_effects-append (_ ∷ xs) ys = user_effects-append xs ys

-- What each request of the block layer is to be told of an I/O request's result: the last one that
-- holds it ends it with the conjunction of all results, and any other leaves it to the rest.
abbrev pub last_word : Bool → DmsRq → Effect
last_word b q =
    if q.num_ref_ior == 1
    then commit_user_request (q.result && b)
    else dms_rq_left (record { result = q.result && b; num_ref_ior = q.num_ref_ior - 1 })

abbrev pub last_words : Bool → List DmsRq → List Effect
last_words b [] = []
last_words b (q ∷ qs) = last_word b q ∷ last_words b qs

-- Each is held by some I/O request, and the count fits into an int32_t.
abbrev pub AreHeld : List DmsRq → Type 0
AreHeld [] = Unit
AreHeld (q ∷ qs) = (0 < q.num_ref_ior) × (q.num_ref_ior < 2 ^ 31) × AreHeld qs

pub submits-append : (xs ys : List Effect) → submits (xs ++ ys) ≡ submits xs + submits ys
submits-append [] ys = omega arith
submits-append (iorf_submit_request ∷ xs) ys = omega (arith, submits-append xs ys)
submits-append (_ ∷ xs) ys = submits-append xs ys
