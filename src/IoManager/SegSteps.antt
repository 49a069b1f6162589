-- ===== src/IoManager/SegSteps.antt =====
-- The branches of what a segment that writes does with an answer.
use kt.Base.{
  ℕ, ◌-◌, ◌^◌, ◌≤◌, ◌<◌, ◌≡◌, refl, Bool, true, false, ◌&&◌, List, [], ◌∷◌, arith, ◌==◌, ap, ◌∙◌,
  inl, inr, Bool-cases,
}
use kt.IoManager.Answers.{
  SegReq, IoRequest, DmsRq, Effect, atomic_sub_return, commit_rqs, io_done_endfn, write_pl_ci_user,
  write_pl_endfn,
}
use kt.IoManager.History.{user_effects, last_words, AreHeld}

pub record IsSegOk (s : SegReq) : Type 0 where
  pub some_lb : 0 < s.lbid_len
  pub within : s.ci_user_remain_lb ≤ s.lbid_len
  pub short : s.lbid_len < 2 ^ 31
  pub told : s.fea_ci_user ≡ (s.ci_user_remain_lb == 0)

pub sub_small : (a b : ℕ) → a ≤ b → b < 2 ^ 31 → atomic_sub_return a b ≡ b - a
sub_small a b h k = omega (arith, h, k)

user_effects-last_words :
    (b : Bool) (qs : List DmsRq) → user_effects (last_words b qs) ≡ last_words b qs
user_effects-last_words b [] = refl
user_effects-last_words b (q ∷ qs) = elim (Bool-cases (q.num_ref_ior == 1)) [
  | inl last ↦ ground (arith, last, user_effects-last_words b qs)
  | inr more ↦ ground (arith, more, user_effects-last_words b qs)
]

commit_rqs-last_words :
    (qs : List DmsRq) (b : Bool) → AreHeld qs → commit_rqs qs b ≡ last_words b qs
unfolding commit_rqs
commit_rqs-last_words [] b h = refl
commit_rqs-last_words (q ∷ qs) b (pos, small, h) =
    let left = sub_small 1 q.num_ref_ior (omega (arith, pos)) small in
    ground (arith, left, pos, commit_rqs-last_words qs b h)

-- The requests of the block layer are all told, and nothing else is.
pub user_effects-commit_rqs :
    (qs : List DmsRq) (b : Bool) → AreHeld qs → user_effects (commit_rqs qs b) ≡ last_words b qs
user_effects-commit_rqs qs b h =
    ap user_effects (commit_rqs-last_words qs b h) ∙ user_effects-last_words b qs

pub seg_wait :
    (s : SegReq) (r : IoRequest) (n : ℕ) (res : Bool)
    → IsSegOk s
    → n < s.ci_user_remain_lb
    → write_pl_ci_user s r n res ≡ (
      record s {
        ci_user_result = s.ci_user_result && res;
        ci_user_remain_lb = s.ci_user_remain_lb - n;
      },
      r,
      [],
    )
unfolding write_pl_ci_user
seg_wait s r n res k h =
    let e = sub_small n s.ci_user_remain_lb (omega (arith, h)) (omega (arith, k.within, k.short)) in
    ground (arith, e, h)

-- The segment's last blocks, while the request has other segments open.
pub seg_shut :
    (s : SegReq) (r : IoRequest) (n : ℕ) (res : Bool)
    → n ≡ s.ci_user_remain_lb
    → s.ci_user_remain_lb < 2 ^ 31
    → s.fea_ci_user ≡ false
    → s.lbid_len < r.ci_user_remain_lb
    → r.ci_user_remain_lb < 2 ^ 31
    → write_pl_ci_user s r n res ≡ (
      record s {
        ci_user_result = s.ci_user_result && res;
        ci_user_remain_lb = 0;
        fea_ci_user = true;
      },
      record r {
        io_result = r.io_result && (s.ci_user_result && res);
        ci_user_remain_lb = r.ci_user_remain_lb - s.lbid_len;
      },
      [],
    )
unfolding write_pl_ci_user
seg_shut s r n res e k f lt small =
    let a : atomic_sub_return n s.ci_user_remain_lb ≡ 0 = omega (arith, e, k) in
    let b = sub_small s.lbid_len r.ci_user_remain_lb (omega (arith, lt)) small in
    ground (arith, a, b, f, lt)

-- The last blocks of the request's last open segment.
pub seg_shut_last :
    (s : SegReq) (r : IoRequest) (n : ℕ) (res : Bool)
    → n ≡ s.ci_user_remain_lb
    → s.ci_user_remain_lb < 2 ^ 31
    → s.fea_ci_user ≡ false
    → s.lbid_len ≡ r.ci_user_remain_lb
    → r.ci_user_remain_lb < 2 ^ 31
    → r.fea_ci_user ≡ false
    → write_pl_ci_user s r n res ≡ (
      record s {
        ci_user_result = s.ci_user_result && res;
        ci_user_remain_lb = 0;
        fea_ci_user = true;
      },
      record r {
        io_result = r.io_result && (s.ci_user_result && res);
        ci_user_remain_lb = 0;
        fea_ci_user = true;
        rqs = [];
      },
      commit_rqs r.rqs (r.io_result && (s.ci_user_result && res)),
    )
unfolding write_pl_ci_user
seg_shut_last s r n res e k f same small g =
    let a : atomic_sub_return n s.ci_user_remain_lb ≡ 0 = omega (arith, e, k) in
    let b : atomic_sub_return s.lbid_len r.ci_user_remain_lb ≡ 0 = omega (arith, same, small) in
    ground (arith, a, b, f, g)

-- What the answers for the metadata server leave alone.
pub record IsAside (s : SegReq) (r : IoRequest) (s' : SegReq) (r' : IoRequest) (es : List Effect)
    : Type 0 where
  pub seg_remain : s'.ci_user_remain_lb ≡ s.ci_user_remain_lb
  pub seg_result : s'.ci_user_result ≡ s.ci_user_result
  pub seg_len : s'.lbid_len ≡ s.lbid_len
  pub seg_told : s'.fea_ci_user ≡ s.fea_ci_user
  pub io_remain : r'.ci_user_remain_lb ≡ r.ci_user_remain_lb
  pub io_told : r'.fea_ci_user ≡ r.fea_ci_user
  pub io_res : r'.io_result ≡ r.io_result
  pub io_rqs : r'.rqs ≡ r.rqs
  pub silent : user_effects es ≡ []

pub io_done-IsAside :
    (s : SegReq) (r : IoRequest) (n : ℕ) → IsAside s r s (io_done_endfn r n).0 (io_done_endfn r n).1
unfolding io_done_endfn
io_done-IsAside s r n = record {
  seg_remain = refl;
  seg_result = refl;
  seg_len = refl;
  seg_told = refl;
  io_remain = ground arith;
  io_told = ground arith;
  io_res = ground arith;
  io_rqs = ground arith;
  silent = ground arith;
}

pub endfn-IsAside :
    (s : SegReq) (r : IoRequest) (n : ℕ)
    → IsAside s r (write_pl_endfn s r n).0 (write_pl_endfn s r n).1 (write_pl_endfn s r n).2
unfolding write_pl_endfn
endfn-IsAside s r n =
    let done = io_done-IsAside s r s.lbid_len in
    record {
      seg_remain = ground arith;
      seg_result = ground arith;
      seg_len = ground arith;
      seg_told = ground arith;
      io_remain = ground (arith, done.io_remain);
      io_told = ground (arith, done.io_told);
      io_res = ground (arith, done.io_res);
      io_rqs = ground (arith, done.io_rqs);
      silent = ground (arith, done.silent);
    }
