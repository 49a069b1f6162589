-- ===== src/IoManager/Unlocked.antt =====
-- `ioSReq_WritePL_ciUser` of io_manager/discoC_ioSegReq_udata_cbfn.c taken apart: `ciUser_result &= ioRes`
-- takes no lock, so that another call may come between its load and its store.
use kt.Base.{
  ℕ, ◌+◌, ap, ◌∙◌, ◌^◌, ◌<◌, ◌≡◌, refl, Bool, true, false, ◌&&◌, List, [], arith, ◌==◌,
  if◌then◌else◌,
}
use kt.IoManager.Answers.{
  SegReq, IoRequest, Effect, atomic_sub_return, seg_commit_user, write_pl_ci_user,
}

-- The store of `ciUser_result &= ioRes`, with what was loaded.
unfoldable store_result : Bool → Bool → SegReq → SegReq
store_result loaded io_res s = record s { ci_user_result = loaded && io_res }

-- What comes after it: the counter, and the commit with the result as it is then.
unfoldable take_blocks : SegReq → IoRequest → ℕ → SegReq × IoRequest × List Effect
unfolding seg_commit_user
take_blocks s r num_lb =
    let left = atomic_sub_return num_lb s.ci_user_remain_lb in
    let s' = record s { ci_user_remain_lb = left } in
    if left == 0 then seg_commit_user s' r s'.ci_user_result else (s', r, [])

-- Without another call in between, these are the call.
write_pl_ci_user-take_blocks :
    (s : SegReq) (r : IoRequest) (n : ℕ) (res : Bool)
    → write_pl_ci_user s r n res ≡ take_blocks (store_result s.ci_user_result res s) r n
unfolding write_pl_ci_user take_blocks store_result
write_pl_ci_user-take_blocks s r n res = refl

take_more :
    (s : SegReq) (r : IoRequest) (n m : ℕ)
    → n + m ≡ s.ci_user_remain_lb
    → 0 < m
    → s.ci_user_remain_lb < 2 ^ 31
    → take_blocks s r n ≡ (record s { ci_user_remain_lb = m }, r, [])
unfolding take_blocks
take_more s r n m all b small =
    let left : atomic_sub_return n s.ci_user_remain_lb ≡ m = omega (arith, all, small) in
    ground (arith, left, b)

take_last :
    (s : SegReq) (r : IoRequest) (n : ℕ)
    → n ≡ s.ci_user_remain_lb
    → n < 2 ^ 31
    → take_blocks s r n ≡ seg_commit_user (record s { ci_user_remain_lb = 0 }) r s.ci_user_result
unfolding take_blocks
take_last s r n all small =
    let left : atomic_sub_return n s.ci_user_remain_lb ≡ 0 = omega (arith, all, small) in
    rw left refl

-- Two answers for the last blocks of a segment that has had no failure: both load the result, the one
-- that failed stores it, then the one that succeeded. The failure is lost: when both have taken their
-- blocks from the counter, the segment is committed to its request as a success.
lost_failure :
    (s : SegReq) (r : IoRequest) (n m : ℕ)
    → s.ci_user_result ≡ true
    → 0 < m
    → n + m ≡ s.ci_user_remain_lb
    → s.ci_user_remain_lb < 2 ^ 31
    → let loaded = s.ci_user_result in
      let stored = store_result loaded true (store_result loaded false s) in
      let s' = record stored { ci_user_remain_lb = m } in
      (take_blocks stored r n ≡ (s', r, []))
      × (take_blocks s' r m
          ≡ seg_commit_user (record s { ci_user_result = true; ci_user_remain_lb = 0 }) r true)
unfolding store_result
lost_failure s r n m good b all small =
    let stored = store_result s.ci_user_result true (store_result s.ci_user_result false s) in
    let ok : (s.ci_user_result && true) ≡ true = ground (arith, good) in
    (
      take_more stored r n m all b small,
      take_last (record stored { ci_user_remain_lb = m }) r m refl (omega (arith, all, small))
          ∙ ap (λ b. seg_commit_user (record s { ci_user_result = b; ci_user_remain_lb = 0 }) r b)
              ok,
    )
