-- ===== src/IoManager/Stranded.antt =====
-- A partial write whose read fails.
use kt.Base.{
  zero, suc, ◌≢◌, ◌∙◌, ℕ, ◌^◌, ◌<◌, ◌≡◌, refl, inl, Bool, false, ◌&&◌, some, List, [], ◌∷◌, ◌++◌,
  arith, All, get_elem?, set,
}
use kt.IoManager.ReqFsm
use kt.IoManager.SegFsm
use kt.IoManager.Answers.{
  SegReq, IoRequest, Effect, chk_ci_user, write_pl_endfn, seg_commit_user, atomic_sub_return,
}
use kt.IoManager.PartialWrite.{partial_w_read_pl_endfn}
use kt.IoManager.History.{Parts, History, sum_of, sum_of-set, sum_of-le, submits, submits-append}
use kt.IoManager.MdsSteps.{commit-IsApart}
use kt.IoManager.MdsReport.{open_mds}
use kt.IoManager.Stuck.{IsSegPast, IsStuck, stuck}

All-past :
    (ss : List SegReq)
    → ((j : ℕ) (s : SegReq) → get_elem? ss j ≡ some s → IsSegPast s)
    → All IsSegPast ss
All-past [] h = tt
All-past (s ∷ ss) h = (h 0 s refl, All-past ss (λ j. h (suc j)))

others_past :
    (ss : List SegReq) (i : ℕ) (s' : SegReq)
    → ((j : ℕ) (s : SegReq) → j ≢ i → get_elem? ss j ≡ some s → IsSegPast s)
    → IsSegPast s'
    → All IsSegPast (set ss i s')
others_past [] i s' h k = tt
others_past (s ∷ ss) zero s' h k =
    (k, All-past ss (λ j x. h (suc j) x (λ e. absurd (omega (arith, e)))))
others_past (s ∷ ss) (suc i) s' h k = (
  h 0 s (λ e. absurd (omega (arith, e))) refl,
  others_past ss i s' (λ j x ne. h (suc j) x (λ e. ne (omega (arith, e)))) k,
)

-- The end of a write, met in the phase that reads.
end_in_rud :
    (s : SegReq) (r : IoRequest) (n : ℕ)
    → n ≡ s.ci_mds_remain_lb
    → s.ci_mds_remain_lb < 2 ^ 31
    → s.io_seg_req_stat ≡ SegFsm.rud
    → write_pl_endfn s r n
      ≡ (record s { ci_mds_remain_lb = 0; io_seg_req_stat = SegFsm.rud }, r, [])
unfolding write_pl_endfn SegFsm.update_state SegFsm.update_io_seg_req_state_read_ud
end_in_rud s r n e k w =
    let a : atomic_sub_return n s.ci_mds_remain_lb ≡ 0 = omega (arith, e, k) in ground (arith, a, w)

-- A write whose segment at i reads the blocks that it writes a part of, while the others write or
-- have ended; the last answer to the read comes, and the read has failed.
pub record IsFailing (p : Parts) (i : ℕ) (s : SegReq) (lb_len : ℕ) (io_res : Bool) : Type 0 where
  pub here : get_elem? p.segs i ≡ some s
  pub others : (j : ℕ) (x : SegReq) → j ≢ i → get_elem? p.segs j ≡ some x → IsSegPast x
  pub reading : s.io_seg_req_stat ≡ SegFsm.rud
  pub normal : s.fea_true_proc ≡ false
  pub last : lb_len ≡ s.ci_user_remain_lb
  pub failed : (s.ci_user_result && io_res) ≡ false
  pub some_lb : 0 < s.lbid_len
  pub whole : s.ci_mds_remain_lb ≡ s.lbid_len
  pub user_small : s.ci_user_remain_lb < 2 ^ 31
  pub remain : p.io.ci_mds_remain_lb ≡ sum_of open_mds p.segs
  pub small : sum_of open_mds p.segs < 2 ^ 31
  pub busy : p.io.io_req_stat ≡ ReqFsm.rw_user_data

record IsLeft (s : SegReq) (r : IoRequest) (s' : SegReq) (r' : IoRequest) (es : List Effect)
    : Type 0 where
  none_left : s'.ci_mds_remain_lb ≡ 0
  same_len : s'.lbid_len ≡ s.lbid_len
  io_remain : r'.ci_mds_remain_lb ≡ r.ci_mds_remain_lb
  io_stat : r'.io_req_stat ≡ r.io_req_stat
  unsent : submits es ≡ 0

partial_failed :
    (s : SegReq) (r : IoRequest) (lb_s lb_len : ℕ) (io_res : Bool)
    → s.fea_true_proc ≡ false
    → atomic_sub_return lb_len s.ci_user_remain_lb ≡ 0
    → (s.ci_user_result && io_res) ≡ false
    → let s' = record s {
      ci_user_result = s.ci_user_result && io_res;
      ci_user_remain_lb = atomic_sub_return lb_len s.ci_user_remain_lb;
    } in
      let c = seg_commit_user s' r s'.ci_user_result in
      let w = write_pl_endfn c.0 c.1 c.0.lbid_len in
      partial_w_read_pl_endfn s r lb_s lb_len io_res ≡ (w.0, w.1, c.2 ++ w.2)
unfolding partial_w_read_pl_endfn chk_ci_user
partial_failed s r lb_s lb_len io_res normal a failed = simp (normal, a, failed)

failing-IsLeft :
    (p : Parts) (i : ℕ) (s : SegReq) (lb_s lb_len : ℕ) (io_res : Bool)
    → IsFailing p i s lb_len io_res
    → s.lbid_len < 2 ^ 31
    → IsLeft s p.io
        (partial_w_read_pl_endfn s p.io lb_s lb_len io_res).0
        (partial_w_read_pl_endfn s p.io lb_s lb_len io_res).1
        (partial_w_read_pl_endfn s p.io lb_s lb_len io_res).2
failing-IsLeft p i s lb_s lb_len io_res f short =
    let s' = record s {
      ci_user_result = s.ci_user_result && io_res;
      ci_user_remain_lb = atomic_sub_return lb_len s.ci_user_remain_lb;
    } in
    let a : atomic_sub_return lb_len s.ci_user_remain_lb ≡ 0 =
      omega (arith, f.last, f.user_small) in
    let c = commit-IsApart s' p.io s'.ci_user_result in
    let c1 = seg_commit_user s' p.io s'.ci_user_result in
    let e =
      end_in_rud c1.0 c1.1 c1.0.lbid_len (omega (arith, c.seg_remain, c.seg_len, f.whole))
        (omega (arith, c.seg_remain, f.whole, short)) (ground (arith, c.seg_stat, f.reading)) in
    rw (partial_failed s p.io lb_s lb_len io_res f.normal a f.failed) (
      rw e (record {
        none_left = refl;
        same_len = c.seg_len;
        io_remain = c.io_remain;
        io_stat = c.io_stat;
        unsent = ground (arith, submits-append c1.2 [], c.unsent);
      }))

abbrev pub failed_read : Parts → ℕ → SegReq → ℕ → ℕ → Bool → Parts
failed_read p i s lb_s lb_len io_res = record {
  io = (partial_w_read_pl_endfn s p.io lb_s lb_len io_res).1;
  segs = set p.segs i (partial_w_read_pl_endfn s p.io lb_s lb_len io_res).0;
}

failing-IsStuck :
    (p : Parts) (i : ℕ) (s : SegReq) (lb_s lb_len : ℕ) (io_res : Bool)
    → IsFailing p i s lb_len io_res
    → IsStuck [] (failed_read p i s lb_s lb_len io_res)
failing-IsStuck p i s lb_s lb_len io_res f =
    let opens : open_mds s ≡ s.lbid_len = ground (arith, f.whole, f.some_lb) in
    let short : s.lbid_len < 2 ^ 31 =
      omega (arith, opens, f.small, sum_of-le open_mds p.segs i s f.here) in
    let k = failing-IsLeft p i s lb_s lb_len io_res f short in
    let s' = (partial_w_read_pl_endfn s p.io lb_s lb_len io_res).0 in
    let opens' : open_mds s' ≡ 0 = ground (arith, k.none_left) in
    let sum = sum_of-set open_mds p.segs i s s' f.here in
    record {
      segs_ok = others_past p.segs i s' f.others (record {
        some_lb = omega (arith, k.same_len, f.some_lb);
        within = omega (arith, k.none_left);
        short = omega (arith, k.same_len, short);
        phase = inl k.none_left;
      });
      more = omega (arith, sum, opens, opens', k.io_remain, f.remain, f.some_lb);
      small = omega (arith, k.io_remain, f.remain, f.small);
      busy = k.io_stat ∙ f.busy;
      unsent = refl;
    }

-- Let a segment of a write have read the blocks that it writes a part of, with a failure, while each
-- other segment writes or has ended, and the request waits for the blocks of all of them. The last
-- answer to that read does not send the request on, and no answers of written blocks that are due
-- after it do: the request stays in the phase of user data.
pub partial_read_failure_strands :
    {p : Parts} {rs : List Bool} {es : List Effect} {q : Parts} (i : ℕ) (s : SegReq)
    (lb_s lb_len : ℕ) (io_res : Bool)
    → IsFailing p i s lb_len io_res
    → History (failed_read p i s lb_s lb_len io_res) rs es q
    → (submits (partial_w_read_pl_endfn s p.io lb_s lb_len io_res).2 ≡ 0)
      × (submits es ≡ 0)
      × (q.io.io_req_stat ≡ ReqFsm.rw_user_data)
partial_read_failure_strands {p} i s lb_s lb_len io_res f h =
    let opens : open_mds s ≡ s.lbid_len = ground (arith, f.whole, f.some_lb) in
    let short : s.lbid_len < 2 ^ 31 =
      omega (arith, opens, f.small, sum_of-le open_mds p.segs i s f.here) in
    let k = stuck (failing-IsStuck p i s lb_s lb_len io_res f) h in
    ((failing-IsLeft p i s lb_s lb_len io_res f short).unsent, k.unsent, k.busy)
