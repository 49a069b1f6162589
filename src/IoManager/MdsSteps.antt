-- ===== src/IoManager/MdsSteps.antt =====
-- What the answers do to the blocks that the metadata server is still to hear of.
use kt.Base.{
  ℕ, ◌-◌, ◌^◌, ◌≤◌, ◌<◌, ◌≡◌, refl, Bool, ◌&&◌, List, [], ◌∷◌, arith, ◌==◌, if◌then◌else◌,
}
use kt.IoManager.ReqFsm
use kt.IoManager.SegFsm
use kt.IoManager.Answers.{
  SegReq, IoRequest, DmsRq, Effect, iorf_submit_request, atomic_sub_return, commit_rqs,
  io_done_endfn, write_pl_ci_user, write_pl_endfn, seg_commit_user,
}
use kt.IoManager.History.{submits}
use kt.IoManager.SegSteps.{sub_small}

pub record IsSegRun (s : SegReq) : Type 0 where
  pub some_lb : 0 < s.lbid_len
  pub within : s.ci_mds_remain_lb ≤ s.lbid_len
  pub short : s.lbid_len < 2 ^ 31
  pub phase : s.io_seg_req_stat ≡ (if s.ci_mds_remain_lb == 0 then SegFsm.ci2ior else SegFsm.wud)

pub submits-commit_rqs : (qs : List DmsRq) (result : Bool) → submits (commit_rqs qs result) ≡ 0
unfolding commit_rqs
submits-commit_rqs [] result = refl
submits-commit_rqs (q ∷ qs) result = ground (arith, submits-commit_rqs qs result)

pub mds_wait :
    (s : SegReq) (r : IoRequest) (n : ℕ)
    → s.ci_mds_remain_lb ≤ s.lbid_len
    → s.lbid_len < 2 ^ 31
    → n < s.ci_mds_remain_lb
    → write_pl_endfn s r n ≡ (record s { ci_mds_remain_lb = s.ci_mds_remain_lb - n }, r, [])
unfolding write_pl_endfn
mds_wait s r n le short h =
    let e = sub_small n s.ci_mds_remain_lb (omega (arith, h)) (omega (arith, le, short)) in
    ground (arith, e, h)

pub io_more :
    (r : IoRequest) (n : ℕ)
    → r.io_req_stat ≡ ReqFsm.rw_user_data
    → n < r.ci_mds_remain_lb
    → r.ci_mds_remain_lb < 2 ^ 31
    → io_done_endfn r n ≡ (record r { ci_mds_remain_lb = r.ci_mds_remain_lb - n }, [])
unfolding io_done_endfn ReqFsm.update_state ReqFsm.update_io_req_state_rw_udata
io_more r n e h small =
    let b = sub_small n r.ci_mds_remain_lb (omega (arith, h)) small in ground (arith, b, h, e)

pub io_last :
    (r : IoRequest) (n : ℕ)
    → r.io_req_stat ≡ ReqFsm.rw_user_data
    → n ≡ r.ci_mds_remain_lb
    → r.ci_mds_remain_lb < 2 ^ 31
    → io_done_endfn r n ≡ (
      record r { io_req_stat = ReqFsm.State.report_md; ci_mds_remain_lb = 0 },
      iorf_submit_request ∷ [],
    )
unfolding io_done_endfn ReqFsm.update_state ReqFsm.update_io_req_state_rw_udata
io_last r n e h small =
    let b : atomic_sub_return n r.ci_mds_remain_lb ≡ 0 = omega (arith, h, small) in
    ground (arith, b, e)

pub seg_done :
    (s : SegReq) (r : IoRequest) (n : ℕ)
    → n ≡ s.ci_mds_remain_lb
    → s.ci_mds_remain_lb < 2 ^ 31
    → s.io_seg_req_stat ≡ SegFsm.wud
    → write_pl_endfn s r n ≡ (
      record s { ci_mds_remain_lb = 0; io_seg_req_stat = SegFsm.ci2ior },
      (io_done_endfn r s.lbid_len).0,
      (io_done_endfn r s.lbid_len).1,
    )
unfolding write_pl_endfn SegFsm.update_state SegFsm.update_io_seg_req_state_write_ud
seg_done s r n e k w =
    let a : atomic_sub_return n s.ci_mds_remain_lb ≡ 0 = omega (arith, e, k) in ground (arith, a, w)

-- What the answers for the user leave alone.
pub record IsApart (s : SegReq) (r : IoRequest) (s' : SegReq) (r' : IoRequest) (es : List Effect)
    : Type 0 where
  pub seg_remain : s'.ci_mds_remain_lb ≡ s.ci_mds_remain_lb
  pub seg_len : s'.lbid_len ≡ s.lbid_len
  pub seg_stat : s'.io_seg_req_stat ≡ s.io_seg_req_stat
  pub io_remain : r'.ci_mds_remain_lb ≡ r.ci_mds_remain_lb
  pub io_stat : r'.io_req_stat ≡ r.io_req_stat
  pub unsent : submits es ≡ 0

pub commit-IsApart :
    (s : SegReq) (r : IoRequest) (result : Bool)
    → IsApart s r
        (seg_commit_user s r result).0
        (seg_commit_user s r result).1
        (seg_commit_user s r result).2
unfolding seg_commit_user
commit-IsApart s r result =
    let quiet = submits-commit_rqs r.rqs (r.io_result && result) in
    record {
      seg_remain = ground arith;
      seg_len = ground arith;
      seg_stat = ground arith;
      io_remain = ground arith;
      io_stat = ground arith;
      unsent = ground (arith, quiet);
    }

pub ci_user-IsApart :
    (s : SegReq) (r : IoRequest) (n : ℕ) (res : Bool)
    → IsApart s r
        (write_pl_ci_user s r n res).0
        (write_pl_ci_user s r n res).1
        (write_pl_ci_user s r n res).2
unfolding write_pl_ci_user
ci_user-IsApart s r n res =
    let s' = record s {
      ci_user_result = s.ci_user_result && res;
      ci_user_remain_lb = atomic_sub_return n s.ci_user_remain_lb;
    } in
    let c = commit-IsApart s' r s'.ci_user_result in
    record {
      seg_remain = ground (arith, c.seg_remain);
      seg_len = ground (arith, c.seg_len);
      seg_stat = ground (arith, c.seg_stat);
      io_remain = ground (arith, c.io_remain);
      io_stat = ground (arith, c.io_stat);
      unsent = ground (arith, c.unsent);
    }
