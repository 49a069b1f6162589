-- ===== src/IoManager/Answers.antt =====
-- BlockDeviceDriver2/io_manager: what a segment does when payload was written or read
-- (discoC_ioSegReq_udata_cbfn.c), how it reports to its I/O request (discoC_IOSegment_Request.c), and
-- how the request reports to the block layer and to its own next phase (discoC_IORequest.c). An
-- atomic counter is the bit pattern of an int32_t. Each definition is what one call does while no other
-- call changes the same segment or request: the counters, the features and the states are changed
-- atomically or under a lock, but `ciUser_result &= ...` and `ioResult &= ...` are neither; Unlocked
-- takes them apart. Timestamps and counts for display are left out.
use kt.Base.{
  ℕ, zero, suc, ◌+◌, ◌-◌, ◌/◌, ◌%◌, ◌^◌, Bool, true, false, not, ◌&&◌, none, some, List, [], ◌∷◌,
  ◌++◌, get_elem?, set, ◌==◌, if◌then◌else◌,
}
use kt.Base.Bits.{test_bit, clear_bit}
use kt.IoManager.Pool.{IoDir}
use kt.IoManager.ReqFsm
use kt.IoManager.SegFsm

-- `ciMDS_opCode_t`.
pub data CiMdsOpCode : Type 0 where
  report_none report_success report_failure : CiMdsOpCode

-- `REQ_NN_*`, without the two that DISCO_PREALLOC_SUPPORT adds.
pub data NnOpCode : Type 0 where
  query_mdata_read_io query_true_mdata_read_io alloc_mdata_and_get_old alloc_mdata_no_old
        query_mdata_write_io report_read_io_result report_write_io_result_deprecated
        report_write_io_result update_heartbeat :
      NnOpCode

-- `dms_rq_t`: a request of the block layer, which several I/O requests may share.
pub record DmsRq : Type 0 where
  pub result : Bool
  pub num_ref_ior : ℕ

-- The fields of `io_request_t` that these functions read and write.
pub record IoRequest : Type 0 where
  pub io_req_stat : ReqFsm.State
  pub io_result : Bool
  pub fea_ci_user : Bool  -- IOREQ_FEA_CIUSER
  pub ci_user_remain_lb : ℕ
  pub ci_mds_remain_lb : ℕ
  pub num_of_ci2nn : ℕ
  pub rqs : List DmsRq

-- The fields of `ioSeg_req_t`.
pub record SegReq : Type 0 where
  pub io_seg_req_stat : SegFsm.State
  pub lbid_start : ℕ
  pub lbid_len : ℕ
  pub ci_user_result : Bool
  pub ci_mds_status : CiMdsOpCode
  pub ci_user_remain_lb : ℕ
  pub ci_mds_remain_lb : ℕ
  pub fea_ci_user : Bool  -- IOSegR_FEA_CIUSER
  pub fea_true_proc : Bool  -- IOSegR_FEA_TrueProc
  pub fea_non_4k_align : Bool  -- IOSegR_FEA_NON_4KALIGN
  pub fea_ovw : Bool  -- IOSegR_FEA_OVW
  pub fea_md_cache_h : Bool  -- IOSegR_FEA_MDCacheH
  pub fea_hbid_mismatch : Bool  -- IOSegR_FEA_HBID_MISMATCH
  pub req_op_code : IoDir
  pub io_dir_true : IoDir
  pub mdata_opcode : NnOpCode
  pub user_lb_state : List ℕ

-- The calls of other components, and what becomes of shared requests of the block layer.
pub data Effect : Type 0 where
  commit_user_request : Bool → Effect
  dms_rq_left : DmsRq → Effect
  iorf_submit_request : Effect
  write_payload : Effect  -- PLMgr_write_payload
  acquire_metadata : IoDir → Bool → Bool → Bool → Effect  -- discoC_acquire_metadata

-- `atomic_sub_return`.
abbrev pub atomic_sub_return : ℕ → ℕ → ℕ
atomic_sub_return n v = (v + 2 ^ 32 - n % 2 ^ 32) % 2 ^ 32

-- The loop of `ioReq_commit_user`: a request of the block layer is told when its last I/O request
-- lets go of it, and is left to the others before.
unfoldable pub commit_rqs : List DmsRq → Bool → List Effect
commit_rqs [] result = []
commit_rqs (q ∷ qs) result =
    let left = atomic_sub_return 1 q.num_ref_ior in
    (if left == 0
      then commit_user_request (q.result && result)
      else dms_rq_left (record { result = q.result && result; num_ref_ior = left }))
    ∷ commit_rqs qs result

-- `ioReq_commit_user`: IOREQ_FEA_CIUSER is tested and set at once, so that the first call alone tells
-- the requests of the block layer, with the result that it is given.
unfoldable pub io_req_commit_user : IoRequest → Bool → IoRequest × List Effect
unfolding commit_rqs
io_req_commit_user r result =
    if r.fea_ci_user
    then (r, [])
    else (record r { fea_ci_user = true; rqs = [] }, commit_rqs r.rqs result)

-- `ioReq_IODone_endfn`.
unfoldable pub io_done_endfn : IoRequest → ℕ → IoRequest × List Effect
io_done_endfn r num_lbs =
    let (s, action) = ReqFsm.update_state r.io_req_stat ReqFsm.io_seg_io_done in
    elim action [
      | ReqFsm.io_seg_io_done_ci_ior ↦
          let left = atomic_sub_return num_lbs r.ci_mds_remain_lb in
          let (s', action') = ReqFsm.update_state s ReqFsm.rw_udata_done in
          if left == 0
          then (
            record r { io_req_stat = s'; ci_mds_remain_lb = left },
            elim action' [ ReqFsm.do_report_md ↦ iorf_submit_request ∷ [] | _ ↦ [] ],
          )
          else (record r { io_req_stat = s; ci_mds_remain_lb = left }, [])
      | _ ↦ (record r { io_req_stat = s }, [])
    ]

-- `ioReq_MDReport_endfn`.
unfoldable pub md_report_endfn : IoRequest → IoRequest × List Effect
md_report_endfn r =
    let (s, action) = ReqFsm.update_state r.io_req_stat ReqFsm.io_seg_report_md_done in
    elim action [
      | ReqFsm.io_seg_md_report_done_ci_ior ↦
          let left = atomic_sub_return 1 r.num_of_ci2nn in
          let (s', action') = ReqFsm.update_state s ReqFsm.report_md_done in
          if left == 0
          then (
            record r { io_req_stat = s'; num_of_ci2nn = left },
            elim action' [ ReqFsm.do_healing ↦ iorf_submit_request ∷ [] | _ ↦ [] ],
          )
          else (record r { io_req_stat = s; num_of_ci2nn = left }, [])
      | _ ↦ (record r { io_req_stat = s }, [])
    ]

-- `ioSReq_commit_user`. Its `ioResult &= result` is not atomic in the source: this is the call while no
-- other segment of the request makes it.
unfoldable pub seg_commit_user : SegReq → IoRequest → Bool → SegReq × IoRequest × List Effect
unfolding io_req_commit_user
seg_commit_user s r result =
    if s.fea_ci_user
    then (s, r, [])
    else let left = atomic_sub_return s.lbid_len r.ci_user_remain_lb in
      let r' = record r { io_result = r.io_result && result; ci_user_remain_lb = left } in
      let (r'', effects) = io_req_commit_user r' r'.io_result in
      if left == 0
      then (record s { fea_ci_user = true }, r'', effects)
      else (record s { fea_ci_user = true }, r', [])

-- `ioSReq_WritePL_ciUser`. Its `ciUser_result &= ioRes` is not atomic in the source: this is the call
-- while no other answer of the segment makes it.
unfoldable pub write_pl_ci_user : SegReq → IoRequest → ℕ → Bool → SegReq × IoRequest × List Effect
unfolding seg_commit_user
write_pl_ci_user s r num_lb io_res =
    let left = atomic_sub_return num_lb s.ci_user_remain_lb in
    let s' = record s { ci_user_result = s.ci_user_result && io_res; ci_user_remain_lb = left } in
    if left == 0 then seg_commit_user s' r s'.ci_user_result else (s', r, [])

-- `ioSReq_WritePL_endfn`.
unfoldable pub write_pl_endfn : SegReq → IoRequest → ℕ → SegReq × IoRequest × List Effect
unfolding io_done_endfn
write_pl_endfn s r lb_len =
    let left = atomic_sub_return lb_len s.ci_mds_remain_lb in
    let (t, action) = SegFsm.update_state s.io_seg_req_stat SegFsm.w_allpl_done in
    let (r', effects) = io_done_endfn r s.lbid_len in
    if not (left == 0)
    then (record s { ci_mds_remain_lb = left }, r, [])
    else let s' = record s { ci_mds_remain_lb = left; io_seg_req_stat = t } in
      elim action [ SegFsm.do_ci2ioreq ↦ (s', r', effects) | _ ↦ (s', r, []) ]

-- A byte of `userLB_state`. A bit past the array, which no block of the segment has, reads as clear.
abbrev pub lb_byte : List ℕ → ℕ → ℕ
lb_byte state i = elim (get_elem? state i) [ none ↦ 0 | some b ↦ b ]

-- The first loop of `_ioSReq_chk_ciUser_trueMD`, with the rounds that are left: the bits, the
-- number of bits cleared, and whether all rounds were made. Each round looks at the same bit.
unfoldable pub clear_loop : ℕ → ℕ → List ℕ → ℕ → List ℕ × ℕ × Bool
clear_loop zero bit_off state num = (state, num, true)
clear_loop (suc k) bit_off state num =
    let byte = lb_byte state (bit_off / 8) in
    let next =
      clear_loop k bit_off (set state (bit_off / 8) (clear_bit (bit_off % 8) byte)) (num + 1) in
    if test_bit (bit_off % 8) byte then next else (state, num, false)

unfoldable pub all_clear : List ℕ → Bool
all_clear [] = true
all_clear (b ∷ bs) = b == 0 && all_clear bs

-- `_ioSReq_chk_ciUser_trueMD`.
unfoldable pub chk_ci_user_true_md : SegReq → ℕ → ℕ → SegReq × Bool
unfolding clear_loop all_clear
chk_ci_user_true_md s lb_s lb_len =
    let bit_off = (lb_s + 2 ^ 64 - s.lbid_start) % 2 ^ 32 in
    let (state, num, all_rounds) = clear_loop lb_len bit_off s.user_lb_state 0 in
    (
      record s {
        user_lb_state = state;
        ci_user_remain_lb = atomic_sub_return num s.ci_user_remain_lb;
      },
      all_rounds && all_clear state,
    )

-- `_ioSReq_chk_ciUser`.
unfoldable pub chk_ci_user : SegReq → ℕ → ℕ → SegReq × Bool
unfolding chk_ci_user_true_md
chk_ci_user s lb_s lb_len =
    let left = atomic_sub_return lb_len s.ci_user_remain_lb in
    if s.fea_true_proc
    then chk_ci_user_true_md s lb_s lb_len
    else (record s { ci_user_remain_lb = left }, left == 0)

-- The choice of `ciMDS_status` in `ioSReq_ReadPL_endfn`.
unfoldable pub read_mds_status : CiMdsOpCode → ℕ → CiMdsOpCode
read_mds_status report_failure num_fail_dn = report_failure
read_mds_status _ num_fail_dn = if num_fail_dn == 0 then report_none else report_failure

-- The block under `if (ciUser)` of `ioSReq_ReadPL_endfn`.
unfoldable pub read_all_done : SegReq → IoRequest → SegReq × IoRequest × List Effect
unfolding seg_commit_user io_done_endfn
read_all_done s r =
    let (t, action) = SegFsm.update_state s.io_seg_req_stat SegFsm.r_allpl_done in
    let (t', action') = SegFsm.update_state t SegFsm.r_rphase_done in
    elim action [
      | SegFsm.do_ci2ioseg_req ↦
          let s' = record s { io_seg_req_stat = t' } in
          elim action' [
            | SegFsm.do_ci2ioreq ↦
                let (s'', r', told) = seg_commit_user s' r s.ci_user_result in
                let (r'', done) = io_done_endfn r' s.lbid_len in (s'', r'', told ++ done)
            | _ ↦ (s', r, [])
          ]
      | _ ↦ (record s { io_seg_req_stat = t }, r, [])
    ]

-- `ioSReq_ReadPL_endfn`.
unfoldable pub read_pl_endfn :
    SegReq → IoRequest → ℕ → ℕ → Bool → ℕ → SegReq × IoRequest × List Effect
unfolding read_mds_status chk_ci_user read_all_done
read_pl_endfn s r lb_s lb_len io_res num_fail_dn =
    let (s', ci_user) =
      chk_ci_user
        (record s {
          ci_mds_status = read_mds_status s.ci_mds_status num_fail_dn;
          ci_user_result = s.ci_user_result && io_res;
        })
        lb_s lb_len in
    let s'' = record s' { ci_mds_remain_lb = atomic_sub_return lb_len s'.ci_mds_remain_lb } in
    if ci_user then read_all_done s'' r else (s'', r, [])
