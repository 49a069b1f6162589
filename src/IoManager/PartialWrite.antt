-- ===== src/IoManager/PartialWrite.antt =====
-- A write of a part of a block first reads the block: the end of that read and the start of the write
-- (ioSReq_PartialW_ReadPL_endfn and _ioSReq_PW_* of discoC_ioSegReq_udata_cbfn.c).
use kt.Base.{Bool, true, false, not, ◌&&◌, ℕ, List, [], ◌∷◌, ◌++◌, if◌then◌else◌}
use kt.IoManager.SegFsm
use kt.IoManager.Answers.{
  SegReq, IoRequest, Effect, write_payload, acquire_metadata, report_success, query_mdata_write_io,
  alloc_mdata_no_old, seg_commit_user, write_pl_endfn, chk_ci_user,
}

-- `_ioSReq_PW_resetReq`.
unfoldable pub pw_reset_req : SegReq → SegReq
pw_reset_req s = record s {
  ci_user_remain_lb = s.lbid_len;
  req_op_code = s.io_dir_true;
  ci_user_result = true;
  ci_mds_status = report_success;
}

-- `_ioSReq_PW_WPhase_OVW`.
unfoldable pub pw_w_phase_ovw : SegReq → SegReq × List Effect
pw_w_phase_ovw s =
    let (t, action) = SegFsm.update_state s.io_seg_req_stat SegFsm.w_acq_md_done in
    (
      record s { mdata_opcode = query_mdata_write_io; io_seg_req_stat = t },
      elim action [ SegFsm.do_wud ↦ write_payload ∷ [] | _ ↦ [] ],
    )

-- `ioSReq_resetFea_PartialRDone`.
unfoldable pub reset_fea_partial_r_done : SegReq → SegReq
reset_fea_partial_r_done s = record s {
  fea_non_4k_align = false;
  fea_ovw = false;
  fea_md_cache_h = false;
  fea_hbid_mismatch = false;
  fea_ci_user = false;
}

-- `_ioSReq_PW_WPhase_FW`, whose metadata belongs to another component.
unfoldable pub pw_w_phase_fw : SegReq → SegReq × List Effect
unfolding reset_fea_partial_r_done
pw_w_phase_fw s =
    let s' = record (reset_fea_partial_r_done s) { mdata_opcode = alloc_mdata_no_old } in
    (s', acquire_metadata s'.req_op_code s'.fea_md_cache_h s'.fea_ovw s'.fea_hbid_mismatch ∷ [])

-- `_ioSReq_PW_WPhase`.
unfoldable pub pw_w_phase : SegReq → SegReq × List Effect
unfolding pw_reset_req pw_w_phase_ovw pw_w_phase_fw
pw_w_phase s = let s' = pw_reset_req s in if s'.fea_ovw then pw_w_phase_ovw s' else pw_w_phase_fw s'

-- The two transitions of `ioSReq_PartialW_ReadPL_endfn` and the start of the write.
unfoldable pub pw_read_done : SegReq → SegReq × List Effect
unfolding pw_w_phase
pw_read_done s =
    let (t, action) = SegFsm.update_state s.io_seg_req_stat SegFsm.r_allpl_done in
    let (t', action') = SegFsm.update_state t SegFsm.w_rphase_done in
    let s' = record s { io_seg_req_stat = t' } in
    elim action [
      | SegFsm.do_ci2ioseg_req ↦ elim action' [
        | SegFsm.Action.w_acq_md ↦ pw_w_phase s'
        | _ ↦ (s', [])
      ]
      | _ ↦ (record s { io_seg_req_stat = t }, [])
    ]

-- `ioSReq_PartialW_ReadPL_endfn`.
unfoldable pub partial_w_read_pl_endfn :
    SegReq → IoRequest → ℕ → ℕ → Bool → SegReq × IoRequest × List Effect
unfolding pw_read_done
partial_w_read_pl_endfn s r lb_s lb_len io_res =
    let (s', ci_user) =
      chk_ci_user (record s { ci_user_result = s.ci_user_result && io_res }) lb_s lb_len in
    let (s1, r1, told) = seg_commit_user s' r s'.ci_user_result in
    let (s2, r2, sent) = write_pl_endfn s1 r1 s1.lbid_len in
    let (s3, started) = pw_read_done s' in
    if not ci_user
    then (s', r, [])
    else if not s'.ci_user_result
    then (s2, r2, told ++ sent)
    else (s3, r, started)
