-- ===== src/IoManager/SegFsm.antt =====
-- BlockDeviceDriver2/io_manager/discoC_ioSegReq_fsm.c, with the enums IOSegREQ_* of
-- discoC_IOSegment_Request.h. The lock makes `IOSegReq_update_state` one step.

pub data Event : Type 0 where
  init_4kw w_acq_md_done w_allpl_done init_r r_acq_md_done r_allpl_done w_rphase_done r_rphase_done
        mdud_unsync atrue_md_done :
      Event

pub data Action : Type 0 where
  start no_action retry_tr w_acq_md do_wud r_acq_md do_rud do_atrue_md_proc do_atrue_md_done
        do_ci2ioseg_req do_ci2ioreq end :
      Action

pub data State : Type 0 where
  start init w_acq_md wud r_acq_md rud atrue_md_proc ci2ioseg ci2ior end : State

unfoldable pub update_io_seg_req_state_init : Event → State × Action
update_io_seg_req_state_init init_4kw = (State.w_acq_md, Action.w_acq_md)
update_io_seg_req_state_init init_r = (State.r_acq_md, Action.r_acq_md)
update_io_seg_req_state_init _ = (init, no_action)

unfoldable pub update_io_seg_req_state_w_acq_md : Event → State × Action
update_io_seg_req_state_w_acq_md w_acq_md_done = (wud, do_wud)
update_io_seg_req_state_w_acq_md _ = (State.w_acq_md, no_action)

unfoldable pub update_io_seg_req_state_write_ud : Event → State × Action
update_io_seg_req_state_write_ud w_allpl_done = (ci2ior, do_ci2ioreq)
update_io_seg_req_state_write_ud _ = (wud, no_action)

unfoldable pub update_io_seg_req_state_r_acq_md : Event → State × Action
update_io_seg_req_state_r_acq_md r_acq_md_done = (rud, do_rud)
update_io_seg_req_state_r_acq_md _ = (State.r_acq_md, no_action)

unfoldable pub update_io_seg_req_state_read_ud : Event → State × Action
update_io_seg_req_state_read_ud r_allpl_done = (ci2ioseg, do_ci2ioseg_req)
update_io_seg_req_state_read_ud mdud_unsync = (atrue_md_proc, do_atrue_md_proc)
update_io_seg_req_state_read_ud _ = (rud, no_action)

unfoldable pub update_io_seg_req_state_proc_acq_tmd : Event → State × Action
update_io_seg_req_state_proc_acq_tmd r_allpl_done = (atrue_md_proc, retry_tr)
update_io_seg_req_state_proc_acq_tmd mdud_unsync = (atrue_md_proc, retry_tr)
update_io_seg_req_state_proc_acq_tmd atrue_md_done = (rud, do_rud)
update_io_seg_req_state_proc_acq_tmd _ = (atrue_md_proc, no_action)

unfoldable pub update_io_seg_req_state_ci_io_seg : Event → State × Action
update_io_seg_req_state_ci_io_seg w_rphase_done = (State.w_acq_md, Action.w_acq_md)
update_io_seg_req_state_ci_io_seg r_rphase_done = (ci2ior, do_ci2ioreq)
update_io_seg_req_state_ci_io_seg _ = (ci2ioseg, no_action)

unfoldable pub update_io_seg_req_state_ci_ior : Event → State × Action
update_io_seg_req_state_ci_ior _ = (ci2ior, no_action)

unfoldable pub update_state : State → Event → State × Action
unfolding update_io_seg_req_state_init update_io_seg_req_state_w_acq_md
    update_io_seg_req_state_write_ud update_io_seg_req_state_r_acq_md
    update_io_seg_req_state_read_ud update_io_seg_req_state_proc_acq_tmd
    update_io_seg_req_state_ci_io_seg update_io_seg_req_state_ci_ior
update_state init e = update_io_seg_req_state_init e
update_state State.w_acq_md e = update_io_seg_req_state_w_acq_md e
update_state wud e = update_io_seg_req_state_write_ud e
update_state State.r_acq_md e = update_io_seg_req_state_r_acq_md e
update_state rud e = update_io_seg_req_state_read_ud e
update_state atrue_md_proc e = update_io_seg_req_state_proc_acq_tmd e
update_state ci2ioseg e = update_io_seg_req_state_ci_io_seg e
update_state ci2ior e = update_io_seg_req_state_ci_ior e
update_state s e = (s, no_action)
