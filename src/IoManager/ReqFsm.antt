-- ===== src/IoManager/ReqFsm.antt =====
-- BlockDeviceDriver2/io_manager/discoC_IOReq_fsm.c, with the enums IOREQ_* of discoC_IO_Manager.h.
-- The lock makes `IOReq_update_state` one step.

pub data Event : Type 0 where
  init_done ovlp_other_io ovlp_io_done rw_udata_done report_md_done heal_done io_seg_io_done
        io_seg_report_md_done :
      Event

pub data Action : Type 0 where
  start no_action add_ovlp_wait_q submit_io do_report_md do_healing free_req io_seg_io_done_ci_ior
        io_seg_md_report_done_ci_ior end :
      Action

pub data State : Type 0 where
  start init rw_user_data ovlp_wait report_md self_healing req_done end : State

unfoldable pub update_io_req_state_init : Event → State × Action
update_io_req_state_init init_done = (rw_user_data, submit_io)
update_io_req_state_init ovlp_other_io = (ovlp_wait, add_ovlp_wait_q)
update_io_req_state_init _ = (init, no_action)

unfoldable pub update_io_req_state_rw_udata : Event → State × Action
update_io_req_state_rw_udata rw_udata_done = (report_md, do_report_md)
update_io_req_state_rw_udata io_seg_io_done = (rw_user_data, io_seg_io_done_ci_ior)
update_io_req_state_rw_udata _ = (rw_user_data, no_action)

unfoldable pub update_io_req_state_ovlp_wait : Event → State × Action
update_io_req_state_ovlp_wait ovlp_io_done = (rw_user_data, submit_io)
update_io_req_state_ovlp_wait _ = (ovlp_wait, no_action)

unfoldable pub update_io_req_state_report_md : Event → State × Action
update_io_req_state_report_md report_md_done = (self_healing, do_healing)
update_io_req_state_report_md io_seg_report_md_done = (report_md, io_seg_md_report_done_ci_ior)
update_io_req_state_report_md _ = (report_md, no_action)

unfoldable pub update_io_req_state_self_heal : Event → State × Action
update_io_req_state_self_heal heal_done = (req_done, free_req)
update_io_req_state_self_heal _ = (self_healing, no_action)

unfoldable pub update_io_req_state_req_done : Event → State × Action
update_io_req_state_req_done _ = (req_done, no_action)

unfoldable pub update_state : State → Event → State × Action
unfolding update_io_req_state_init update_io_req_state_rw_udata update_io_req_state_ovlp_wait
    update_io_req_state_report_md update_io_req_state_self_heal update_io_req_state_req_done
update_state init e = update_io_req_state_init e
update_state rw_user_data e = update_io_req_state_rw_udata e
update_state ovlp_wait e = update_io_req_state_ovlp_wait e
update_state report_md e = update_io_req_state_report_md e
update_state self_healing e = update_io_req_state_self_heal e
update_state req_done e = update_io_req_state_req_done e
update_state s e = (s, no_action)
