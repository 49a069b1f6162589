-- ===== src/NameNode/CiReq.antt =====
-- BlockDeviceDriver2/discoNN_client/discoC_NNMDReq_fsm.c, the half for requests that commit
-- metadata, with the enums NNCIREQ_* of discoC_NNMData_Request.h. The lock makes
-- `NNMDciReq_update_state` one step.

pub data Event : Type 0 where
  init_done peek_work_q send_done find_req_ok conn_back retry_chk_done : Event

pub data Action : Type 0 where
  start no_action do_add_workq do_send do_wait_resp do_process_resp do_retry_req end : Action

pub data State : Type 0 where
  start init wait_send sending wait_resp process_resp retry_req end : State

unfoldable pub update_nn_ci_req_s_init : Event → State × Action
update_nn_ci_req_s_init init_done = (wait_send, do_add_workq)
update_nn_ci_req_s_init _ = (init, no_action)

unfoldable pub update_nn_ci_req_s_wait_send : Event → State × Action
update_nn_ci_req_s_wait_send peek_work_q = (sending, do_send)
update_nn_ci_req_s_wait_send _ = (wait_send, no_action)

unfoldable pub update_nn_ci_req_s_sending : Event → State × Action
update_nn_ci_req_s_sending send_done = (wait_resp, do_wait_resp)
update_nn_ci_req_s_sending _ = (sending, no_action)

unfoldable pub update_nn_ci_req_s_wait_resp : Event → State × Action
update_nn_ci_req_s_wait_resp find_req_ok = (process_resp, do_process_resp)
update_nn_ci_req_s_wait_resp conn_back = (retry_req, do_retry_req)
update_nn_ci_req_s_wait_resp _ = (wait_resp, no_action)

unfoldable pub update_nn_ci_req_s_p_resp : Event → State × Action
update_nn_ci_req_s_p_resp _ = (process_resp, no_action)

unfoldable pub update_nn_ci_req_s_retry : Event → State × Action
update_nn_ci_req_s_retry retry_chk_done = (wait_send, do_add_workq)
update_nn_ci_req_s_retry _ = (retry_req, no_action)

unfoldable pub update_state : State → Event → State × Action
unfolding update_nn_ci_req_s_init update_nn_ci_req_s_wait_send update_nn_ci_req_s_sending
    update_nn_ci_req_s_wait_resp update_nn_ci_req_s_p_resp update_nn_ci_req_s_retry
update_state init e = update_nn_ci_req_s_init e
update_state wait_send e = update_nn_ci_req_s_wait_send e
update_state sending e = update_nn_ci_req_s_sending e
update_state wait_resp e = update_nn_ci_req_s_wait_resp e
update_state process_resp e = update_nn_ci_req_s_p_resp e
update_state retry_req e = update_nn_ci_req_s_retry e
update_state s e = (s, no_action)
