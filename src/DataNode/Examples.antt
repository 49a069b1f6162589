-- ===== src/DataNode/Examples.antt =====
-- Two lives of a datanode request.
use kt.Base.{◌≤◌, ◌≡◌, List, [], ◌∷◌, count_if}
use kt.Trace.{actions}
use kt.DataNode.ReqFsm.{
  Event, init_done, peek_work_q, send_done, find_req_ok_mem_ack, find_req_ok, retry_chk_done,
  cancel, no_action, do_retry_cancel_req, init, retry_req, update_state,
}
use kt.DataNode.Finish.{logged, may_finish, finish_once, cancel_in_retry}

abbrev history : List Event
history = init_done ∷ peek_work_q ∷ send_done ∷ find_req_ok_mem_ack ∷ find_req_ok ∷ cancel ∷ []

finish_once_example : count_if may_finish (actions logged init history) ≤ 1
finish_once_example = finish_once init history

cancel_in_retry_example :
    actions update_state retry_req (cancel ∷ cancel ∷ retry_chk_done ∷ [])
    ≡ do_retry_cancel_req ∷ no_action ∷ no_action ∷ []
cancel_in_retry_example = cancel_in_retry (cancel ∷ retry_chk_done ∷ [])
