-- ===== src/NameNode/Examples.antt =====
-- Lives of metadata requests.
use kt.Base.{◌≤◌, List, [], ◌∷◌, count_if}
use kt.Trace.{actions}
use kt.NameNode.GetReq
use kt.NameNode.CiReq
use kt.NameNode.Acquire
use kt.NameNode.Commit

abbrev get_history : List GetReq.Event
get_history =
    GetReq.init_done ∷ GetReq.peek_work_q ∷ GetReq.send_done ∷ GetReq.conn_back
    ∷ GetReq.retry_chk_done ∷ GetReq.peek_work_q ∷ GetReq.Event.timeout_fire ∷ GetReq.find_req_ok
    ∷ []

abbrev ci_history : List CiReq.Event
ci_history =
    CiReq.init_done ∷ CiReq.peek_work_q ∷ CiReq.send_done ∷ CiReq.conn_back ∷ CiReq.find_req_ok ∷ []

answer_once_example :
    count_if Acquire.may_answer (actions GetReq.update_state GetReq.init get_history) ≤ 1
answer_once_example = Acquire.answer_once GetReq.init get_history

commit_answer_once_example :
    count_if Commit.may_answer (actions CiReq.update_state CiReq.init ci_history) ≤ 1
commit_answer_once_example = Commit.commit_answer_once CiReq.init ci_history
