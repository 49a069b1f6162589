-- ===== src/DataNode/Sending.antt =====
-- How often a datanode request is queued and sent.
use kt.Base.{ℕ, ◌+◌, ◌≤◌, Bool, true, false, List, [], ◌∷◌, arith, count_if}
use kt.Trace.{actions, count_balance}
use kt.DataNode.ReqFsm.{
  Event, Action, do_add_workq, do_send, do_retry_req, State, init, wait_send, retry_req,
  update_state,
}

abbrev pub is_send : Action → Bool
is_send do_send = true
is_send _ = false

abbrev pub is_add : Action → Bool
is_add do_add_workq = true
is_add _ = false

abbrev pub is_retry : Action → Bool
is_retry do_retry_req = true
is_retry _ = false

-- The request stands in the sender's queue.
abbrev queued : State → ℕ
queued wait_send = 1
queued _ = 0

-- The request may be queued without another retry.
abbrev may_queue : State → ℕ
may_queue init = 1
may_queue retry_req = 1
may_queue _ = 0

send_pays :
    (s : State) (e : Event)
    → let (s', a) = update_state s e in
      count_if is_send (a ∷ []) + queued s' ≤ count_if is_add (a ∷ []) + queued s
unfolding update_state
send_pays s e = ground arith

add_pays :
    (s : State) (e : Event)
    → let (s', a) = update_state s e in
      count_if is_add (a ∷ []) + may_queue s' ≤ count_if is_retry (a ∷ []) + may_queue s
unfolding update_state
add_pays s e = ground arith

-- In any history of a new datanode request, it is sent at most as often as it is queued, and it is
-- queued at most once and once more for each retry that is granted.
dn_send_at_most :
    (es : List Event)
    → let log = actions update_state init es in
      (count_if is_send log ≤ count_if is_add log)
      × (count_if is_add log ≤ 1 + count_if is_retry log)
dn_send_at_most es = ground (
  arith,
  count_balance update_state is_send is_add queued send_pays init es,
  count_balance update_state is_add is_retry may_queue add_pays init es,
)
