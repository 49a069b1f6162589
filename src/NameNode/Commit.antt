-- ===== src/NameNode/Commit.antt =====
-- How often a request that commits metadata is queued, sent and answered; it has no timer that gives up.
use kt.Base.{ℕ, ◌+◌, ◌≤◌, ◌≡◌, Bool, true, false, List, [], ◌∷◌, arith, count_if}
use kt.Trace.{actions, count_once, count_balance}
use kt.NameNode.CiReq.{
  Event, Action, do_add_workq, do_send, do_process_resp, do_retry_req, State, init, wait_send,
  process_resp, retry_req, update_state,
}

abbrev pub is_send : Action → Bool
is_send do_send = true
is_send _ = false

abbrev pub is_add : Action → Bool
is_add do_add_workq = true
is_add _ = false

abbrev pub is_retry : Action → Bool
is_retry do_retry_req = true
is_retry _ = false

-- The right to take the response, and with it the request.
abbrev pub may_answer : Action → Bool
may_answer do_process_resp = true
may_answer _ = false

abbrev answered : State → Bool
answered process_resp = true
answered _ = false

-- The request stands in the sender's queue.
abbrev queued : State → ℕ
queued wait_send = 1
queued _ = 0

-- The request may be queued without another retry.
abbrev may_queue : State → ℕ
may_queue init = 1
may_queue retry_req = 1
may_queue _ = 0

grants :
    (s : State) (e : Event)
    → may_answer (update_state s e).1 ≡ true
    → answered (update_state s e).0 ≡ true
unfolding update_state
grants s e = ground arith

stays :
    (s : State) (e : Event)
    → answered s ≡ true
    → (answered (update_state s e).0 ≡ true) × (may_answer (update_state s e).1 ≡ false)
unfolding update_state
stays s e = ground arith

-- In any history of a request, the receivers of its response get the right to take it at most once.
pub commit_answer_once :
    (s : State) (es : List Event) → count_if may_answer (actions update_state s es) ≤ 1
commit_answer_once s es = count_once update_state may_answer answered grants stays s es

send_pays :
    (s : State) (e : Event)
    → let (s', a) = update_state s e in
      count_if is_send (a ∷ []) + queued s' ≤ count_if is_add (a ∷ []) + queued s
unfolding update_state
send_pays s e = ground arith

add_pays :
    (s : State) (e : Event)
    → let (s', a) = update_state s e in
      count_if is_add (a ∷ []) + may_queue s' ≤ count_if is_retry (a ∷ []) + may_queue s
unfolding update_state
add_pays s e = ground arith

-- In any history of a new commit request, it is sent at most as often as it is queued, and it is queued at
-- most once and once more for each retry that is granted.
commit_send_at_most :
    (es : List Event)
    → let log = actions update_state init es in
      (count_if is_send log ≤ count_if is_add log)
      × (count_if is_add log ≤ 1 + count_if is_retry log)
commit_send_at_most es = ground (
  arith,
  count_balance update_state is_send is_add queued send_pays init es,
  count_balance update_state is_add is_retry may_queue add_pays init es,
)
