-- ===== src/DataNode/Finish.antt =====
-- Who may finish a datanode request: the receiver of its disk acknowledgement, or its canceller.
use kt.Base.{◌≤◌, ◌≡◌, refl, ap, Bool, true, false, List, [], ◌∷◌, map, arith, count_if}
use kt.Trace.{actions, count_once}
use kt.DataNode.ReqFsm.{
  Event, find_req_ok, cancel, Action, no_action, do_process_resp, do_cancel_req,
  do_retry_cancel_req, State, process_resp, retry_req, cancel_req, update_state,
}

-- Each event with its answer.
unfoldable pub logged : State → Event → State × (Event × Action)
unfolding update_state
logged s e = let (s', a) = update_state s e in (s', (e, a))

-- The right to take the request out of the pool and free it: `find_DNUDReq_ReqPool` gets it for a
-- disk acknowledgement, `DNUDReq_cancel_Req` for a cancellation.
abbrev pub may_finish : Event × Action → Bool
may_finish (find_req_ok, do_process_resp) = true
may_finish (cancel, do_cancel_req) = true
may_finish _ = false

abbrev finished : State → Bool
finished process_resp = true
finished cancel_req = true
finished _ = false

grants : (s : State) (e : Event) → may_finish (logged s e).1 ≡ true → finished (logged s e).0 ≡ true
unfolding logged
grants s e = ground arith

stays :
    (s : State) (e : Event)
    → finished s ≡ true
    → (finished (logged s e).0 ≡ true) × (may_finish (logged s e).1 ≡ false)
unfolding logged
stays s e = ground arith

-- In any history of a request, the receivers and the cancellers together get the right to finish
-- it at most once.
pub finish_once : (s : State) (es : List Event) → count_if may_finish (actions logged s es) ≤ 1
finish_once s es = count_once logged may_finish finished grants stays s es

cancelled_stays : (es : List Event) → actions update_state cancel_req es ≡ map (λ e. no_action) es
unfolding actions update_state
cancelled_stays [] = refl
cancelled_stays (e ∷ es) = ap (◌∷◌ no_action) (cancelled_stays es)

-- A cancellation that meets a request under a retry check is told to cancel again, but the request
-- then refuses every event: the second cancellation and the retry check get no action, and nobody
-- gets the right to finish the request any more.
pub cancel_in_retry :
    (es : List Event)
    → actions update_state retry_req (cancel ∷ es) ≡ do_retry_cancel_req ∷ map (λ e. no_action) es
unfolding actions update_state
cancel_in_retry es = ap (◌∷◌ do_retry_cancel_req) (cancelled_stays es)
