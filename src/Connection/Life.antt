-- ===== src/Connection/Life.antt =====
-- How often a connection is put in service, closed and freed.
use kt.Base.{ℕ, ◌+◌, ◌≤◌, ◌≡◌, Bool, true, false, List, [], ◌∷◌, arith, count_if}
use kt.Trace.{run, actions, count_once, count_balance}
use kt.Connection.StateFsm.{
  Event, Action, do_connect, do_service, do_retry, do_close, do_free, State, init, connecting,
  connect_retry, closing, end, update_conn_state, is_conn_connected,
}

abbrev pub is_close : Action → Bool
is_close do_close = true
is_close _ = false

abbrev pub is_free : Action → Bool
is_free do_free = true
is_free _ = false

abbrev pub is_service : Action → Bool
is_service do_service = true
is_service _ = false

-- An attempt to connect, the first or another.
abbrev pub is_attempt : Action → Bool
is_attempt do_connect = true
is_attempt do_retry = true
is_attempt _ = false

abbrev closed : State → Bool
closed closing = true
closed end = true
closed _ = false

abbrev may_free : State → ℕ
may_free closing = 1
may_free _ = 0

abbrev may_serve : State → ℕ
may_serve connecting = 1
may_serve connect_retry = 1
may_serve _ = 0

-- One if the connection is in service.
abbrev pub in_service : State → ℕ
in_service s = elim (is_conn_connected s) [ true ↦ 1 | false ↦ 0 ]

closes :
    (s : State) (e : Event)
    → is_close (update_conn_state s e).1 ≡ true
    → closed (update_conn_state s e).0 ≡ true
unfolding update_conn_state
closes s e = ground arith

stays_closed :
    (s : State) (e : Event)
    → closed s ≡ true
    → (closed (update_conn_state s e).0 ≡ true) × (is_close (update_conn_state s e).1 ≡ false)
unfolding update_conn_state
stays_closed s e = ground arith

free_pays :
    (s : State) (e : Event)
    → let (s', a) = update_conn_state s e in
      count_if is_free (a ∷ []) + may_free s' ≤ count_if is_close (a ∷ []) + may_free s
unfolding update_conn_state
free_pays s e = ground arith

-- In any history of a new connection, it is freed at most as often as it is closed, and closed at
-- most once.
pub free_once :
    (es : List Event)
    → let log = actions update_conn_state init es in
      (count_if is_free log ≤ count_if is_close log) × (count_if is_close log ≤ 1)
free_once es = ground (
  arith,
  count_balance update_conn_state is_free is_close may_free free_pays init es,
  count_once update_conn_state is_close closed closes stays_closed init es,
)

service_pays :
    (s : State) (e : Event)
    → let (s', a) = update_conn_state s e in
      count_if is_service (a ∷ []) + may_serve s' ≤ count_if is_attempt (a ∷ []) + may_serve s
unfolding update_conn_state
service_pays s e = ground arith

connected_pays :
    (s : State) (e : Event)
    → let (s', a) = update_conn_state s e in
      in_service s' ≤ count_if is_service (a ∷ []) + in_service s
unfolding update_conn_state is_conn_connected
connected_pays s e = ground arith

connected_balance :
    (s : State) (es : List Event)
    → in_service (run update_conn_state s es)
      ≤ count_if is_service (actions update_conn_state s es) + in_service s
unfolding run actions
connected_balance s [] = omega arith
connected_balance s (e ∷ es) =
    ground (arith, connected_pays s e, connected_balance (update_conn_state s e).0 es)

-- In any history of a new connection, it is put in service at most as often as it was tried to
-- connect, and a connection that is connected has been put in service.
service_after_connect :
    (es : List Event)
    → let log = actions update_conn_state init es in
      (count_if is_service log ≤ count_if is_attempt log)
      × (in_service (run update_conn_state init es) ≤ count_if is_service log)
unfolding is_conn_connected
service_after_connect es = ground (
  arith,
  count_balance update_conn_state is_service is_attempt may_serve service_pays init es,
  connected_balance init es,
)
