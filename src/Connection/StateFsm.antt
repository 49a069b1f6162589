-- ===== src/Connection/StateFsm.antt =====
-- BlockDeviceDriver2/connection_manager/conn_state_fsm.{c,h}, with the states `conn_stat_t` of
-- conn_manager_export.h. The caller's lock makes `update_conn_state` one step.

use kt.Base.{Bool, true, false}

pub data Event : Type 0 where
  connect connect_ok connect_fail connect_broken stop stop_done unknown : Event

pub data Action : Type 0 where
  no_action do_connect do_service do_retry do_close do_free unknown : Action

pub data State : Type 0 where
  init connecting connected connect_retry closing end unknown : State

unfoldable pub update_conn_init : Event → State × Action
update_conn_init connect = (connecting, do_connect)
update_conn_init _ = (init, no_action)

unfoldable pub update_conn_conning : Event → State × Action
update_conn_conning connect_ok = (connected, do_service)
update_conn_conning connect_fail = (connect_retry, do_retry)
update_conn_conning stop = (closing, do_close)
update_conn_conning _ = (connecting, no_action)

unfoldable pub update_conn_connected : Event → State × Action
update_conn_connected connect_broken = (connect_retry, do_retry)
update_conn_connected stop = (closing, do_close)
update_conn_connected _ = (connected, no_action)

unfoldable pub update_conn_retry : Event → State × Action
update_conn_retry connect_ok = (connected, do_service)
update_conn_retry stop = (closing, do_close)
update_conn_retry _ = (connect_retry, no_action)

unfoldable pub update_conn_closing : Event → State × Action
update_conn_closing stop_done = (end, do_free)
update_conn_closing _ = (closing, no_action)

unfoldable pub update_conn_state : State → Event → State × Action
unfolding update_conn_init update_conn_conning update_conn_connected update_conn_retry
    update_conn_closing
update_conn_state init e = update_conn_init e
update_conn_state connecting e = update_conn_conning e
update_conn_state connected e = update_conn_connected e
update_conn_state connect_retry e = update_conn_retry e
update_conn_state closing e = update_conn_closing e
update_conn_state s e = (s, no_action)

-- `is_conn_connected`.
unfoldable pub is_conn_connected : State → Bool
is_conn_connected connected = true
is_conn_connected _ = false
