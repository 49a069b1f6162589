-- ===== src/Payload/ReqFsm.antt =====
-- BlockDeviceDriver2/payload_manager/payload_request_fsm.{c,h}. The lock makes `PLReq_update_state`
-- one step; `PLREQ_A_UNKNOWN` and `PLREQ_S_UNKNOWN` are names of the END values.
use kt.Base.{ℕ, zero, suc}

pub data Event : Type 0 where
  init_done ci_caller to_fire_chk to_fire_chk_done : Event

pub data Action : Type 0 where
  start no_action rw_data do_ci_caller do_to_fire_chk do_wait_data end : Action

pub data State : Type 0 where
  start init wait_io_done ci_caller to_check end : State

-- The values of the enums, where the source passes one for the other.
unfoldable pub action_code : Action → ℕ
action_code Action.start = 0
action_code no_action = 1
action_code rw_data = 2
action_code do_ci_caller = 3
action_code do_to_fire_chk = 4
action_code do_wait_data = 5
action_code Action.end = 6

unfoldable pub update_pl_req_s_init : Event → State × Action
update_pl_req_s_init init_done = (wait_io_done, rw_data)
update_pl_req_s_init _ = (init, no_action)

unfoldable pub update_pl_req_s_wait_io : Event → State × Action
update_pl_req_s_wait_io Event.ci_caller = (State.ci_caller, do_ci_caller)
update_pl_req_s_wait_io to_fire_chk = (to_check, do_to_fire_chk)
update_pl_req_s_wait_io _ = (wait_io_done, no_action)

unfoldable pub update_pl_req_s_ci_caller : Event → State × Action
update_pl_req_s_ci_caller _ = (State.ci_caller, no_action)

unfoldable pub update_pl_req_s_to_check : Event → State × Action
update_pl_req_s_to_check Event.ci_caller = (State.ci_caller, do_ci_caller)
update_pl_req_s_to_check to_fire_chk_done = (wait_io_done, do_wait_data)
update_pl_req_s_to_check _ = (to_check, no_action)

unfoldable pub update_state : State → Event → State × Action
unfolding update_pl_req_s_init update_pl_req_s_wait_io update_pl_req_s_ci_caller
    update_pl_req_s_to_check
update_state init e = update_pl_req_s_init e
update_state wait_io_done e = update_pl_req_s_wait_io e
update_state State.ci_caller e = update_pl_req_s_ci_caller e
update_state to_check e = update_pl_req_s_to_check e
update_state s e = (s, no_action)

-- `PLReq_update_state` given a number: one that is no event takes the `default` branches.
unfoldable pub update_state_code : State → ℕ → State × Action
unfolding update_state
update_state_code s zero = update_state s init_done
update_state_code s (suc zero) = update_state s Event.ci_caller
update_state_code s (suc (suc zero)) = update_state s to_fire_chk
update_state_code s (suc (suc (suc zero))) = update_state s to_fire_chk_done
update_state_code s _ = (s, no_action)
