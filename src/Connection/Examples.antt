-- ===== src/Connection/Examples.antt =====
-- A connection that breaks once.
use kt.Base.{◌≤◌, List, [], ◌∷◌, count_if}
use kt.Trace.{actions}
use kt.Connection.StateFsm.{
  Event, connect, connect_ok, connect_fail, connect_broken, stop, stop_done, init,
  update_conn_state,
}
use kt.Connection.Life.{is_free, is_close, free_once}

abbrev history : List Event
history = connect ∷ connect_fail ∷ connect_ok ∷ connect_broken ∷ connect_ok ∷ stop ∷ stop_done ∷ []

free_once_example :
    let log = actions update_conn_state init history in
    (count_if is_free log ≤ count_if is_close log) × (count_if is_close log ≤ 1)
free_once_example = free_once history
