-- ===== src/IoManager/Examples.antt =====
-- An I/O request that waits for another, and a segment that is read before it is written.
use kt.Base.{◌≤◌, ◌≡◌, refl, List, [], ◌∷◌, ◌++◌, count_if}
use kt.Trace.{run, actions}
use kt.IoManager.ReqFsm
use kt.IoManager.SegFsm
use kt.IoManager.Phases.{rest, phases, phase_order}
use kt.IoManager.SegRights.{is_report, is_w_acq, seg_once}

abbrev life : List ReqFsm.Event
life =
    ReqFsm.ovlp_other_io ∷ ReqFsm.ovlp_io_done ∷ ReqFsm.io_seg_io_done ∷ ReqFsm.rw_udata_done
    ∷ ReqFsm.report_md_done ∷ ReqFsm.heal_done ∷ []

phase_order_example :
    rest ReqFsm.init
    ≡ phases (actions ReqFsm.update_state ReqFsm.init life)
      ++ rest (run ReqFsm.update_state ReqFsm.init life)
phase_order_example = phase_order ReqFsm.init life

life_done : run ReqFsm.update_state ReqFsm.init life ≡ ReqFsm.req_done
unfolding run ReqFsm.update_state
life_done = refl

abbrev read_then_write : List SegFsm.Event
read_then_write =
    SegFsm.init_r ∷ SegFsm.r_acq_md_done ∷ SegFsm.mdud_unsync ∷ SegFsm.atrue_md_done
    ∷ SegFsm.r_allpl_done ∷ SegFsm.w_rphase_done ∷ SegFsm.w_acq_md_done ∷ SegFsm.w_allpl_done ∷ []

seg_once_example :
    (count_if is_report (actions SegFsm.update_state SegFsm.init read_then_write) ≤ 1)
    × (count_if is_w_acq (actions SegFsm.update_state SegFsm.init read_then_write) ≤ 1)
seg_once_example = seg_once SegFsm.init read_then_write
