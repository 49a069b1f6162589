-- ===== src/IoManager/SegRights.antt =====
-- Which actions of an I/O segment come how often, and which before which.
use kt.Base.{ℕ, ◌+◌, ◌≤◌, ◌≡◌, Bool, true, false, List, [], ◌∷◌, arith, count_if}
use kt.Trace.{actions, count_once, count_balance}
use kt.IoManager.SegFsm.{
  Event, Action, do_wud, do_rud, do_atrue_md_proc, do_ci2ioseg_req, do_ci2ioreq, State, init, wud,
  atrue_md_proc, ci2ioseg, ci2ior, update_state,
}

-- The segment's completion is reported to its I/O request.
abbrev pub is_report : Action → Bool
is_report do_ci2ioreq = true
is_report _ = false

abbrev reported : State → Bool
reported ci2ior = true
reported _ = false

abbrev pub is_w_acq : Action → Bool
is_w_acq Action.w_acq_md = true
is_w_acq _ = false

abbrev in_write : State → Bool
in_write State.w_acq_md = true
in_write wud = true
in_write ci2ior = true
in_write _ = false

abbrev pub is_write : Action → Bool
is_write do_wud = true
is_write _ = false

abbrev pub is_read : Action → Bool
is_read do_rud = true
is_read _ = false

-- Metadata are fetched for a read, or fetched again from the namenode.
abbrev pub is_r_acq : Action → Bool
is_r_acq Action.r_acq_md = true
is_r_acq do_atrue_md_proc = true
is_r_acq _ = false

-- User data have been written, or all read.
abbrev pub is_transfer : Action → Bool
is_transfer do_wud = true
is_transfer do_ci2ioseg_req = true
is_transfer _ = false

abbrev may_write : State → ℕ
may_write State.w_acq_md = 1
may_write _ = 0

abbrev may_read : State → ℕ
may_read State.r_acq_md = 1
may_read atrue_md_proc = 1
may_read _ = 0

abbrev may_report : State → ℕ
may_report wud = 1
may_report ci2ioseg = 1
may_report _ = 0

reports :
    (s : State) (e : Event)
    → is_report (update_state s e).1 ≡ true
    → reported (update_state s e).0 ≡ true
unfolding update_state
reports s e = ground arith

stays_reported :
    (s : State) (e : Event)
    → reported s ≡ true
    → (reported (update_state s e).0 ≡ true) × (is_report (update_state s e).1 ≡ false)
unfolding update_state
stays_reported s e = ground arith

acquires :
    (s : State) (e : Event)
    → is_w_acq (update_state s e).1 ≡ true
    → in_write (update_state s e).0 ≡ true
unfolding update_state
acquires s e = ground arith

stays_in_write :
    (s : State) (e : Event)
    → in_write s ≡ true
    → (in_write (update_state s e).0 ≡ true) × (is_w_acq (update_state s e).1 ≡ false)
unfolding update_state
stays_in_write s e = ground arith

-- In any history, a segment is reported to its I/O request at most once, and acquires metadata for
-- writing at most once.
pub seg_once :
    (s : State) (es : List Event)
    → (count_if is_report (actions update_state s es) ≤ 1)
      × (count_if is_w_acq (actions update_state s es) ≤ 1)
seg_once s es = (
  count_once update_state is_report reported reports stays_reported s es,
  count_once update_state is_w_acq in_write acquires stays_in_write s es,
)

write_pays :
    (s : State) (e : Event)
    → let (s', a) = update_state s e in
      count_if is_write (a ∷ []) + may_write s' ≤ count_if is_w_acq (a ∷ []) + may_write s
unfolding update_state
write_pays s e = ground arith

read_pays :
    (s : State) (e : Event)
    → let (s', a) = update_state s e in
      count_if is_read (a ∷ []) + may_read s' ≤ count_if is_r_acq (a ∷ []) + may_read s
unfolding update_state
read_pays s e = ground arith

report_pays :
    (s : State) (e : Event)
    → let (s', a) = update_state s e in
      count_if is_report (a ∷ []) + may_report s' ≤ count_if is_transfer (a ∷ []) + may_report s
unfolding update_state
report_pays s e = ground arith

-- In any history of a new segment, it writes user data at most as often as it acquires metadata for
-- writing, reads at most as often as it acquires metadata for reading, the first time or again, and
-- is reported to its I/O request at most as often as user data were written or all read.
seg_order :
    (es : List Event)
    → let log = actions update_state init es in
      (count_if is_write log ≤ count_if is_w_acq log)
      × (count_if is_read log ≤ count_if is_r_acq log)
      × (count_if is_report log ≤ count_if is_transfer log)
seg_order es = ground (
  arith,
  count_balance update_state is_write is_w_acq may_write write_pays init es,
  count_balance update_state is_read is_r_acq may_read read_pays init es,
  count_balance update_state is_report is_transfer may_report report_pays init es,
)
