-- ===== src/Payload/Examples.antt =====
-- A write payload request over three replicas.
use kt.Base.{◌≤◌, ◌≡◌, refl, true, List, [], ◌∷◌, map, arith, count_if}
use kt.Trace.{actions}
use kt.Metadata.{UdataState, init, write_ok, write_mem_ok, disk_failure, init_md_item}
use kt.Payload.ReqFsm.{wait_io_done}
use kt.Payload.Request.{PlReq, Config, timer_fired, step, makes, is_end, is_free, chk_w_pl_req_wait}
use kt.Payload.Once.{end_once}
use kt.Payload.Timeout.{timed_out_never_ends}
use kt.Payload.Answered.{Answer, to_event, all_answered_ends}

abbrev cfg : Config
cfg = record {
  commit_user_min_disk_ack = 1;
  high_resp_write_io = true;
  time_wait_other_replica = 500;
  jiffies_to_msecs = λ n. n;
}

abbrev three : List UdataState
three = init ∷ init ∷ init ∷ []

abbrev new_req : PlReq
new_req = record {
  pl_req_stat = wait_io_done;
  mdata_item = init_md_item 3 three;
  rto_chk_cnt = 5;
  t_ci_caller = 0;
}

-- The same on its last timeout.
abbrev late_req : PlReq
late_req = record new_req { rto_chk_cnt = 1 }

abbrev answers : List Answer
answers = (write_mem_ok, 0, 10) ∷ (write_ok, 0, 20) ∷ (disk_failure, 2, 25) ∷ (write_ok, 1, 30) ∷ []

end_once_example :
    (count_if (makes is_end) (actions (step cfg) new_req (timer_fired 5 ∷ map to_event answers))
      ≤ 1)
    × (map (makes is_free) (actions (step cfg) new_req (timer_fired 5 ∷ map to_event answers))
        ≡ map (makes is_end) (actions (step cfg) new_req (timer_fired 5 ∷ map to_event answers)))
end_once_example = end_once cfg new_req (timer_fired 5 ∷ map to_event answers)

all_answered_ends_example :
    count_if (makes is_end) (actions (step cfg) new_req (map to_event answers)) ≡ 1
all_answered_ends_example =
    all_answered_ends cfg new_req 3 three answers refl refl (omega arith) (omega arith) refl

timed_out_never_ends_example :
    (count_if (makes is_end) (actions (step cfg) late_req (timer_fired 5 ∷ map to_event answers))
      ≡ 0)
    × (count_if (makes is_free) (actions (step cfg) late_req (timer_fired 5 ∷ map to_event answers))
        ≡ 0)
unfolding chk_w_pl_req_wait
timed_out_never_ends_example = timed_out_never_ends cfg late_req 5 (map to_event answers) refl refl
