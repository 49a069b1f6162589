-- ===== src/IoManager/AnswerExamples.antt =====
-- Answers of a write with two segments, and of a read that goes block by block.
use mathlib.Core.Path.{subst}
use mathlib.Core.Option.{some-injective}
use kt.Base.{
  zero, suc, ◌≢◌, some, inl, inr, get_elem?, ℕ, ◌≡◌, refl, true, false, List, [], ◌∷◌, ◌++◌, arith,
}
use kt.IoManager.Pool.{kernel_io_read, kernel_io_write}
use kt.IoManager.ReqFsm
use kt.IoManager.SegFsm
use kt.IoManager.Answers.{
  SegReq, IoRequest, Effect, commit_user_request, dms_rq_left, report_none, alloc_mdata_no_old,
  chk_ci_user,
}
use kt.IoManager.History.{
  Parts, Answer, for_user, for_mds, handle, answer, History, start, next, user_effects, submits,
}
use kt.IoManager.UserKept.{IsStart}
use kt.IoManager.UserCommit.{commits_lem}
use kt.IoManager.MdsReport.{IsBegun, submits_lem}
use kt.IoManager.Reports.{reports, md_report_endfn_once}
use kt.IoManager.TrueMd.{chk_ci_user-two}
use kt.IoManager.PartialWrite.{partial_w_read_pl_endfn}
use kt.IoManager.Stuck.{IsSegPast}
use kt.IoManager.Stranded.{IsFailing, failed_read, partial_read_failure_strands}

-- Two requests of the block layer, one of which another I/O request has a part of.
abbrev io : IoRequest
io = record {
  io_req_stat = ReqFsm.rw_user_data;
  io_result = true;
  fea_ci_user = false;
  ci_user_remain_lb = 3;
  ci_mds_remain_lb = 3;
  num_of_ci2nn = 2;
  rqs = record { result = true; num_ref_ior = 1 } ∷ record { result = true; num_ref_ior = 2 } ∷ [];
}

abbrev seg : ℕ → ℕ → SegReq
seg s n = record {
  io_seg_req_stat = SegFsm.wud;
  lbid_start = s;
  lbid_len = n;
  ci_user_result = true;
  ci_mds_status = report_none;
  ci_user_remain_lb = n;
  ci_mds_remain_lb = n;
  fea_ci_user = false;
  fea_true_proc = false;
  fea_non_4k_align = false;
  fea_ovw = false;
  fea_md_cache_h = false;
  fea_hbid_mismatch = false;
  req_op_code = kernel_io_write;
  io_dir_true = kernel_io_write;
  mdata_opcode = alloc_mdata_no_old;
  user_lb_state = [];
}

abbrev parts : Parts
parts = record { io = io; segs = seg 0 2 ∷ seg 2 1 ∷ [] }

parts-IsStart : IsStart parts
parts-IsStart = record {
  segs_new = (
    (omega arith, omega arith, refl, refl, refl),
    ((omega arith, omega arith, refl, refl, refl), tt),
  );
  some_lb = omega arith;
  small = omega arith;
  remain = refl;
  untold = refl;
  good = refl;
  held = (omega arith, omega arith, (omega arith, omega arith, tt));
}

parts-IsBegun : IsBegun parts
parts-IsBegun = record {
  segs_new = ((omega arith, omega arith, refl, refl), ((omega arith, omega arith, refl, refl), tt));
  some_lb = omega arith;
  small = omega arith;
  remain = refl;
  phase = refl;
}

abbrev step : Parts → ℕ → ℕ → ℕ → Answer → Parts
step q i s n a = answer q i (seg s n) a

abbrev log : Parts → ℕ → ℕ → Answer → List Effect
log q s n a = (handle (seg s n) q.io a).2

-- The first segment succeeds, and then the second fails, for the user.
abbrev half : Parts
half = step parts 0 0 2 (for_user 2 true)

two_answers :
    History parts
      (false ∷ true ∷ [])
      (log half 2 1 (for_user 1 false) ++ (log parts 0 2 (for_user 2 true) ++ []))
      (step half 1 2 1 (for_user 1 false))
unfolding handle answer
two_answers =
    next 1 (seg 2 1) (for_user 1 false)
      (next 0 (seg 0 2) (for_user 2 true) start refl (omega arith, omega arith)) refl
      (omega arith, omega arith)

commits_lem_example :
    user_effects (log half 2 1 (for_user 1 false) ++ (log parts 0 2 (for_user 2 true) ++ []))
    ≡ (commit_user_request false ∷ dms_rq_left (record { result = false; num_ref_ior = 1 }) ∷ [])
unfolding handle answer
commits_lem_example = commits_lem parts-IsStart two_answers

-- Both segments are written by all datanodes, the second first.
abbrev late : Parts
late = step parts 1 2 1 (for_mds 1)

two_ends :
    History parts []
      (log late 0 2 (for_mds 2) ++ (log parts 2 1 (for_mds 1) ++ []))
      (step late 0 0 2 (for_mds 2))
unfolding handle answer
two_ends =
    next 0 (seg 0 2) (for_mds 2)
      (next 1 (seg 2 1) (for_mds 1) start refl (omega arith, omega arith)) refl
      (omega arith, omega arith)

submits_lem_example :
    (submits (log late 0 2 (for_mds 2) ++ (log parts 2 1 (for_mds 1) ++ [])) ≡ 1)
    × ((step late 0 0 2 (for_mds 2)).io.io_req_stat ≡ ReqFsm.State.report_md)
unfolding handle answer SegFsm.update_state
submits_lem_example = submits_lem parts-IsBegun two_ends

-- The block layer is told of the request that is complete; the other waits.
tell_test :
    log half 2 1 (for_user 1 false)
    ≡ (commit_user_request false ∷ dms_rq_left (record { result = false; num_ref_ior = 1 }) ∷ [])
unfolding handle answer
tell_test = refl

-- Three blocks are missing and arrive together.
abbrev by_block : SegReq
by_block = record (seg 8 3) { fea_true_proc = true; user_lb_state = 7 ∷ [] }

chk_ci_user-two_example : chk_ci_user by_block 8 3 ≡ ((chk_ci_user by_block 8 1).0, false)
chk_ci_user-two_example = chk_ci_user-two by_block 8 1 refl (omega arith, tt)

by_block_test : (chk_ci_user by_block 8 3).0.user_lb_state ≡ (6 ∷ [])
unfolding chk_ci_user kt.Base.Bits.test_bit kt.Base.Bits.clear_bit
by_block_test = refl

-- The first segment reads what it writes a part of, while the second writes.
abbrev reading : SegReq
reading = record (seg 0 2) { io_seg_req_stat = SegFsm.rud; req_op_code = kernel_io_read }

abbrev mixed : Parts
mixed = record { io = io; segs = reading ∷ seg 2 1 ∷ [] }

mixed_others : (j : ℕ) (x : SegReq) → j ≢ 0 → get_elem? mixed.segs j ≡ some x → IsSegPast x
mixed_others zero x ne e = absurd (ne refl)
mixed_others (suc zero) x ne e =
    subst IsSegPast (some-injective _ _ e) (record {
      some_lb = omega arith;
      within = omega arith;
      short = omega arith;
      phase = inr refl;
    })
mixed_others (suc (suc j)) x ne e = cc

mixed-IsFailing : IsFailing mixed 0 reading 2 false
mixed-IsFailing = record {
  here = refl;
  others = mixed_others;
  reading = refl;
  normal = refl;
  last = refl;
  failed = refl;
  some_lb = omega arith;
  whole = refl;
  user_small = omega arith;
  remain = refl;
  small = omega arith;
  busy = refl;
}

abbrev broken : Parts
broken = failed_read mixed 0 reading 0 2 false

end_after : History broken [] (log broken 2 1 (for_mds 1) ++ []) (step broken 1 2 1 (for_mds 1))
unfolding handle answer partial_w_read_pl_endfn
end_after = next 1 (seg 2 1) (for_mds 1) start refl (omega arith, omega arith)

partial_read_failure_strands_example :
    (submits (partial_w_read_pl_endfn reading io 0 2 false).2 ≡ 0)
    × (submits (log broken 2 1 (for_mds 1) ++ []) ≡ 0)
    × ((step broken 1 2 1 (for_mds 1)).io.io_req_stat ≡ ReqFsm.rw_user_data)
partial_read_failure_strands_example =
    partial_read_failure_strands 0 reading 0 2 false mixed-IsFailing end_after

-- Two reports, and one that comes late.
abbrev io_reporting : IoRequest
io_reporting = record io { io_req_stat = ReqFsm.State.report_md }

md_report_endfn_once_example :
    (submits (reports 3 io_reporting).1 ≡ 1)
    × ((reports 3 io_reporting).0.io_req_stat ≡ ReqFsm.State.self_healing)
md_report_endfn_once_example =
    md_report_endfn_once 3 2 io_reporting refl refl (omega arith) (omega arith)
