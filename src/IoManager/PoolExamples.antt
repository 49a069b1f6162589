-- ===== src/IoManager/PoolExamples.antt =====
-- A volume's pool with a write, a read of the same blocks and a write elsewhere.
use kt.Base.{ℕ, ◌+◌, ◌<◌, ◌≡◌, ◌≢◌, refl, Bool, true, [], ◌∷◌, arith, length, All}
use kt.IoManager.ReqFsm
use kt.IoManager.Overlap.{UserIoAddr, Says, chk_lb_ovlp, chk_lb_ovlp_exact}
use kt.IoManager.Pool.{
  IoReq, Pool, kernel_io_write, kernel_io_read, add_req_pool, add_found, add_checked, chk_ovlp,
  chk_ovlp_req_pool, visit, gen_item, chk_io_rw, rm_io_req_queue, wake_req, look_at, put, wake_one,
}
use kt.IoManager.Wake.{copies}
use kt.IoManager.Safe.{empty_pool}
use kt.IoManager.Exclusion.{Reachable, start, arrive, MayRunTogether, exclusion}
use kt.IoManager.Drain.{Ends, none_ends, one_ends, total, held, ended, Ends-drain}

abbrev first_lbs : UserIoAddr
first_lbs = record { lbid_start = 10; lbid_len = 6 }

abbrev more_lbs : UserIoAddr
more_lbs = record { lbid_start = 12; lbid_len = 8 }

chk_lb_ovlp_exact_example : Says first_lbs more_lbs (chk_lb_ovlp first_lbs more_lbs)
chk_lb_ovlp_exact_example = chk_lb_ovlp_exact first_lbs more_lbs (omega arith) (omega arith)

abbrev has_mem : ℕ → ℕ → Bool
has_mem n m = true

abbrev writer : IoReq
writer = record {
  io_req_id = 1;
  iodir = kernel_io_write;
  usr_io_addr = first_lbs;
  io_req_stat = ReqFsm.init;
  cnt_ovlp_wait = 0;
}

abbrev reader : IoReq
reader = record writer { io_req_id = 2; iodir = kernel_io_read; usr_io_addr = more_lbs }

abbrev other : IoReq
other = record writer { io_req_id = 3; usr_io_addr = record { lbid_start = 99; lbid_len = 1 } }

abbrev one_req : Pool
one_req = (add_req_pool has_mem empty_pool writer).0

abbrev two_reqs : Pool
two_reqs = (add_req_pool has_mem one_req reader).0

abbrev three_reqs : Pool
three_reqs = (add_req_pool has_mem two_reqs other).0

three_Reachable : Reachable has_mem three_reqs
unfolding add_req_pool add_found add_checked chk_ovlp chk_ovlp_req_pool visit gen_item chk_io_rw
    chk_lb_ovlp ReqFsm.update_state
three_Reachable =
    arrive two_reqs other
      (arrive one_req reader
        (arrive empty_pool writer start
          (record { stat = refl; waits_none = refl; range = omega arith; absent = refl })
          (omega arith) (omega arith))
        (record { stat = refl; waits_none = refl; range = omega arith; absent = refl })
        (omega arith) (omega arith))
      (record { stat = refl; waits_none = refl; range = omega arith; absent = refl }) (omega arith)
      (omega arith)

exclusion_example :
    All
      (λ a. All (λ b. a.io_req_id ≢ b.io_req_id → MayRunTogether a b) three_reqs.io_req_pool)
      three_reqs.io_req_pool
exclusion_example = exclusion has_mem three_reqs (λ n m. refl) three_Reachable

abbrev two_left : Pool
two_left = (rm_io_req_queue three_reqs 1).0

abbrev one_left : Pool
one_left = (rm_io_req_queue two_left 3).0

-- The read has waited for the write, and is submitted when the write ends.
abbrev woken_reader : IoReq
woken_reader = record reader { io_req_stat = ReqFsm.rw_user_data }

two-Ends : Ends three_reqs (1 ∷ 3 ∷ []) (woken_reader ∷ []) one_left
unfolding rm_io_req_queue add_req_pool add_found add_checked chk_ovlp chk_ovlp_req_pool visit
    gen_item chk_io_rw chk_lb_ovlp ReqFsm.update_state wake_req look_at put wake_one
two-Ends = one_ends 1 (omega arith) (one_ends 3 (omega arith) none_ends)

Ends-drain_example :
    (total one_left + 2 ≡ total three_reqs)
    × (0 < total one_left → 0 < length one_left.io_req_pool)
    × ((n : ℕ) → held n one_left + ended n (1 ∷ 3 ∷ []) ≡ held n three_reqs)
    × ((n : ℕ)
        → copies n (woken_reader ∷ []) + copies n one_left.io_req_ovlp_pool
          ≡ copies n three_reqs.io_req_ovlp_pool)
Ends-drain_example =
    Ends-drain has_mem three_reqs one_left (1 ∷ 3 ∷ []) (woken_reader ∷ []) (λ n m. refl)
      three_Reachable two-Ends
