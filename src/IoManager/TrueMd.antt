-- ===== src/IoManager/TrueMd.antt =====
-- Reading a segment block by block (IOSegR_FEA_TrueProc): the bits of `userLB_state`.
use kt.Base.{
  ℕ, zero, suc, ◌+◌, ◌-◌, ◌/◌, ◌%◌, ◌^◌, ◌<◌, ◌≡◌, true, false, List, [], ◌∷◌, arith, All, set,
}
use kt.Base.Bits.{test_bit, clear_bit, test_bit-clear_bit, test_bit_zero}
use kt.IoManager.Answers.{SegReq, chk_ci_user, clear_loop, lb_byte}

abbrev pub IsByte : ℕ → Type 0
IsByte m = m < 256

cleared :
    (state : List ℕ) (i j : ℕ)
    → All IsByte state
    → j < 8
    → test_bit j (lb_byte (set state i (clear_bit j (lb_byte state i))) i) ≡ false
cleared [] i j h lt = test_bit_zero j lt
cleared (x ∷ xs) zero j h lt = ground (arith, test_bit-clear_bit j j x lt lt h.0)
cleared (x ∷ xs) (suc i) j h lt = cleared xs i j h.1 lt

-- In the second round the bit is clear.
clear_loop_stops :
    (k off : ℕ) (state : List ℕ) (num : ℕ)
    → All IsByte state
    → clear_loop (suc (suc k)) off state num
      ≡ ((clear_loop 1 off state num).0, (clear_loop 1 off state num).1, false)
unfolding clear_loop
clear_loop_stops k off state num h =
    let c = cleared state (off / 8) (off % 8) h (omega arith) in ground (arith, c)

-- While a segment is read block by block and its state is made of bytes, an answer for two or more
-- blocks does to it what an answer for its first block alone does, and is never taken for the last.
pub chk_ci_user-two :
    (s : SegReq) (lb_s k : ℕ)
    → s.fea_true_proc ≡ true
    → All IsByte s.user_lb_state
    → chk_ci_user s lb_s (suc (suc k)) ≡ ((chk_ci_user s lb_s 1).0, false)
unfolding chk_ci_user
chk_ci_user-two s lb_s k e h =
    let off = (lb_s + 2 ^ 64 - s.lbid_start) % 2 ^ 32 in
    let c = clear_loop_stops k off s.user_lb_state 0 h in ground (arith, c, e)
