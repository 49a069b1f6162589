-- ===== src/Payload/Timeout.antt =====
-- What becomes of a write payload request whose timer gives up waiting.
use kt.Base.{ℕ, ◌≡◌, refl, ◌∙◌, Bool, true, false, List, [], ◌∷◌, arith, count_if}
use kt.Trace.{actions}
use kt.Metadata.{UdataState, timeout_commit_result, update_dn_udata_stat}
use kt.Metadata.Commit.{write_ack_keeps_mds}
use kt.Payload.ReqFsm.{wait_io_done, to_check, do_to_fire_chk, Action, update_state}
use kt.Payload.Request.{
  PlReq, Config, PlEvent, answered, timer_fired, end_write, counted, write_dn_endfn, to_handler_gut,
  write_pl_req_to_handle, chk_w_pl_req_wait, dec32, fired, step, makes, is_end, is_free,
}
use kt.Payload.Once.{to_handler_gut_ends, count_frees}

abbrev taken : PlReq → Bool
taken r = r.mdata_item.udata_ci_mds

module _ (cfg : Config) where
  -- Once the right to commit to the metadata server is taken, no step ends the request.
  answered_taken :
      (r : PlReq) (s : UdataState) (idx now : ℕ)
      → taken r ≡ true
      → let (r', es) = write_dn_endfn cfg r s idx now in
        (taken r' ≡ true) × (makes is_end es ≡ false)
  unfolding write_dn_endfn counted end_write update_dn_udata_stat
  answered_taken r s idx now h = ground (
    arith,
    write_ack_keeps_mds cfg.commit_user_min_disk_ack (update_dn_udata_stat r.mdata_item idx s) s h,
  )

  handle_taken :
      (r : PlReq) (now : ℕ) → taken r ≡ true → taken (write_pl_req_to_handle cfg r now).0 ≡ true
  unfolding write_pl_req_to_handle timeout_commit_result
  handle_taken r now h = ground arith

  fired-taken :
      (a : Action) (r : PlReq) (now : ℕ) → taken r ≡ true → taken (fired cfg a r now).0 ≡ true
  unfolding fired
  fired-taken do_to_fire_chk r now h = handle_taken r now h
  fired-taken _ r now h = h

  step-taken :
      (r : PlReq) (e : PlEvent)
      → taken r ≡ true
      → (taken (step cfg r e).0 ≡ true) × (makes is_end (step cfg r e).1 ≡ false)
  unfolding step to_handler_gut
  step-taken r (answered s idx now) h = answered_taken r s idx now h
  step-taken r (timer_fired now) h = (fired-taken _ _ now h, (to_handler_gut_ends cfg r now).0)

  actions-taken :
      (r : PlReq) (es : List PlEvent)
      → taken r ≡ true
      → count_if (makes is_end) (actions (step cfg) r es) ≡ 0
  unfolding actions
  actions-taken r [] h = refl
  actions-taken r (e ∷ es) h =
      ground (arith, step-taken r e h, actions-taken (step cfg r e).0 es (step-taken r e h).0)

  gives_up :
      (r : PlReq) (now : ℕ)
      → chk_w_pl_req_wait cfg r now ≡ false
      → taken (write_pl_req_to_handle cfg r now).0 ≡ true
  unfolding write_pl_req_to_handle timeout_commit_result
  gives_up r now h = ground arith

  -- The request as the timer's handler looks at it.
  abbrev pub looked_at : PlReq → PlReq
  looked_at r = record r { pl_req_stat = to_check; rto_chk_cnt = dec32 r.rto_chk_cnt }

  fire_waiting :
      (r : PlReq) (now : ℕ)
      → r.pl_req_stat ≡ wait_io_done
      → to_handler_gut cfg r now ≡ write_pl_req_to_handle cfg (looked_at r) now
  unfolding to_handler_gut fired update_state
  fire_waiting r now w = rw (w, update_state)

  never :
      (r : PlReq) (now : ℕ) (es : List PlEvent)
      → r.pl_req_stat ≡ wait_io_done
      → chk_w_pl_req_wait cfg (looked_at r) now ≡ false
      → count_if (makes is_end) (actions (step cfg) r (timer_fired now ∷ es)) ≡ 0
  unfolding actions step
  never r now es w h = ground (
    arith,
    (to_handler_gut_ends cfg r now).0,
    actions-taken (to_handler_gut cfg r now).0 es
        (rw (fire_waiting r now w) (gives_up (looked_at r) now h)),
  )

  -- When the timer of a waiting write gives up waiting, the request is never ended nor freed,
  -- whatever answers and timeouts follow.
  pub timed_out_never_ends :
      (r : PlReq) (now : ℕ) (es : List PlEvent)
      → r.pl_req_stat ≡ wait_io_done
      → chk_w_pl_req_wait cfg (looked_at r) now ≡ false
      → (count_if (makes is_end) (actions (step cfg) r (timer_fired now ∷ es)) ≡ 0)
        × (count_if (makes is_free) (actions (step cfg) r (timer_fired now ∷ es)) ≡ 0)
  timed_out_never_ends r now es w h =
      let none = never r now es w h in (none, count_frees cfg r (timer_fired now ∷ es) ∙ none)
