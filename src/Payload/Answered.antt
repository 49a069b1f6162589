-- ===== src/Payload/Answered.antt =====
-- A write payload request whose datanodes all answer is ended.
use kt.Base.{
  ℕ, ◌<◌, ◌≡◌, refl, ap, ◌∙◌, ◌⊎◌, inl, Bool, true, false, List, [], ◌∷◌, map, arith, count_if,
}
use kt.Trace.{run, actions, count_exact}
use kt.Metadata.{UdataState, init_md_item, update_dn_udata_stat}
use kt.Metadata.Commit.{Event, acked, mds_done, write_ack_keeps_mds, write_ack_takes_mds}
use kt.Metadata.Commit
use kt.Metadata.Settle.{is_disk_answer, new_settles}
use kt.Payload.ReqFsm.{State, wait_io_done, update_state}
use kt.Payload.Request.{
  PlReq, Config, Effect, PlEvent, answered, end_write, counted, write_dn_endfn, step, makes, is_end,
  is_disk_status,
}
use kt.Payload.Once.{ended, counted_stat, grants, stays}

-- A datanode's answer: the status, the location and the time.
abbrev pub Answer : Type 0
Answer = UdataState × ℕ × ℕ

abbrev pub to_event : Answer → PlEvent
to_event (s, idx, now) = answered s idx now

abbrev to_ack : Answer → Event
to_ack (s, idx, now) = acked idx s

abbrev pub is_disk_reply : Answer → Bool
is_disk_reply (s, idx, now) = is_disk_status s

-- The request waits with the right to commit left, or is ended with the right taken.
abbrev InStep : PlReq → Type 0
InStep r =
    ((r.pl_req_stat ≡ wait_io_done) × (mds_done r.mdata_item ≡ false))
    ⊎ ((r.pl_req_stat ≡ State.ci_caller) × (mds_done r.mdata_item ≡ true))

end_write_item : (r : PlReq) (b : Bool) → (end_write r b).0.mdata_item ≡ r.mdata_item
unfolding end_write
end_write_item r true = refl
end_write_item r false = refl

end_write_only :
    (r : PlReq) (b : Bool)
    → ended r ≡ false
    → let (r', es) = end_write r b in ended r' ≡ true → makes is_end es ≡ true
unfolding end_write update_state
end_write_only r b h = ground arith

end_write-InStep :
    (r : PlReq) (b : Bool)
    → ((r.pl_req_stat ≡ wait_io_done) × (mds_done r.mdata_item ≡ b))
      ⊎ ((r.pl_req_stat ≡ State.ci_caller) × (mds_done r.mdata_item ≡ true))
    → InStep (end_write r b).0
unfolding end_write update_state
end_write-InStep r b h = ground arith

count-to_ack :
    (xs : List Answer) → count_if is_disk_answer (map to_ack xs) ≡ count_if is_disk_reply xs
count-to_ack [] = refl
count-to_ack ((s, idx, now) ∷ xs) = ground (arith, count-to_ack xs)

module _ (cfg : Config) where
  abbrev answer : PlReq → Answer → PlReq × List Effect
  answer r a = step cfg r (to_event a)

  answer_item :
      (r : PlReq) (a : Answer)
      → (answer r a).0.mdata_item
        ≡ (Commit.step cfg.commit_user_min_disk_ack r.mdata_item (to_ack a)).0
  unfolding step write_dn_endfn counted Commit.step
  answer_item r a = end_write_item _ _

  answer-InStep : (r : PlReq) (a : Answer) → InStep r → InStep (answer r a).0
  unfolding step write_dn_endfn counted update_dn_udata_stat
  answer-InStep r a h = end_write-InStep _ _ (
      ground (
        arith,
        write_ack_keeps_mds cfg.commit_user_min_disk_ack (update_dn_udata_stat r.mdata_item a.1 a.0)
            a.0,
        write_ack_takes_mds cfg.commit_user_min_disk_ack (update_dn_udata_stat r.mdata_item a.1 a.0)
            a.0,
      ))

  run_item :
      (r : PlReq) (xs : List Answer)
      → (run answer r xs).mdata_item
        ≡ run (Commit.step cfg.commit_user_min_disk_ack) r.mdata_item (map to_ack xs)
  unfolding run
  run_item r [] = refl
  run_item r (a ∷ xs) =
      run_item (answer r a).0 xs
      ∙ ap (λ i. run (Commit.step cfg.commit_user_min_disk_ack) i (map to_ack xs)) (answer_item r a)

  run-InStep : (r : PlReq) (xs : List Answer) → InStep r → InStep (run answer r xs)
  unfolding run
  run-InStep r [] h = h
  run-InStep r (a ∷ xs) h = run-InStep (answer r a).0 xs (answer-InStep r a h)

  -- Only what ends the request brings it into its last state.
  answer_only :
      (r : PlReq) (a : Answer)
      → ended r ≡ false
      → ended (answer r a).0 ≡ true
      → makes is_end (answer r a).1 ≡ true
  unfolding step write_dn_endfn
  answer_only r a h k =
      let (r', v) = counted cfg r a.0 a.1 a.2 in
      ground (arith, end_write_only r' v.ci_mds, counted_stat cfg r a.0 a.1 a.2)

  actions-answer :
      (r : PlReq) (xs : List Answer) → actions (step cfg) r (map to_event xs) ≡ actions answer r xs
  unfolding actions
  actions-answer r [] = refl
  actions-answer r (a ∷ xs) = ap (◌∷◌ (answer r a).1) (actions-answer (answer r a).0 xs)

  all_answered_ended :
      (r : PlReq) (n : ℕ) (locs : List UdataState) (xs : List Answer)
      → r.pl_req_stat ≡ wait_io_done
      → r.mdata_item ≡ init_md_item n locs
      → 0 < n
      → n < 128
      → count_if is_disk_reply xs ≡ n
      → ended (run answer r xs) ≡ true
  all_answered_ended r n locs xs w new pos few all = ground (
    arith,
    run-InStep r xs (inl (w, rw new (unfold init_md_item in refl))),
    run_item r xs,
    ap (λ i. mds_done (run (Commit.step cfg.commit_user_min_disk_ack) i (map to_ack xs))) new,
    new_settles n cfg.commit_user_min_disk_ack locs (map to_ack xs) pos few (count-to_ack xs ∙ all),
  )

  -- A new request over n replicas, all of whose disks answer, well or badly, is ended exactly
  -- once, whatever memory acknowledgements and connection failures come between.
  pub all_answered_ends :
      (r : PlReq) (n : ℕ) (locs : List UdataState) (xs : List Answer)
      → r.pl_req_stat ≡ wait_io_done
      → r.mdata_item ≡ init_md_item n locs
      → 0 < n
      → n < 128
      → count_if is_disk_reply xs ≡ n
      → count_if (makes is_end) (actions (step cfg) r (map to_event xs)) ≡ 1
  all_answered_ends r n locs xs w new pos few all = rw (actions-answer r xs) (
      count_exact answer (makes is_end) ended (λ r a. grants cfg r (to_event a))
        (λ r a. stays cfg r (to_event a)) answer_only r xs (ground arith)
        (all_answered_ended r n locs xs w new pos few all))
