-- ===== src/Payload/Once.antt =====
-- A write payload request is ended and freed at most once, and is ended when all disks answer.
use kt.Base.{
  ℕ, ◌≤◌, ◌≡◌, refl, Bool, true, false, ◌||◌, List, [], ◌∷◌, ◌++◌, map, ap₂, ◌∙◌, sym, arith,
  count_if,
}
use kt.Trace.{actions, count_once}
use kt.Metadata.{UdataState}
use kt.Payload.ReqFsm.{
  State, Action, do_to_fire_chk, to_fire_chk, update_state, update_state_code, action_code,
}
use kt.Payload.Request.{
  PlReq, Config, Effect, PlEvent, answered, timer_fired, end_write, counted, write_dn_endfn,
  to_handler_gut, fired, write_pl_req_to_handle, end_write_to, step, makes, is_end, is_free,
}

abbrev pub is_ci_caller : State → Bool
is_ci_caller State.ci_caller = true
is_ci_caller _ = false

abbrev pub ended : PlReq → Bool
ended r = is_ci_caller r.pl_req_stat

makes-append :
    (p : Effect → Bool) (xs ys : List Effect) → makes p (xs ++ ys) ≡ (makes p xs || makes p ys)
makes-append p [] ys = refl
makes-append p (x ∷ xs) ys = ground (arith, makes-append p xs ys)

-- What ends a request also frees it.
end_write_ends :
    (r : PlReq) (b : Bool)
    → let (r', es) = end_write r b in
      (makes is_end es ≡ true → ended r' ≡ true)
      × (makes is_free es ≡ makes is_end es)
      × (ended r ≡ true → (ended r' ≡ true) × (makes is_end es ≡ false))
unfolding end_write update_state
end_write_ends r b = ground arith

module _ (cfg : Config) where
  pub counted_stat :
      (r : PlReq) (s : UdataState) (idx now : ℕ)
      → (counted cfg r s idx now).0.pl_req_stat ≡ r.pl_req_stat
  unfolding counted
  counted_stat r s idx now = refl

  write_dn_endfn_ends :
      (r : PlReq) (s : UdataState) (idx now : ℕ)
      → let (r', es) = write_dn_endfn cfg r s idx now in
        (makes is_end es ≡ true → ended r' ≡ true)
        × (makes is_free es ≡ makes is_end es)
        × (ended r ≡ true → (ended r' ≡ true) × (makes is_end es ≡ false))
  unfolding write_dn_endfn
  write_dn_endfn_ends r s idx now =
      let (r', v) = counted cfg r s idx now in
      ground (arith, end_write_ends r' v.ci_mds, counted_stat r s idx now)

  -- The timer's handler never ends a request.
  write_pl_req_to_handle_ends :
      (r : PlReq) (now : ℕ)
      → let (r', es) = write_pl_req_to_handle cfg r now in
        (makes is_end es ≡ false) × (makes is_free es ≡ false) × (ended r ≡ true → ended r' ≡ true)
  unfolding write_pl_req_to_handle end_write_to update_state_code action_code
  write_pl_req_to_handle_ends r now = ground arith

  fired_ends :
      (a : Action) (r : PlReq) (now : ℕ)
      → let (r', es) = fired cfg a r now in
        (makes is_end es ≡ false) × (makes is_free es ≡ false) × (ended r ≡ true → ended r' ≡ true)
  unfolding fired
  fired_ends do_to_fire_chk r now = write_pl_req_to_handle_ends r now
  fired_ends _ r now = (refl, refl, λ h. h)

  waiting_ended :
      (s : State) → is_ci_caller s ≡ true → is_ci_caller (update_state s to_fire_chk).0 ≡ true
  unfolding update_state
  waiting_ended s h = ground arith

  pub to_handler_gut_ends :
      (r : PlReq) (now : ℕ)
      → let (r', es) = to_handler_gut cfg r now in
        (makes is_end es ≡ false) × (makes is_free es ≡ false) × (ended r ≡ true → ended r' ≡ true)
  unfolding to_handler_gut
  to_handler_gut_ends r now =
      let (e, f, g) = fired_ends _ _ now in (e, f, λ h. g (waiting_ended r.pl_req_stat h))

  pub grants :
      (r : PlReq) (e : PlEvent)
      → makes is_end (step cfg r e).1 ≡ true
      → ended (step cfg r e).0 ≡ true
  unfolding step
  grants r (answered s idx now) h = (write_dn_endfn_ends r s idx now).0 h
  grants r (timer_fired now) h = ground (arith, to_handler_gut_ends r now)

  pub stays :
      (r : PlReq) (e : PlEvent)
      → ended r ≡ true
      → (ended (step cfg r e).0 ≡ true) × (makes is_end (step cfg r e).1 ≡ false)
  unfolding step
  stays r (answered s idx now) h = (write_dn_endfn_ends r s idx now).2 h
  stays r (timer_fired now) h = let (e, f, g) = to_handler_gut_ends r now in (g h, e)

  frees : (r : PlReq) (e : PlEvent) → makes is_free (step cfg r e).1 ≡ makes is_end (step cfg r e).1
  unfolding step
  frees r (answered s idx now) = (write_dn_endfn_ends r s idx now).1
  frees r (timer_fired now) = let (e, f, g) = to_handler_gut_ends r now in f ∙ sym e

  all_frees :
      (r : PlReq) (es : List PlEvent)
      → map (makes is_free) (actions (step cfg) r es) ≡ map (makes is_end) (actions (step cfg) r es)
  unfolding actions
  all_frees r [] = refl
  all_frees r (e ∷ es) = ap₂ ◌∷◌ (frees r e) (all_frees (step cfg r e).0 es)

  -- As many handlers free the request as end it.
  pub count_frees :
      (r : PlReq) (es : List PlEvent)
      → count_if (makes is_free) (actions (step cfg) r es)
        ≡ count_if (makes is_end) (actions (step cfg) r es)
  unfolding actions
  count_frees r [] = refl
  count_frees r (e ∷ es) = ground (arith, frees r e, count_frees (step cfg r e).0 es)

  -- Whatever the answers and timeouts and their order, a write payload request is ended at most
  -- once, and each handler that ends it also frees it, and no other does.
  pub end_once :
      (r : PlReq) (es : List PlEvent)
      → (count_if (makes is_end) (actions (step cfg) r es) ≤ 1)
        × (map (makes is_free) (actions (step cfg) r es)
            ≡ map (makes is_end) (actions (step cfg) r es))
  end_once r es = (count_once (step cfg) (makes is_end) ended grants stays r es, all_frees r es)
