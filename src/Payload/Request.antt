-- ===== src/Payload/Request.antt =====
-- BlockDeviceDriver2/payload_manager/payload_request.c and payload_Req_IODone.c: what a payload
-- request that writes does when a datanode answers and when its timer fires. The reference
-- count that a handler takes and drops is left out. Calls into other
-- components are listed as effects in their order; the clock's values are arguments.
use kt.Base.{
  ℕ, ◌+◌, ◌-◌, ◌%◌, ◌^◌, Bool, true, false, not, ◌&&◌, ◌||◌, List, [], ◌∷◌, ◌++◌, ltb, leb,
  if◌then◌else◌,
}
use kt.Metadata.{
  UdataState, write_ok, disk_failure, MdItem, Verdict, write_ack_commit_result,
  timeout_commit_result, update_dn_udata_stat,
}
use kt.Payload.ReqFsm.{
  State, to_fire_chk, to_fire_chk_done, ci_caller, Action, do_ci_caller, do_to_fire_chk,
  update_state, update_state_code, action_code,
}

-- The calls that a handler makes.
pub data Effect : Type 0 where
  cancel_timer clear_timer_on update_fc rm_req_pool rm_dn_udata_req cancel_dn_udata_req
        rm_pl_req_caller_req free_pl_req :
      Effect
  ci_user_caller_req : Bool → Effect
  pl_req_end_req : Bool → Effect

-- The fields that the handlers read and write. `rto_chk_cnt` is the bit pattern of an int32_t.
pub record PlReq : Type 0 where
  pub pl_req_stat : State
  pub mdata_item : MdItem
  pub rto_chk_cnt : ℕ
  pub t_ci_caller : ℕ

-- `dms_client_config`, and the kernel's `jiffies_to_msecs`.
pub record Config : Type 0 where
  pub commit_user_min_disk_ack : ℕ
  pub high_resp_write_io : Bool
  pub time_wait_other_replica : ℕ
  pub jiffies_to_msecs : ℕ → ℕ

abbrev pub is_disk_status : UdataState → Bool
is_disk_status write_ok = true
is_disk_status disk_failure = true
is_disk_status _ = false

abbrev when {ℓ} : {A : Type ℓ} → Bool → List A → List A
when true xs = xs
when false xs = []

-- `x--` on an int32_t, and `x > 0`.
abbrev pub dec32 : ℕ → ℕ
dec32 n = (n + (2 ^ 32 - 1)) % 2 ^ 32

abbrev pos32 : ℕ → Bool
pos32 n = ltb 0 n && ltb n (2 ^ 31)

-- The end of a request whose caller is committed to, in `PLReq_writeDN_endfn`.
abbrev pub write_end : List Effect
write_end =
    cancel_timer
    ∷ rm_req_pool
    ∷ cancel_dn_udata_req
    ∷ rm_pl_req_caller_req
    ∷ pl_req_end_req true
    ∷ free_pl_req
    ∷ []

-- The block under `if (ciMDS)` of `PLReq_writeDN_endfn`, with the free that `do_free` asks for.
unfoldable pub end_write : PlReq → Bool → PlReq × List Effect
end_write r false = (r, [])
end_write r true =
    let (s, action) = update_state r.pl_req_stat ci_caller in
    (record r { pl_req_stat = s }, elim action [ do_ci_caller ↦ write_end | _ ↦ [] ])

module _ (cfg : Config) where
  -- The first part of `PLReq_writeDN_endfn`: the answer is counted.
  unfoldable pub counted : PlReq → UdataState → ℕ → ℕ → PlReq × Verdict
  counted r result dn_loc_idx now =
      let (item, v) =
        write_ack_commit_result (update_dn_udata_stat r.mdata_item dn_loc_idx result) result
          cfg.commit_user_min_disk_ack in
      (record r { mdata_item = item; t_ci_caller = if v.ci_user then now else r.t_ci_caller }, v)

  -- `PLReq_writeDN_endfn`, at time `now`: a datanode's answer to the write.
  unfoldable pub write_dn_endfn : PlReq → UdataState → ℕ → ℕ → PlReq × List Effect
  write_dn_endfn r result dn_loc_idx now =
      let (r', v) = counted r result dn_loc_idx now in
      let (r'', ended) = end_write r' v.ci_mds in
      (
        r'',
        when (is_disk_status result) (rm_dn_udata_req ∷ [])
            ++ (when v.ci_user (ci_user_caller_req v.ci_user_ret ∷ []) ++ ended),
      )

  -- `_wPLReq_chk_wait_otherReplica`; the kernel's `time_after64(a, b)` is `(s64)(b - a) < 0`.
  unfoldable pub w_pl_req_chk_wait_other_replica : PlReq → ℕ → Bool
  w_pl_req_chk_wait_other_replica r now =
      let since = (now + 2 ^ 64 - r.t_ci_caller) % 2 ^ 64 in
      leb (2 ^ 63) since || ltb (cfg.jiffies_to_msecs since) cfg.time_wait_other_replica

  -- `_chk_wPLReq_wait`.
  unfoldable pub chk_w_pl_req_wait : PlReq → ℕ → Bool
  chk_w_pl_req_wait r now =
      if not (pos32 r.rto_chk_cnt)
      then false
      else if not r.mdata_item.udata_ci_user
      then true
      else if cfg.high_resp_write_io
      then w_pl_req_chk_wait_other_replica r now
      else true

  -- The block under `if (ciMDS)` of `_writePLReq_TO_handle`.
  unfoldable pub end_write_to : Bool → Action → List Effect
  end_write_to ci_mds do_ci_caller = when ci_mds (
      update_fc
      ∷ clear_timer_on
      ∷ rm_req_pool
      ∷ cancel_dn_udata_req
      ∷ rm_pl_req_caller_req
      ∷ pl_req_end_req false
      ∷ free_pl_req
      ∷ [])
  end_write_to ci_mds _ = []

  -- `_writePLReq_TO_handle`, with the free of `PLReq_TO_handler_gut`. The state machine is given
  -- `PLREQ_A_DO_CICaller`, an action, for its event.
  unfoldable pub write_pl_req_to_handle : PlReq → ℕ → PlReq × List Effect
  write_pl_req_to_handle r now =
      if chk_w_pl_req_wait r now
      then (record r { pl_req_stat = (update_state r.pl_req_stat to_fire_chk_done).0 }, [])
      else let (item, v) = timeout_commit_result r.mdata_item in
        let t = if v.ci_user then now else r.t_ci_caller in
        let (s, action) = update_state_code r.pl_req_stat (action_code do_ci_caller) in
        (
          record r { pl_req_stat = s; mdata_item = item; t_ci_caller = t },
          when v.ci_user (ci_user_caller_req v.ci_user_ret ∷ []) ++ end_write_to v.ci_mds action,
        )

  -- The rest of `PLReq_TO_handler_gut` by the answer to PLREQ_E_TOFireChk.
  unfoldable pub fired : Action → PlReq → ℕ → PlReq × List Effect
  fired do_to_fire_chk r now = write_pl_req_to_handle r now
  fired _ r now = (r, [])

  -- `PLReq_TO_handler_gut` of a request whose operation is a write.
  unfoldable pub to_handler_gut : PlReq → ℕ → PlReq × List Effect
  to_handler_gut r now =
      let (s, action) = update_state r.pl_req_stat to_fire_chk in
      fired action (record r { pl_req_stat = s; rto_chk_cnt = dec32 r.rto_chk_cnt }) now

-- What a request meets after it has been submitted.
pub data PlEvent : Type 0 where
  answered : UdataState → ℕ → ℕ → PlEvent
  timer_fired : ℕ → PlEvent

unfoldable pub step : Config → PlReq → PlEvent → PlReq × List Effect
step cfg r (answered s idx now) = write_dn_endfn cfg r s idx now
step cfg r (timer_fired now) = to_handler_gut cfg r now

-- Whether some effect of a list passes a test.
abbrev pub makes : (Effect → Bool) → List Effect → Bool
makes p [] = false
makes p (e ∷ es) = p e || makes p es

abbrev pub is_end : Effect → Bool
is_end (pl_req_end_req b) = true
is_end _ = false

abbrev pub is_free : Effect → Bool
is_free free_pl_req = true
is_free _ = false

abbrev pub is_ci_user : Effect → Bool
is_ci_user (ci_user_caller_req b) = true
is_ci_user _ = false
