-- ===== src/Metadata/Commit.antt =====
-- At most one caller is told to commit a write to the user and to the metadata server.
use kt.Base.{ℕ, ◌≤◌, ◌<◌, ◌≡◌, refl, ◌∙◌, Bool, true, false, List, arith, count_if}
use kt.Trace.{actions, count_once}
use kt.Metadata.{
  UdataState, MdItem, Verdict, chk_ci_user_criteria, count_write_ack, take_commit,
  write_ack_commit_result, timeout_commit_result, set_ci_user, update_dn_udata_stat,
}

-- What happens to an item between `MData_init_MDItem` and its end: an answer of the datanode at a
-- location to the write (`PLReq_writeDN_endfn`, lines 593 to 598), the timer of its payload request,
-- a commit of a read.
pub data Event : Type 0 where
  acked : ℕ → UdataState → Event
  timed_out : Event
  read_committed : Event

module _ (min_disk_ack : ℕ) where
  unfoldable pub step : MdItem → Event → MdItem × Verdict
  unfolding write_ack_commit_result timeout_commit_result set_ci_user update_dn_udata_stat
  step i (acked idx s) = write_ack_commit_result (update_dn_udata_stat i idx s) s min_disk_ack
  step i timed_out = timeout_commit_result i
  step i read_committed =
      (set_ci_user i, record { ci_mds = false; ci_user = false; ci_user_ret = false })

abbrev pub to_user : Verdict → Bool
to_user v = v.ci_user

abbrev pub to_mds : Verdict → Bool
to_mds v = v.ci_mds

abbrev pub user_done : MdItem → Bool
user_done i = i.udata_ci_user

abbrev pub mds_done : MdItem → Bool
mds_done i = i.udata_ci_mds

module _ (m : ℕ) where
  pub count_write_ack_bits :
      (i : MdItem) (s : UdataState)
      → ((count_write_ack s i).udata_ci_user ≡ i.udata_ci_user)
        × ((count_write_ack s i).udata_ci_mds ≡ i.udata_ci_mds)
  unfolding count_write_ack
  count_write_ack_bits i s = ground arith

  take_commit_user :
      (i : MdItem)
      → ((take_commit i m).1.ci_user ≡ true → (take_commit i m).0.udata_ci_user ≡ true)
        × (i.udata_ci_user ≡ true
            → ((take_commit i m).0.udata_ci_user ≡ true) × ((take_commit i m).1.ci_user ≡ false))
  unfolding take_commit
  take_commit_user i = ground arith

  take_commit_mds :
      (i : MdItem)
      → ((take_commit i m).1.ci_mds ≡ true → (take_commit i m).0.udata_ci_mds ≡ true)
        × (i.udata_ci_mds ≡ true
            → ((take_commit i m).0.udata_ci_mds ≡ true) × ((take_commit i m).1.ci_mds ≡ false))
  unfolding take_commit
  take_commit_mds i = ground arith

  grants_user :
      (i : MdItem) (e : Event) → to_user (step m i e).1 ≡ true → user_done (step m i e).0 ≡ true
  unfolding step
  grants_user i (acked idx s) h =
      (take_commit_user (count_write_ack s (update_dn_udata_stat i idx s))).0 h
  grants_user i timed_out h = refl
  grants_user i read_committed h = refl

  keeps_user :
      (i : MdItem) (e : Event)
      → user_done i ≡ true
      → (user_done (step m i e).0 ≡ true) × (to_user (step m i e).1 ≡ false)
  unfolding step
  keeps_user i (acked idx s) h =
      (take_commit_user (count_write_ack s (update_dn_udata_stat i idx s))).1
        ((count_write_ack_bits (update_dn_udata_stat i idx s) s).0 ∙ h)
  keeps_user i timed_out h = ground arith
  keeps_user i read_committed h = (refl, refl)

  pub grants_mds :
      (i : MdItem) (e : Event) → to_mds (step m i e).1 ≡ true → mds_done (step m i e).0 ≡ true
  unfolding step
  grants_mds i (acked idx s) h =
      (take_commit_mds (count_write_ack s (update_dn_udata_stat i idx s))).0 h
  grants_mds i timed_out h = refl
  grants_mds i read_committed h = cc

  pub keeps_mds :
      (i : MdItem) (e : Event)
      → mds_done i ≡ true
      → (mds_done (step m i e).0 ≡ true) × (to_mds (step m i e).1 ≡ false)
  unfolding step
  keeps_mds i (acked idx s) h =
      (take_commit_mds (count_write_ack s (update_dn_udata_stat i idx s))).1
        ((count_write_ack_bits (update_dn_udata_stat i idx s) s).1 ∙ h)
  keeps_mds i timed_out h = ground arith
  keeps_mds i read_committed h = (h, refl)

  -- Once the metadata server has been committed to, no answer is told to do so.
  pub write_ack_keeps_mds :
      (i : MdItem) (s : UdataState)
      → mds_done i ≡ true
      → let (i', v) = write_ack_commit_result i s m in (mds_done i' ≡ true) × (to_mds v ≡ false)
  unfolding write_ack_commit_result
  write_ack_keeps_mds i s h =
      (take_commit_mds (count_write_ack s i)).1 ((count_write_ack_bits i s).1 ∙ h)

  -- Until then, an answer is told to do so exactly when it takes the right.
  pub write_ack_takes_mds :
      (i : MdItem) (s : UdataState)
      → mds_done i ≡ false
      → let (i', v) = write_ack_commit_result i s m in to_mds v ≡ mds_done i'
  unfolding write_ack_commit_result take_commit
  write_ack_takes_mds i s h = ground (arith, count_write_ack_bits i s)

  -- Whatever the answers and timeouts and their order, one of them at most is told to commit the
  -- write to the user, and one at most to commit it to the metadata server.
  pub commit_once :
      (i : MdItem) (es : List Event)
      → (count_if to_user (actions (step m) i es) ≤ 1)
        × (count_if to_mds (actions (step m) i es) ≤ 1)
  commit_once i es = (
    count_once (step m) to_user user_done grants_user keeps_user i es,
    count_once (step m) to_mds mds_done grants_mds keeps_mds i es,
  )

zero_min_criteria : (i : MdItem) → i.diskack < 128 → chk_ci_user_criteria i 0 ≡ (true, true)
unfolding chk_ci_user_criteria
zero_min_criteria i h = ground arith

count_write_ack_small :
    (i : MdItem) (s : UdataState) → i.diskack < 127 → (count_write_ack s i).diskack < 128
unfolding count_write_ack
count_write_ack_small i s h = ground arith

-- With CommitUser_min_DiskAck 0 the first answer, whatever it is, commits the write to the user as
-- a success.
zero_min_commits :
    (i : MdItem) (s : UdataState)
    → i.diskack < 127
    → i.udata_ci_user ≡ false
    → let v = (write_ack_commit_result i s 0).1 in (v.ci_user ≡ true) × (v.ci_user_ret ≡ true)
unfolding write_ack_commit_result take_commit
zero_min_commits i s small fresh = ground (
  arith,
  zero_min_criteria (count_write_ack s i) (count_write_ack_small i s small),
  count_write_ack_bits 0 i s,
)
