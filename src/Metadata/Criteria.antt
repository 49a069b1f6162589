-- ===== src/Metadata/Criteria.antt =====
-- When a write may be committed: the criteria in closed form.
use kt.Base.{ℕ, ◌+◌, ◌≤◌, ◌<◌, ◌≡◌, ◌↔◌, ◌⊎◌, true, false, not, ◌&&◌, ◌||◌, arith}
use kt.Metadata.{
  UdataState, MdItem, chk_ci_user_criteria, chk_ci_mds_criteria, count_write_ack, take_commit,
  write_ack_commit_result, timeout_commit_result,
}
use kt.Metadata.Commit.{to_user, to_mds, count_write_ack_bits}

-- The counters are below 128, so that the bit patterns are the values, and no replica is counted
-- twice among the final answers.
pub record IsCounted (i : MdItem) : Type 0 where
  pub small : i.memack < 128
  pub answered : i.diskack + i.disk_err_ack + i.wfail_conn_err ≤ i.num_dn_loc
  pub few : i.num_dn_loc < 128
  pub same : i.num_replica ≡ i.num_dn_loc

-- With at least one disk acknowledgement asked for, the criterion for the user is met exactly when
-- that many disks have acknowledged the write or every replica has answered from its disk.
chk_ci_user_iff :
    (i : MdItem) (min_disk_ack : ℕ)
    → IsCounted i
    → 0 < min_disk_ack
    → (chk_ci_user_criteria i min_disk_ack).0 ≡ true
      ↔ ((min_disk_ack ≤ i.diskack) ⊎ (i.diskack + i.disk_err_ack ≡ i.num_replica))
unfolding chk_ci_user_criteria
chk_ci_user_iff i m c h = ground arith

-- And the user is then told of success exactly when some disk holds the data.
chk_ci_user_ret_iff :
    (i : MdItem) (min_disk_ack : ℕ)
    → IsCounted i
    → 0 < min_disk_ack
    → 0 < i.num_dn_loc
    → (chk_ci_user_criteria i min_disk_ack).0 ≡ true
    → (chk_ci_user_criteria i min_disk_ack).1 ≡ true ↔ 0 < i.diskack
unfolding chk_ci_user_criteria
chk_ci_user_ret_iff i m c h n d = ground arith

-- The criterion for the metadata server is met exactly when every replica has answered, and either
-- some disk holds the data or no connection failed.
chk_ci_mds_iff :
    (i : MdItem)
    → IsCounted i
    → (chk_ci_mds_criteria i ≡ true) ↔ (
        (i.diskack + i.disk_err_ack + i.wfail_conn_err ≡ i.num_dn_loc)
        × ((0 < i.diskack) ⊎ (i.wfail_conn_err ≡ 0)))
unfolding chk_ci_mds_criteria
chk_ci_mds_iff i c = ground arith

-- The bits and their verdicts in `take_commit`.
take_commit_verdicts :
    (i : MdItem) (min_disk_ack : ℕ)
    → let v = (take_commit i min_disk_ack).1 in
      let user = (chk_ci_user_criteria i min_disk_ack).0 in
      let mds = chk_ci_mds_criteria i in
      (v.ci_user ≡ (not i.udata_ci_user && (user || (mds && not i.udata_ci_mds))))
      × (v.ci_mds ≡ (mds && not i.udata_ci_mds))
unfolding take_commit chk_ci_mds_criteria
take_commit_verdicts i m = ground arith

-- Every replica has given its final answer, and either some disk holds the data or no connection
-- failed.
abbrev pub IsComplete : MdItem → Type 0
IsComplete i =
    (i.diskack + i.disk_err_ack + i.wfail_conn_err ≡ i.num_dn_loc)
    × ((0 < i.diskack) ⊎ (i.wfail_conn_err ≡ 0))

module _ (i : MdItem) (s : UdataState) (min_disk_ack : ℕ)
    (c : IsCounted (count_write_ack s i)) where
  abbrev counted : MdItem
  counted = count_write_ack s i

  -- A datanode's answer to a write, once it is counted, makes its caller commit the write to the
  -- user exactly when it was not yet committed to the user, and either as many disks as are asked
  -- for have acknowledged it, or every replica has answered from its disk, or it was not yet
  -- committed to the metadata server and every replica has answered, by its disk or by the failure
  -- of its connection, and some disk holds the data or no connection failed. This is for at least
  -- one disk acknowledgement asked for and counts, with this answer, as they are when the item has a
  -- location for each replica, fewer than 128, fewer than 128 memory acknowledgements, and no
  -- replica counted twice among the disk acknowledgements, disk errors and connection failures.
  -- Timeouts, which commit whatever the counts are, are not what this states.
  pub write_ack_ci_user_iff :
      0 < min_disk_ack
      → (to_user (write_ack_commit_result i s min_disk_ack).1 ≡ true) ↔ (
          (i.udata_ci_user ≡ false)
          × ((min_disk_ack ≤ counted.diskack)
              ⊎ (counted.diskack + counted.disk_err_ack ≡ counted.num_replica)
              ⊎ ((i.udata_ci_mds ≡ false) × IsComplete counted)))
  unfolding write_ack_commit_result
  write_ack_ci_user_iff pos = ground (
    arith,
    take_commit_verdicts counted min_disk_ack,
    chk_ci_user_iff counted min_disk_ack c pos,
    chk_ci_mds_iff counted c,
    count_write_ack_bits min_disk_ack i s,
  )

  -- A datanode's answer to a write, once it is counted, makes its caller commit the write to the
  -- metadata server exactly when it was not yet committed there, and every replica has answered, by
  -- its disk or by the failure of its connection, and some disk holds the data or no connection
  -- failed. This is for counts, with this answer, as they are when the item has a location for each
  -- replica, fewer than 128, fewer than 128 memory acknowledgements, and no replica counted twice
  -- among the disk acknowledgements, disk errors and connection failures. Timeouts, which commit
  -- whatever the counts are, are not what this states.
  pub write_ack_ci_mds_iff :
      (to_mds (write_ack_commit_result i s min_disk_ack).1 ≡ true)
      ↔ ((i.udata_ci_mds ≡ false) × IsComplete counted)
  unfolding write_ack_commit_result
  write_ack_ci_mds_iff = ground (
    arith,
    take_commit_verdicts counted min_disk_ack,
    chk_ci_mds_iff counted c,
    count_write_ack_bits min_disk_ack i s,
  )

-- Where too few disks have acknowledged a write for the user and a connection failure completes
-- the answers, the write is committed to the metadata server and the user is told that it failed,
-- although a disk holds the data; had the timer fired on the same counts, the user would be told
-- that it succeeded.
pub early_commit_reports_failure :
    (i : MdItem) (min_disk_ack : ℕ)
    → IsCounted i
    → 0 < i.diskack
    → i.diskack < min_disk_ack
    → 0 < i.wfail_conn_err
    → i.diskack + i.disk_err_ack + i.wfail_conn_err ≡ i.num_dn_loc
    → i.udata_ci_user ≡ false
    → i.udata_ci_mds ≡ false
    → ((take_commit i min_disk_ack).1
        ≡ record { ci_mds = true; ci_user = true; ci_user_ret = false })
      × ((timeout_commit_result i).1 ≡ record { ci_mds = true; ci_user = true; ci_user_ret = true })
unfolding take_commit chk_ci_user_criteria chk_ci_mds_criteria timeout_commit_result
early_commit_reports_failure i m c a b w all u d = ground arith
