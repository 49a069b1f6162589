-- ===== src/Metadata/Examples.antt =====
-- A write to three replicas, of which two acknowledge from disk and one has lost its connection.
use kt.Base.{◌+◌, ◌≤◌, ◌<◌, ◌≡◌, refl, ◌↔◌, ◌⊎◌, true, false, List, [], ◌∷◌, arith, count_if}
use kt.Trace.{run, actions}
use kt.Metadata.{
  UdataState, init, write_ok, write_mem_ok, disk_failure, md_err, read_na, write_fail, MdItem,
  init_md_item, chk_ci_user_criteria, count_write_ack, take_commit, write_ack_commit_result,
  timeout_commit_result,
}
use kt.Metadata.Criteria.{
  IsCounted, IsComplete, write_ack_ci_user_iff, write_ack_ci_mds_iff, early_commit_reports_failure,
}
use kt.Metadata.Commit.{Event, acked, timed_out, step, to_user, to_mds, user_done, commit_once}
use kt.Metadata.Settle.{is_read_commit, all_answered_commits}
use kt.Metadata.Read.{
  check_ci_user_status, is_read_ok, is_md_err, is_disk_failure, check_ci_user_status-keep_wait,
}

abbrev three : List UdataState
three = init ∷ init ∷ init ∷ []

abbrev partial : MdItem
partial = record {
  num_dn_loc = 3;
  udata_dn_loc = write_ok ∷ write_ok ∷ write_fail ∷ [];
  memack = 1;
  diskack = 2;
  disk_err_ack = 0;
  wfail_conn_err = 1;
  num_replica = 3;
  udata_ci_user = false;
  udata_ci_mds = false;
}

partial-IsCounted : IsCounted partial
partial-IsCounted = omega arith

-- The same write before the second disk has acknowledged it.
abbrev before : MdItem
before = record partial { diskack = 1 }

before-IsCounted : IsCounted (count_write_ack write_ok before)
unfolding count_write_ack
before-IsCounted = omega arith

write_ack_ci_user_iff_example : (to_user (write_ack_commit_result before write_ok 2).1 ≡ true) ↔ (
    (before.udata_ci_user ≡ false)
    × ((2 ≤ (count_write_ack write_ok before).diskack)
        ⊎ ((count_write_ack write_ok before).diskack
              + (count_write_ack write_ok before).disk_err_ack
            ≡ (count_write_ack write_ok before).num_replica)
        ⊎ ((before.udata_ci_mds ≡ false) × IsComplete (count_write_ack write_ok before))))
write_ack_ci_user_iff_example =
    write_ack_ci_user_iff before write_ok 2 before-IsCounted (omega arith)

partial_commits : (chk_ci_user_criteria partial 2).0 ≡ true
unfolding chk_ci_user_criteria
partial_commits = refl

write_ack_ci_mds_iff_example :
    (to_mds (write_ack_commit_result before write_ok 2).1 ≡ true)
    ↔ ((before.udata_ci_mds ≡ false) × IsComplete (count_write_ack write_ok before))
write_ack_ci_mds_iff_example = write_ack_ci_mds_iff before write_ok 2 before-IsCounted

abbrev history : List Event
history =
    acked 0 write_mem_ok
    ∷ acked 0 write_ok
    ∷ timed_out
    ∷ acked 1 disk_failure
    ∷ acked 2 write_ok
    ∷ []

commit_once_example :
    (count_if to_user (actions (step 2) (init_md_item 3 three) history) ≤ 1)
    × (count_if to_mds (actions (step 2) (init_md_item 3 three) history) ≤ 1)
commit_once_example = commit_once 2 (init_md_item 3 three) history

all_answered_commits_example :
    (user_done (run (step 2) (init_md_item 3 three) history) ≡ true)
    × (count_if to_mds (actions (step 2) (init_md_item 3 three) history) ≡ 1)
    × ((count_if to_user (actions (step 2) (init_md_item 3 three) history) ≡ 1)
        ⊎ (0 < count_if is_read_commit history))
all_answered_commits_example =
    all_answered_commits 3 2 three history (omega arith) (omega arith) refl

early_commit_reports_failure_example :
    ((take_commit partial 3).1 ≡ record { ci_mds = true; ci_user = true; ci_user_ret = false })
    × ((timeout_commit_result partial).1
        ≡ record { ci_mds = true; ci_user = true; ci_user_ret = true })
early_commit_reports_failure_example =
    early_commit_reports_failure partial 3 partial-IsCounted (omega arith) (omega arith)
      (omega arith) refl refl refl

abbrev reading : MdItem
reading = record partial { udata_dn_loc = md_err ∷ disk_failure ∷ read_na ∷ [] }

check_ci_user_status-keep_wait_example : (check_ci_user_status reading).0 ≡ false ↔ (
    (0 < count_if is_read_ok reading.udata_dn_loc)
    ⊎ (count_if is_md_err reading.udata_dn_loc + count_if is_disk_failure reading.udata_dn_loc ≡ 3))
check_ci_user_status-keep_wait_example = check_ci_user_status-keep_wait reading (omega arith)
