-- ===== src/Metadata.antt =====
-- BlockDeviceDriver2/metadata_manager/metadata_manager.{c,h}: what a metadata item counts of the
-- answers of its datanodes, and when a write or a read may be committed. The locks make each
-- function one step. A field of type int8_t is kept as its bit pattern, a number below 256; the
-- two commit bits of `mdata_fea` are Booleans. DISCO_ERC_SUPPORT is off, as in discoC_sys_def.h.
pub mod Criteria
pub mod Commit
pub mod Settle
pub mod Read
pub mod Triple
pub mod Merge
pub mod Heads
pub mod RoundTrip
mod CacheExamples
mod Examples
use kt.Base.{
  ℕ, zero, suc, ◌+◌, ◌%◌, Bool, true, false, not, ◌&&◌, ◌||◌, List, [], ◌∷◌, ltb, leb, ◌==◌,
  if◌then◌else◌,
}

pub data UdataState : Type 0 where
  init read_ok write_ok write_mem_ok disk_failure md_err read_na write_fail operation_err :
      UdataState

pub record MdItem : Type 0 where
  pub num_dn_loc : ℕ
  pub udata_dn_loc : List UdataState  -- `udata_status` of each location
  pub memack : ℕ
  pub diskack : ℕ
  pub disk_err_ack : ℕ
  pub wfail_conn_err : ℕ
  pub num_replica : ℕ
  pub udata_ci_user : Bool
  pub udata_ci_mds : Bool

-- `x++` and `x--` on an int8_t.
abbrev pub inc8 : ℕ → ℕ
inc8 n = (n + 1) % 256

abbrev pub dec8 : ℕ → ℕ
dec8 n = (n + 255) % 256

-- The value of an int8_t plus 128, so that signed comparisons are those of numbers.
abbrev pub biased : ℕ → ℕ
biased n = (n + 128) % 256

-- The item after `MData_init_MDItem`; the locations are filled by `MData_init_DNLoc`.
unfoldable pub init_md_item : ℕ → List UdataState → MdItem
init_md_item num_replica locs = record {
  num_dn_loc = num_replica;
  udata_dn_loc = locs;
  memack = 0;
  diskack = 0;
  disk_err_ack = 0;
  wfail_conn_err = 0;
  num_replica = num_replica;
  udata_ci_user = false;
  udata_ci_mds = false;
}

-- Whether the write may be committed to the user, and `*ciUser_ret`.
unfoldable pub chk_ci_user_criteria : MdItem → ℕ → Bool × Bool
chk_ci_user_criteria i min_disk_ack =
    if min_disk_ack == 0 && (ltb 128 (biased i.diskack) || biased i.memack == i.num_replica + 128)
    then (true, true)
    else if leb (min_disk_ack + 128) (biased i.diskack)
        || leb (i.num_replica + 128) (biased i.diskack)
    then (true, true)
    else if i.num_replica + 128 == biased i.disk_err_ack
    then (true, false)
    else if biased i.diskack + biased i.disk_err_ack == i.num_replica + 256
    then (true, true)
    else (false, false)

-- Whether the write may be committed to the metadata server.
unfoldable pub chk_ci_mds_criteria : MdItem → Bool
chk_ci_mds_criteria i =
    if biased i.diskack == i.num_dn_loc + 128
    then true
    else if leb 129 (biased i.diskack)
        && (biased i.diskack + biased i.wfail_conn_err == i.num_dn_loc + 256
            || biased i.diskack + biased i.disk_err_ack + biased i.wfail_conn_err
              == i.num_dn_loc + 384)
    then true
    else biased i.diskack + biased i.disk_err_ack == i.num_dn_loc + 256

-- The `switch` of `MData_writeAck_commitResult`.
unfoldable pub count_write_ack : UdataState → MdItem → MdItem
count_write_ack write_mem_ok i = record i { memack = inc8 i.memack }
count_write_ack write_ok i = record i { diskack = inc8 i.diskack }
count_write_ack disk_failure i = record i { disk_err_ack = inc8 i.disk_err_ack }
count_write_ack write_fail i = record i { wfail_conn_err = inc8 i.wfail_conn_err }
count_write_ack _ i = i

-- What a caller of a commit check gets: whether to commit to the metadata server, whether to
-- commit to the user, and the result that the user is told.
pub record Verdict : Type 0 where
  pub ci_mds : Bool
  pub ci_user : Bool
  pub ci_user_ret : Bool

-- The tests and `test_and_set_bit`s of `MData_writeAck_commitResult`, after the count.
unfoldable pub take_commit : MdItem → ℕ → MdItem × Verdict
take_commit i min_disk_ack =
    let (user, ret) = chk_ci_user_criteria i min_disk_ack in
    let first_user = user && not i.udata_ci_user in
    let marked = record i { udata_ci_user = i.udata_ci_user || user } in
    if chk_ci_mds_criteria marked && not marked.udata_ci_mds
    then (
      record marked { udata_ci_user = true; udata_ci_mds = true },
      record { ci_mds = true; ci_user = first_user || not marked.udata_ci_user; ci_user_ret = ret },
    )
    else (marked, record { ci_mds = false; ci_user = first_user; ci_user_ret = ret })

-- `MData_writeAck_commitResult`: a datanode's answer to a write.
unfoldable pub write_ack_commit_result : MdItem → UdataState → ℕ → MdItem × Verdict
write_ack_commit_result i udstatus min_disk_ack =
    take_commit (count_write_ack udstatus i) min_disk_ack

-- `MData_timeout_commitResult`: the payload request's timer has fired.
unfoldable pub timeout_commit_result : MdItem → MdItem × Verdict
timeout_commit_result i = (
  record i { udata_ci_user = true; udata_ci_mds = true },
  record {
    ci_mds = not i.udata_ci_mds;
    ci_user = not i.udata_ci_user;
    ci_user_ret = ltb 128 (biased i.diskack);
  },
)

-- `MData_set_ciUser`.
unfoldable pub set_ci_user : MdItem → MdItem
set_ci_user i = record i { udata_ci_user = true }

-- The status at a location, and `MData_update_DNUDataStat` there. An index past the array, which
-- the callers exclude, reads `init` and writes nothing.
unfoldable pub udata_status : List UdataState → ℕ → UdataState
udata_status [] n = init
udata_status (u ∷ us) zero = u
udata_status (u ∷ us) (suc n) = udata_status us n

unfoldable pub set_udata_status : List UdataState → ℕ → UdataState → List UdataState
set_udata_status [] n v = []
set_udata_status (u ∷ us) zero v = v ∷ us
set_udata_status (u ∷ us) (suc n) v = u ∷ set_udata_status us n v

unfoldable pub update_dn_udata_stat : MdItem → ℕ → UdataState → MdItem
update_dn_udata_stat i idx v = record i { udata_dn_loc = set_udata_status i.udata_dn_loc idx v }

-- `MData_wRetry_reset_DNLoc`: the connection is back and the write is sent again.
unfoldable pub reset_counted : UdataState → ℕ → MdItem → MdItem
unfolding update_dn_udata_stat
reset_counted write_mem_ok idx i =
    update_dn_udata_stat (record i { memack = dec8 i.memack }) idx init
reset_counted write_fail idx i =
    update_dn_udata_stat (record i { wfail_conn_err = dec8 i.wfail_conn_err }) idx init
reset_counted _ idx i = i

unfoldable pub w_retry_reset_dn_loc : MdItem → ℕ → MdItem
unfolding reset_counted
w_retry_reset_dn_loc i idx = reset_counted (udata_status i.udata_dn_loc idx) idx i
