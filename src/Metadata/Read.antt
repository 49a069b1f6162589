-- ===== src/Metadata/Read.antt =====
-- BlockDeviceDriver2/metadata_manager/metadata_manager.c: what the answers of the datanodes to a
-- read say about going on waiting (`_DNReadAck_check_wait`, `MData_check_ciUserStatus`).
use kt.Base.{
  ℕ, zero, suc, ◌+◌, ◌≤◌, ◌<◌, ◌≡◌, ◌↔◌, ◌⊎◌, Bool, true, false, ◌||◌, List, [], ◌∷◌, arith, take,
  count_if, ◌==◌, if◌then◌else◌,
}
use kt.Metadata.{UdataState, read_ok, disk_failure, md_err, read_na, MdItem}

-- The three counters of the loop.
pub record ReadCounts : Type 0 where
  pub num_md_err : ℕ
  pub num_disk_err : ℕ
  pub num_dn_na : ℕ

-- `keep_wait` and `*ciUser_ret` when no location has data.
unfoldable pub dn_read_ack_check_wait : ℕ → ReadCounts → Bool × Bool
dn_read_ack_check_wait num_dn_loc c =
    if c.num_md_err == num_dn_loc
    then (false, true)
    else if c.num_disk_err == num_dn_loc
    then (false, false)
    else if c.num_dn_na == num_dn_loc
    then (true, false)
    else if c.num_md_err + c.num_disk_err == num_dn_loc
    then (false, true)
    else if c.num_md_err + c.num_dn_na == num_dn_loc
    then (true, false)
    else if c.num_disk_err + c.num_dn_na == num_dn_loc
    then (true, false)
    else (true, false)

-- The body of the loop for a status other than UData_S_READ_OK.
unfoldable pub count_read : UdataState → ReadCounts → ReadCounts
count_read md_err c = record c { num_md_err = c.num_md_err + 1 }
count_read disk_failure c = record c { num_disk_err = c.num_disk_err + 1 }
count_read read_na c = record c { num_dn_na = c.num_dn_na + 1 }
count_read _ c = c

abbrev pub is_read_ok : UdataState → Bool
is_read_ok read_ok = true
is_read_ok _ = false

-- The loop over the first `num_dnLoc` locations: whether it found data, and the counters.
unfoldable pub scan_dn_locs : ℕ → List UdataState → ReadCounts → Bool × ReadCounts
scan_dn_locs zero us c = (false, c)
scan_dn_locs (suc n) [] c = (false, c)
scan_dn_locs (suc n) (u ∷ us) c =
    let rest = scan_dn_locs n us (count_read u c) in if is_read_ok u then (true, c) else rest

-- `MData_check_ciUserStatus`: `keep_wait` and `*ciUser_ret`.
unfoldable pub check_ci_user_status : MdItem → Bool × Bool
unfolding dn_read_ack_check_wait scan_dn_locs count_read
check_ci_user_status i =
    let (found, c) =
      scan_dn_locs i.num_dn_loc i.udata_dn_loc
        (record { num_md_err = 0; num_disk_err = 0; num_dn_na = 0 }) in
    if found then (false, true) else dn_read_ack_check_wait i.num_dn_loc c

abbrev pub is_md_err : UdataState → Bool
is_md_err md_err = true
is_md_err _ = false

abbrev pub is_disk_failure : UdataState → Bool
is_disk_failure disk_failure = true
is_disk_failure _ = false

abbrev is_read_na : UdataState → Bool
is_read_na read_na = true
is_read_na _ = false

count_read_lem :
    (u : UdataState) (c : ReadCounts)
    → ((count_read u c).num_md_err ≡ c.num_md_err + count_if is_md_err (u ∷ []))
      × ((count_read u c).num_disk_err ≡ c.num_disk_err + count_if is_disk_failure (u ∷ []))
      × ((count_read u c).num_dn_na ≡ c.num_dn_na + count_if is_read_na (u ∷ []))
unfolding count_read
count_read_lem u c = ground arith

-- The loop stops at the first location with data, and otherwise has counted the others.
scan_dn_locs_lem :
    (n : ℕ) (us : List UdataState) (c : ReadCounts)
    → let (found, r) = scan_dn_locs n us c in
      let vs = take n us in
      (((found ≡ true) × (0 < count_if is_read_ok vs))
        ⊎ ((found ≡ false)
            × (count_if is_read_ok vs ≡ 0)
            × (r.num_md_err ≡ c.num_md_err + count_if is_md_err vs)
            × (r.num_disk_err ≡ c.num_disk_err + count_if is_disk_failure vs)
            × (r.num_dn_na ≡ c.num_dn_na + count_if is_read_na vs)
            × (r.num_md_err + r.num_disk_err + r.num_dn_na
                ≤ c.num_md_err + c.num_disk_err + c.num_dn_na + n)))
unfolding scan_dn_locs
scan_dn_locs_lem zero us c = ground arith
scan_dn_locs_lem (suc n) [] c = ground arith
scan_dn_locs_lem (suc n) (u ∷ us) c =
    ground (arith, count_read_lem u c, scan_dn_locs_lem n us (count_read u c))

abbrev is_answer : UdataState → Bool
is_answer u = is_md_err u || is_disk_failure u

-- A caller gives up waiting exactly when some location has data, or all of them have answered with
-- a mismatch of the HBID or a disk failure.
pub check_ci_user_status-keep_wait :
    (i : MdItem)
    → 0 < i.num_dn_loc
    → let vs = take i.num_dn_loc i.udata_dn_loc in
      (check_ci_user_status i).0 ≡ false ↔ (
        (0 < count_if is_read_ok vs)
        ⊎ (count_if is_md_err vs + count_if is_disk_failure vs ≡ i.num_dn_loc))
unfolding check_ci_user_status
check_ci_user_status-keep_wait i pos = ground (
  arith,
  scan_dn_locs_lem i.num_dn_loc i.udata_dn_loc
      (record { num_md_err = 0; num_disk_err = 0; num_dn_na = 0 }),
)

-- And the user is told of success exactly when some location has data, or all of them have
-- answered and some answer is a mismatch of the HBID.
check_ci_user_status-result :
    (i : MdItem)
    → 0 < i.num_dn_loc
    → let vs = take i.num_dn_loc i.udata_dn_loc in
      (check_ci_user_status i).1 ≡ true ↔ (
        (0 < count_if is_read_ok vs)
        ⊎ ((count_if is_md_err vs + count_if is_disk_failure vs ≡ i.num_dn_loc)
            × (0 < count_if is_md_err vs)))
unfolding check_ci_user_status
check_ci_user_status-result i pos = ground (
  arith,
  scan_dn_locs_lem i.num_dn_loc i.udata_dn_loc
      (record { num_md_err = 0; num_disk_err = 0; num_dn_na = 0 }),
)
