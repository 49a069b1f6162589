-- ===== src/Metadata/Settle.antt =====
-- No commit is lost: when all disks have answered, the write has been committed.
use kt.Base.{
  ℕ, ◌+◌, ◌<◌, ◌≡◌, refl, Bool, true, false, ◌||◌, List, [], ◌∷◌, arith, count_if, ◌⊎◌, inl, inr,
  Bool-cases,
}
use kt.Trace.{run, actions, count_exact}
use kt.Metadata.{
  UdataState, write_ok, disk_failure, MdItem, chk_ci_user_criteria, chk_ci_mds_criteria,
  count_write_ack, take_commit, update_dn_udata_stat, init_md_item,
}
use kt.Metadata.Commit.{
  Event, acked, timed_out, read_committed, step, to_user, to_mds, user_done, mds_done,
  count_write_ack_bits, grants_mds, keeps_mds, commit_once,
}

-- How many of the answers come from a disk, good or bad.
abbrev pub is_disk_answer : Event → Bool
is_disk_answer (acked idx write_ok) = true
is_disk_answer (acked idx disk_failure) = true
is_disk_answer _ = false

-- Every replica's disk has answered.
abbrev IsAnswered : MdItem → Type 0
IsAnswered i =
    (i.diskack + i.disk_err_ack ≡ i.num_dn_loc)
    × (i.num_replica ≡ i.num_dn_loc)
    × (i.num_dn_loc < 128)

answered_criteria :
    (i : MdItem) (m : ℕ)
    → IsAnswered i
    → ((chk_ci_user_criteria i m).0 ≡ true) × (chk_ci_mds_criteria i ≡ true)
unfolding chk_ci_user_criteria chk_ci_mds_criteria
answered_criteria i m h = ground arith

take_commit_settles :
    (i : MdItem) (m : ℕ)
    → IsAnswered i
    → ((take_commit i m).0.udata_ci_user ≡ true) × ((take_commit i m).0.udata_ci_mds ≡ true)
unfolding take_commit
take_commit_settles i m h = ground (
  arith,
  answered_criteria i m h,
  answered_criteria (record i { udata_ci_user = i.udata_ci_user || (chk_ci_user_criteria i m).0 }) m
      h,
)

-- The counts of an item with n replicas of which d have answered from their disks.
record Counts (n d : ℕ) (i : MdItem) : Type 0 where
  locs : i.num_dn_loc ≡ n
  replicas : i.num_replica ≡ n
  disks : i.diskack + i.disk_err_ack ≡ d

take_commit-Counts : (n d m : ℕ) (i : MdItem) → Counts n d i → Counts n d (take_commit i m).0
unfolding take_commit
take_commit-Counts n d m i c = ground arith

count_write_ack-Counts :
    (n d idx : ℕ) (i : MdItem) (s : UdataState)
    → d + count_if is_disk_answer (acked idx s ∷ []) < 128
    → Counts n d i
    → Counts n (d + count_if is_disk_answer (acked idx s ∷ [])) (count_write_ack s i)
unfolding count_write_ack
count_write_ack-Counts n d idx i s h c = ground arith

step-Counts :
    (n d m : ℕ) (i : MdItem) (e : Event)
    → d + count_if is_disk_answer (e ∷ []) < 128
    → Counts n d i
    → Counts n (d + count_if is_disk_answer (e ∷ [])) (step m i e).0
unfolding step
step-Counts n d m i (acked idx s) h c = take_commit-Counts n _ m _ (
    count_write_ack-Counts n d idx (update_dn_udata_stat i idx s) s h
      (record { locs = c.locs; replicas = c.replicas; disks = c.disks }))
step-Counts n d m i timed_out h c = ground arith
step-Counts n d m i read_committed h c = ground arith

-- After each step, if every disk has answered then both commits are made.
abbrev Settled : ℕ → ℕ → MdItem → Type 0
Settled n d i = d ≡ n → (i.udata_ci_user ≡ true) × (i.udata_ci_mds ≡ true)

step-Settled :
    (n d m : ℕ) (i : MdItem) (e : Event)
    → n < 128
    → d + count_if is_disk_answer (e ∷ []) < 128
    → Counts n d i
    → Settled n d i
    → Settled n (d + count_if is_disk_answer (e ∷ [])) (step m i e).0
unfolding step
step-Settled n d m i (acked idx s) few h c old all = take_commit_settles _ m (
    ground (
      arith,
      count_write_ack-Counts n d idx (update_dn_udata_stat i idx s) s h
          (record { locs = c.locs; replicas = c.replicas; disks = c.disks }),
    ))
step-Settled n d m i timed_out few h c old all = (refl, refl)
step-Settled n d m i read_committed few h c old all = ground (arith, old)

count-cons :
    (e : Event) (es : List Event)
    → count_if is_disk_answer (e ∷ es)
      ≡ count_if is_disk_answer (e ∷ []) + count_if is_disk_answer es
count-cons e es = ground arith

run_settles :
    (n d m : ℕ) (i : MdItem) (es : List Event)
    → n < 128
    → d + count_if is_disk_answer es ≡ n
    → Counts n d i
    → Settled n d i
    → (user_done (run (step m) i es) ≡ true) × (mds_done (run (step m) i es) ≡ true)
unfolding run
run_settles n d m i [] few e c s = s (omega arith)
run_settles n d m i (x ∷ es) few e c s =
    let h : d + count_if is_disk_answer (x ∷ []) < 128 = omega (arith, count-cons x es) in
    run_settles n (d + count_if is_disk_answer (x ∷ [])) m (step m i x).0 es few
      (omega (arith, count-cons x es)) (step-Counts n d m i x h c)
      (step-Settled n d m i x few h c s)

only_mds :
    (m : ℕ) (i : MdItem) (e : Event)
    → mds_done i ≡ false
    → mds_done (step m i e).0 ≡ true
    → to_mds (step m i e).1 ≡ true
unfolding step take_commit
only_mds m i (acked idx s) h k =
    ground (arith, count_write_ack_bits m (update_dn_udata_stat i idx s) s)
only_mds m i timed_out h k = ground arith
only_mds m i read_committed h k = cc

-- Unless a read marks the write as committed to the user, some caller is told to do so.
abbrev pub is_read_commit : Event → Bool
is_read_commit read_committed = true
is_read_commit _ = false

only_user :
    (m : ℕ) (i : MdItem) (e : Event)
    → user_done i ≡ false
    → user_done (step m i e).0 ≡ true
    → 0 < count_if to_user ((step m i e).1 ∷ []) + count_if is_read_commit (e ∷ [])
unfolding step take_commit
only_user m i (acked idx s) h k =
    ground (arith, count_write_ack_bits m (update_dn_udata_stat i idx s) s)
only_user m i timed_out h k = ground arith
only_user m i read_committed h k = omega arith

told_or_read :
    (m : ℕ) (i : MdItem) (es : List Event)
    → user_done i ≡ false
    → user_done (run (step m) i es) ≡ true
    → 0 < count_if to_user (actions (step m) i es) + count_if is_read_commit es
unfolding run actions
told_or_read m i [] u v = cc
told_or_read m i (e ∷ es) u v = elim (Bool-cases (user_done (step m i e).0)) [
  | inl now ↦ ground (arith, only_user m i e u now)
  | inr later ↦ ground (arith, told_or_read m (step m i e).0 es later v)
]

pub new_settles :
    (n m : ℕ) (locs : List UdataState) (es : List Event)
    → 0 < n
    → n < 128
    → count_if is_disk_answer es ≡ n
    → let i = run (step m) (init_md_item n locs) es in (user_done i ≡ true) × (mds_done i ≡ true)
unfolding init_md_item
new_settles n m locs es pos few all =
    run_settles n 0 m (init_md_item n locs) es few (omega arith)
      (record { locs = refl; replicas = refl; disks = omega arith }) (λ e. absurd (omega arith))

told_once :
    (m : ℕ) (i : MdItem) (es : List Event)
    → user_done i ≡ false
    → user_done (run (step m) i es) ≡ true
    → (count_if to_user (actions (step m) i es) ≡ 1) ⊎ (0 < count_if is_read_commit es)
told_once m i es u v = ground (arith, told_or_read m i es u v, commit_once m i es)

-- No commit is lost: from a new item with n replicas, when the disks of all n have answered, well
-- or badly, whatever memory acknowledgements, connection failures, timeouts and commits of reads
-- came between, the write is marked as committed to the user, exactly one caller was told to commit
-- it to the metadata server, and exactly one was told to commit it to the user unless the commit of a
-- read came in, which sets that mark itself.
pub all_answered_commits :
    (n m : ℕ) (locs : List UdataState) (es : List Event)
    → 0 < n
    → n < 128
    → count_if is_disk_answer es ≡ n
    → (user_done (run (step m) (init_md_item n locs) es) ≡ true)
      × (count_if to_mds (actions (step m) (init_md_item n locs) es) ≡ 1)
      × ((count_if to_user (actions (step m) (init_md_item n locs) es) ≡ 1)
          ⊎ (0 < count_if is_read_commit es))
all_answered_commits n m locs es pos few all =
    let (user, mds) = new_settles n m locs es pos few all in
    (
      user,
      count_exact (step m) to_mds mds_done (grants_mds m) (keeps_mds m) (only_mds m) _ es
          (unfold init_md_item in refl) mds,
      told_once m (init_md_item n locs) es (unfold init_md_item in refl) user,
    )
