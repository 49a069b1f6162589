-- ===== src/IoManager/Pool.antt =====
-- BlockDeviceDriver2/io_manager/{ioreq_ovlp,discoC_IORequest,discoC_IOReqPool}.c: the requests of a
-- volume, those that run and those that wait for an overlapping one to end. The pool's lock makes
-- each operation one step. A pointer to a request is its id; the feature bits IN_WAITPOOL and
-- IN_REQPOOL are where the request stands, and the wake list of a request is the items that
-- have it as `process_ior`.
use kt.Base.{
  ℕ, ◌+◌, ◌-◌, ◌%◌, ◌^◌, Bool, true, false, not, ◌||◌, Option, none, some, List, [], ◌∷◌, ◌++◌,
  length, ◌==◌, if◌then◌else◌,
}
use kt.IoManager.ReqFsm.{
  State, ovlp_other_io, init_done, ovlp_io_done, add_ovlp_wait_q, submit_io, update_state,
}
use kt.IoManager.Overlap.{UserIoAddr, IorOvlpWait, chk_lb_ovlp}

pub data IoDir : Type 0 where
  kernel_io_read kernel_io_write : IoDir

-- The fields of `io_request_t` that the operations read and write.
pub record IoReq : Type 0 where
  pub io_req_id : ℕ
  pub iodir : IoDir
  pub usr_io_addr : UserIoAddr
  pub io_req_stat : State
  pub cnt_ovlp_wait : ℕ

pub record OvlpItem : Type 0 where
  pub process_ior : ℕ
  pub wait_ior : ℕ
  pub wait_type : IorOvlpWait
  pub ovlp_s : ℕ
  pub ovlp_l : ℕ

-- `volume_IOReqPool_t`, with the overlap items that its requests hold.
pub record Pool : Type 0 where
  pub io_req_pool : List IoReq
  pub io_req_ovlp_pool : List IoReq
  pub items : List OvlpItem

pub data IorOvlpRes : Type 0 where
  no_ovlp ovlp in_q list_broken : IorOvlpRes

-- `chk_io_rw`: true if no check is needed.
unfoldable pub chk_io_rw : IoDir → IoDir → Bool
chk_io_rw kernel_io_write next = false
chk_io_rw kernel_io_read kernel_io_write = false
chk_io_rw kernel_io_read kernel_io_read = true

-- What the loop of `ioReq_chk_ovlp` has found: its result, the items, and whether it was left.
pub record Walk : Type 0 where
  pub ret : IorOvlpRes
  pub found : List OvlpItem
  pub stop : Bool

-- `_chk_ovlp_ReqPool`: `none` is an error number.
unfoldable pub chk_ovlp_req_pool : IorOvlpRes → Option Bool
chk_ovlp_req_pool no_ovlp = some false
chk_ovlp_req_pool ovlp = some true
chk_ovlp_req_pool in_q = none
chk_ovlp_req_pool list_broken = none

-- The items of a walk are entered in the lists of both requests, also when an error follows.
abbrev pub enter : Pool → List OvlpItem → Pool
enter p found = record p { items = p.items ++ found }

-- The end of `ioReq_add_ReqPool`, when no error was met.
unfoldable pub add_checked : Pool → IoReq → Bool → Pool × Bool
add_checked p r true =
    let (s, action) = update_state r.io_req_stat ovlp_other_io in
    let r' = record r { io_req_stat = s } in
    (
      elim action [
        | add_ovlp_wait_q ↦ record p { io_req_ovlp_pool = p.io_req_ovlp_pool ++ (r' ∷ []) }
        | _ ↦ p
      ],
      false,
    )
add_checked p r false =
    let (s, action) = update_state r.io_req_stat init_done in
    let r' = record r { io_req_stat = s } in
    (
      elim action [ submit_io ↦ record p { io_req_pool = p.io_req_pool ++ (r' ∷ []) } | _ ↦ p ],
      true,
    )

-- The rest of `ioReq_add_ReqPool` after both walks; p1 is the pool after the first, p2 after both.
unfoldable pub add_found : Pool → Pool → IoReq → Option Bool → Option Bool → Pool × Bool
add_found p1 p2 r none runs = (p1, false)
add_found p1 p2 r (some waits) none = (p2, false)
add_found p1 p2 r (some waits) (some runs) = add_checked p2 r (waits || runs)

-- Whether the memory for an item of two requests can be had.
module _ (mem_alloc : ℕ → ℕ → Bool) where
  -- The loop's body after the overlap check.
  unfoldable pub gen_item : IoReq → IoReq → Option (IorOvlpWait × ℕ × ℕ) → Walk → Walk
  gen_item cur r none w = w
  gen_item cur r (some (t, s, l)) w =
      if mem_alloc cur.io_req_id r.io_req_id
      then record w {
        ret = ovlp;
        found =
            record {
              process_ior = cur.io_req_id;
              wait_ior = r.io_req_id;
              wait_type = t;
              ovlp_s = s;
              ovlp_l = l;
            }
            ∷ w.found;
      }
      else record w { stop = true }

  -- The loop's body.
  unfoldable pub visit : IoReq → IoReq → Walk → Walk
  visit cur r w =
      if w.stop
      then w
      else if r.io_req_id == cur.io_req_id
      then record w { ret = in_q; stop = true }
      else if chk_io_rw cur.iodir r.iodir
      then w
      else gen_item cur r (chk_lb_ovlp cur.usr_io_addr r.usr_io_addr) w

  -- `ioReq_chk_ovlp`, which walks the list from its end. A list that is well linked is never
  -- found broken.
  unfoldable pub chk_ovlp : List IoReq → IoReq → Walk
  chk_ovlp [] r = record { ret = no_ovlp; found = []; stop = false }
  chk_ovlp (cur ∷ q) r = visit cur r (chk_ovlp q r)

  -- `ioReq_add_ReqPool`: the pool and whether to submit the request. The second walk is not made
  -- after an error of the first, which its result does not show.
  unfoldable pub add_req_pool : Pool → IoReq → Pool × Bool
  add_req_pool p r =
      let w = chk_ovlp p.io_req_ovlp_pool r in
      let v = chk_ovlp p.io_req_pool r in
      let counted = record r {
        cnt_ovlp_wait = (r.cnt_ovlp_wait + length w.found + length v.found) % 2 ^ 32;
      } in
      add_found (enter p w.found) (enter (enter p w.found) v.found) counted
        (chk_ovlp_req_pool w.ret) (chk_ovlp_req_pool v.ret)

-- The body of the loop of `ioReq_get_ovlpReq` on the request that an item names: whether it stays
-- in the wait pool, and the request.
unfoldable pub wake_req : IoReq → Bool × IoReq
wake_req r =
    let cnt = (r.cnt_ovlp_wait + (2 ^ 32 - 1)) % 2 ^ 32 in
    let (s, action) = update_state r.io_req_stat ovlp_io_done in
    if cnt == 0
    then (
      elim action [ submit_io ↦ false | _ ↦ true ],
      record r { cnt_ovlp_wait = cnt; io_req_stat = s },
    )
    else (true, record r { cnt_ovlp_wait = cnt })

-- A request of the wait pool, which the item names if it has that id.
unfoldable pub look_at : ℕ → IoReq → Bool × IoReq
look_at id r = if r.io_req_id == id then wake_req r else (true, r)

-- A request is left in the wait pool, or moved to the buffer.
unfoldable pub put : Bool × IoReq → List IoReq × List IoReq → List IoReq × List IoReq
put (true, r) (stay, woken) = (r ∷ stay, woken)
put (false, r) (stay, woken) = (stay, r ∷ woken)

-- One turn of the loop: the wait pool, and what goes to the buffer.
unfoldable pub wake_one : ℕ → List IoReq → List IoReq × List IoReq
wake_one id [] = ([], [])
wake_one id (r ∷ q) = put (look_at id r) (wake_one id q)

-- `ioReq_get_ovlpReq`: the wait pool and the buffer after all items.
unfoldable pub get_ovlp_req : List OvlpItem → List IoReq → List IoReq → List IoReq × List IoReq
get_ovlp_req [] q buff = (q, buff)
get_ovlp_req (x ∷ xs) q buff =
    let (stay, woken) = wake_one x.wait_ior q in get_ovlp_req xs stay (buff ++ woken)

-- The entries that pass a test.
unfoldable pub keep_if {ℓ} : {A : Type ℓ} → (A → Bool) → List A → List A
keep_if p [] = []
keep_if p (x ∷ xs) = let rest = keep_if p xs in if p x then x ∷ rest else rest

-- `_ioReq_rm_ioReqQueue`, with `mv_ovlp_ior_toIO`: the pool, and the requests that are submitted.
unfoldable pub rm_io_req_queue : Pool → ℕ → Pool × List IoReq
unfolding get_ovlp_req keep_if
rm_io_req_queue p id =
    let wake_list = keep_if (λ x. x.process_ior == id) p.items in
    let (stay, woken) = get_ovlp_req wake_list p.io_req_ovlp_pool [] in
    (
      record {
        io_req_pool = keep_if (λ r. not (r.io_req_id == id)) p.io_req_pool ++ woken;
        io_req_ovlp_pool = stay;
        items = keep_if (λ x. not (x.process_ior == id)) p.items;
      },
      woken,
    )
