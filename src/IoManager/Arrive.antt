-- ===== src/IoManager/Arrive.antt =====
-- The arrival of a request keeps the pool's invariant.
use mathlib.Core.Path.{subst}
use kt.Base.{
  ℕ, ◌+◌, ◌<◌, ◌≡◌, ◌≢◌, ◌⊎◌, inl, inr, refl, sym, ap, ◌∙◌, Bool, true, false, ◌&&◌, ◌||◌, some,
  List, [], ◌∷◌, ◌++◌, arith, length, All, All-map, count_if, count_if-append, count_if-length,
  ◌==◌, ◌^◌, ◌%◌,
}
use kt.IoManager.ReqFsm.{init, rw_user_data, ovlp_wait, update_state}
use kt.IoManager.Overlap.{IsRange}
use kt.IoManager.Pool.{
  IoReq, OvlpItem, Pool, Walk, chk_ovlp, chk_ovlp_req_pool, enter, add_checked, add_found,
  add_req_pool,
}
use kt.IoManager.Walk.{waits, IsFound, Served, Served-mono, chk_ovlp_lem}
use kt.IoManager.Safe.{IsSafe, copies-absent, All-zip}
use kt.IoManager.Enter.{IsNew, IsEntered, run-IsSafe, wait-IsSafe}

-- The answer of a walk that was never left: whether it found anything.
ret_lem :
    (r : IoReq) (w : Walk)
    → IsFound r w
    → (b : Bool) × (chk_ovlp_req_pool w.ret ≡ some b)
      × (((b ≡ true) × (0 < length w.found)) ⊎ ((b ≡ false) × (w.found ≡ [])))
unfolding chk_ovlp_req_pool
ret_lem r w f = elim f.kind [
  | inl (nothing, e) ↦ (false, rw e refl, inr (refl, nothing))
  | inr (e, some_item) ↦ (true, rw e refl, inl (refl, some_item))
]

added_wait :
    (p : Pool) (x : IoReq)
    → x.io_req_stat ≡ init
    → (add_checked p x true).0 ≡ record p {
      io_req_ovlp_pool = p.io_req_ovlp_pool ++ (record x { io_req_stat = ovlp_wait } ∷ []);
    }
unfolding add_checked update_state
added_wait p x h = ground (arith, h)

added_run :
    (p : Pool) (x : IoReq)
    → x.io_req_stat ≡ init
    → (add_checked p x false).0
      ≡ record p { io_req_pool = p.io_req_pool ++ (record x { io_req_stat = rw_user_data } ∷ []) }
unfolding add_checked update_state
added_run p x h = ground (arith, h)

pub added_items : (p : Pool) (x : IoReq) (b : Bool) → (add_checked p x b).0.items ≡ p.items
unfolding add_checked update_state
added_items p x b = ground arith

-- Whether either walk has found anything.
either_lem :
    (xs ys : List OvlpItem) (b c : Bool)
    → (((b ≡ true) × (0 < length xs)) ⊎ ((b ≡ false) × (xs ≡ [])))
    → (((c ≡ true) × (0 < length ys)) ⊎ ((c ≡ false) × (ys ≡ [])))
    → (((b || c ≡ true) × (0 < length xs + length ys))
        ⊎ ((b || c ≡ false) × (length xs + length ys ≡ 0)))
either_lem xs ys b c h k = ground (arith, h, k)

module _ (p : Pool) (r : IoReq) (w v : Walk) (safe : IsSafe p) (new : IsNew p r) (fw : IsFound r w)
    (fv : IsFound r v) (sw : Served r w.found p.io_req_ovlp_pool)
    (sv : Served r v.found p.io_req_pool) where
  abbrev all_items : List OvlpItem
  all_items = p.items ++ w.found ++ v.found

  count_all :
      (t : OvlpItem → Bool)
      → count_if t all_items ≡ count_if t p.items + count_if t w.found + count_if t v.found
  count_all t =
      omega
        (arith, count_if-append t (p.items ++ w.found) v.found, count_if-append t p.items w.found)

  all-IsEntered : IsEntered p r all_items
  all-IsEntered = record {
    fixed = λ n d. omega (arith, count_all (λ x. x.wait_ior == n), fw.others n d, fv.others n d);
    grown = λ n m. omega (arith, count_all (λ x. x.wait_ior == n && x.process_ior == m));
    served = (
      Served-mono r v.found all_items _
          (λ m. omega (arith, count_all (λ x. x.wait_ior == r.io_req_id && x.process_ior == m))) sv,
      Served-mono r w.found all_items _
          (λ m. omega (arith, count_all (λ x. x.wait_ior == r.io_req_id && x.process_ior == m))) sw,
    );
  }

  waits_all : waits r.io_req_id all_items ≡ length w.found + length v.found
  waits_all = omega (
    arith,
    count_all (λ x. x.wait_ior == r.io_req_id),
    fw.own,
    fv.own,
    safe.known r.io_req_id new.absent,
  )

  abbrev cnt_all : ℕ
  cnt_all = (r.cnt_ovlp_wait + length w.found + length v.found) % 2 ^ 32

  cnt_all_lem : length all_items < 2 ^ 32 → cnt_all ≡ waits r.io_req_id all_items
  cnt_all_lem few = omega (
    arith,
    few,
    waits_all,
    new.waits_none,
    count_if-length (λ x. x.wait_ior == r.io_req_id) all_items,
  )

  abbrev entered_pool : Pool
  entered_pool = enter (enter p w.found) v.found

  abbrev counted_req : IoReq
  counted_req = record r { cnt_ovlp_wait = cnt_all }

  add_checked-IsSafe :
      (e : Bool)
      → (((e ≡ true) × (0 < length w.found + length v.found))
          ⊎ ((e ≡ false) × (length w.found + length v.found ≡ 0)))
      → length all_items < 2 ^ 32
      → IsSafe (add_checked entered_pool counted_req e).0
  add_checked-IsSafe true h few =
      subst (λ q. IsSafe q) (sym (added_wait entered_pool counted_req new.stat))
        (wait-IsSafe p r all_items safe new all-IsEntered few ovlp_wait cnt_all (cnt_all_lem few)
          (ground (arith, waits_all, h)) refl)
  add_checked-IsSafe false h few =
      subst (λ q. IsSafe q) (sym (added_run entered_pool counted_req new.stat))
        (run-IsSafe p r all_items safe new all-IsEntered few rw_user_data cnt_all
          (ground (arith, waits_all, h)))

module _ (mem_alloc : ℕ → ℕ → Bool) (has_mem : (n m : ℕ) → mem_alloc n m ≡ true) where
  ranges_new :
      (p : Pool) (r : IoReq)
      → IsSafe p
      → IsNew p r
      → All (λ c. IsRange c.usr_io_addr × (r.io_req_id ≢ c.io_req_id)) p.io_req_pool
        × All (λ c. IsRange c.usr_io_addr × (r.io_req_id ≢ c.io_req_id)) p.io_req_ovlp_pool
  ranges_new p r safe new = (
    All-zip _ (λ c. r.io_req_id ≢ c.io_req_id) _ safe.ranges.0
        (All-map (λ c d e. d (sym e)) _ (copies-absent r.io_req_id _ (omega (arith, new.absent)))),
    All-zip _ (λ c. r.io_req_id ≢ c.io_req_id) _ safe.ranges.1
        (All-map (λ c d e. d (sym e)) _ (copies-absent r.io_req_id _ (omega (arith, new.absent)))),
  )

  -- What both walks have found.
  abbrev in_wait_pool : Pool → IoReq → Walk
  in_wait_pool p r = chk_ovlp mem_alloc p.io_req_ovlp_pool r

  abbrev in_run_pool : Pool → IoReq → Walk
  in_run_pool p r = chk_ovlp mem_alloc p.io_req_pool r

  add_req_pool_checked :
      (p : Pool) (r : IoReq) (b c : Bool)
      → chk_ovlp_req_pool (in_wait_pool p r).ret ≡ some b
      → chk_ovlp_req_pool (in_run_pool p r).ret ≡ some c
      → add_req_pool mem_alloc p r
        ≡ add_checked
            (enter (enter p (in_wait_pool p r).found) (in_run_pool p r).found)
            (record r {
              cnt_ovlp_wait =
                  (r.cnt_ovlp_wait
                    + length (in_wait_pool p r).found
                    + length (in_run_pool p r).found)
                  % 2 ^ 32;
            })
            (b || c)
  unfolding add_req_pool add_found
  add_req_pool_checked p r b c h k = cc

  -- When a new request arrives and the memory for its items can be had, the pool stays well formed.
  pub add_req_pool-IsSafe :
      (p : Pool) (r : IoReq)
      → IsSafe p
      → IsNew p r
      → length (add_req_pool mem_alloc p r).0.items < 2 ^ 32
      → IsSafe (add_req_pool mem_alloc p r).0
  add_req_pool-IsSafe p r safe new few =
      let (run_ok, wait_ok) = ranges_new p r safe new in
      let (fw, sw) = chk_ovlp_lem mem_alloc has_mem p.io_req_ovlp_pool r new.range wait_ok in
      let (fv, sv) = chk_ovlp_lem mem_alloc has_mem p.io_req_pool r new.range run_ok in
      let (b, eb, hb) = ret_lem r (in_wait_pool p r) fw in
      let (c, ec, hc) = ret_lem r (in_run_pool p r) fv in
      let e = add_req_pool_checked p r b c eb ec in
      subst (λ x. IsSafe x.0) (sym e)
        (add_checked-IsSafe p r (in_wait_pool p r) (in_run_pool p r) safe new fw fv sw sv (b || c)
          (either_lem (in_wait_pool p r).found (in_run_pool p r).found b c hb hc)
          (subst (λ n. n < 2 ^ 32)
            (ap (λ x. length x.0.items) e ∙ ap length (added_items _ _ (b || c))) few))
