-- ===== src/IoManager/Enter.antt =====
-- What keeps the pool's invariant when a request is entered, to run or to wait.
use kt.Base.{
  ℕ, ◌+◌, ◌≤◌, ◌<◌, ◌≡◌, ◌≢◌, ◌⊎◌, refl, ◌∙◌, true, List, [], ◌∷◌, ◌++◌, arith, length, All,
  All-map, All-append, count_if-append, ◌==◌, ◌^◌,
}
use kt.IoManager.ReqFsm.{State, init, ovlp_wait}
use kt.IoManager.Overlap.{UserIoAddr, IsRange, Apart}
use kt.IoManager.Pool.{IoReq, IoDir, OvlpItem, Pool, chk_io_rw}
use kt.IoManager.Walk.{waits, waits_for, Served}
use kt.IoManager.Wake.{IsWaiting, On, copies}
use kt.IoManager.Safe.{LinkedTo, AllOn, IsSafe, copies-absent, AllOn-map, AllOn-zip, All-zip}

-- A request as `ioReq_init_request` leaves it, which is in neither list.
pub record IsNew (p : Pool) (r : IoReq) : Type 0 where
  pub stat : r.io_req_stat ≡ init
  pub waits_none : r.cnt_ovlp_wait ≡ 0
  pub range : IsRange r.usr_io_addr
  pub absent : copies r.io_req_id p.io_req_pool + copies r.io_req_id p.io_req_ovlp_pool ≡ 0

-- What has been entered for r: it alone waits for more, and for each request that it must not run
-- beside.
pub record IsEntered (p : Pool) (r : IoReq) (items : List OvlpItem) : Type 0 where
  pub fixed : (n : ℕ) → n ≢ r.io_req_id → waits n items ≡ waits n p.items
  pub grown : (n m : ℕ) → waits_for n m p.items ≤ waits_for n m items
  pub served : Served r items p.io_req_pool × Served r items p.io_req_ovlp_pool

calm_sym :
    (d e : IoDir) (u v : UserIoAddr)
    → (chk_io_rw d e ≡ true) ⊎ Apart u v
    → (chk_io_rw e d ≡ true) ⊎ Apart v u
unfolding chk_io_rw
calm_sym d e u v h = ground (arith, h)

linked_sym :
    (items : List OvlpItem) (n m : ℕ) (d e : IoDir) (u v : UserIoAddr)
    → LinkedTo items n d u m e v
    → LinkedTo items m e v n d u
linked_sym items n m d e u v l new = ground (arith, l, calm_sym d e u v)

linked_mono :
    (xs ys : List OvlpItem) (n m : ℕ) (d e : IoDir) (u v : UserIoAddr)
    → ((n m : ℕ) → waits_for n m xs ≤ waits_for n m ys)
    → LinkedTo xs n d u m e v
    → LinkedTo ys n d u m e v
linked_mono xs ys n m d e u v le l new = ground (arith, l new, le n m, le m n)

-- The pool p with r, changed to s, put into one of its lists.
module _ (p : Pool) (r : IoReq) (items : List OvlpItem) (safe : IsSafe p) (new : IsNew p r)
    (entered : IsEntered p r items) (few : length items < 2 ^ 32) (s : State) (cnt : ℕ) where
  abbrev placed : IoReq
  placed = record r { io_req_stat = s; cnt_ovlp_wait = cnt }

  abbrev in_run : Pool
  in_run = record p { io_req_pool = p.io_req_pool ++ (placed ∷ []); items = items }

  abbrev in_wait : Pool
  in_wait = record p { io_req_ovlp_pool = p.io_req_ovlp_pool ++ (placed ∷ []); items = items }

  run_On : (Q : ℕ → IoDir → UserIoAddr → Type 0) → AllOn Q p → On Q r → AllOn Q in_run
  run_On Q (h, k) x = (All-append (On Q) _ _ h (x, tt), k)

  wait_On : (Q : ℕ → IoDir → UserIoAddr → Type 0) → AllOn Q p → On Q r → AllOn Q in_wait
  wait_On Q (h, k) x = (h, All-append (On Q) _ _ k (x, tt))

  -- Each request of p is linked to r.
  to_new : AllOn (λ n d u. LinkedTo items n d u r.io_req_id r.iodir r.usr_io_addr) p
  to_new = (
    All-map (λ c h diff. ground (arith, h)) _ entered.served.0,
    All-map (λ c h diff. ground (arith, h)) _ entered.served.1,
  )

  old_linked : AllOn (λ n d u. AllOn (LinkedTo items n d u) p) p
  old_linked =
      AllOn-map _ _ p
        (λ n d u.
          AllOn-map _ (LinkedTo items n d u) p
            (λ m e v. linked_mono p.items items n m d e u v entered.grown))
        safe.linked

  new_linked : AllOn (LinkedTo items r.io_req_id r.iodir r.usr_io_addr) p
  new_linked =
      AllOn-map _ _ p (λ n d u. linked_sym items n r.io_req_id d r.iodir u r.usr_io_addr) to_new

  -- Any way to put r into the pool that keeps what holds of all, and of r, keeps the links.
  links :
      (p' : Pool)
      → ((Q : ℕ → IoDir → UserIoAddr → Type 0) → AllOn Q p → On Q r → AllOn Q p')
      → AllOn (λ n d u. AllOn (LinkedTo items n d u) p') p'
  links p' put =
      put (λ n d u. AllOn (LinkedTo items n d u) p')
        (AllOn-map _ _ p (λ n d u (l, x). put (LinkedTo items n d u) l x)
          (AllOn-zip _ (λ n d u. LinkedTo items n d u r.io_req_id r.iodir r.usr_io_addr) p
            old_linked to_new))
        (put (LinkedTo items r.io_req_id r.iodir r.usr_io_addr) new_linked
          (λ diff. absurd (diff refl)))

  fixed_at :
      (c : IoReq) → c.io_req_id ≢ r.io_req_id → waits c.io_req_id items ≡ waits c.io_req_id p.items
  fixed_at c diff = entered.fixed c.io_req_id diff

  others_run : All (λ c. waits c.io_req_id items ≡ 0) p.io_req_pool
  others_run =
      All-map (λ c (free, diff). entered.fixed c.io_req_id diff ∙ free) _
        (All-zip _ (λ c. c.io_req_id ≢ r.io_req_id) _ safe.running
          (copies-absent r.io_req_id _ (omega (arith, new.absent))))

  others_wait : All (IsWaiting (λ n. waits n items)) p.io_req_ovlp_pool
  others_wait =
      All-map
        (λ c (w, diff). record {
          counted = omega (arith, w.counted, entered.fixed c.io_req_id diff);
          held = omega (arith, w.held, entered.fixed c.io_req_id diff);
          stat = w.stat;
        })
        _
        (All-zip _ (λ c. c.io_req_id ≢ r.io_req_id) _ safe.waiting
          (copies-absent r.io_req_id _ (omega (arith, new.absent))))

  one_copy :
      (n : ℕ) → copies n p.io_req_pool + copies n p.io_req_ovlp_pool + copies n (placed ∷ []) ≤ 1
  one_copy n = ground (arith, safe.once n, new.absent)

  known_items :
      (n : ℕ)
      → copies n p.io_req_pool + copies n p.io_req_ovlp_pool + copies n (placed ∷ []) ≡ 0
      → waits n items ≡ 0
  known_items n h = ground (arith, h, safe.known n, entered.fixed n)

  pub run-IsSafe : waits r.io_req_id items ≡ 0 → IsSafe in_run
  run-IsSafe free = record {
    few = few;
    once = λ n.
        omega
          (arith, one_copy n, count_if-append (λ c. c.io_req_id == n) p.io_req_pool (placed ∷ []));
    known = λ n h.
        known_items n
          (omega (arith, h, count_if-append (λ c. c.io_req_id == n) p.io_req_pool (placed ∷ [])));
    running = All-append _ _ _ others_run (free, tt);
    waiting = others_wait;
    ranges = run_On (λ n d u. IsRange u) safe.ranges new.range;
    linked = links in_run run_On;
  }

  pub wait-IsSafe :
      cnt ≡ waits r.io_req_id items → 0 < waits r.io_req_id items → s ≡ ovlp_wait → IsSafe in_wait
  wait-IsSafe counted held stat = record {
    few = few;
    once = λ n. omega (
      arith,
      one_copy n,
      count_if-append (λ c. c.io_req_id == n) p.io_req_ovlp_pool (placed ∷ []),
    );
    known = λ n h. known_items n (
        omega (arith, h, count_if-append (λ c. c.io_req_id == n) p.io_req_ovlp_pool (placed ∷ [])));
    running = others_run;
    waiting =
        All-append _ _ _ others_wait (record { counted = counted; held = held; stat = stat }, tt);
    ranges = wait_On (λ n d u. IsRange u) safe.ranges new.range;
    linked = links in_wait wait_On;
  }
