-- ===== src/IoManager/Order.antt =====
-- A request waits only for requests that came before it and have not ended.
use mathlib.Core.Path.{subst, sym}
use kt.Base.{
  ℕ, ◌+◌, ◌≤◌, ◌<◌, ◌≡◌, ◌≢◌, ◌⊎◌, inl, inr, refl, Bool, true, false, ◌||◌, Option, none, some,
  List, [], ◌∷◌, ◌++◌, arith, All, All-map, All-append, count_if-append, ◌==◌, if◌then◌else◌,
}
use kt.IoManager.ReqFsm.{ovlp_other_io, init_done, update_state}
use kt.IoManager.Arrive.{added_items}
use kt.IoManager.Overlap.{IorOvlpWait, chk_lb_ovlp}
use kt.IoManager.Pool.{
  IoReq, OvlpItem, Pool, Walk, ovlp, gen_item, visit, chk_ovlp, keep_if, enter, add_checked,
  add_found, add_req_pool, rm_io_req_queue,
}
use kt.IoManager.Walk.{}
use kt.IoManager.Wake.{copies}
use kt.IoManager.Safe.{AllOn, IsSafe, copies-found, All-zip}
use kt.IoManager.Finish.{after_copies, copies-rest, others, All-keep_if}

-- How many requests of that id the pool holds.
abbrev pub present : ℕ → Pool → ℕ
present n p = copies n p.io_req_pool + copies n p.io_req_ovlp_pool

abbrev pub IsOrdered : Pool → Type 0
IsOrdered p = All (λ x. (x.process_ior < x.wait_ior) × (0 < present x.process_ior p)) p.items

-- The items that the walk of r finds in q name r and requests of q.
abbrev Named : IoReq → List IoReq → List OvlpItem → Type 0
Named r q items = All (λ x. (x.wait_ior ≡ r.io_req_id) × (0 < copies x.process_ior q)) items

Named-cons : (r c : IoReq) (q : List IoReq) (xs : List OvlpItem) → Named r q xs → Named r (c ∷ q) xs
Named-cons r c q xs h = All-map (λ x (e, k). (e, ground (arith, k))) xs h

module _ (mem_alloc : ℕ → ℕ → Bool) where
  gen_item-Named :
      (c r : IoReq) (q : List IoReq) (o : Option (IorOvlpWait × ℕ × ℕ)) (w : Walk)
      → Named r (c ∷ q) w.found
      → Named r (c ∷ q) (gen_item mem_alloc c r o w).found
  unfolding gen_item
  gen_item-Named c r q none w h = h
  gen_item-Named c r q (some (t, s, l)) w h =
      elim (mem_alloc c.io_req_id r.io_req_id)
        as (λ b.
          Named r (c ∷ q)
            (if b
              then record w {
                ret = ovlp;
                found =
                    record {
                      process_ior = c.io_req_id;
                      wait_ior = r.io_req_id;
                      wait_type = t;
                      ovlp_s = s;
                      ovlp_l = l;
                    }
                    ∷ w.found;
              }
              else record w { stop = true }).found) [ true ↦ ((refl, ground arith), h) | false ↦ h ]

  visit_found :
      (c r : IoReq) (w : Walk)
      → ((visit mem_alloc c r w).found ≡ w.found)
        ⊎ ((visit mem_alloc c r w).found
            ≡ (gen_item mem_alloc c r (chk_lb_ovlp c.usr_io_addr r.usr_io_addr) w).found)
  unfolding visit
  visit_found c r w = ground arith

  chk_ovlp-Named : (q : List IoReq) (r : IoReq) → Named r q (chk_ovlp mem_alloc q r).found
  unfolding chk_ovlp
  chk_ovlp-Named [] r = tt
  chk_ovlp-Named (c ∷ q) r =
      let h = Named-cons r c q _ (chk_ovlp-Named q r) in
      elim (visit_found c r (chk_ovlp mem_alloc q r)) [
        | inl e ↦ subst (Named r (c ∷ q)) (sym e) h
        | inr e ↦
            subst (Named r (c ∷ q)) (sym e)
              (gen_item-Named c r q (chk_lb_ovlp c.usr_io_addr r.usr_io_addr) _ h)
      ]

added_present :
    (n : ℕ) (p : Pool) (x : IoReq) (b : Bool) → present n p ≤ present n (add_checked p x b).0
unfolding add_checked update_state
added_present n p x true = ground (
  arith,
  count_if-append (λ c. c.io_req_id == n) p.io_req_ovlp_pool
      (record x { io_req_stat = (update_state x.io_req_stat ovlp_other_io).0 } ∷ []),
)
added_present n p x false = ground (
  arith,
  count_if-append (λ c. c.io_req_id == n) p.io_req_pool
      (record x { io_req_stat = (update_state x.io_req_stat init_done).0 } ∷ []),
)

-- What the pool after an arrival may be.
add_found_cases :
    (n : ℕ) (p p1 p2 : Pool) (r : IoReq) (a b : Option Bool)
    → present n p ≤ present n p1
    → present n p ≤ present n p2
    → let p' = (add_found p1 p2 r a b).0 in
      ((p'.items ≡ p1.items) ⊎ (p'.items ≡ p2.items)) × (present n p ≤ present n p')
unfolding add_found
add_found_cases n p p1 p2 r none b h k = (inl refl, h)
add_found_cases n p p1 p2 r (some a) none h k = (inr refl, k)
add_found_cases n p p1 p2 r (some a) (some b) h k =
    (inr (added_items p2 r (a || b)), omega (arith, k, added_present n p2 r (a || b)))

module _ (mem_alloc : ℕ → ℕ → Bool) (p : Pool) (r : IoReq) where
  abbrev found_w : List OvlpItem
  found_w = (chk_ovlp mem_alloc p.io_req_ovlp_pool r).found

  abbrev found_v : List OvlpItem
  found_v = (chk_ovlp mem_alloc p.io_req_pool r).found

  abbrev arrived : Pool
  arrived = (add_req_pool mem_alloc p r).0

  arrived_cases :
      (n : ℕ)
      → ((arrived.items ≡ p.items ++ found_w) ⊎ (arrived.items ≡ p.items ++ found_w ++ found_v))
        × (present n p ≤ present n arrived)
  unfolding add_req_pool
  arrived_cases n =
      add_found_cases n p (enter p found_w) (enter (enter p found_w) found_v) _ _ _ (omega arith)
        (omega arith)

  abbrev OkIn : OvlpItem → Type 0
  OkIn x = (x.process_ior < x.wait_ior) × (0 < present x.process_ior arrived)

  old_ok : IsOrdered p → All OkIn p.items
  old_ok h = All-map (λ x (lt, k). (lt, omega (arith, k, (arrived_cases x.process_ior).1))) _ h

  new_ok :
      (q : List IoReq) (xs : List OvlpItem)
      → All (λ c. c.io_req_id < r.io_req_id) q
      → ((n : ℕ) → copies n q ≤ present n p)
      → Named r q xs
      → All OkIn xs
  new_ok q xs later le h =
      All-map
        (λ x (e, k). (
          omega (arith, e, copies-found (λ n. n < r.io_req_id) x.process_ior q later k),
          omega (arith, k, le x.process_ior, (arrived_cases x.process_ior).1),
        ))
        xs h

  pub add_req_pool-IsOrdered : AllOn (λ n d u. n < r.io_req_id) p → IsOrdered p → IsOrdered arrived
  add_req_pool-IsOrdered later h =
      let old = old_ok h in
      let w =
        new_ok p.io_req_ovlp_pool found_w later.1 (λ n. omega arith)
          (chk_ovlp-Named mem_alloc p.io_req_ovlp_pool r) in
      let v =
        new_ok p.io_req_pool found_v later.0 (λ n. omega arith)
          (chk_ovlp-Named mem_alloc p.io_req_pool r) in
      elim ((arrived_cases 0).0) [
        | inl e ↦ subst (All OkIn) (sym e) (All-append OkIn _ _ old w)
        | inr e ↦ subst (All OkIn) (sym e) (All-append OkIn _ _ (All-append OkIn _ _ old w) v)
      ]

others_kept : (items : List OvlpItem) (id : ℕ) → All (λ x. x.process_ior ≢ id) (others items id)
unfolding keep_if
others_kept [] id = tt
others_kept (x ∷ xs) id = ground (arith, others_kept xs id)

pub rm_io_req_queue-IsOrdered :
    (p : Pool) (id : ℕ)
    → IsSafe p
    → 0 < copies id p.io_req_pool
    → IsOrdered p
    → IsOrdered (rm_io_req_queue p id).0
unfolding rm_io_req_queue
rm_io_req_queue-IsOrdered p id safe runs h =
    All-map
      (λ x ((lt, k), diff). (
        lt,
        omega (
          arith,
          k,
          after_copies p id safe runs x.process_ior,
          (copies-rest x.process_ior id p.io_req_pool).0 diff,
        ),
      ))
      _ (All-zip _ (λ x. x.process_ior ≢ id) _ (All-keep_if _ _ p.items h) (others_kept p.items id))
