-- ===== src/IoManager/Finish.antt =====
-- The end of a running request keeps the pool's invariant.
use kt.Base.{
  ℕ, ◌+◌, ◌≤◌, ◌<◌, ◌≡◌, ◌≢◌, inl, inr, refl, ap, Bool, true, false, not, List, [], ◌∷◌, arith,
  length, All, All-map, All-append, count_if-append, count_if-length, ◌==◌, ◌^◌, Bool-cases,
  if◌then◌else◌,
}
use kt.IoManager.Overlap.{UserIoAddr, IsRange}
use kt.IoManager.Pool.{IoReq, IoDir, OvlpItem, Pool, keep_if, get_ovlp_req, rm_io_req_queue}
use kt.IoManager.Walk.{waits, waits_for}
use kt.IoManager.Wake.{
  IsWaiting, IsWoken, On, copies, get_ovlp_req_lem, get_ovlp_req-On, get_ovlp_req-copies,
}
use kt.IoManager.Safe.{LinkedTo, AllOn, IsSafe, copies-found, copies-absent, AllOn-map, AllOn-zip}

pub All-keep_if {ℓ} :
    {A : Type ℓ} (P : A → Type 0) (t : A → Bool) (xs : List A) → All P xs → All P (keep_if t xs)
unfolding keep_if
All-keep_if P t [] h = tt
All-keep_if P t (x ∷ xs) h =
    elim (t x) as (λ b. All P (if b then x ∷ keep_if t xs else keep_if t xs)) [
      | true ↦ (h.0, All-keep_if P t xs h.1)
      | false ↦ All-keep_if P t xs h.1
    ]

-- The items of the ended request, and the others.
abbrev its : Pool → ℕ → List OvlpItem
its p id = keep_if (λ x. x.process_ior == id) p.items

abbrev pub others : List OvlpItem → ℕ → List OvlpItem
others items id = keep_if (λ x. not (x.process_ior == id)) items

abbrev pub rest : List IoReq → ℕ → List IoReq
rest q id = keep_if (λ r. not (r.io_req_id == id)) q

waits_split :
    (n id : ℕ) (items : List OvlpItem)
    → waits n (keep_if (λ x. x.process_ior == id) items) + waits n (others items id) ≡ waits n items
unfolding keep_if
waits_split n id [] = refl
waits_split n id (x ∷ xs) = ground (arith, waits_split n id xs)

waits_for_others :
    (n m id : ℕ) (items : List OvlpItem)
    → m ≢ id
    → waits_for n m (others items id) ≡ waits_for n m items
unfolding keep_if
waits_for_others n m id [] h = refl
waits_for_others n m id (x ∷ xs) h = ground (arith, waits_for_others n m id xs h)

length-others : (id : ℕ) (items : List OvlpItem) → length (others items id) ≤ length items
unfolding keep_if
length-others id [] = omega arith
length-others id (x ∷ xs) = ground (arith, length-others id xs)

pub copies-rest :
    (n id : ℕ) (q : List IoReq)
    → (n ≢ id → copies n (rest q id) ≡ copies n q)
      × (copies id (rest q id) ≡ 0)
      × (copies n (rest q id) ≤ copies n q)
unfolding keep_if
copies-rest n id [] = ground arith
copies-rest n id (r ∷ q) = ground (arith, copies-rest n id q)

module _ (p : Pool) (id : ℕ) (safe : IsSafe p) (runs : 0 < copies id p.io_req_pool) where
  abbrev after : Pool
  after = (rm_io_req_queue p id).0

  -- The pool when the request has left and nothing has been woken yet.
  abbrev left : Pool
  left = record p { io_req_pool = rest p.io_req_pool id }

  woken_On : (Q : ℕ → IoDir → UserIoAddr → Type 0) → AllOn Q left → AllOn Q after
  unfolding rm_io_req_queue
  woken_On Q (h, k) =
      let (stay, woken) = get_ovlp_req-On Q (its p id) p.io_req_ovlp_pool [] k tt in
      (All-append (On Q) _ _ h woken, stay)

  after_On : (Q : ℕ → IoDir → UserIoAddr → Type 0) → AllOn Q p → AllOn Q after
  after_On Q (h, k) = woken_On Q (All-keep_if (On Q) _ _ h, k)

  -- No request left has the id of the one that ended.
  after_other : AllOn (λ n d u. n ≢ id) after
  after_other =
      woken_On (λ n d u. n ≢ id)
        (
          copies-absent id _ (copies-rest 0 id p.io_req_pool).1,
          copies-absent id _ (omega (arith, runs, safe.once id)),
        )

  pub after_copies :
      (n : ℕ)
      → copies n after.io_req_pool + copies n after.io_req_ovlp_pool
        ≡ copies n (rest p.io_req_pool id) + copies n p.io_req_ovlp_pool
  unfolding rm_io_req_queue
  after_copies n = omega (
    arith,
    get_ovlp_req-copies n (its p id) p.io_req_ovlp_pool [],
    count_if-append (λ r. r.io_req_id == n) (rest p.io_req_pool id)
        (get_ovlp_req (its p id) p.io_req_ovlp_pool []).1,
  )

  after_items : after.items ≡ others p.items id
  unfolding rm_io_req_queue
  after_items = refl

  few_waits : (n : ℕ) → waits n p.items < 2 ^ 32
  few_waits n = omega (arith, safe.few, count_if-length (λ x. x.wait_ior == n) p.items)

  split-IsWaiting :
      (r : IoReq)
      → IsWaiting (λ n. waits n p.items) r
      → IsWaiting (λ n. waits n (its p id) + waits n (others p.items id)) r
  split-IsWaiting r w = record {
    counted = omega (arith, w.counted, waits_split r.io_req_id id p.items);
    held = omega (arith, w.held, waits_split r.io_req_id id p.items);
    stat = w.stat;
  }

  woken_lem :
      let (stay, woken) = get_ovlp_req (its p id) p.io_req_ovlp_pool [] in
      All (IsWaiting (λ n. waits n (others p.items id))) stay
      × All (IsWoken (λ n. waits n (others p.items id))) woken
  woken_lem =
      get_ovlp_req_lem (λ n. waits n (others p.items id)) (its p id) p.io_req_ovlp_pool []
        (λ n. omega (arith, few_waits n, waits_split n id p.items))
        (All-map split-IsWaiting _ safe.waiting) tt

  after_running : All (λ r. waits r.io_req_id after.items ≡ 0) after.io_req_pool
  unfolding rm_io_req_queue
  after_running =
      All-append (λ r. waits r.io_req_id after.items ≡ 0) _ _
        (All-map (λ r h. omega (arith, h, waits_split r.io_req_id id p.items)) _
          (All-keep_if _ _ _ safe.running))
        (All-map (λ r w. w.free) _ woken_lem.1)

  after-IsWaiting : All (IsWaiting (λ n. waits n after.items)) after.io_req_ovlp_pool
  unfolding rm_io_req_queue
  after-IsWaiting = woken_lem.0

  after_known :
      (n : ℕ)
      → copies n after.io_req_pool + copies n after.io_req_ovlp_pool ≡ 0
      → waits n after.items ≡ 0
  unfolding rm_io_req_queue
  after_known n h = elim (Bool-cases (n == id)) [
    | inl same ↦ ground (
      arith,
      same,
      waits_split n id p.items,
      copies-found (λ m. waits m p.items ≡ 0) id _ safe.running runs,
    )
    | inr other ↦ ground (
      arith,
      other,
      h,
      after_copies n,
      waits_split n id p.items,
      copies-rest n id p.io_req_pool,
      safe.known n,
    )
  ]

  still_linked :
      (n m : ℕ) (d e : IoDir) (u v : UserIoAddr)
      → n ≢ id
      → m ≢ id
      → LinkedTo p.items n d u m e v
      → LinkedTo after.items n d u m e v
  unfolding rm_io_req_queue
  still_linked n m d e u v h k l new =
      ground (arith, l new, waits_for_others m n id p.items h, waits_for_others n m id p.items k)

  after_linked : AllOn (λ n d u. AllOn (LinkedTo after.items n d u) after) after
  after_linked =
      AllOn-map _ _ after
        (λ n d u (h, l).
          AllOn-map _ (LinkedTo after.items n d u) after
            (λ m e v (k, l'). still_linked n m d e u v h k l')
            (AllOn-zip (λ m e v. m ≢ id) (LinkedTo p.items n d u) after after_other l))
        (AllOn-zip (λ n d u. n ≢ id) (λ n d u. AllOn (LinkedTo p.items n d u) after) after
          after_other
          (AllOn-map _ _ after (λ n d u. after_On (LinkedTo p.items n d u))
            (after_On _ safe.linked)))

  -- When a running request ends, the pool stays well formed.
  pub rm_io_req_queue-IsSafe : IsSafe (rm_io_req_queue p id).0
  rm_io_req_queue-IsSafe = record {
    few = omega (arith, safe.few, length-others id p.items, ap length after_items);
    once = λ n. omega (arith, safe.once n, after_copies n, (copies-rest n id p.io_req_pool).2);
    known = after_known;
    running = after_running;
    waiting = after-IsWaiting;
    ranges = after_On (λ n d u. IsRange u) safe.ranges;
    linked = after_linked;
  }
