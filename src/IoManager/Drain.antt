-- ===== src/IoManager/Drain.antt =====
-- The waiting requests of a volume are all submitted in the end.
use kt.Base.{
  ℕ, suc, ◌+◌, ◌<◌, ◌≡◌, refl, inl, inr, Bool, true, false, List, [], ◌∷◌, ◌++◌, arith, length,
  length-append, count_if, count_if-append, ◌==◌, Bool-cases,
}
use kt.IoManager.Pool.{
  IoReq, OvlpItem, Pool, look_at, put, wake_one, get_ovlp_req, keep_if, rm_io_req_queue,
}
use kt.IoManager.Wake.{copies, get_ovlp_req-copies}
use kt.IoManager.Safe.{IsSafe}
use kt.IoManager.Finish.{rm_io_req_queue-IsSafe, rest, after_copies, copies-rest}
use kt.IoManager.Exclusion.{Reachable, start, arrive, finish, Reachable-IsSafe}
use kt.IoManager.Order.{IsOrdered, add_req_pool-IsOrdered, rm_io_req_queue-IsOrdered}
use kt.IoManager.Progress.{some_runs}

pub Reachable-IsOrdered :
    (mem_alloc : ℕ → ℕ → Bool) (p : Pool)
    → ((n m : ℕ) → mem_alloc n m ≡ true)
    → Reachable mem_alloc p
    → IsOrdered p
Reachable-IsOrdered mem_alloc p has_mem start = tt
Reachable-IsOrdered mem_alloc p has_mem (arrive q r h new later few) =
    add_req_pool-IsOrdered mem_alloc q r later (Reachable-IsOrdered mem_alloc q has_mem h)
Reachable-IsOrdered mem_alloc p has_mem (finish q id h runs) =
    rm_io_req_queue-IsOrdered q id (Reachable-IsSafe mem_alloc q has_mem h) runs
      (Reachable-IsOrdered mem_alloc q has_mem h)

put-length :
    (x : Bool × IoReq) (q b : List IoReq)
    → let (q', b') = put x (q, b) in length q' + length b' ≡ suc (length q + length b)
unfolding put
put-length (true, r) q b = omega arith
put-length (false, r) q b = omega arith

wake_one-length :
    (id : ℕ) (q : List IoReq)
    → let (stay, woken) = wake_one id q in length stay + length woken ≡ length q
unfolding wake_one
wake_one-length id [] = refl
wake_one-length id (r ∷ q) =
    omega
      (arith, put-length (look_at id r) (wake_one id q).0 (wake_one id q).1, wake_one-length id q)

get_ovlp_req-length :
    (xs : List OvlpItem) (q b : List IoReq)
    → let (stay, woken) = get_ovlp_req xs q b in length stay + length woken ≡ length q + length b
unfolding get_ovlp_req
get_ovlp_req-length [] q b = refl
get_ovlp_req-length (x ∷ xs) q b = omega (
  arith,
  get_ovlp_req-length xs (wake_one x.wait_ior q).0 (b ++ (wake_one x.wait_ior q).1),
  wake_one-length x.wait_ior q,
  length-append b (wake_one x.wait_ior q).1,
)

length-rest : (id : ℕ) (q : List IoReq) → length (rest q id) + copies id q ≡ length q
unfolding keep_if
length-rest id [] = refl
length-rest id (r ∷ q) = ground (arith, length-rest id q)

-- How many requests are in a pool.
abbrev pub total : Pool → ℕ
total p = length p.io_req_pool + length p.io_req_ovlp_pool

rm_io_req_queue-total :
    (p : Pool) (id : ℕ)
    → IsSafe p
    → 0 < copies id p.io_req_pool
    → suc (total (rm_io_req_queue p id).0) ≡ total p
unfolding rm_io_req_queue
rm_io_req_queue-total p id safe runs =
    let xs = keep_if (λ x. x.process_ior == id) p.items in
    omega (
      arith,
      safe.once id,
      runs,
      length-rest id p.io_req_pool,
      length-append (rest p.io_req_pool id) (get_ovlp_req xs p.io_req_ovlp_pool []).1,
      get_ovlp_req-length xs p.io_req_ovlp_pool [],
    )

-- Running requests end one after another, and none arrives: the pool at the start, the ids of the
-- requests that ended, the requests that were submitted, and the pool at the end.
pub data Ends : Pool → List ℕ → List IoReq → Pool → Type 0 where
  none_ends : {p : Pool} → Ends p [] [] p
  one_ends :
      {p q : Pool} {ids : List ℕ} {subs : List IoReq} (id : ℕ)
      → 0 < copies id p.io_req_pool
      → Ends (rm_io_req_queue p id).0 ids subs q
      → Ends p (id ∷ ids) ((rm_io_req_queue p id).1 ++ subs) q

-- How often a request of that id is in the pool, and how often it has ended.
abbrev pub held : ℕ → Pool → ℕ
held n p = copies n p.io_req_pool + copies n p.io_req_ovlp_pool

abbrev pub ended : ℕ → List ℕ → ℕ
ended n ids = count_if (λ id. id == n) ids

-- The request that ends leaves the pool, and every other one stays in it.
rm_io_req_queue-held :
    (p : Pool) (id n : ℕ)
    → IsSafe p
    → 0 < copies id p.io_req_pool
    → held n (rm_io_req_queue p id).0 + ended n (id ∷ []) ≡ held n p
rm_io_req_queue-held p id n safe runs = elim (Bool-cases (id == n)) [
  | inl same ↦ ground (
    arith,
    same,
    runs,
    safe.once id,
    after_copies p id safe runs id,
    copies-rest n id p.io_req_pool,
  )
  | inr other ↦ ground (arith, other, after_copies p id safe runs n, copies-rest n id p.io_req_pool)
]

-- A waiting request is submitted or waits on.
rm_io_req_queue-submitted :
    (p : Pool) (id n : ℕ)
    → let (p', woken) = rm_io_req_queue p id in
      copies n woken + copies n p'.io_req_ovlp_pool ≡ copies n p.io_req_ovlp_pool
unfolding rm_io_req_queue
rm_io_req_queue-submitted p id n = omega (
  arith,
  get_ovlp_req-copies n (keep_if (λ x. x.process_ior == id) p.items) p.io_req_ovlp_pool [],
)

record IsDrained (p : Pool) (ids : List ℕ) (subs : List IoReq) (q : Pool) : Type 0 where
  count : total q + length ids ≡ total p
  each : (n : ℕ) → held n q + ended n ids ≡ held n p
  submitted : (n : ℕ) → copies n subs + copies n q.io_req_ovlp_pool ≡ copies n p.io_req_ovlp_pool
  safe : IsSafe q
  ordered : IsOrdered q

Ends-keep :
    {p q : Pool} {ids : List ℕ} {subs : List IoReq}
    → IsSafe p
    → IsOrdered p
    → Ends p ids subs q
    → IsDrained p ids subs q
Ends-keep safe ordered none_ends = record {
  count = omega arith;
  each = λ n. omega arith;
  submitted = λ n. omega arith;
  safe = safe;
  ordered = ordered;
}
Ends-keep {p} safe ordered (one_ends {subs = subs} id runs h) =
    let k =
      Ends-keep (rm_io_req_queue-IsSafe p id safe runs)
        (rm_io_req_queue-IsOrdered p id safe runs ordered) h in
    record {
      count = omega (arith, k.count, rm_io_req_queue-total p id safe runs);
      each = λ n. ground (arith, k.each n, rm_io_req_queue-held p id n safe runs);
      submitted = λ n. omega (
        arith,
        k.submitted n,
        rm_io_req_queue-submitted p id n,
        count_if-append (λ r. r.io_req_id == n) (rm_io_req_queue p id).1 subs,
      );
      safe = k.safe;
      ordered = k.ordered;
    }

-- Once no request arrives any more, each end of a running request takes that one out of the volume's
-- pool and leaves every other one in it: what is left of an id and its ends are together what there
-- was of it. A request that waited is submitted or waits still, never both and never twice: the
-- submitted and the waiting ones of an id are together those that waited at the start. And as long as
-- any request is left in the pool, one of them is running, so that after as many ends as there were
-- requests none is left and all that waited have been submitted. This holds as long as memory can be
-- had and the requests are numbered in the order of their arrival.
pub Ends-drain :
    (mem_alloc : ℕ → ℕ → Bool) (p q : Pool) (ids : List ℕ) (subs : List IoReq)
    → ((n m : ℕ) → mem_alloc n m ≡ true)
    → Reachable mem_alloc p
    → Ends p ids subs q
    → (total q + length ids ≡ total p)
      × (0 < total q → 0 < length q.io_req_pool)
      × ((n : ℕ) → held n q + ended n ids ≡ held n p)
      × ((n : ℕ) → copies n subs + copies n q.io_req_ovlp_pool ≡ copies n p.io_req_ovlp_pool)
Ends-drain mem_alloc p q ids subs has_mem h ends =
    let k =
      Ends-keep (Reachable-IsSafe mem_alloc p has_mem h) (Reachable-IsOrdered mem_alloc p has_mem h)
        ends in
    (k.count, some_runs q k.safe k.ordered, k.each, k.submitted)
