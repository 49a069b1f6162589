-- ===== src/IoManager/Exclusion.antt =====
-- What holds of a volume's pool after any arrivals and ends of requests.
use kt.Base.{
  ℕ, ◌≤◌, ◌<◌, ◌≡◌, ◌≢◌, ◌⊎◌, refl, inl, inr, Bool, true, List, [], ◌∷◌, arith, length, All,
  All-map, ◌^◌,
}
use kt.IoManager.Overlap.{Apart}
use kt.IoManager.Pool.{
  IoDir, kernel_io_read, kernel_io_write, IoReq, OvlpItem, Pool, chk_io_rw, add_req_pool,
  rm_io_req_queue,
}
use kt.IoManager.Walk.{waits, waits_for, Calm}
use kt.IoManager.Wake.{copies}
use kt.IoManager.Safe.{LinkedTo, AllOn, IsSafe, empty_pool, empty-IsSafe, All-zip}
use kt.IoManager.Enter.{IsNew}
use kt.IoManager.Arrive.{add_req_pool-IsSafe}
use kt.IoManager.Finish.{rm_io_req_queue-IsSafe}

-- A pool that has come about by arrivals of new requests, numbered in their order, and ends of
-- running ones.
pub data Reachable (mem_alloc : ℕ → ℕ → Bool) : Pool → Type 0 where
  start : Reachable mem_alloc empty_pool
  arrive :
      (p : Pool) (r : IoReq)
      → Reachable mem_alloc p
      → IsNew p r
      → AllOn (λ n d u. n < r.io_req_id) p
      → length (add_req_pool mem_alloc p r).0.items < 2 ^ 32
      → Reachable mem_alloc (add_req_pool mem_alloc p r).0
  finish :
      (p : Pool) (id : ℕ)
      → Reachable mem_alloc p
      → 0 < copies id p.io_req_pool
      → Reachable mem_alloc (rm_io_req_queue p id).0

pub Reachable-IsSafe :
    (mem_alloc : ℕ → ℕ → Bool) (p : Pool)
    → ((n m : ℕ) → mem_alloc n m ≡ true)
    → Reachable mem_alloc p
    → IsSafe p
Reachable-IsSafe mem_alloc p has_mem start = empty-IsSafe
Reachable-IsSafe mem_alloc p has_mem (arrive q r h new later few) =
    add_req_pool-IsSafe mem_alloc has_mem q r (Reachable-IsSafe mem_alloc q has_mem h) new few
Reachable-IsSafe mem_alloc p has_mem (finish q id h runs) =
    rm_io_req_queue-IsSafe q id (Reachable-IsSafe mem_alloc q has_mem h) runs

waits_for_le : (n m : ℕ) (items : List OvlpItem) → waits_for n m items ≤ waits n items
waits_for_le n m [] = omega arith
waits_for_le n m (x ∷ items) = ground (arith, waits_for_le n m items)

run_apart :
    (items : List OvlpItem) (a b : IoReq)
    → waits a.io_req_id items ≡ 0
    → waits b.io_req_id items ≡ 0
    → LinkedTo items a.io_req_id a.iodir a.usr_io_addr b.io_req_id b.iodir b.usr_io_addr
    → a.io_req_id ≢ b.io_req_id
    → Calm a b
run_apart items a b h k l diff = ground (
  arith,
  l diff,
  waits_for_le b.io_req_id a.io_req_id items,
  waits_for_le a.io_req_id b.io_req_id items,
)

-- Two requests both read, or have no block in common.
abbrev pub MayRunTogether : IoReq → IoReq → Type 0
MayRunTogether a b =
    ((a.iodir ≡ kernel_io_read) × (b.iodir ≡ kernel_io_read)) ⊎ Apart a.usr_io_addr b.usr_io_addr

-- Only two reads are let pass without a look at their blocks.
both_read : (d e : IoDir) → chk_io_rw d e ≡ true → (d ≡ kernel_io_read) × (e ≡ kernel_io_read)
unfolding chk_io_rw
both_read kernel_io_write e h = cc
both_read kernel_io_read kernel_io_write h = cc
both_read kernel_io_read kernel_io_read h = (refl, refl)

Calm-MayRunTogether : (a b : IoReq) → Calm a b → MayRunTogether a b
Calm-MayRunTogether a b (inl reads) = inl (both_read a.iodir b.iodir reads)
Calm-MayRunTogether a b (inr apart) = inr apart

-- Whatever requests arrive and end, as long as memory can be had: any two running requests of a
-- volume both read, or have no block in common.
pub exclusion :
    (mem_alloc : ℕ → ℕ → Bool) (p : Pool)
    → ((n m : ℕ) → mem_alloc n m ≡ true)
    → Reachable mem_alloc p
    → All
        (λ a. All (λ b. a.io_req_id ≢ b.io_req_id → MayRunTogether a b) p.io_req_pool)
        p.io_req_pool
exclusion mem_alloc p has_mem h =
    let safe = Reachable-IsSafe mem_alloc p has_mem h in
    All-map
      (λ a (free, l).
        All-map
          (λ b (free', l') diff. Calm-MayRunTogether a b (run_apart p.items a b free free' l' diff))
          _ (All-zip _ _ p.io_req_pool safe.running l.0))
      _ (All-zip _ _ p.io_req_pool safe.running safe.linked.0)
