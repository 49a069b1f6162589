-- ===== src/IoManager/Progress.antt =====
-- As long as a request is left in a volume's pool, one of them runs.
use kt.Base.{
  ℕ, zero, suc, ◌+◌, ◌<◌, ◌≡◌, inl, inr, List, [], ◌∷◌, arith, length, All, All-map,
  count_if-length, ◌==◌, Bool-cases, lt_or_le,
}
use kt.IoManager.Pool.{IoReq, OvlpItem, Pool}
use kt.IoManager.Walk.{waits}
use kt.IoManager.Wake.{copies}
use kt.IoManager.Safe.{IsSafe, copies-found}
use kt.IoManager.Order.{IsOrdered}

waits-found :
    (P : OvlpItem → Type 0) (n : ℕ) (items : List OvlpItem)
    → All P items
    → 0 < waits n items
    → (x : OvlpItem) × P x × (x.wait_ior ≡ n)
waits-found P n [] h c = absurd (omega (arith, c))
waits-found P n (x ∷ xs) h c = elim (Bool-cases (x.wait_ior == n)) [
  | inl same ↦ (x, h.0, ground (arith, same))
  | inr other ↦ waits-found P n xs h.1 (ground (arith, other, c))
]

-- Follow what a waiting request waits for: the ids fall, so a running one is met.
some_runs_below :
    (p : Pool)
    → IsSafe p
    → IsOrdered p
    → (k n : ℕ) → n < k
    → 0 < copies n p.io_req_ovlp_pool
    → 0 < length p.io_req_pool
some_runs_below p safe ordered zero n lt c = absurd (omega (arith, lt))
some_runs_below p safe ordered (suc k) n lt c =
    let held =
      copies-found (λ m. 0 < waits m p.items) n _ (All-map (λ r w. w.held) _ safe.waiting) c in
    let (x, (before, pres), same) = waits-found _ n p.items ordered held in
    elim (lt_or_le 0 (copies x.process_ior p.io_req_pool)) [
      | inl runs ↦
          omega (arith, runs, count_if-length (λ r. r.io_req_id == x.process_ior) p.io_req_pool)
      | inr none_runs ↦
          some_runs_below p safe ordered k x.process_ior (omega (arith, before, same, lt))
            (omega (arith, none_runs, pres))
    ]

self_copies : (q : List IoReq) → 0 < length q → (n : ℕ) × (0 < copies n q)
self_copies [] h = absurd (omega (arith, h))
self_copies (r ∷ q) h = (r.io_req_id, ground arith)

-- Where a request is left, one runs.
pub some_runs :
    (p : Pool)
    → IsSafe p
    → IsOrdered p
    → 0 < length p.io_req_pool + length p.io_req_ovlp_pool
    → 0 < length p.io_req_pool
some_runs p safe ordered h = elim (lt_or_le 0 (length p.io_req_ovlp_pool)) [
  | inl waiting ↦
      let (n, c) = self_copies p.io_req_ovlp_pool waiting in
      some_runs_below p safe ordered (suc n) n (omega arith) c
  | inr nothing ↦ omega (arith, h, nothing)
]
