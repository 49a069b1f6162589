-- ===== src/IoManager/Safe.antt =====
-- The invariant of a volume's pool of requests.
use mathlib.Core.Path.{subst}
use kt.Base.{
  ℕ, ◌+◌, ◌≤◌, ◌<◌, ◌≡◌, ◌≢◌, ◌⊎◌, inl, inr, refl, true, List, [], ◌∷◌, arith, length, All, All-map,
  ◌==◌, ◌^◌, Bool-cases,
}
use kt.IoManager.Overlap.{UserIoAddr, IsRange, Apart}
use kt.IoManager.Pool.{IoReq, IoDir, OvlpItem, Pool, chk_io_rw}
use kt.IoManager.Walk.{waits, waits_for}
use kt.IoManager.Wake.{IsWaiting, On, copies}

-- Two requests may run side by side, or one waits for the other.
abbrev pub LinkedTo : List OvlpItem → ℕ → IoDir → UserIoAddr → ℕ → IoDir → UserIoAddr → Type 0
LinkedTo items n d u m e v =
    n ≢ m
    → ((chk_io_rw d e ≡ true) ⊎ Apart u v) ⊎ (0 < waits_for m n items) ⊎ (0 < waits_for n m items)

abbrev pub AllOn : (ℕ → IoDir → UserIoAddr → Type 0) → Pool → Type 0
AllOn Q p = All (On Q) p.io_req_pool × All (On Q) p.io_req_ovlp_pool

pub record IsSafe (p : Pool) : Type 0 where
  pub few : length p.items < 2 ^ 32
  pub once : (n : ℕ) → copies n p.io_req_pool + copies n p.io_req_ovlp_pool ≤ 1
  pub known :
      (n : ℕ) → copies n p.io_req_pool + copies n p.io_req_ovlp_pool ≡ 0 → waits n p.items ≡ 0
  pub running : All (λ r. waits r.io_req_id p.items ≡ 0) p.io_req_pool
  pub waiting : All (IsWaiting (λ n. waits n p.items)) p.io_req_ovlp_pool
  pub ranges : AllOn (λ n d u. IsRange u) p
  pub linked : AllOn (λ n d u. AllOn (LinkedTo p.items n d u) p) p

abbrev pub empty_pool : Pool
empty_pool = record { io_req_pool = []; io_req_ovlp_pool = []; items = [] }

pub empty-IsSafe : IsSafe empty_pool
empty-IsSafe = record {
  few = omega arith;
  once = λ n. omega arith;
  known = λ n h. refl;
  running = tt;
  waiting = tt;
  ranges = (tt, tt);
  linked = (tt, tt);
}

pub copies-found :
    (P : ℕ → Type 0) (n : ℕ) (q : List IoReq) → All (λ r. P r.io_req_id) q → 0 < copies n q → P n
copies-found P n [] h c = absurd (omega (arith, c))
copies-found P n (r ∷ q) h c = elim (Bool-cases (r.io_req_id == n)) [
  | inl same ↦ subst P (ground (arith, same)) h.0
  | inr other ↦ copies-found P n q h.1 (ground (arith, other, c))
]

pub copies-absent : (n : ℕ) (q : List IoReq) → copies n q ≡ 0 → All (λ r. r.io_req_id ≢ n) q
copies-absent n [] h = tt
copies-absent n (r ∷ q) h = (λ e. ground (arith, e, h), copies-absent n q (ground (arith, h)))

pub All-zip {ℓ} :
    {A : Type ℓ} (P Q : A → Type 0) (xs : List A) → All P xs → All Q xs → All (λ x. P x × Q x) xs
All-zip P Q [] h k = tt
All-zip P Q (x ∷ xs) h k = ((h.0, k.0), All-zip P Q xs h.1 k.1)

pub AllOn-map :
    (Q R : ℕ → IoDir → UserIoAddr → Type 0) (p : Pool)
    → ((n : ℕ) (d : IoDir) (u : UserIoAddr) → Q n d u → R n d u)
    → AllOn Q p
    → AllOn R p
AllOn-map Q R p f (h, k) = (
  All-map (λ r. f r.io_req_id r.iodir r.usr_io_addr) _ h,
  All-map (λ r. f r.io_req_id r.iodir r.usr_io_addr) _ k,
)

pub AllOn-zip :
    (Q R : ℕ → IoDir → UserIoAddr → Type 0) (p : Pool)
    → AllOn Q p
    → AllOn R p
    → AllOn (λ n d u. Q n d u × R n d u) p
AllOn-zip Q R p (h, k) (h', k') = (All-zip (On Q) (On R) _ h h', All-zip (On Q) (On R) _ k k')
