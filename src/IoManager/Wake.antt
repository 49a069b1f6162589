-- ===== src/IoManager/Wake.antt =====
-- What the end of a request does to those that wait: each is counted down once per item, and is
-- woken when nothing is left that it waits for.
use mathlib.Core.Path.{}
use kt.Base.{
  ℕ, ◌+◌, ◌<◌, ◌≡◌, ◌⊎◌, refl, Bool, true, false, List, [], ◌∷◌, ◌++◌, arith, All, All-append,
  All-map, count_if-append, count_if, ◌==◌, ◌^◌,
}
use kt.IoManager.ReqFsm.{ovlp_wait, rw_user_data, update_state}
use kt.IoManager.Overlap.{UserIoAddr}
use kt.IoManager.Pool.{IoReq, IoDir, OvlpItem, wake_req, look_at, put, wake_one, get_ovlp_req}
use kt.IoManager.Walk.{waits}

-- The request waits for as many others as k says.
pub record IsWaiting (k : ℕ → ℕ) (r : IoReq) : Type 0 where
  pub counted : r.cnt_ovlp_wait ≡ k r.io_req_id
  pub held : 0 < k r.io_req_id
  pub stat : r.io_req_stat ≡ ovlp_wait

-- The request has been woken, and waits for none.
pub record IsWoken (k : ℕ → ℕ) (r : IoReq) : Type 0 where
  pub free : k r.io_req_id ≡ 0
  pub stat : r.io_req_stat ≡ rw_user_data

-- What the pool's operations leave as it is in a request.
abbrev pub On : (ℕ → IoDir → UserIoAddr → Type 0) → IoReq → Type 0
On Q r = Q r.io_req_id r.iodir r.usr_io_addr

abbrev pub copies : ℕ → List IoReq → ℕ
copies n q = count_if (λ r. r.io_req_id == n) q

abbrev hit : ℕ → ℕ → ℕ
hit id n = elim (id == n) [ true ↦ 1 | false ↦ 0 ]

look_at_fields :
    (id : ℕ) (r : IoReq)
    → let r' = (look_at id r).1 in
      (r'.io_req_id ≡ r.io_req_id) × (r'.iodir ≡ r.iodir) × (r'.usr_io_addr ≡ r.usr_io_addr)
unfolding look_at wake_req
look_at_fields id r = ground arith

look_at_lem :
    (k : ℕ → ℕ) (id : ℕ) (r : IoReq)
    → k id + 1 < 2 ^ 32
    → IsWaiting (λ n. hit id n + k n) r
    → let (stays, r') = look_at id r in
      ((stays ≡ true) × IsWaiting k r') ⊎ ((stays ≡ false) × IsWoken k r')
unfolding look_at wake_req update_state
look_at_lem k id r small w = grind arith

put-All :
    (P : IoReq → Type 0) (W : IoReq → Type 0) (x : Bool × IoReq) (q b : List IoReq)
    → ((x.0 ≡ true) × P x.1) ⊎ ((x.0 ≡ false) × W x.1)
    → All P q
    → All W b
    → let (q', b') = put x (q, b) in All P q' × All W b'
unfolding put
put-All P W (true, r) q b h hq hb = ground (arith, h, hq, hb)
put-All P W (false, r) q b h hq hb = ground (arith, h, hq, hb)

put_both :
    (P : IoReq → Type 0) (x : Bool × IoReq) (q b : List IoReq)
    → P x.1
    → All P q
    → All P b
    → let (q', b') = put x (q, b) in All P q' × All P b'
unfolding put
put_both P (true, r) q b h hq hb = ((h, hq), hb)
put_both P (false, r) q b h hq hb = (hq, (h, hb))

put-copies :
    (n : ℕ) (x : Bool × IoReq) (q b : List IoReq)
    → let (q', b') = put x (q, b) in
      copies n q' + copies n b' ≡ copies n (x.1 ∷ []) + (copies n q + copies n b)
unfolding put
put-copies n (true, r) q b = ground arith
put-copies n (false, r) q b = ground arith

wake_one_lem :
    (k : ℕ → ℕ) (id : ℕ) (q : List IoReq)
    → k id + 1 < 2 ^ 32
    → All (IsWaiting (λ n. hit id n + k n)) q
    → let (stay, woken) = wake_one id q in All (IsWaiting k) stay × All (IsWoken k) woken
unfolding wake_one
wake_one_lem k id [] small h = (tt, tt)
wake_one_lem k id (r ∷ q) small h =
    let (hq, hb) = wake_one_lem k id q small h.1 in
    put-All (IsWaiting k) (IsWoken k) (look_at id r) _ _ (look_at_lem k id r small h.0) hq hb

look_at-On :
    (Q : ℕ → IoDir → UserIoAddr → Type 0) (id : ℕ) (r : IoReq) → On Q r → On Q (look_at id r).1
look_at-On Q id r h = let (a, b, c) = look_at_fields id r in rw (a, b, c) h

wake_one-On :
    (Q : ℕ → IoDir → UserIoAddr → Type 0) (id : ℕ) (q : List IoReq)
    → All (On Q) q
    → let (stay, woken) = wake_one id q in All (On Q) stay × All (On Q) woken
unfolding wake_one
wake_one-On Q id [] h = (tt, tt)
wake_one-On Q id (r ∷ q) h =
    let (hq, hb) = wake_one-On Q id q h.1 in
    put_both (On Q) (look_at id r) _ _ (look_at-On Q id r h.0) hq hb

wake_one-copies :
    (n id : ℕ) (q : List IoReq)
    → let (stay, woken) = wake_one id q in copies n stay + copies n woken ≡ copies n q
unfolding wake_one
wake_one-copies n id [] = refl
wake_one-copies n id (r ∷ q) = ground (
  arith,
  put-copies n (look_at id r) (wake_one id q).0 (wake_one id q).1,
  look_at_fields id r,
  wake_one-copies n id q,
)

get-IsWaiting :
    (k : ℕ → ℕ) (x : OvlpItem) (xs : List OvlpItem) (r : IoReq)
    → IsWaiting (λ n. waits n (x ∷ xs) + k n) r
    → IsWaiting (λ n. hit x.wait_ior n + (waits n xs + k n)) r
get-IsWaiting k x xs r w = ground (arith, w.counted, w.held, w.stat)

get_last : (k : ℕ → ℕ) (r : IoReq) → IsWaiting (λ n. waits n [] + k n) r → IsWaiting k r
get_last k r w = record {
  counted = omega (arith, w.counted);
  held = omega (arith, w.held);
  stat = w.stat;
}

get-IsWoken :
    (k : ℕ → ℕ) (xs : List OvlpItem) (r : IoReq) → IsWoken (λ n. waits n xs + k n) r → IsWoken k r
get-IsWoken k xs r w = record { free = omega (arith, w.free); stat = w.stat }

-- After all items of an ended request, those that still wait are counted by the other items alone,
-- and those that no other item holds have been woken.
pub get_ovlp_req_lem :
    (k : ℕ → ℕ) (xs : List OvlpItem) (q b : List IoReq)
    → ((n : ℕ) → waits n xs + k n < 2 ^ 32)
    → All (IsWaiting (λ n. waits n xs + k n)) q
    → All (IsWoken k) b
    → let (stay, woken) = get_ovlp_req xs q b in All (IsWaiting k) stay × All (IsWoken k) woken
unfolding get_ovlp_req
get_ovlp_req_lem k [] q b small hq hb = (All-map (get_last k) q hq, hb)
get_ovlp_req_lem k (x ∷ xs) q b small hq hb =
    let (stay, woken) =
      wake_one_lem (λ n. waits n xs + k n) x.wait_ior q (ground (arith, small x.wait_ior))
        (All-map (get-IsWaiting k x xs) q hq) in
    get_ovlp_req_lem k xs _ _ (λ n. ground (arith, small n)) stay
      (All-append (IsWoken k) b _ hb (All-map (get-IsWoken k xs) _ woken))

pub get_ovlp_req-On :
    (Q : ℕ → IoDir → UserIoAddr → Type 0) (xs : List OvlpItem) (q b : List IoReq)
    → All (On Q) q
    → All (On Q) b
    → let (stay, woken) = get_ovlp_req xs q b in All (On Q) stay × All (On Q) woken
unfolding get_ovlp_req
get_ovlp_req-On Q [] q b hq hb = (hq, hb)
get_ovlp_req-On Q (x ∷ xs) q b hq hb =
    let (stay, woken) = wake_one-On Q x.wait_ior q hq in
    get_ovlp_req-On Q xs _ _ stay (All-append (On Q) b _ hb woken)

pub get_ovlp_req-copies :
    (n : ℕ) (xs : List OvlpItem) (q b : List IoReq)
    → let (stay, woken) = get_ovlp_req xs q b in
      copies n stay + copies n woken ≡ copies n q + copies n b
unfolding get_ovlp_req
get_ovlp_req-copies n [] q b = refl
get_ovlp_req-copies n (x ∷ xs) q b = omega (
  arith,
  get_ovlp_req-copies n xs (wake_one x.wait_ior q).0 (b ++ (wake_one x.wait_ior q).1),
  wake_one-copies n x.wait_ior q,
  count_if-append (λ r. r.io_req_id == n) b (wake_one x.wait_ior q).1,
)
