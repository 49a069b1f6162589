-- ===== src/IoManager/HighBlocks.antt =====
-- What becomes of the blocks past 2^31, which an int32_t of `query_volume_MDCache` does not hold.
use kt.Base.{
  ℕ, zero, suc, ◌+◌, ◌-◌, ◌*◌, ◌%◌, ◌^◌, ◌≤◌, ◌<◌, ◌≡◌, ◌≢◌, refl, ap, inl, inr, Bool, true, false,
  some, List, [], ◌∷◌, ◌++◌, arith, ltb, ◌==◌, Bool-cases,
}
use kt.IoManager.Overlap.{UserIoAddr}
use kt.IoManager.Pool.{IoDir, kernel_io_read}
use kt.IoManager.Split.{
  LbaFea, is_fw, get_lbovw_state, find_cont_len, MdBk, sign_extend, query_volume_md_cache, IoSeg,
  gen_mdcache_state, gen_loop, gen_io_seg_req,
}
use kt.IoManager.Runs.{find_cont_len_lem}

module _ (on : Bool) (cache_find : ℕ → Bool) (iodir : IoDir) (fea : ℕ → LbaFea) (addr : UserIoAddr)
    (few : addr.lbid_len < 2 ^ 20) where
  round_sound :
      (i : ℕ)
      → i < addr.lbid_len
      → let len = find_cont_len (λ j. fea (i + j)) (addr.lbid_len - i) iodir in
        ((len * 4096) % 2 ^ 32 == 0) ≡ false
  round_sound i lt =
      let run = find_cont_len_lem iodir (λ j. fea (i + j)) (addr.lbid_len - i) in
      ground (arith, run.from, run.upto, few, lt)

  gen_loop-some :
      (fuel i off : ℕ)
      → i < addr.lbid_len
      → (segs : List IoSeg) × (gen_loop on cache_find iodir fea addr fuel i off ≡ some segs)
  unfolding gen_loop
  gen_loop-some zero i off lt = ([], refl)
  gen_loop-some (suc fuel) i off lt =
      let len = find_cont_len (λ j. fea (i + j)) (addr.lbid_len - i) iodir in
      rw (round_sound i lt) (elim (Bool-cases (ltb (i + len) addr.lbid_len)) [
        | inr last ↦ rw last (_, refl)
        | inl more ↦
            let (segs, e) =
              gen_loop-some fuel (i + len) ((off + len * 4096) % 2 ^ 64) (ground (arith, more)) in
            rw (more, e) (_, refl)
      ])

  -- The segments of the first round come first.
  gen_loop_first :
      (fuel off : ℕ) (x : IoSeg) (xs : List IoSeg)
      → 0 < addr.lbid_len
      → gen_mdcache_state on cache_find
          ((addr.lbid_start + 0) % 2 ^ 64)
          (find_cont_len (λ j. fea (0 + j)) (addr.lbid_len - 0) iodir)
          (fea 0)
          off
          0
        ≡ x ∷ xs
      → (ys : List IoSeg) × (gen_loop on cache_find iodir fea addr (suc fuel) 0 off ≡ some (x ∷ ys))
  unfolding gen_loop
  gen_loop_first fuel off x xs pos e =
      let len = find_cont_len (λ j. fea (0 + j)) (addr.lbid_len - 0) iodir in
      rw (round_sound 0 pos) (elim (Bool-cases (ltb (0 + len) addr.lbid_len)) [
        | inr last ↦ rw last (xs, ap some e)
        | inl more ↦
            let (segs, e') =
              gen_loop-some fuel (0 + len) ((off + len * 4096) % 2 ^ 64) (ground (arith, more)) in
            rw (more, e') (xs ++ segs, ap (λ q. some (q ++ segs)) e)
      ])

first_run :
    (cache_find : ℕ → Bool) (lbid len : ℕ)
    → 0 < len
    → (b : MdBk) × (bs : List MdBk) × (query_volume_md_cache cache_find lbid len true ≡ b ∷ bs)
      × (b.lbid_start ≡ sign_extend (lbid % 2 ^ 32))
unfolding query_volume_md_cache
first_run cache_find lbid zero pos = absurd (omega (arith, pos))
first_run cache_find lbid (suc k) pos =
    let t : ltb 0 (suc k) ≡ true = ground arith in rw t (_, _, refl, refl)

first_seg :
    (cache_find : ℕ → Bool) (fea : LbaFea) (lbid len off : ℕ)
    → 0 < len
    → is_fw fea ≡ false
    → (x : IoSeg) × (xs : List IoSeg) × (gen_mdcache_state true cache_find lbid len fea off 0
        ≡ x ∷ xs)
      × (x.lbid_start ≡ sign_extend (lbid % 2 ^ 32))
unfolding gen_mdcache_state
first_seg cache_find fea lbid len off pos written =
    let (b, bs, e, st) = first_run cache_find lbid len pos in rw (written, e) (_, _, refl, st)

read_written :
    (ovw_get : ℕ → Bool) (mask : ℕ → ℕ) (lbid i : ℕ)
    → is_fw (get_lbovw_state kernel_io_read ovw_get mask lbid i) ≡ false
unfolding get_lbovw_state
read_written ovw_get mask lbid i = ground arith

-- A read of fewer than 2^20 blocks from a block past 2^31 (and up to 2^63), where the cache of
-- metadata is on, is split without an error, but its first segment begins at another block than the
-- read.
pub high_lbid_moved :
    (cache_find ovw_get : ℕ → Bool) (mask : ℕ → ℕ) (addr : UserIoAddr)
    → 2 ^ 31 ≤ addr.lbid_start
    → addr.lbid_start ≤ 2 ^ 63
    → 0 < addr.lbid_len
    → addr.lbid_len < 2 ^ 20
    → (x : IoSeg) × (xs : List IoSeg) × (gen_io_seg_req true cache_find ovw_get kernel_io_read mask
          addr
        ≡ some (x ∷ xs))
      × (x.lbid_start ≢ addr.lbid_start)
unfolding gen_io_seg_req
high_lbid_moved cache_find ovw_get mask addr high below pos few =
    let fea = get_lbovw_state kernel_io_read ovw_get mask addr.lbid_start in
    let run = find_cont_len_lem kernel_io_read (λ j. fea (0 + j)) (addr.lbid_len - 0) in
    let (x, xs, e, st) =
      first_seg cache_find (fea 0) ((addr.lbid_start + 0) % 2 ^ 64) _ 0 run.from
        (read_written ovw_get mask addr.lbid_start 0) in
    let (ys, e') =
      gen_loop_first true cache_find kernel_io_read fea addr few addr.lbid_len 0 x xs pos e in
    (x, ys, e', λ same. ground (arith, st, same, high, below))
