-- ===== src/IoManager/Tiling.antt =====
-- The segments of a request tile it.
use mathlib.Core.Path.{subst}
use kt.Base.{
  ℕ, zero, suc, ◌+◌, ◌-◌, ◌*◌, ◌%◌, ◌^◌, ◌≤◌, ◌<◌, ◌≡◌, refl, sym, ap, ◌∙◌, inl, inr, Bool, true,
  false, not, ◌&&◌, Option, some, List, [], ◌∷◌, ◌++◌, arith, All, All-append, ltb, ◌==◌,
  Bool-cases,
}
use kt.IoManager.Overlap.{UserIoAddr}
use kt.IoManager.Pool.{IoDir, kernel_io_write}
use kt.IoManager.Split.{
  LbaFea, is_non4kalign, is_ovw, is_fw, is_4kalign, find_cont_len, MdBk, IoSeg, gen_segs,
  gen_mdcache_state, gen_loop,
}
use kt.IoManager.Runs.{find_cont_len_lem}
use kt.IoManager.CacheRuns.{MdTiles, query-MdTiles}

-- The segments from index i to n follow one another, in the request and in its payload and masks.
abbrev pub Tiles : ℕ → ℕ → List IoSeg → ℕ → Type 0
Tiles base i [] n = i ≡ n
Tiles base i (x ∷ xs) n =
    (x.lbid_start ≡ base + i)
    × (0 < x.lbid_len)
    × (x.payload_offset ≡ i * 4096)
    × (x.lb_sect_mask ≡ i)
    × Tiles base (i + x.lbid_len) xs n

Tiles-append :
    (base i j n : ℕ) (xs ys : List IoSeg)
    → Tiles base i xs j
    → Tiles base j ys n
    → Tiles base i (xs ++ ys) n
Tiles-append base i j n [] ys t u = subst (λ k. Tiles base k ys n) (sym t) u
Tiles-append base i j n (x ∷ xs) ys (a, b, c, d, t) u =
    (a, b, c, d, Tiles-append base (i + x.lbid_len) j n xs ys t u)

-- A segment of blocks that are alike.
pub record IsAlike (iodir : IoDir) (fea : ℕ → LbaFea) (hit : ℕ → Bool) (x : IoSeg) : Type 0 where
  pub written : (j : ℕ) → j < x.lbid_len → is_ovw (fea (x.lb_sect_mask + j)) ≡ x.ovw
  pub aligned : (j : ℕ) → j < x.lbid_len → is_4kalign (fea (x.lb_sect_mask + j)) ≡ x.is_4kalign
  pub cached : (j : ℕ) → j < x.lbid_len → hit (x.lb_sect_mask + j) ≡ x.md_cache_hit
  pub alone : is_non4kalign (fea x.lb_sect_mask) ≡ true → x.lbid_len ≡ 1
  pub short : iodir ≡ kernel_io_write → x.ovw ≡ false → x.lbid_len ≤ 32

-- The blocks of one kind, from index f on, r of them.
abbrev IsKind : IoDir → (ℕ → LbaFea) → ℕ → ℕ → Type 0
IsKind iodir fea f r =
    ((j : ℕ) → j < r → fea (f + j) ≡ fea f)
    × (is_non4kalign (fea f) ≡ true → r ≡ 1)
    × (iodir ≡ kernel_io_write → is_ovw (fea f) ≡ false → r ≤ 32)

gen_segs_lem :
    (iodir : IoDir) (fea : ℕ → LbaFea) (hit : ℕ → Bool) (base f r : ℕ)
    → IsKind iodir fea f r
    → (f + r) * 4096 < 2 ^ 64
    → (i : ℕ) (bs : List MdBk) (off : ℕ) → f ≤ i
    → off ≡ i * 4096
    → MdTiles base hit i bs (f + r)
    → Tiles base i (gen_segs (fea f) bs off i) (f + r)
      × All (IsAlike iodir fea hit) (gen_segs (fea f) bs off i)
unfolding gen_segs
gen_segs_lem iodir fea hit base f r kind small i [] off le e t = (t, tt)
gen_segs_lem iodir fea hit base f r kind small i (b ∷ bs) off le e (st, pos, fits, hits, t) =
    let (more, alike) =
      gen_segs_lem iodir fea hit base f r kind small (i + b.lbid_len) bs
        ((off + b.lbid_len * 4096) % 2 ^ 64) (omega (arith, le)) (omega (arith, e, fits, small))
        t in
    let same : (j : ℕ) → j < b.lbid_len → fea (i + j) ≡ fea f = λ j lt.
      let at : i + j ≡ f + (i - f + j) = omega (arith, le) in
      ap fea at ∙ kind.0 (i - f + j) (omega (arith, le, lt, fits)) in
    (
      (st, pos, e, refl, more),
      (
        record {
          written = λ j lt. ap is_ovw (same j lt);
          aligned = λ j lt. ap is_4kalign (same j lt);
          cached = hits;
          alone = λ h.
              let at : i ≡ i + 0 = omega arith in
              let first = sym (ap is_non4kalign (ap fea at ∙ same 0 pos)) ∙ h in
              omega (arith, kind.1 first, fits, le, pos);
          short = λ h k. omega (arith, kind.2 h k, fits, le);
        },
        alike,
      ),
    )

module _ (is_mdcache_on : Bool) (cache_find : ℕ → Bool) (iodir : IoDir) (fea : ℕ → LbaFea)
    (addr : UserIoAddr) (low : addr.lbid_start + addr.lbid_len < 2 ^ 31) where
  -- Whether the metadata of the block at an index comes from the cache.
  abbrev pub from_cache : ℕ → Bool
  from_cache i = (is_mdcache_on && not (is_fw (fea i))) && cache_find (addr.lbid_start + i)

  round_lem :
      (i off : ℕ)
      → i < addr.lbid_len
      → off ≡ i * 4096
      → let len = find_cont_len (λ j. fea (i + j)) (addr.lbid_len - i) iodir in
        let segs =
          gen_mdcache_state is_mdcache_on cache_find
            ((addr.lbid_start + i) % 2 ^ 64)
            len
            (fea i)
            off
            i in
        (0 < len)
        × (i + len ≤ addr.lbid_len)
        × Tiles addr.lbid_start i segs (i + len)
        × All (IsAlike iodir fea from_cache) segs
  unfolding gen_mdcache_state
  round_lem i off lt e =
      let len = find_cont_len (λ j. fea (i + j)) (addr.lbid_len - i) iodir in
      let run = find_cont_len_lem iodir (λ j. fea (i + j)) (addr.lbid_len - i) in
      let here : fea (i + 0) ≡ fea i = let at : i + 0 ≡ i = omega arith in ap fea at in
      let fits : i + len ≤ addr.lbid_len = omega (arith, run.upto, lt) in
      let (tiles, alike) =
        gen_segs_lem iodir fea from_cache addr.lbid_start i len
          (
            λ j h. run.same j h ∙ here,
            λ h. run.alone (ap is_non4kalign here ∙ h),
            λ h k. run.short h (ap is_ovw here ∙ k) (omega arith),
          )
          (omega (arith, fits, low)) i _ off (omega arith) e
          (query-MdTiles cache_find from_cache addr.lbid_start i len
            (is_mdcache_on && not (is_fw (fea i))) (omega (arith, fits, low)) run.from
            (λ j h.
              ap (λ a. (is_mdcache_on && not (is_fw a)) && cache_find (addr.lbid_start + (i + j)))
                (run.same j h ∙ here))) in
      (run.from, fits, tiles, alike)

  -- What `_ioReq_gen_ioSReq_ovw` returns, from index i on.
  abbrev pub IsSplit : ℕ → Option (List IoSeg) → Type 0
  IsSplit i r =
      (segs : List IoSeg) × (r ≡ some segs)
      × Tiles addr.lbid_start i segs addr.lbid_len
      × All (IsAlike iodir fea from_cache) segs

  pub gen_loop_lem :
      (fuel i off : ℕ)
      → i < addr.lbid_len
      → addr.lbid_len - i ≤ fuel
      → addr.lbid_len < 2 ^ 20
      → off ≡ i * 4096
      → IsSplit i (gen_loop is_mdcache_on cache_find iodir fea addr fuel i off)
  unfolding gen_loop
  gen_loop_lem zero i off lt le few e = absurd (omega (arith, lt, le))
  gen_loop_lem (suc fuel) i off lt le few e =
      let len = find_cont_len (λ j. fea (i + j)) (addr.lbid_len - i) iodir in
      let (pos, fits, tiles, alike) = round_lem i off lt e in
      let sound : ((len * 4096) % 2 ^ 32 == 0) ≡ false = ground (arith, pos, fits, few) in
      rw sound (elim (Bool-cases (ltb (i + len) addr.lbid_len)) [
        | inr last ↦
            let at : i + len ≡ addr.lbid_len = ground (arith, last, fits) in
            rw last (_, refl, subst (Tiles addr.lbid_start i _) at tiles, alike)
        | inl more ↦
            let (segs, e', tiles', alike') =
              gen_loop_lem fuel (i + len) ((off + len * 4096) % 2 ^ 64) (ground (arith, more))
                (omega (arith, pos, le)) few (omega (arith, e, fits, few)) in
            rw (more, e')
              (
                _,
                refl,
                Tiles-append addr.lbid_start i (i + len) addr.lbid_len _ segs tiles tiles',
                All-append (IsAlike iodir fea from_cache) _ segs alike alike',
              )
      ])
