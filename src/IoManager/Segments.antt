-- ===== src/IoManager/Segments.antt =====
-- What a request of sectors is split into, from its sectors to its segments.
use mathlib.Core.Path.{}
use kt.Base.{
  ℕ, suc, ◌+◌, ◌/◌, ◌%◌, ◌^◌, ◌≤◌, ◌<◌, ◌≡◌, sym, ap, ◌∙◌, Bool, true, false, not, ◌&&◌, some, List,
  [], ◌∷◌, arith, All, ◌==◌,
}
use kt.IoManager.Overlap.{}
use kt.IoManager.Pool.{IoDir, kernel_io_read, kernel_io_write}
use kt.IoManager.Align.{init_ioaddr, set_lbalign_mask, mask_at, covers, set_lbalign_mask_lem}
use kt.IoManager.Split.{
  LbaFea, is_non4kalign, is_ovw, is_fw, is_4kalign, get_lbovw_state, IoSeg, gen_io_seg_req,
}
use kt.IoManager.Tiling.{Tiles, IsAlike, gen_loop_lem}

-- Whether a block counts as written before: each block that is read does.
abbrev pub counts_written : IoDir → (ℕ → Bool) → ℕ → Bool
counts_written kernel_io_write ovw_get lb = ovw_get lb
counts_written kernel_io_read ovw_get lb = true

-- A segment of a request of the sectors from s to e: all its blocks are alike.
pub record IsSegment (iodir : IoDir) (on : Bool) (cache_find ovw_get : ℕ → Bool) (s e : ℕ)
    (x : IoSeg) : Type 0 where
  pub written : (j : ℕ) → j < x.lbid_len → counts_written iodir ovw_get (x.lbid_start + j) ≡ x.ovw
  pub aligned : (j : ℕ) → j < x.lbid_len → covers s e (x.lbid_start + j) ≡ x.is_4kalign
  pub cached :
      (j : ℕ) → j < x.lbid_len → ((on && x.ovw) && cache_find (x.lbid_start + j)) ≡ x.md_cache_hit
  pub alone : x.is_4kalign ≡ false → x.lbid_len ≡ 1
  pub short : iodir ≡ kernel_io_write → x.ovw ≡ false → x.lbid_len ≤ 32

Tiles-le : (base i : ℕ) (xs : List IoSeg) (n : ℕ) → Tiles base i xs n → i ≤ n
Tiles-le base i [] n t = omega (arith, t)
Tiles-le base i (x ∷ xs) n (a, b, c, d, t) = omega (arith, Tiles-le base (i + x.lbid_len) xs n t)

addr_lem :
    (sect_begin sect_len : ℕ)
    → 0 < sect_len
    → sect_begin + sect_len + 8 ≤ 2 ^ 34
    → let addr = init_ioaddr sect_begin sect_len in
      (addr.lbid_start ≡ sect_begin / 8)
      × (0 < addr.lbid_len)
      × (addr.lbid_start + addr.lbid_len < 2 ^ 31)
unfolding init_ioaddr
addr_lem b n pos low = omega (arith, pos, low)

fea_lem :
    (iodir : IoDir) (ovw_get : ℕ → Bool) (mask : ℕ → ℕ) (lbid i : ℕ)
    → lbid + i < 2 ^ 64
    → let fea = get_lbovw_state iodir ovw_get mask lbid i in
      (is_ovw fea ≡ counts_written iodir ovw_get (lbid + i))
      × (is_4kalign fea ≡ (mask i == 0xff))
      × (is_non4kalign fea ≡ not (mask i == 0xff))
      × (is_fw fea ≡ not (counts_written iodir ovw_get (lbid + i)))
unfolding get_lbovw_state
fea_lem kernel_io_write ovw_get mask lbid i small =
    let at : (lbid + i) % 2 ^ 64 ≡ lbid + i = omega (arith, small) in rw at (ground arith)
fea_lem kernel_io_read ovw_get mask lbid i small = ground arith

module _ (iodir : IoDir) (on : Bool) (cache_find ovw_get : ℕ → Bool) (mask : ℕ → ℕ)
    (base s e len : ℕ) (low : base + len < 2 ^ 31)
    (full : (i : ℕ) → i < len → (mask i == 0xff) ≡ covers s e (base + i)) where
  abbrev fea : ℕ → LbaFea
  fea = get_lbovw_state iodir ovw_get mask base

  abbrev from_cache : ℕ → Bool
  from_cache i = (on && not (is_fw (fea i))) && cache_find (base + i)

  -- The block of index m + j, in a segment whose first has the index m.
  block_lem :
      (start m j : ℕ)
      → start ≡ base + m
      → m + j < len
      → let f = fea (m + j) in
        (counts_written iodir ovw_get (start + j) ≡ is_ovw f)
        × (covers s e (start + j) ≡ is_4kalign f)
        × (is_non4kalign f ≡ not (is_4kalign f))
        × ((on && is_ovw f) && cache_find (start + j) ≡ from_cache (m + j))
  block_lem start m j st lt =
      let lb : start + j ≡ base + (m + j) = omega (arith, st) in
      let (a, b, c, d) = fea_lem iodir ovw_get mask base (m + j) (omega (arith, low, lt)) in
      rw lb (ground (arith, a, b, c, d, full (m + j) lt))

  segment_lem :
      (x : IoSeg)
      → x.lbid_start ≡ base + x.lb_sect_mask
      → 0 < x.lbid_len
      → x.lb_sect_mask + x.lbid_len ≤ len
      → IsAlike iodir fea from_cache x
      → IsSegment iodir on cache_find ovw_get s e x
  segment_lem x st pos fits a =
      let at = λ (j : ℕ) (lt : j < x.lbid_len).
        block_lem x.lbid_start x.lb_sect_mask j st (omega (arith, lt, fits)) in
      let first : x.lb_sect_mask + 0 ≡ x.lb_sect_mask = omega arith in
      record {
        written = λ j lt. (at j lt).0 ∙ a.written j lt;
        aligned = λ j lt. (at j lt).1 ∙ a.aligned j lt;
        cached = λ j lt.
            ap (λ b. (on && b) && cache_find (x.lbid_start + j)) (sym (a.written j lt))
            ∙ (at j lt).3
            ∙ a.cached j lt;
        alone = λ h. a.alone (
            ap (λ i. is_non4kalign (fea i)) (sym first)
            ∙ (at 0 pos).2
            ∙ ap not (a.aligned 0 pos ∙ h));
        short = a.short;
      }

  segments_lem :
      (i : ℕ) (xs : List IoSeg)
      → Tiles base i xs len
      → All (IsAlike iodir fea from_cache) xs
      → All (IsSegment iodir on cache_find ovw_get s e) xs
  segments_lem i [] t h = tt
  segments_lem i (x ∷ xs) (st, pos, off, mask_i, t) (a, h) = (
    segment_lem x (omega (arith, st, mask_i)) pos
        (omega (arith, mask_i, Tiles-le base (i + x.lbid_len) xs len t)) a,
    segments_lem (i + x.lbid_len) xs t h,
  )

-- A request of 1 to 256 sectors that ends at least 8 sectors below sector 2^34 is split without an error, into segments
-- that follow one another from the first block that one of its sectors lies in to the last, in the
-- request and in its payload and its masks. The blocks of a segment are alike: the segment is marked
-- as written before, aligned, or hit in the cache exactly as each of its blocks was written before
-- or is read, lies wholly in the request, or is written before with its metadata in a cache that is
-- on. A segment that is not aligned is one block, and one that is written for the first time is 32
-- blocks at most.
pub gen_io_seg_req_lem :
    (iodir : IoDir) (is_mdcache_on : Bool) (cache_find ovw_get : ℕ → Bool) (sect_begin sect_len : ℕ)
    → 0 < sect_len
    → sect_len ≤ 256
    → sect_begin + sect_len + 8 ≤ 2 ^ 34
    → let addr = init_ioaddr sect_begin sect_len in
      (segs : List IoSeg) × (gen_io_seg_req is_mdcache_on cache_find ovw_get iodir
          (mask_at (set_lbalign_mask sect_begin sect_len).0)
          addr
        ≡ some segs)
      × Tiles addr.lbid_start 0 segs addr.lbid_len
      × All
          (IsSegment iodir is_mdcache_on cache_find ovw_get sect_begin (sect_begin + sect_len))
          segs
unfolding gen_io_seg_req
gen_io_seg_req_lem iodir on cache_find ovw_get b n pos few low =
    let addr = init_ioaddr b n in
    let mask = mask_at (set_lbalign_mask b n).0 in
    let (len, most, full, al) = set_lbalign_mask_lem b n pos few (omega (arith, low)) in
    let (st, ln, end) = addr_lem b n pos low in
    let (segs, e, tiles, alike) =
      gen_loop_lem on cache_find iodir (get_lbovw_state iodir ovw_get mask addr.lbid_start) addr end
        (suc addr.lbid_len) 0 0 ln (omega arith) (omega (arith, len, most)) (omega arith) in
    (
      segs,
      e,
      tiles,
      segments_lem iodir on cache_find ovw_get mask addr.lbid_start b (b + n) addr.lbid_len end
          (λ i lt. full i (omega (arith, len, lt))) 0 segs tiles alike,
    )
