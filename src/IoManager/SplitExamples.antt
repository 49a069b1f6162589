-- ===== src/IoManager/SplitExamples.antt =====
-- A write of sectors 5 to 34, and a read far out on a volume.
use kt.Base.{
  ℕ, ◌+◌, ◌^◌, ◌≡◌, ◌≢◌, Bool, true, ◌&&◌, some, List, ◌∷◌, arith, length, All, leb, ◌==◌, ◌≤◌, ◌<◌,
  ◌%◌,
}
use kt.IoManager.Overlap.{UserIoAddr}
use kt.IoManager.Pool.{kernel_io_write, kernel_io_read}
use kt.IoManager.Align.{init_ioaddr, set_lbalign_mask, mask_at, covers, set_lbalign_mask_lem}
use kt.IoManager.Split.{IoSeg, gen_io_seg_req}
use kt.IoManager.Tiling.{Tiles}
use kt.IoManager.Segments.{IsSegment, gen_io_seg_req_lem}
use kt.IoManager.HighBlocks.{high_lbid_moved}

set_lbalign_mask_lem_example :
    let (masks, aligned) = set_lbalign_mask 5 30 in
    let addr = init_ioaddr 5 30 in
    (length masks ≡ addr.lbid_len)
    × (length masks ≤ 33)
    × ((i : ℕ)
        → i < length masks
        → (mask_at masks i == 0xff) ≡ covers 5 (5 + 30) (addr.lbid_start + i))
    × (aligned ≡ (5 % 8 == 0 && (5 + 30) % 8 == 0))
set_lbalign_mask_lem_example = set_lbalign_mask_lem 5 30 (omega arith) (omega arith) (omega arith)

-- Blocks 2 and 3 were written before, and the metadata of block 3 is in the cache.
abbrev old : ℕ → Bool
old lb = leb 2 lb && leb lb 3

abbrev in_cache : ℕ → Bool
in_cache lb = lb == 3

gen_io_seg_req_lem_example :
    let addr = init_ioaddr 5 30 in
    (segs : List IoSeg) × (gen_io_seg_req true in_cache old kernel_io_write
        (mask_at (set_lbalign_mask 5 30).0)
        addr
      ≡ some segs)
    × Tiles addr.lbid_start 0 segs addr.lbid_len
    × All (IsSegment kernel_io_write true in_cache old 5 (5 + 30)) segs
gen_io_seg_req_lem_example =
    gen_io_seg_req_lem kernel_io_write true in_cache old 5 30 (omega arith) (omega arith)
      (omega arith)

abbrev far_lbs : UserIoAddr
far_lbs = record { lbid_start = 2 ^ 31; lbid_len = 2 }

high_lbid_moved_example :
    (x : IoSeg) × (xs : List IoSeg) × (gen_io_seg_req true in_cache old kernel_io_read
        (λ i. 0xff)
        far_lbs
      ≡ some (x ∷ xs))
    × (x.lbid_start ≢ far_lbs.lbid_start)
high_lbid_moved_example =
    high_lbid_moved in_cache old (λ i. 0xff) far_lbs (omega arith) (omega arith) (omega arith)
      (omega arith)
