-- ===== src/IoManager/Split.antt =====
-- BlockDeviceDriver2/io_manager/discoC_IORequest.c and metadata_manager/metadata_cache.c: a request is
-- split into segments of blocks that are alike: written before or not, wholly covered or not
-- (`_ioReq_gen_ioSReq_ovw`), with metadata in the cache or not (`query_volume_MDCache`). An array is
-- a function of its index. What `ovw_get` and `cache_find` answer of a block are parameters of the
-- functions that ask; the memory for the metadata that a hit copies is there.
use kt.Base.{
  ℕ, zero, suc, ◌+◌, ◌-◌, ◌*◌, ◌%◌, ◌^◌, Bool, true, false, not, ◌&&◌, Option, none, some, List, [],
  ◌∷◌, ◌++◌, ltb, ◌==◌, if◌then◌else◌,
}
use kt.IoManager.Overlap.{UserIoAddr}
use kt.IoManager.Pool.{IoDir, kernel_io_read, kernel_io_write}

-- `LBA_fea_stat_t`.
pub data LbaFea : Type 0 where
  init fw_4kalign fw_non4kalign ovw_4kalign ovw_non4kalign end : LbaFea

abbrev pub is_non4kalign : LbaFea → Bool
is_non4kalign fw_non4kalign = true
is_non4kalign ovw_non4kalign = true
is_non4kalign _ = false

abbrev pub is_ovw : LbaFea → Bool
is_ovw ovw_4kalign = true
is_ovw ovw_non4kalign = true
is_ovw _ = false

abbrev pub is_fw : LbaFea → Bool
is_fw fw_4kalign = true
is_fw fw_non4kalign = true
is_fw _ = false

abbrev pub is_4kalign : LbaFea → Bool
is_4kalign fw_4kalign = true
is_4kalign ovw_4kalign = true
is_4kalign _ = false

-- The values of the enum, to compare.
abbrev pub fea_code : LbaFea → ℕ
fea_code init = 0
fea_code fw_4kalign = 1
fea_code fw_non4kalign = 2
fea_code ovw_4kalign = 3
fea_code ovw_non4kalign = 4
fea_code end = 5

-- The body of `_ioReq_get_LBOVW_state`: whether the block was written before, and its mask.
unfoldable pub lb_fea : Bool → ℕ → LbaFea
lb_fea ovw mask =
    if ovw && mask == 0xff
    then ovw_4kalign
    else if ovw
    then ovw_non4kalign
    else if mask == 0xff
    then fw_4kalign
    else fw_non4kalign

-- `_ioReq_get_LBOVW_state` at index i, below the number of blocks. Each block that is read counts as
-- written before.
unfoldable pub get_lbovw_state : IoDir → (ℕ → Bool) → (ℕ → ℕ) → ℕ → ℕ → LbaFea
unfolding lb_fea
get_lbovw_state kernel_io_write ovw_get mask_lb_align lbid i =
    lb_fea (ovw_get ((lbid + i) % 2 ^ 64)) (mask_lb_align i)
get_lbovw_state kernel_io_read ovw_get mask_lb_align lbid i = lb_fea true (mask_lb_align i)

-- `_chk_max_len_allocMD`; MAX_LBS_PER_ALLOCMD_REQ is 32.
unfoldable pub chk_max_len_alloc_md : IoDir → LbaFea → ℕ → Bool
chk_max_len_alloc_md kernel_io_read split_type len = false
chk_max_len_alloc_md kernel_io_write split_type len =
    if is_non4kalign split_type then true else if is_ovw split_type then false else not (ltb len 32)

-- The loop of `find_cont_len`, with the rounds that are left.
unfoldable pub cont_loop : IoDir → (ℕ → LbaFea) → ℕ → ℕ → ℕ
unfolding chk_max_len_alloc_md
cont_loop io_rw group zero len = len
cont_loop io_rw group (suc k) len =
    let longer = cont_loop io_rw group k (len + 1) in
    if is_non4kalign (group 0)
    then len
    else if not (fea_code (group 0) == fea_code (group len))
    then len
    else if chk_max_len_alloc_md io_rw (group len) (len + 1)
    then len + 1
    else longer

unfoldable pub find_cont_len : (ℕ → LbaFea) → ℕ → IoDir → ℕ
unfolding cont_loop
find_cont_len group max_len io_rw = cont_loop io_rw group (max_len - 1) 1

-- What `query_volume_MDCache` writes of a run of blocks: its address, and whether it has metadata.
pub record MdBk : Type 0 where
  pub lbid_start : ℕ
  pub lbid_len : ℕ
  pub has_md : Bool

-- `_get_max_seg_len`, with the rounds that are left: i and cnt are equal.
unfoldable pub max_seg_len : Bool → (ℕ → Bool) → ℕ → ℕ → ℕ
max_seg_len md_ch hit zero cnt = cnt
max_seg_len md_ch hit (suc k) cnt =
    let longer = max_seg_len md_ch hit k (cnt + 1) in
    if not (hit cnt) && md_ch then cnt else if hit cnt && not md_ch then cnt else longer

unfoldable pub get_max_seg_len : (ℕ → Bool) → ℕ → ℕ
unfolding max_seg_len
get_max_seg_len hit max_len = max_seg_len (hit 0) hit (max_len - 1) 1

-- An int32_t is its bit pattern; as a uint64_t its sign is carried on.
abbrev pub sign_extend : ℕ → ℕ
sign_extend n = if ltb n (2 ^ 31) then n else n + (2 ^ 64 - 2 ^ 32)

-- The loop of `query_volume_MDCache`: `lstart_lb` is an int32_t. Each round passes a block at least.
unfoldable pub query_loop : ℕ → (ℕ → Bool) → ℕ → ℕ → ℕ → List MdBk
unfolding get_max_seg_len
query_loop zero hit lstart_lb idx_s remain_len = []
query_loop (suc fuel) hit lstart_lb idx_s remain_len =
    let seg_len = get_max_seg_len (λ i. hit (idx_s + i)) remain_len in
    let rest =
      query_loop fuel hit ((lstart_lb + seg_len) % 2 ^ 32) (idx_s + seg_len)
        (remain_len - seg_len) in
    if ltb 0 remain_len
    then record { lbid_start = sign_extend lstart_lb; lbid_len = seg_len; has_md = hit idx_s }
      ∷ rest
    else []

unfoldable pub query_volume_md_cache : (ℕ → Bool) → ℕ → ℕ → Bool → List MdBk
unfolding query_loop
query_volume_md_cache cache_find lbid_s lbid_len query_cache =
    if query_cache
    then query_loop lbid_len (λ i. cache_find ((lbid_s + i) % 2 ^ 64)) (lbid_s % 2 ^ 32) 0 lbid_len
    else record { lbid_start = lbid_s; lbid_len = lbid_len; has_md = false } ∷ []

-- A segment as `ioSReq_init_request` and `ioSReq_set_request` leave it; the mask is its index.
pub record IoSeg : Type 0 where
  pub lbid_start : ℕ
  pub lbid_len : ℕ
  pub payload_offset : ℕ
  pub lb_sect_mask : ℕ
  pub ovw : Bool
  pub md_cache_hit : Bool
  pub is_4kalign : Bool

-- The loop of `_ioReq_gen_ioSReq_mdcache_state`.
unfoldable pub gen_segs : LbaFea → List MdBk → ℕ → ℕ → List IoSeg
gen_segs type [] payload_offset mask = []
gen_segs type (b ∷ bs) payload_offset mask =
    record {
      lbid_start = b.lbid_start;
      lbid_len = b.lbid_len;
      payload_offset = payload_offset;
      lb_sect_mask = mask;
      ovw = is_ovw type;
      md_cache_hit = b.has_md;
      is_4kalign = is_4kalign type;
    }
    ∷ gen_segs type bs ((payload_offset + b.lbid_len * 4096) % 2 ^ 64) (mask + b.lbid_len)

module _ (is_mdcache_on : Bool) (cache_find : ℕ → Bool) where
  -- `_ioReq_gen_ioSReq_mdcache_state`; it returns `len << 12`.
  unfoldable pub gen_mdcache_state : ℕ → ℕ → LbaFea → ℕ → ℕ → List IoSeg
  unfolding query_volume_md_cache gen_segs
  gen_mdcache_state beginning len type payload_offset mask =
      gen_segs type
        (query_volume_md_cache cache_find beginning len (is_mdcache_on && not (is_fw type)))
        payload_offset mask

  -- The loop of `_ioReq_gen_ioSReq_ovw`, left at its end; `none` is -EFAULT.
  module _ (iodir : IoDir) (grouping : ℕ → LbaFea) (addr : UserIoAddr) where
    unfoldable pub gen_loop : ℕ → ℕ → ℕ → Option (List IoSeg)
    unfolding find_cont_len gen_mdcache_state
    gen_loop zero i payload_offset = some []
    gen_loop (suc fuel) i payload_offset =
        let len = find_cont_len (λ j. grouping (i + j)) (addr.lbid_len - i) iodir in
        let segs =
          gen_mdcache_state ((addr.lbid_start + i) % 2 ^ 64) len (grouping i) payload_offset i in
        let rest = gen_loop fuel (i + len) ((payload_offset + len * 4096) % 2 ^ 64) in
        if (len * 4096) % 2 ^ 32 == 0
        then none
        else if ltb (i + len) addr.lbid_len
        then elim rest [ none ↦ none | some more ↦ some (segs ++ more) ]
        else some segs

-- `_ioReq_gen_ioSReq_ovw` of a request: its segments.
unfoldable pub gen_io_seg_req :
    Bool → (ℕ → Bool) → (ℕ → Bool) → IoDir → (ℕ → ℕ) → UserIoAddr → Option (List IoSeg)
unfolding gen_loop get_lbovw_state
gen_io_seg_req is_mdcache_on cache_find ovw_get iodir mask_lb_align addr =
    gen_loop is_mdcache_on cache_find iodir
      (get_lbovw_state iodir ovw_get mask_lb_align addr.lbid_start) addr (suc addr.lbid_len) 0 0
