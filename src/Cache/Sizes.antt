-- ===== src/Cache/Sizes.antt =====
-- The table of pools in cache.c, and how update_cache_pool_size divides the items of the whole client
-- among the volumes. An int64_t is its bit pattern. The lock of the table makes each operation one
-- step; an operation on a pool that is found gives its reference back, and is one step too.
use kt.Base.{
  ℕ, ◌+◌, ◌-◌, ◌*◌, ◌/◌, ◌%◌, ◌^◌, Bool, true, not, Option, none, some, List, [], ◌∷◌, get_elem?,
  set, ltb, leb, ◌==◌, if◌then◌else◌,
}
use kt.Cache.RadixTree.{RadixTree}
use kt.Cache.Pool.{Leaf, CachePool, kick_meta_cache, signed_lt}

-- A comparison of int64_t.
abbrev pub signed_le64 : ℕ → ℕ → Bool
signed_le64 a b = leb ((a + 2 ^ 63) % 2 ^ 64) ((b + 2 ^ 63) % 2 ^ 64)

-- A volume's pool in the table. The entries of `cache_pool_t` that its operations use are in `pool`.
pub record VolPool (T : Type 0) : Type 0 where
  pub volid : ℕ
  pub capacity : ℕ
  pub ref_cnt : ℕ
  pub pool : CachePool T

-- The chains of the hash table.
abbrev pub Table : Type 0 → Type 0
Table T = List (List (VolPool T))

-- The size of a large volume by what it is due and the items that are left, and those it leaves.
unfoldable pub large_size : ℕ → ℕ → ℕ
large_size due left = if not (signed_lt left due) then due else left

unfoldable pub large_left : ℕ → ℕ → ℕ
large_left due left = if not (signed_lt left due) then (left + (2 ^ 32 - due)) % 2 ^ 32 else 0

module _ {T : Type 0} where
  -- The blocks of a volume.
  abbrev pub need : VolPool T → ℕ
  need v = v.capacity / 2 ^ 12

  -- The size of a small volume, and the items that it leaves.
  unfoldable pub small_size : VolPool T → ℕ → ℕ
  small_size v left = if signed_le64 v.pool.cache_size left then need v % 2 ^ 32 else left % 2 ^ 32

  unfoldable pub small_left : VolPool T → ℕ → ℕ
  small_left v left =
      if signed_le64 v.pool.cache_size left then (left + (2 ^ 64 - need v % 2 ^ 32)) % 2 ^ 64 else 0

  -- `_find_cache_pool_nolock`.
  unfoldable pub find_cache_pool_nolock :
      ℕ → List (VolPool T) → Option (VolPool T) × List (VolPool T)
  find_cache_pool_nolock volid [] = (none, [])
  find_cache_pool_nolock volid (v ∷ vs) =
      let v' = record v { ref_cnt = (v.ref_cnt + 1) % 2 ^ 32 } in
      let (found, vs') = find_cache_pool_nolock volid vs in
      if v.volid == volid then (some v', v' ∷ vs) else (found, v ∷ vs')

  -- A chain of the table; one that it does not have is empty.
  abbrev pub chain : Table T → ℕ → List (VolPool T)
  chain tbl i = elim (get_elem? tbl i) [ none ↦ [] | some vs ↦ vs ]

  -- `hlist_del` of the first volume of an id.
  unfoldable pub hlist_del : ℕ → List (VolPool T) → List (VolPool T)
  hlist_del volid [] = []
  hlist_del volid (v ∷ vs) = if v.volid == volid then vs else v ∷ hlist_del volid vs

  -- `_rm_cache_pool_tbl`.
  unfoldable pub rm_cache_pool_tbl : Table T → ℕ → Table T
  unfolding hlist_del
  rm_cache_pool_tbl tbl volid = set tbl (volid % 257) (hlist_del volid (chain tbl (volid % 257)))

  -- `cacheMgr_get_cachePool_size`: the size and the number of items.
  unfoldable pub get_cache_pool_size : Table T → ℕ → ℕ × ℕ
  unfolding find_cache_pool_nolock
  get_cache_pool_size tbl volid = elim (find_cache_pool_nolock volid (chain tbl (volid % 257))).0 [
    | none ↦ (0, 0)
    | some v ↦ (v.pool.cache_size, v.pool.cache_num)
  ]

module _ (rt : RadixTree Leaf) where
  open rt use {Tree, empty}

  -- A pool over its size is kicked, if the test says so.
  abbrev pub trim : CachePool Tree → ℕ → Bool → CachePool Tree
  trim c size over =
      let c' = record c { cache_size = size } in
      if over
      then (kick_meta_cache rt c' ((c.cache_num + (2 ^ 32 - size)) % 2 ^ 32) (λ item. true)).0
      else c'

  -- The body of the loop of `_alloc_cachePoolSize_smallVol` for the items that are left and the
  -- need of the large volumes.
  unfoldable pub alloc_small : ℕ → VolPool Tree → ℕ → ℕ → VolPool Tree × ℕ × ℕ
  unfolding small_size small_left
  alloc_small small_max v left total =
      let c = v.pool in
      let size = small_size v left in
      if ltb small_max v.capacity
      then (v, left, (total + need v) % 2 ^ 64)
      else (record v { pool = trim c size (ltb size c.cache_num) }, small_left v left, total)

  unfoldable pub alloc_small_chain : ℕ → List (VolPool Tree) → ℕ → ℕ → List (VolPool Tree) × ℕ × ℕ
  unfolding alloc_small
  alloc_small_chain small_max [] left total = ([], left, total)
  alloc_small_chain small_max (v ∷ vs) left total =
      let (v', left', total') = alloc_small small_max v left total in
      let (vs', left'', total'') = alloc_small_chain small_max vs left' total' in
      (v' ∷ vs', left'', total'')

  -- `_alloc_cachePoolSize_smallVol`.
  unfoldable pub alloc_small_vol : ℕ → Table Tree → ℕ → ℕ → Table Tree × ℕ × ℕ
  unfolding alloc_small_chain
  alloc_small_vol small_max [] left total = ([], left, total)
  alloc_small_vol small_max (vs ∷ tbl) left total =
      let (vs', left', total') = alloc_small_chain small_max vs left total in
      let (tbl', left'', total'') = alloc_small_vol small_max tbl left' total' in
      (vs' ∷ tbl', left'', total'')

  -- What the large volume is due by the ratio of its size, as an int32_t.
  unfoldable pub cached_need : ℕ → ℕ → VolPool Tree → ℕ
  cached_need max total v =
      if signed_le64 total max then need v % 2 ^ 32 else ((max * need v) % 2 ^ 64) / total % 2 ^ 32

  -- The body of the loop of `_alloc_cachePoolSize_largeVol`.
  unfoldable pub alloc_large : ℕ → ℕ → ℕ → VolPool Tree → ℕ → VolPool Tree × ℕ
  unfolding cached_need large_size large_left
  alloc_large small_max max total v left =
      let due = cached_need max total v in
      let size = large_size due left in
      if leb v.capacity small_max then (v, left) else (
        record v { pool = trim v.pool size (signed_lt size v.pool.cache_num) },
        large_left due left,
      )

  unfoldable pub alloc_large_chain : ℕ → ℕ → ℕ → List (VolPool Tree) → ℕ → List (VolPool Tree) × ℕ
  unfolding alloc_large
  alloc_large_chain small_max max total [] left = ([], left)
  alloc_large_chain small_max max total (v ∷ vs) left =
      let (v', left') = alloc_large small_max max total v left in
      let (vs', left'') = alloc_large_chain small_max max total vs left' in (v' ∷ vs', left'')

  -- The loop of `_alloc_cachePoolSize_largeVol`.
  unfoldable pub alloc_large_vol : ℕ → ℕ → ℕ → Table Tree → ℕ → Table Tree × ℕ
  unfolding alloc_large_chain
  alloc_large_vol small_max max total [] left = ([], left)
  alloc_large_vol small_max max total (vs ∷ tbl) left =
      let (vs', left') = alloc_large_chain small_max max total vs left in
      let (tbl', left'') = alloc_large_vol small_max max total tbl left' in (vs' ∷ tbl', left'')

  -- `update_cache_pool_size`, for max_meta_cache_sizes and max_cap_cache_all_hit.
  unfoldable pub update_cache_pool_size : ℕ → ℕ → Table Tree → Table Tree
  unfolding alloc_small_vol alloc_large_vol
  update_cache_pool_size max small_max tbl =
      let (tbl', left, total) = alloc_small_vol small_max tbl max 0 in
      (alloc_large_vol small_max left total tbl' (left % 2 ^ 32)).0
