-- ===== src/Cache/Metadata.antt =====
-- metadata_manager/metadata_cache.c: _update_mdcache, which puts the metadata of a request into the
-- volume's pool, and cache_invalidate of common/cache.c, which it calls for what it cannot put.
use kt.Base.{
  ℕ, ◌+◌, Bool, true, false, not, ◌||◌, Option, none, some, List, [], ◌∷◌, length, ltb, ◌==◌,
  if◌then◌else◌,
}
use kt.Cache.RadixTree.{RadixTree}
use kt.Cache.Pool.{
  Leaf, CachePool, Result, ok, too_big, no_mem, cache_invalidate_vol_lb, cache_update,
}
use kt.Cache.Lru
use kt.Cache.Lru.{Lru}

-- A metadata item as the cache takes it: whether it is MData_VALID, its blocks, and the cache items
-- that `_alloc_chItem_arr` has allocated for them and `_split_metadata` filled, if memory could be had.
pub record MdEntry : Type 0 where
  pub valid : Bool
  pub num_hbids : ℕ
  pub ch_items : Option (List ℕ)

-- `discoC_mem_free` of the items that are still in the basket.
unfoldable pub free_basket : List (Option ℕ) → List ℕ → List ℕ
free_basket [] freed = freed
free_basket (none ∷ bs) freed = free_basket bs freed
free_basket (some item ∷ bs) freed = free_basket bs (item ∷ freed)

abbrev pub is_failed : Result → Bool
is_failed ok = false
is_failed too_big = true
is_failed no_mem = true

module _ (rt : RadixTree Leaf) (mem_alloc : ℕ → Bool) where
  open rt use {Tree, insert}

  -- The items of one metadata item, once they are allocated.
  unfoldable pub put_ch_items : CachePool Tree → ℕ → List ℕ → CachePool Tree
  unfolding cache_update cache_invalidate_vol_lb free_basket
  put_ch_items c start items =
      let (c', ret, basket) = cache_update rt mem_alloc c start items in
      let c'' = cache_invalidate_vol_lb rt c' start (length items) in
      if is_failed ret then record c'' { freed = free_basket basket c''.freed } else c'

  -- The loop of `_update_mdcache`.
  unfoldable pub update_mdcache : CachePool Tree → ℕ → List MdEntry → CachePool Tree
  unfolding put_ch_items cache_invalidate_vol_lb
  update_mdcache c start [] = c
  update_mdcache c start (m ∷ ms) =
      let inval = cache_invalidate_vol_lb rt c start m.num_hbids in
      let c' =
        if not m.valid
        then inval
        else elim m.ch_items [ none ↦ inval | some items ↦ put_ch_items c start items ] in
      update_mdcache c' (start + m.num_hbids) ms

-- What becomes of the entries of a pool when the cache items of n blocks come: if they are too many,
-- the blocks are dropped.
unfoldable pub lru_put_items : ℕ → ℕ → ℕ → List ℕ → Lru → Lru
lru_put_items size start n items es =
    if ltb size (length items) || size == 0
    then Lru.invalidate start n es
    else Lru.update size start items es

-- And when a request's metadata comes: the blocks of an item that is not valid or not allocated are
-- dropped.
unfoldable pub lru_mdcache : ℕ → ℕ → List MdEntry → Lru → Lru
lru_mdcache size start [] es = es
lru_mdcache size start (m ∷ ms) es =
    let inval = Lru.invalidate start m.num_hbids es in
    let es' = if not m.valid then inval else elim m.ch_items [
      | none ↦ inval
      | some items ↦ lru_put_items size start m.num_hbids items es
    ] in
    lru_mdcache size (start + m.num_hbids) ms es'
