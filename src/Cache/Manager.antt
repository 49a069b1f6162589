-- ===== src/Cache/Manager.antt =====
-- The pools of the table in cache.c: kicking them, and creating and releasing them. Waiting for the
-- last reference of a pool is one step.
use kt.Base.{
  ℕ, zero, suc, ◌+◌, ◌-◌, ◌%◌, ◌/◌, ◌^◌, Bool, true, false, Option, none, some, List, [], map, ◌∷◌,
  set, ◌==◌, if◌then◌else◌,
}
use kt.Cache.RadixTree.{RadixTree}
use kt.Cache.Pool.{Leaf, CachePool, kick_meta_cache}
use kt.Cache.Sizes.{
  VolPool, Table, find_cache_pool_nolock, chain, rm_cache_pool_tbl, update_cache_pool_size,
}

module _ (rt : RadixTree Leaf) where
  open rt use {Tree, empty}

  -- A pool is kicked again while a leaf of it is referenced, for so many times.
  unfoldable pub kick_retry : ℕ → CachePool Tree × Bool → CachePool Tree × Bool
  unfolding kick_meta_cache
  kick_retry zero r = r
  kick_retry (suc n) (c, ret) =
      let rest = kick_retry n (kick_meta_cache rt c (2 ^ 32 - 1) (λ item. true)) in
      if ret then rest else (c, ret)

  -- `__kick_meta_cache` and the retries after it.
  unfoldable pub kick_pool : CachePool Tree → ℕ → (ℕ → Bool) → CachePool Tree × Bool
  unfolding kick_retry kick_meta_cache
  kick_pool c count md_cmp = kick_retry 30 (kick_meta_cache rt c count md_cmp)

  abbrev pub kicked : (ℕ → Bool) → VolPool Tree → VolPool Tree
  kicked md_cmp v = record v { pool = (kick_pool v.pool (2 ^ 32 - 1) md_cmp).0 }

  -- `_cache_kick_allpool`.
  unfoldable pub cache_kick_allpool : Table Tree → (ℕ → Bool) → Table Tree
  unfolding kick_pool
  cache_kick_allpool tbl md_cmp = map (map (kicked md_cmp)) tbl

  -- What is done to the first volume of an id.
  unfoldable pub at_volume :
      (CachePool Tree → CachePool Tree) → ℕ → List (VolPool Tree) → List (VolPool Tree)
  at_volume f volid [] = []
  at_volume f volid (v ∷ vs) =
      if v.volid == volid then record v { pool = f v.pool } ∷ vs else v ∷ at_volume f volid vs

  -- `kick_meta_cache`, for a volume or, at -1, for all.
  unfoldable pub kick_volume : Table Tree → ℕ → ℕ → (ℕ → Bool) → Table Tree
  unfolding cache_kick_allpool kick_pool at_volume
  kick_volume tbl vid count md_cmp =
      if vid == 2 ^ 64 - 1
      then cache_kick_allpool tbl md_cmp
      else set tbl (vid % 257)
          (at_volume (λ c. (kick_pool c count md_cmp).0) vid (chain tbl (vid % 257)))

  abbrev pub new_volume : ℕ → ℕ → VolPool Tree
  new_volume volid capacity = record {
    volid = volid;
    capacity = capacity;
    ref_cnt = 0;
    pool = record {
      cache_num = 0;
      cache_size = capacity / 2 ^ 12 % 2 ^ 32;
      tree = empty;
      lru_list = [];
      flags = λ a. record { count = 0; is_delete = false };
      next_addr = 0;
      freed = [];
    };
  }

  -- `_add_cache_pool_tbl`: the table, and whether the volume had no pool yet. One that is found keeps
  -- a reference.
  unfoldable pub add_cache_pool_tbl : ℕ → ℕ → Table Tree → VolPool Tree → Table Tree × Bool
  unfolding find_cache_pool_nolock update_cache_pool_size
  add_cache_pool_tbl max small_max tbl v =
      let i = v.volid % 257 in
      let (found, vs) = find_cache_pool_nolock v.volid (chain tbl i) in
      elim found [
        | none ↦ (update_cache_pool_size rt max small_max (set tbl i (v ∷ chain tbl i)), true)
        | some w ↦ (update_cache_pool_size rt max small_max (set tbl i vs), false)
      ]

  -- `cacheMgr_create_pool` where memory can be had or not: the table and the result. The new pool of
  -- a volume that has one already is freed again, and this is no error.
  unfoldable pub create_pool : ℕ → ℕ → Bool → Table Tree → ℕ → ℕ → Table Tree × Bool
  unfolding add_cache_pool_tbl
  create_pool max small_max mem_alloc tbl volid capacity =
      let tbl' = (add_cache_pool_tbl max small_max tbl (new_volume volid capacity)).0 in
      if mem_alloc then (tbl', true) else (tbl, false)

  -- `cacheMgr_rel_pool`: the table, and whether the pool that was in it is freed.
  unfoldable pub rel_pool : ℕ → ℕ → Table Tree → ℕ → Table Tree × Bool
  unfolding kick_volume rm_cache_pool_tbl find_cache_pool_nolock update_cache_pool_size
  rel_pool max small_max tbl vid =
      let tbl' = kick_volume tbl vid (2 ^ 32 - 1) (λ item. true) in
      elim (find_cache_pool_nolock vid (chain tbl' (vid % 257))).0 [
        | none ↦ (tbl', false)
        | some v ↦ (
          update_cache_pool_size rt max small_max (rm_cache_pool_tbl tbl' vid),
          (v.ref_cnt + (2 ^ 32 - 1)) % 2 ^ 32 == 0,
        )
      ]

  -- A volume taken out of the first chain that has one.
  unfoldable pub rm_first : Table Tree → Option (VolPool Tree × Table Tree)
  rm_first [] = none
  rm_first ([] ∷ tbl) = elim (rm_first tbl) [ none ↦ none | some (v, tbl') ↦ some (v, [] ∷ tbl') ]
  rm_first ((v ∷ vs) ∷ tbl) = some (v, vs ∷ tbl)

  -- `_rm_all_cache_pool_tbl`, for so many rounds: the table, and the pools that were taken out and
  -- kicked, the last first.
  unfoldable pub rm_all_cache_pool_tbl :
      ℕ → Table Tree → List (VolPool Tree) → Table Tree × List (VolPool Tree)
  unfolding rm_first kick_pool
  rm_all_cache_pool_tbl zero tbl gone = (tbl, gone)
  rm_all_cache_pool_tbl (suc n) tbl gone = elim (rm_first tbl) [
    | none ↦ (tbl, gone)
    | some (v, tbl') ↦ rm_all_cache_pool_tbl n tbl' (kicked (λ item. true) v ∷ gone)
  ]
