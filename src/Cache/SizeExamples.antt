-- ===== src/Cache/SizeExamples.antt =====
-- A table of two volumes, and one that is cut.
use kt.Base.{ℕ, ◌-◌, ◌^◌, true, ◌≤◌, ◌<◌, ◌≡◌, refl, Option, [], ◌∷◌, arith, All, length}
use kt.Cache.Pool.{Leaf, CachePool, cache_find, cache_update, find_leaf, kick_leaf}
use kt.Cache.Manager.{kick_pool, rm_all_cache_pool_tbl}
use kt.Cache.Clear.{kicked_onto, rm_all_cache_pool_tbl_ends}
use kt.Cache.Kept.{IsSound}
use kt.Cache.Sizes.{VolPool, Table, update_cache_pool_size}
use kt.Cache.Budget.{volumes, items, update_cache_pool_size-items}
use kt.Cache.Overrun.{second_update_overruns}
use kt.Cache.Examples.{
  function_tree, two_leaves, two_leaves-IsWithin, two_leaves_size, new_pool, new_pool-IsWithin,
}

-- A volume of two blocks, whose pool has two leaves.
abbrev small_vol : VolPool (ℕ → Option Leaf)
small_vol = record { volid = 258; capacity = 8192; ref_cnt = 0; pool = two_leaves }

-- A volume of 512 blocks.
abbrev large_vol : VolPool (ℕ → Option Leaf)
large_vol = record { volid = 1; capacity = 2097152; ref_cnt = 0; pool = new_pool }

abbrev two_volumes : Table (ℕ → Option Leaf)
two_volumes = [] ∷ (small_vol ∷ large_vol ∷ []) ∷ []

update_cache_pool_size-items_example :
    (items (volumes (update_cache_pool_size function_tree 100 1048576 two_volumes)) ≤ 100)
    × All
        (λ v. IsSound function_tree v.pool × (length v.pool.lru_list ≤ v.pool.cache_size))
        (volumes (update_cache_pool_size function_tree 100 1048576 two_volumes))
update_cache_pool_size-items_example =
    update_cache_pool_size-items function_tree 100 1048576 two_volumes
      (two_leaves-IsWithin.sound, (new_pool-IsWithin.sound, tt)) (two_leaves_size, (refl, tt))
      (omega arith) (omega arith)

second_update_overruns_example :
    (let once = update_cache_pool_size function_tree 1 1048576 ((small_vol ∷ []) ∷ []) in
      let twice = update_cache_pool_size function_tree 1 1048576 once in
      (items (volumes once) ≡ 1) × (items (volumes twice) ≡ 2) × (1 < items (volumes twice)))
second_update_overruns_example =
    second_update_overruns function_tree 1 1048576 small_vol two_leaves-IsWithin.sound (omega arith)
      (omega arith) two_leaves_size (omega arith)

-- One of the two leaves is referenced.
abbrev one_found : CachePool (ℕ → Option Leaf)
one_found = (cache_find function_tree two_leaves 5 1).0

-- The item of the leaf that is not referenced is freed.
kick_run : (kick_pool function_tree one_found (2 ^ 32 - 1) (λ item. true)).0.freed ≡ 60 ∷ []
unfolding kick_pool cache_find cache_update find_leaf kick_leaf
kick_run = refl

rm_all_cache_pool_tbl_ends_example :
    (let (tbl, gone) = rm_all_cache_pool_tbl function_tree 2 two_volumes [] in
      (volumes tbl ≡ [])
      × (length gone ≡ 2)
      × (gone ≡ kicked_onto function_tree (volumes two_volumes) [])
      × All (λ v. v.pool.lru_list ≡ []) gone)
rm_all_cache_pool_tbl_ends_example =
    rm_all_cache_pool_tbl_ends function_tree 2 two_volumes []
      (two_leaves-IsWithin.sound, (new_pool-IsWithin.sound, tt)) (omega arith) tt
