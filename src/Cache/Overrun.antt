-- ===== src/Cache/Overrun.antt =====
-- A second run of update_cache_pool_size on a small volume that the first has cut.
use kt.Base.{ℕ, ◌^◌, ◌≤◌, ◌<◌, ◌≡◌, refl, true, false, [], ◌∷◌, arith, ltb, leb}
use kt.Cache.RadixTree.{RadixTree}
use kt.Cache.Pool.{Leaf}
use kt.Cache.Kept.{IsSound}
use kt.Cache.Sizes.{
  VolPool, Table, need, trim, small_size, signed_le64, alloc_small, alloc_small_chain,
  alloc_small_vol, alloc_large, alloc_large_chain, alloc_large_vol, update_cache_pool_size,
}
use kt.Cache.Trim.{trim-IsTrimmed}
use kt.Cache.Budget.{volumes, items}

module _ (rt : RadixTree Leaf) where
  open rt use {Tree}

  -- The volume on its own in the table.
  abbrev alone : VolPool Tree → Table Tree
  alone v = (v ∷ []) ∷ []

  abbrev cut : ℕ → VolPool Tree → VolPool Tree
  cut max v = record v {
    pool = trim rt v.pool (small_size v max) (ltb (small_size v max) v.pool.cache_num);
  }

  update_alone :
      (max small_max : ℕ) (v : VolPool Tree)
      → ltb small_max v.capacity ≡ false
      → update_cache_pool_size rt max small_max (alone v) ≡ alone (cut max v)
  unfolding update_cache_pool_size alloc_small_vol alloc_small_chain alloc_small alloc_large_vol
      alloc_large_chain alloc_large
  update_alone max small_max v little =
      let again : leb v.capacity small_max ≡ true = ground (arith, little) in
      rw (little, again) refl

  -- A small volume alone in the table, whose pool's list and tree agree, has a size of all the items
  -- that it needs, fewer than 2 ^ 31 but more than there are. The first run cuts it to those that
  -- there are, and the second gives it all that it needs: its size is compared with what is left, and
  -- not its need. So its size exceeds max_meta_cache_sizes.
  pub second_update_overruns :
      (max small_max : ℕ) (v : VolPool Tree)
      → IsSound rt v.pool
      → v.capacity ≤ small_max
      → need v < 2 ^ 31
      → v.pool.cache_size ≡ need v
      → max < need v
      → (let once = update_cache_pool_size rt max small_max (alone v) in
          let twice = update_cache_pool_size rt max small_max once in
          (items (volumes once) ≡ max)
          × (items (volumes twice) ≡ need v)
          × (max < items (volumes twice)))
  unfolding small_size
  second_update_overruns max small_max v s small few size more =
      let little : ltb small_max v.capacity ≡ false = ground (arith, small) in
      let short : signed_le64 v.pool.cache_size max ≡ false = ground (arith, size, more, few) in
      let first : small_size v max ≡ max = rw (small_size, short) (omega (arith, more, few)) in
      let t = trim-IsTrimmed rt v.pool (small_size v max) s (omega (arith, first, more, few)) in
      let cut_size = t.size in
      let enough : signed_le64 (cut max v).pool.cache_size max ≡ true =
        ground (arith, cut_size, first, more, few) in
      let second : small_size (cut max v) max ≡ need v =
        rw (small_size, enough) (omega (arith, few)) in
      let u =
        trim-IsTrimmed rt (cut max v).pool (small_size (cut max v) max) t.sound
          (omega (arith, second, few)) in
      let full_size = u.size in
      let one = update_alone max small_max v little in
      rw (one, update_alone max small_max (cut max v) little)
        (
          omega (arith, cut_size, first),
          omega (arith, full_size, second),
          omega (arith, full_size, second, more),
        )
