-- ===== src/Cache/Budget.antt =====
-- The whole table of pools in update_cache_pool_size.
use mathlib.Core.Path.{subst}
use kt.Base.{
  ℕ, ◌+◌, ◌%◌, ◌^◌, ◌≤◌, ◌<◌, ◌≡◌, refl, ap, ◌∙◌, List, [], ◌∷◌, ◌++◌, arith, length, All,
  Bool-cases, inl, inr,
}
use kt.Cache.RadixTree.{RadixTree}
use kt.Cache.Pool.{Leaf}
use kt.Cache.Kept.{IsSound}
use kt.Cache.Sizes.{
  VolPool, Table, alloc_small, alloc_small_chain, alloc_small_vol, alloc_large, alloc_large_chain,
  alloc_large_vol, update_cache_pool_size,
}
use kt.Cache.Shares.{
  is_large, small_items, large_items, large_need, IsWhole, SoundVol, IsSmallDone,
  alloc_small_chain-IsSmallDone,
}
use kt.Cache.Ratios.{IsLargeDone, alloc_large_chain-IsLargeDone}

module _ {T : Type 0} where
  -- The volumes of a table.
  abbrev pub volumes : Table T → List (VolPool T)
  volumes [] = []
  volumes (vs ∷ tbl) = vs ++ volumes tbl

  -- The items that they may have together.
  abbrev pub items : List (VolPool T) → ℕ
  items [] = 0
  items (v ∷ vs) = v.pool.cache_size + items vs

  items-split :
      (small_max : ℕ) (vs : List (VolPool T))
      → items vs ≡ small_items small_max vs + large_items small_max vs
  items-split small_max [] = omega arith
  items-split small_max (v ∷ vs) =
      let rest = items-split small_max vs in
      elim (Bool-cases (is_large small_max v)) [
        | inl large ↦ rw large (omega (arith, rest))
        | inr little ↦ rw little (omega (arith, rest))
      ]

module _ (rt : RadixTree Leaf) where
  open rt use {Tree}

  alloc_small_chain-append :
      (small_max : ℕ) (vs ws : List (VolPool Tree)) (left total : ℕ)
      → alloc_small_chain rt small_max (vs ++ ws) left total ≡ (
          let (vs', left', total') = alloc_small_chain rt small_max vs left total in
          let (ws', left'', total'') = alloc_small_chain rt small_max ws left' total' in
          (vs' ++ ws', left'', total''))
  unfolding alloc_small_chain
  alloc_small_chain-append small_max [] ws left total = refl
  alloc_small_chain-append small_max (v ∷ vs) ws left total =
      ap (λ r. ((alloc_small rt small_max v left total).0 ∷ r.0, r.1, r.2))
        (alloc_small_chain-append small_max vs ws (alloc_small rt small_max v left total).1
          (alloc_small rt small_max v left total).2)

  alloc_small_vol-volumes :
      (small_max : ℕ) (tbl : Table Tree) (left total : ℕ)
      → alloc_small_chain rt small_max (volumes tbl) left total ≡ (
          let (tbl', left', total') = alloc_small_vol rt small_max tbl left total in
          (volumes tbl', left', total'))
  unfolding alloc_small_chain alloc_small_vol
  alloc_small_vol-volumes small_max [] left total = refl
  alloc_small_vol-volumes small_max (vs ∷ tbl) left total =
      let (vs', left', total') = alloc_small_chain rt small_max vs left total in
      alloc_small_chain-append small_max vs (volumes tbl) left total
      ∙ ap (λ r. (vs' ++ r.0, r.1, r.2)) (alloc_small_vol-volumes small_max tbl left' total')

  alloc_large_chain-append :
      (small_max max total : ℕ) (vs ws : List (VolPool Tree)) (left : ℕ)
      → alloc_large_chain rt small_max max total (vs ++ ws) left ≡ (
          let (vs', left') = alloc_large_chain rt small_max max total vs left in
          let (ws', left'') = alloc_large_chain rt small_max max total ws left' in
          (vs' ++ ws', left''))
  unfolding alloc_large_chain
  alloc_large_chain-append small_max max total [] ws left = refl
  alloc_large_chain-append small_max max total (v ∷ vs) ws left =
      ap (λ r. ((alloc_large rt small_max max total v left).0 ∷ r.0, r.1))
        (alloc_large_chain-append small_max max total vs ws
          (alloc_large rt small_max max total v left).1)

  alloc_large_vol-volumes :
      (small_max max total : ℕ) (tbl : Table Tree) (left : ℕ)
      → alloc_large_chain rt small_max max total (volumes tbl) left ≡ (
          let (tbl', left') = alloc_large_vol rt small_max max total tbl left in
          (volumes tbl', left'))
  unfolding alloc_large_chain alloc_large_vol
  alloc_large_vol-volumes small_max max total [] left = refl
  alloc_large_vol-volumes small_max max total (vs ∷ tbl) left =
      let (vs', left') = alloc_large_chain rt small_max max total vs left in
      alloc_large_chain-append small_max max total vs (volumes tbl) left
      ∙ ap (λ r. (vs' ++ r.0, r.1)) (alloc_large_vol-volumes small_max max total tbl left')

  -- Where the list and the tree of each pool agree, the size of each small volume is the number of
  -- its blocks, as it is from the creation of its pool until it is cut, and the large volumes have
  -- fewer than 2 ^ 32 blocks: fewer than 2 ^ 31 items are divided so that the sizes of all pools
  -- together are no more, and each pool's list and tree still agree, with no more leaves than its
  -- size.
  pub update_cache_pool_size-items :
      (max small_max : ℕ) (tbl : Table Tree)
      → All (SoundVol rt small_max) (volumes tbl)
      → All (IsWhole small_max) (volumes tbl)
      → max < 2 ^ 31
      → large_need small_max (volumes tbl) < 2 ^ 32
      → (items (volumes (update_cache_pool_size rt max small_max tbl)) ≤ max)
        × All
            (λ v. IsSound rt v.pool × (length v.pool.lru_list ≤ v.pool.cache_size))
            (volumes (update_cache_pool_size rt max small_max tbl))
  unfolding update_cache_pool_size
  update_cache_pool_size-items max small_max tbl sound whole few fits =
      let (tbl', left, total) = alloc_small_vol rt small_max tbl max 0 in
      let a =
        alloc_small_chain-IsSmallDone rt small_max (volumes tbl) max 0 sound whole few
          (omega (arith, fits)) in
      let r = alloc_small_vol-volumes small_max tbl max 0 in
      let s = subst (λ q. IsSmallDone rt small_max (volumes tbl) max 0 q.0 q.1 q.2) r a in
      let down : left % 2 ^ 32 ≡ left = omega (arith, s.spent, few) in
      let b =
        alloc_large_chain-IsLargeDone rt small_max left total (volumes tbl') (left % 2 ^ 32) s.done
          (omega (arith, s.spent, few, down)) (omega (arith, s.spent, few))
          (omega (arith, s.needs, fits)) (omega (arith, s.same, s.needs)) in
      let l =
        subst (λ q. IsLargeDone rt small_max (volumes tbl') (left % 2 ^ 32) q.0 q.1)
          (alloc_large_vol-volumes small_max left total tbl' (left % 2 ^ 32)) b in
      let split = items-split small_max (volumes (update_cache_pool_size rt max small_max tbl)) in
      (omega (arith, split, l.spent, l.same, s.spent, down), l.done)
