-- ===== src/Cache/Ratios.antt =====
-- The sizes that update_cache_pool_size gives out are no more than there are items.
use mathlib.Core.Path.{subst}
use kt.Base.{
  ℕ, ◌+◌, ◌^◌, ◌≤◌, ◌<◌, ◌≡◌, refl, true, false, List, [], ◌∷◌, arith, length, All, ltb, leb,
  if◌then◌else◌, Bool-cases, inl, inr, lt_or_le,
}
use kt.Cache.RadixTree.{RadixTree}
use kt.Cache.Pool.{Leaf, signed_lt}
use kt.Cache.Sizes.{
  VolPool, need, cached_need, large_size, large_left, alloc_large, alloc_large_chain,
}
use kt.Cache.Kept.{IsSound}
use kt.Cache.Trim.{trim-IsTrimmed, cached_need-le}
use kt.Cache.Shares.{small_items, large_items, large_need, IsDone}

module _ (rt : RadixTree Leaf) (small_max : ℕ) where
  open rt use {Tree}

  -- What is left after the large volumes.
  pub record IsLargeDone (vs : List (VolPool Tree)) (left : ℕ) (vs' : List (VolPool Tree))
      (left' : ℕ) : Type 0 where
    pub spent : large_items small_max vs' + left' ≡ left
    pub same : small_items small_max vs' ≡ small_items small_max vs
    pub done : All (λ v. IsSound rt v.pool × (length v.pool.lru_list ≤ v.pool.cache_size)) vs'

  portion :
      (due left : ℕ)
      → due < 2 ^ 31
      → left < 2 ^ 31
      → (large_size due left + large_left due left ≡ left) × (large_size due left < 2 ^ 31)
  unfolding large_size large_left
  portion due left small few = elim (lt_or_le left due) [
    | inl less ↦
        let test : signed_lt left due ≡ true = ground (arith, less, small, few) in
        rw (large_size, large_left, test) (omega (arith, few))
    | inr enough ↦
        let test : signed_lt left due ≡ false = ground (arith, enough, small, few) in
        rw (large_size, large_left, test) (omega (arith, enough, small, few))
  ]

  large_step :
      (max total : ℕ) (v : VolPool Tree) (left : ℕ)
      → IsDone rt small_max v
      → left < 2 ^ 31
      → max < 2 ^ 31
      → total < 2 ^ 32
      → large_need small_max (v ∷ []) ≤ total
      → (let (v', left') = alloc_large rt small_max max total v left in
          IsLargeDone (v ∷ []) left (v' ∷ []) left')
  unfolding alloc_large
  large_step max total v left d few small wide needs =
      elim (Bool-cases (leb v.capacity small_max)) [
        | inl little ↦
            let not_large : ltb small_max v.capacity ≡ false = ground (arith, little) in
            let fit =
              subst (λ b. (if b then 0 else length v.pool.lru_list) ≤ v.pool.cache_size) not_large
                d.fit in
            rw (alloc_large, little)
              (record {
                spent = rw not_large (omega arith);
                same = refl;
                done = ((d.sound, fit), tt);
              })
        | inr big ↦
            let large : ltb small_max v.capacity ≡ true = ground (arith, big) in
            let n : need v ≤ total = ground (arith, needs, large) in
            let due = cached_need-le rt max total v n small wide in
            let (sum, room) =
              portion (cached_need rt max total v) left (omega (arith, due, small)) few in
            let num = d.sound.num in
            let short = d.sound.small in
            let test : signed_lt (large_size (cached_need rt max total v) left) v.pool.cache_num
                ≡ ltb (large_size (cached_need rt max total v) left) v.pool.cache_num =
              ground (arith, room, num, short) in
            let t =
              trim-IsTrimmed rt v.pool (large_size (cached_need rt max total v) left) d.sound
                (omega (arith, room)) in
            let size = t.size in
            let fit = t.fit in
            rw (alloc_large, big, test)
              (record {
                spent = rw large (omega (arith, sum, size));
                same = rw large refl;
                done = ((t.sound, omega (arith, fit, size)), tt);
              })
      ]

  pub alloc_large_chain-IsLargeDone :
      (max total : ℕ) (vs : List (VolPool Tree)) (left : ℕ)
      → All (IsDone rt small_max) vs
      → left < 2 ^ 31
      → max < 2 ^ 31
      → total < 2 ^ 32
      → large_need small_max vs ≤ total
      → (let (vs', left') = alloc_large_chain rt small_max max total vs left in
          IsLargeDone vs left vs' left')
  unfolding alloc_large_chain
  alloc_large_chain-IsLargeDone max total [] left d few small wide needs = record {
    spent = omega arith;
    same = refl;
    done = tt;
  }
  alloc_large_chain-IsLargeDone max total (v ∷ vs) left (d, ds) few small wide needs =
      let one = large_step max total v left d few small wide (omega (arith, needs)) in
      let rest =
        alloc_large_chain-IsLargeDone max total vs (alloc_large rt small_max max total v left).1 ds
          (omega (arith, one.spent, few)) small wide (omega (arith, needs)) in
      record {
        spent = omega (arith, one.spent, rest.spent);
        same = omega (arith, one.same, rest.same);
        done = (one.done.0, rest.done);
      }
