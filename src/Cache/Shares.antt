-- ===== src/Cache/Shares.antt =====
-- The sizes that update_cache_pool_size gives out are no more than there are items.
use mathlib.Core.Path.{subst}
use kt.Base.{
  ℕ, ◌+◌, ◌%◌, ◌^◌, ◌≤◌, ◌<◌, ◌≡◌, refl, Bool, List, [], ◌∷◌, arith, length, All, ltb,
  if◌then◌else◌, Bool-cases, inl, inr,
}
use kt.Cache.RadixTree.{RadixTree}
use kt.Cache.Pool.{Leaf}
use kt.Cache.Sizes.{
  VolPool, need, signed_le64, small_size, small_left, alloc_small, alloc_small_chain,
}
use kt.Cache.Kept.{IsSound}
use kt.Cache.Trim.{trim-IsTrimmed}

module _ {T : Type 0} (small_max : ℕ) where
  abbrev pub is_large : VolPool T → Bool
  is_large v = ltb small_max v.capacity

  -- The items given to small volumes, and to large ones, and what the large ones need.
  abbrev pub small_items : List (VolPool T) → ℕ
  small_items [] = 0
  small_items (v ∷ vs) = (if is_large v then 0 else v.pool.cache_size) + small_items vs

  abbrev pub large_items : List (VolPool T) → ℕ
  large_items [] = 0
  large_items (v ∷ vs) = (if is_large v then v.pool.cache_size else 0) + large_items vs

  abbrev pub large_need : List (VolPool T) → ℕ
  large_need [] = 0
  large_need (v ∷ vs) = (if is_large v then need v else 0) + large_need vs

  -- A small volume has all the items that it needs.
  abbrev pub IsWhole : VolPool T → Type 0
  IsWhole v =
      (if is_large v then 0 else v.pool.cache_size) ≡ (if is_large v then 0 else need v % 2 ^ 32)

module _ (rt : RadixTree Leaf) (small_max : ℕ) where
  open rt use {Tree}

  abbrev pub SoundVol : VolPool Tree → Type 0
  SoundVol v = IsSound rt v.pool

  -- A small volume is within its size.
  pub record IsDone (v : VolPool Tree) : Type 0 where
    pub sound : IsSound rt v.pool
    pub fit : (if is_large small_max v then 0 else length v.pool.lru_list) ≤ v.pool.cache_size

  -- What is left after the small volumes, and what the large ones need.
  pub record IsSmallDone (vs : List (VolPool Tree)) (left total : ℕ) (vs' : List (VolPool Tree))
      (left' total' : ℕ) : Type 0 where
    pub spent : small_items small_max vs' + left' ≡ left
    pub needs : total' ≡ total + large_need small_max vs
    pub same : large_need small_max vs' ≡ large_need small_max vs
    pub done : All IsDone vs'

  share :
      (v : VolPool Tree) (left : ℕ)
      → v.pool.cache_size ≡ need v % 2 ^ 32
      → left < 2 ^ 31
      → (small_size v left + small_left v left ≡ left) × (small_size v left < 2 ^ 32)
  unfolding small_size small_left
  share v left whole few = elim (Bool-cases (signed_le64 v.pool.cache_size left)) [
    | inl enough ↦
        let le : need v % 2 ^ 32 ≤ left = ground (arith, enough, few, whole) in
        rw (small_size, small_left, enough) (omega (arith, le, few))
    | inr short ↦ rw (small_size, small_left, short) (omega (arith, few))
  ]

  small_step :
      (v : VolPool Tree) (left total : ℕ)
      → IsSound rt v.pool
      → IsWhole small_max v
      → left < 2 ^ 31
      → total + large_need small_max (v ∷ []) < 2 ^ 64
      → (let (v', left', total') = alloc_small rt small_max v left total in
          IsSmallDone (v ∷ []) left total (v' ∷ []) left' total')
  unfolding alloc_small
  small_step v left total s whole few fits = elim (Bool-cases (ltb small_max v.capacity)) [
    | inl large ↦
        rw (alloc_small, large)
          (record {
            spent = rw large (omega arith);
            needs = ground (arith, fits, large);
            same = refl;
            done = (record { sound = s; fit = ground (arith, large) }, tt);
          })
    | inr little ↦
        let w : v.pool.cache_size ≡ need v % 2 ^ 32 =
          subst (λ b. (if b then 0 else v.pool.cache_size) ≡ (if b then 0 else need v % 2 ^ 32))
            little whole in
        let (sum, wide) = share v left w few in
        let t = trim-IsTrimmed rt v.pool (small_size v left) s wide in
        let size = t.size in
        let fit = t.fit in
        rw (alloc_small, little)
          (record {
            spent = rw little (omega (arith, sum, size));
            needs = rw little (omega arith);
            same = refl;
            done = (record { sound = t.sound; fit = rw little (omega (arith, size, fit)) }, tt);
          })
  ]

  pub alloc_small_chain-IsSmallDone :
      (vs : List (VolPool Tree)) (left total : ℕ)
      → All SoundVol vs
      → All (IsWhole small_max) vs
      → left < 2 ^ 31
      → total + large_need small_max vs < 2 ^ 64
      → (let (vs', left', total') = alloc_small_chain rt small_max vs left total in
          IsSmallDone vs left total vs' left' total')
  unfolding alloc_small_chain
  alloc_small_chain-IsSmallDone [] left total s whole few fits = record {
    spent = omega arith;
    needs = omega arith;
    same = refl;
    done = tt;
  }
  alloc_small_chain-IsSmallDone (v ∷ vs) left total (s, ss) (whole, wholes) few fits =
      let one = small_step v left total s whole few (omega (arith, fits)) in
      let rest =
        alloc_small_chain-IsSmallDone vs (alloc_small rt small_max v left total).1
          (alloc_small rt small_max v left total).2 ss wholes (omega (arith, one.spent, few))
          (omega (arith, one.needs, fits)) in
      record {
        spent = omega (arith, one.spent, rest.spent);
        needs = omega (arith, one.needs, rest.needs);
        same = omega (arith, one.same, rest.same);
        done = (one.done.0, rest.done);
      }
