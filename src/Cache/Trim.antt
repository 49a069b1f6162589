-- ===== src/Cache/Trim.antt =====
-- What the distribution does to one pool.
use native.Mathlib.Nat.{mul-le-mul_left, mul-le-mul_right, div-le_of_le-mul}
use kt.Base.{
  ℕ, ◌+◌, ◌-◌, ◌*◌, ◌/◌, ◌%◌, ◌^◌, ◌≤◌, ◌<◌, ◌≡◌, refl, ap, ◌∙◌, true, false, arith, length, ltb,
  inl, inr, lt_or_le,
}
use kt.Cache.RadixTree.{RadixTree}
use kt.Cache.Pool.{Leaf, CachePool}
use kt.Cache.Sizes.{VolPool, need, trim, cached_need, signed_le64}
use kt.Cache.Kept.{IsSound}
use kt.Cache.Kicks.{kick_meta_cache-IsShorter}
use kt.Cache.Room.{length-take}

module _ (rt : RadixTree Leaf) where
  open rt use {Tree}

  -- A pool of a new size, within it.
  pub record IsTrimmed (n : ℕ) (c' : CachePool Tree) : Type 0 where
    pub size : c'.cache_size ≡ n
    pub fit : length c'.lru_list ≤ n
    pub sound : IsSound rt c'

  resized :
      (c : CachePool Tree) (size : ℕ) → IsSound rt c → IsSound rt (record c { cache_size = size })
  resized c size s = record {
    agree = s.agree;
    distinct = s.distinct;
    known = s.known;
    alive = s.alive;
    num = s.num;
    small = s.small;
  }

  pub trim-IsTrimmed :
      (c : CachePool Tree) (size : ℕ)
      → IsSound rt c
      → size < 2 ^ 32
      → IsTrimmed size (trim rt c size (ltb size c.cache_num))
  trim-IsTrimmed c size s fits = elim (lt_or_le size (length c.lru_list)) [
    | inl over ↦
        let num = s.num in
        let small = s.small in
        let test : ltb size c.cache_num ≡ true = ground (arith, over, num) in
        let n : (c.cache_num + (2 ^ 32 - size)) % 2 ^ 32 ≡ length c.lru_list - size =
          omega (arith, over, num, small, fits) in
        let k =
          kick_meta_cache-IsShorter rt (record c { cache_size = size }) (resized c size s)
            (length c.lru_list - size) (omega (arith, over)) (omega arith) in
        let len =
          ap length k.lru
          ∙ length-take (length c.lru_list - (length c.lru_list - size)) c.lru_list (omega arith) in
        rw (test, n) (record { size = k.size; fit = omega (arith, len, over); sound = k.sound })
    | inr under ↦
        let num = s.num in
        let test : ltb size c.cache_num ≡ false = ground (arith, under, num) in
        rw test (record { size = refl; fit = under; sound = resized c size s })
  ]

  -- A volume is never due more than there is.
  pub cached_need-le :
      (max total : ℕ) (v : VolPool Tree)
      → need v ≤ total
      → max < 2 ^ 31
      → total < 2 ^ 32
      → cached_need rt max total v ≤ max
  unfolding cached_need
  cached_need-le max total v le small few = elim (lt_or_le max total) [
    | inr plenty ↦
        let test : signed_le64 total max ≡ true = ground (arith, plenty, small, few) in
        rw (cached_need, test) (omega (arith, le, plenty, small))
    | inl scarce ↦
        let test : signed_le64 total max ≡ false = ground (arith, scarce, small, few) in
        let prod : max * need v ≤ max * total = mul-le-mul_left max le in
        let wide : max * total ≤ 2 ^ 31 * total = mul-le-mul_right total (omega (arith, small)) in
        let swap : max * total ≡ total * max = omega arith in
        let same : (max * need v) % 2 ^ 64 ≡ max * need v = omega (arith, prod, wide, few) in
        let q : (max * need v) / total ≤ max = div-le_of_le-mul total (omega (arith, prod, swap)) in
        rw (cached_need, test, same) (omega (arith, q, small))
  ]
