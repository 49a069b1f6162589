-- ===== src/Cache/Composition.antt =====
-- What a whole _update_mdcache does to the entries of a pool.
use mathlib.Core.Path.{subst}
use kt.Base.{
  ℕ, zero, suc, ◌+◌, ◌%◌, ◌^◌, ◌≤◌, ◌≡◌, ◌≢◌, refl, ap, ap₂, ◌∙◌, Bool, true, false, ◌||◌, none,
  some, List, [], ◌∷◌, arith, length, All, ltb, ◌==◌, Bool-cases, inl, inr,
}
use kt.Cache.RadixTree.{RadixTree}
use kt.Cache.Pool.{Leaf, CachePool, invalidate_lb, cache_invalidate_vol_lb, cache_update}
use kt.Cache.Leaves.{length-remove_key-le}
use kt.Cache.Kept.{IsSound}
use kt.Cache.Steps.{Option-cases, invalidate_lb-IsLess}
use kt.Cache.Refine.{entries, cache_invalidate_vol_lb-invalidate}
use kt.Cache.Room.{IsWithin, cache_update-IsWithin, cache_update-Lru}
use kt.Cache.Metadata.{MdEntry, is_failed, put_ch_items, update_mdcache, lru_put_items, lru_mdcache}
use kt.Cache.Lru
use kt.Cache.Lru.{Lru}

-- The cache items of an entry are as many as its blocks.
abbrev pub IsSized : MdEntry → Type 0
IsSized m = elim m.ch_items [ none ↦ Unit | some items ↦ length items ≡ m.num_hbids ]

abbrev pub blocks : List MdEntry → ℕ
blocks [] = 0
blocks (m ∷ ms) = m.num_hbids + blocks ms

module _ (rt : RadixTree Leaf) where
  open rt use {Tree, insert}

  -- A pool with the entries es, within the size that it had.
  pub record IsAt (c : CachePool Tree) (es : Lru) (c' : CachePool Tree) : Type 0 where
    pub entries_are : entries rt c' ≡ es
    pub size : c'.cache_size ≡ c.cache_size
    pub within : IsWithin rt c'

  inval_kept :
      (c : CachePool Tree) (start n : ℕ)
      → IsSound rt c
      → ((cache_invalidate_vol_lb rt c start n).cache_size ≡ c.cache_size)
        × (length (cache_invalidate_vol_lb rt c start n).lru_list ≤ length c.lru_list)
  unfolding cache_invalidate_vol_lb
  inval_kept c start zero s = (refl, omega arith)
  inval_kept c start (suc n) s =
      let k = start % 2 ^ 64 in
      let less = invalidate_lb-IsLess rt c k s in
      let (size, le) = inval_kept (invalidate_lb rt c k) (start + 1) n less.sound in
      let fewer = length-remove_key-le k c.lru_list in
      let len = ap length less.lru in (size ∙ less.size, omega (arith, le, fewer, len))

  inval-IsAt :
      (c : CachePool Tree) (start n : ℕ)
      → IsWithin rt c
      → start + n ≤ 2 ^ 64
      → IsAt c (Lru.invalidate start n (entries rt c)) (cache_invalidate_vol_lb rt c start n)
  inval-IsAt c start n w le =
      let (same, sound) = cache_invalidate_vol_lb-invalidate rt c start n le w.sound in
      let (size, fewer) = inval_kept c start n w.sound in
      let small = w.small in
      let full = w.full in
      record {
        entries_are = same;
        size = size;
        within = record {
          sound = sound;
          small = omega (arith, size, small);
          full = omega (arith, size, fewer, full);
        };
      }

  -- What has been freed is no matter for it.
  refreed :
      (c0 : CachePool Tree) (es : Lru) (c : CachePool Tree) (freed : List ℕ)
      → IsAt c0 es c
      → IsAt c0 es (record c { freed = freed })
  refreed c0 es c freed h =
      let s = h.within.sound in
      record {
        entries_are = h.entries_are;
        size = h.size;
        within = record {
          sound = record {
            agree = s.agree;
            distinct = s.distinct;
            known = s.known;
            alive = s.alive;
            num = s.num;
            small = s.small;
          };
          small = h.within.small;
          full = h.within.full;
        };
      }

  module _ (mem_alloc : ℕ → Bool) (mem : (a : ℕ) → mem_alloc a ≡ true)
      (ins : (t : Tree) (k : ℕ) (l : Leaf) → insert t k l ≢ none) where
    put_big :
        (c : CachePool Tree) (start : ℕ) (items : List ℕ)
        → IsWithin rt c
        → start + length items ≤ 2 ^ 64
        → (ltb c.cache_size (length items) || c.cache_size == 0) ≡ true
        → IsAt c
            (Lru.invalidate start (length items) (entries rt c))
            (put_ch_items rt mem_alloc c start items)
    unfolding put_ch_items Lru.update
    put_big c start items w le big =
        let c' = (cache_update rt mem_alloc c start items).0 in
        let (within, size) = cache_update-IsWithin rt mem_alloc c start items w in
        let (same, ret) = cache_update-Lru rt mem_alloc c start items w mem ins le in
        let failed : is_failed (cache_update rt mem_alloc c start items).1 ≡ true =
          ap is_failed ret ∙ rw big refl in
        let kept : Lru.update c.cache_size start items (entries rt c) ≡ entries rt c =
          rw (Lru.update, big) refl in
        let inval = inval-IsAt c' start (length items) within le in
        rw (put_ch_items, failed)
          (refreed c (Lru.invalidate start (length items) (entries rt c))
            (cache_invalidate_vol_lb rt c' start (length items)) _
            (record {
              entries_are =
                  inval.entries_are ∙ ap (Lru.invalidate start (length items)) (same ∙ kept);
              size = inval.size ∙ size;
              within = inval.within;
            }))

    put_fits :
        (c : CachePool Tree) (start : ℕ) (items : List ℕ)
        → IsWithin rt c
        → start + length items ≤ 2 ^ 64
        → (ltb c.cache_size (length items) || c.cache_size == 0) ≡ false
        → IsAt c
            (Lru.update c.cache_size start items (entries rt c))
            (put_ch_items rt mem_alloc c start items)
    unfolding put_ch_items
    put_fits c start items w le fits =
        let (within, size) = cache_update-IsWithin rt mem_alloc c start items w in
        let (same, ret) = cache_update-Lru rt mem_alloc c start items w mem ins le in
        let done : is_failed (cache_update rt mem_alloc c start items).1 ≡ false =
          ap is_failed ret ∙ rw fits refl in
        rw (put_ch_items, done) (record { entries_are = same; size = size; within = within })

    put-IsAt :
        (c : CachePool Tree) (start n : ℕ) (items : List ℕ)
        → IsWithin rt c
        → length items ≡ n
        → start + n ≤ 2 ^ 64
        → IsAt c
            (lru_put_items c.cache_size start n items (entries rt c))
            (put_ch_items rt mem_alloc c start items)
    unfolding lru_put_items
    put-IsAt c start n items w e le =
        elim (Bool-cases (ltb c.cache_size (length items) || c.cache_size == 0)) [
          | inl big ↦
              rw (lru_put_items, big)
                (subst
                  (λ k.
                    IsAt c (Lru.invalidate start k (entries rt c))
                      (put_ch_items rt mem_alloc c start items))
                  e (put_big c start items w (omega (arith, le, e)) big))
          | inr fits ↦
              rw (lru_put_items, fits) (put_fits c start items w (omega (arith, le, e)) fits)
        ]

    entry-IsAt :
        (c : CachePool Tree) (start : ℕ) (m : MdEntry)
        → IsWithin rt c
        → IsSized m
        → start + m.num_hbids ≤ 2 ^ 64
        → IsAt c
            (lru_mdcache c.cache_size start (m ∷ []) (entries rt c))
            (update_mdcache rt mem_alloc c start (m ∷ []))
    unfolding update_mdcache lru_mdcache
    entry-IsAt c start m w sized le =
        let inval = inval-IsAt c start m.num_hbids w le in
        elim (Bool-cases m.valid) [
          | inr bad ↦ rw (update_mdcache, lru_mdcache, bad) inval
          | inl good ↦ elim (Option-cases m.ch_items) [
            | inl short ↦ rw (update_mdcache, lru_mdcache, good, short) inval
            | inr (items, e) ↦
                let n =
                  subst (λ o. elim o [ none ↦ Unit | some items ↦ length items ≡ m.num_hbids ]) e
                    sized in
                rw (update_mdcache, lru_mdcache, good, e)
                  (put-IsAt c start m.num_hbids items w n le)
          ]
        ]

    -- With memory for all leaves and nodes, the metadata of a request whose blocks lie below 2 ^ 64
    -- does to the entries of a pool that is within its size and whose list and tree agree, item after
    -- item, what lru_mdcache does: an item that is not valid, has no cache items or does not fit into
    -- the pool drops its blocks, every other one is put. Each item has a cache item for each block, if
    -- it has any; and the pool stays within its size, its list and tree in agreement.
    pub update_mdcache-Lru :
        (c : CachePool Tree) (start : ℕ) (ms : List MdEntry)
        → IsWithin rt c
        → All IsSized ms
        → start + blocks ms ≤ 2 ^ 64
        → IsAt c
            (lru_mdcache c.cache_size start ms (entries rt c))
            (update_mdcache rt mem_alloc c start ms)
    unfolding update_mdcache lru_mdcache
    update_mdcache-Lru c start [] w sized le = record {
      entries_are = refl;
      size = refl;
      within = w;
    }
    update_mdcache-Lru c start (m ∷ ms) w (sized, rest_sized) le =
        let one = entry-IsAt c start m w sized (omega (arith, le)) in
        let rest =
          update_mdcache-Lru (update_mdcache rt mem_alloc c start (m ∷ [])) (start + m.num_hbids) ms
            one.within rest_sized (omega (arith, le)) in
        record {
          entries_are =
              rest.entries_are
              ∙ ap₂ (λ n es. lru_mdcache n (start + m.num_hbids) ms es) one.size one.entries_are;
          size = rest.size ∙ one.size;
          within = rest.within;
        }
