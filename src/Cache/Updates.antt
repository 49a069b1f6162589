-- ===== src/Cache/Updates.antt =====
-- The loops of cache_update and __kick_meta_cache.
use kt.Base.{ℕ, ◌+◌, ◌^◌, ◌<◌, ◌≡◌, ◌⊎◌, refl, Bool, true, length, Bool-cases, inl, inr}
use kt.Cache.RadixTree.{RadixTree}
use kt.Cache.Pool.{Leaf, Result, ok, no_mem, CachePool, update_item}
use kt.Cache.Kept.{IsSound}
use kt.Cache.Steps.{Option-cases}
use kt.Cache.Inserts.{
  IsMore, refused_lem, refused-IsSound, unallocated-IsSound, inserted, inserted_ok,
}

module _ (rt : RadixTree Leaf) where
  open rt use {Tree, lookup, insert, delete, lookup-delete_self, lookup-delete_other}

  -- An item is added, or memory was short and the list is as before.
  pub record IsLeft (c c' : CachePool Tree) (r : Result) : Type 0 where
    pub lru : c'.lru_list ≡ c.lru_list
    pub short : r ≡ no_mem
    pub size : c'.cache_size ≡ c.cache_size
    pub sound : IsSound rt c'

  module _ (mem_alloc : ℕ → Bool) where
    pub update_item_lem :
        (c : CachePool Tree) (k item : ℕ)
        → IsSound rt c
        → length c.lru_list + 1 < 2 ^ 31
        → (IsMore rt c k item (update_item rt mem_alloc c k item).0
            × ((update_item rt mem_alloc c k item).1 ≡ ok)
            × (mem_alloc c.next_addr ≡ true))
          ⊎ IsLeft c (update_item rt mem_alloc c k item).0 (update_item rt mem_alloc c k item).1
    unfolding update_item
    update_item_lem c k item s room =
        let l : Leaf = record { addr = c.next_addr; item = item; blkid = k } in
        elim (Bool-cases (mem_alloc c.next_addr)) [
          | inl mem ↦ elim (Option-cases (insert c.tree k l)) [
            | inl short ↦
                rw (update_item, mem, refused_lem rt c l s refl room short)
                  (inr (record {
                    lru = refl;
                    short = refl;
                    size = refl;
                    sound = refused-IsSound rt c l s refl room;
                  }))
            | inr ((t, old), ins) ↦
                rw (update_item, mem)
                  (inl (
                    inserted rt c l s refl room t old ins,
                    inserted_ok rt c l s refl room t old ins,
                    refl,
                  ))
          ]
          | inr short ↦
              rw (update_item, short)
                (inr (record {
                  lru = refl;
                  short = refl;
                  size = refl;
                  sound = unallocated-IsSound rt c l s refl room;
                }))
        ]
