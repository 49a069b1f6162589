-- ===== src/Cache/Refine.antt =====
-- The pool does what the list of most recently used entries does.
use kt.Base.{
  ℕ, zero, suc, ◌+◌, ◌%◌, ◌^◌, ◌≤◌, ◌<◌, ◌≡◌, ◌≢◌, refl, ap, ap₂, ◌∙◌, Bool, true, none, List, [],
  ◌∷◌, arith, length, inl, inr,
}
use kt.Cache.RadixTree.{RadixTree}
use kt.Cache.Pool.{
  Leaf, CachePool, Result, ok, invalidate_lb, cache_invalidate_vol_lb, insert_leaf, update_item,
  update_loop,
}
use kt.Cache.Leaves.{length-remove_key-le}
use kt.Cache.Kept.{IsSound}
use kt.Cache.Steps.{Option-cases, invalidate_lb-IsLess}
use kt.Cache.Inserts.{inserted, inserted_ok}
use kt.Cache.Updates.{update_item_lem}
use kt.Cache.Lru
use kt.Cache.Lru.{Lru, view, view-remove_key, view-take, length-view}

module _ (rt : RadixTree Leaf) where
  open rt use {Tree, insert}

  abbrev pub entries : CachePool Tree → Lru
  entries c = view c.lru_list

  -- In a pool whose list and tree agree, invalidation of keys below 2 ^ 64 removes just these from
  -- the list, and list and tree still agree.
  pub cache_invalidate_vol_lb-invalidate :
      (c : CachePool Tree) (start count : ℕ)
      → start + count ≤ 2 ^ 64
      → IsSound rt c
      → (entries (cache_invalidate_vol_lb rt c start count)
          ≡ Lru.invalidate start count (entries c))
        × IsSound rt (cache_invalidate_vol_lb rt c start count)
  unfolding cache_invalidate_vol_lb Lru.invalidate
  cache_invalidate_vol_lb-invalidate c start zero le s = (refl, s)
  cache_invalidate_vol_lb-invalidate c start (suc n) le s =
      let key : start % 2 ^ 64 ≡ start = omega (arith, le) in
      let less = invalidate_lb-IsLess rt c start s in
      let (rest, sound) =
        cache_invalidate_vol_lb-invalidate (invalidate_lb rt c start) (start + 1) n
          (omega (arith, le)) less.sound in
      let one = ap view less.lru ∙ view-remove_key start c.lru_list in
      rw (cache_invalidate_vol_lb, key) (rest ∙ ap (Lru.invalidate (start + 1) n) one, sound)

  module _ (mem_alloc : ℕ → Bool) where
    -- However memory fails, the loop keeps the agreement and the size, and adds at most its items.
    pub record IsLoop (c c' : CachePool Tree) (n : ℕ) : Type 0 where
      pub sound : IsSound rt c'
      pub size : c'.cache_size ≡ c.cache_size
      pub grown : length c'.lru_list ≤ length c.lru_list + n

    pub update_item-IsLoop :
        (c : CachePool Tree) (k item : ℕ)
        → IsSound rt c
        → length c.lru_list + 1 < 2 ^ 31
        → IsLoop c (update_item rt mem_alloc c k item).0 1
    update_item-IsLoop c k item s room = elim (update_item_lem rt mem_alloc c k item s room) [
      | inl (m, r, a) ↦
          let e = ap length m.lru in
          let le = length-remove_key-le k c.lru_list in
          record { sound = m.sound; size = m.size; grown = omega (arith, e, le) }
      | inr l ↦
          let e = ap length l.lru in
          record { sound = l.sound; size = l.size; grown = omega (arith, e) }
    ]

    pub update_loop-IsLoop :
        (c : CachePool Tree) (k : ℕ) (items : List ℕ) (ret : Result)
        → IsSound rt c
        → length c.lru_list + length items < 2 ^ 31
        → IsLoop c (update_loop rt mem_alloc c k items ret).0 (length items)
    unfolding update_loop
    update_loop-IsLoop c k [] ret s room = record { sound = s; size = refl; grown = omega arith }
    update_loop-IsLoop c k (item ∷ items) ret s room =
        let one = update_item-IsLoop c (k % 2 ^ 64) item s (omega (arith, room)) in
        let rest =
          update_loop-IsLoop (update_item rt mem_alloc c (k % 2 ^ 64) item).0 (k + 1) items
            (update_item rt mem_alloc c (k % 2 ^ 64) item).1 one.sound
            (omega (arith, one.grown, room)) in
        record {
          sound = rest.sound;
          size = rest.size ∙ one.size;
          grown = omega (arith, rest.grown, one.grown);
        }

    -- With memory for every leaf and every node of the tree, the loop puts each item.
    module _ (mem : (a : ℕ) → mem_alloc a ≡ true)
        (ins : (t : Tree) (k : ℕ) (l : Leaf) → insert t k l ≢ none) where
      pub update_item-put :
          (c : CachePool Tree) (k item : ℕ)
          → IsSound rt c
          → length c.lru_list + 1 < 2 ^ 31
          → (entries (update_item rt mem_alloc c k item).0 ≡ Lru.put k item (entries c))
            × ((update_item rt mem_alloc c k item).1 ≡ ok)
      unfolding update_item Lru.put view insert_leaf
      update_item-put c k item s room =
          let l : Leaf = record { addr = c.next_addr; item = item; blkid = k } in
          elim (Option-cases (insert c.tree k l)) [
            | inl short ↦ absurd (ins c.tree k l short)
            | inr ((t, old), e) ↦
                let m = inserted rt c l s refl room t old e in
                rw (update_item, mem c.next_addr)
                  (
                    ap view m.lru
                        ∙ ap₂ (λ k es. (k, m.new.item) ∷ es) m.key (view-remove_key k c.lru_list)
                        ∙ ap (λ i. (k, i) ∷ Lru.remove k (view c.lru_list)) m.same_item,
                    inserted_ok rt c l s refl room t old e,
                  )
          ]

      pub update_loop-put_all :
          (c : CachePool Tree) (k : ℕ) (items : List ℕ)
          → IsSound rt c
          → k + length items ≤ 2 ^ 64
          → length c.lru_list + length items < 2 ^ 31
          → (entries (update_loop rt mem_alloc c k items ok).0 ≡ Lru.put_all k items (entries c))
            × ((update_loop rt mem_alloc c k items ok).1 ≡ ok)
      unfolding update_loop Lru.put_all
      update_loop-put_all c k [] s le room = (refl, refl)
      update_loop-put_all c k (item ∷ items) s le room =
          let key : k % 2 ^ 64 ≡ k = omega (arith, le) in
          let (put, fine) = update_item-put c k item s (omega (arith, room)) in
          let one = update_item-IsLoop c k item s (omega (arith, room)) in
          let (rest, good) =
            update_loop-put_all (update_item rt mem_alloc c k item).0 (k + 1) items one.sound
              (omega (arith, le)) (omega (arith, one.grown, room)) in
          rw (update_loop, key, fine) (rest ∙ ap (Lru.put_all (k + 1) items) put, good)
