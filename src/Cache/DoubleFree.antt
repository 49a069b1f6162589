-- ===== src/Cache/DoubleFree.antt =====
-- A cache item for which the tree has no memory.
use kt.Base.{
  ℕ, ◌+◌, ◌%◌, ◌^◌, ◌<◌, ◌≡◌, refl, ap, ◌∙◌, true, false, ◌||◌, Option, none, some, [], ◌∷◌, arith,
  length, ltb, ◌==◌,
}
use kt.Cache.RadixTree.{RadixTree}
use kt.Cache.Pool.{
  Leaf, CachePool, Result, no_mem, update_item, invalidate_lb, cache_invalidate_vol_lb, update_loop,
  cache_update, make_room,
}
use kt.Cache.Leaves.{find_key}
use kt.Cache.Kept.{IsSound}
use kt.Cache.Inserts.{ready, refused_lem, refused-IsSound}
use kt.Cache.Room.{IsWithin, make_room-IsReady}
use kt.Cache.Metadata.{put_ch_items, free_basket}

module _ (rt : RadixTree Leaf) where
  open rt use {Tree, insert, delete_old}

  -- A key that the pool does not have changes nothing that is freed.
  inval_absent :
      (c : CachePool Tree) (k : ℕ)
      → IsSound rt c
      → find_key k c.lru_list ≡ none
      → k < 2 ^ 64
      → (cache_invalidate_vol_lb rt c k 1).freed ≡ c.freed
  unfolding cache_invalidate_vol_lb invalidate_lb
  inval_absent c k s absent fits =
      let key : k % 2 ^ 64 ≡ k = omega (arith, fits) in
      let old = delete_old c.tree k ∙ s.agree k ∙ absent in
      rw (cache_invalidate_vol_lb, key, invalidate_lb, old) refl

  abbrev leaf : CachePool Tree → ℕ → ℕ → Leaf
  leaf c k item = record { addr = c.next_addr; item = item; blkid = k }

  refused_item :
      (c : CachePool Tree) (k item : ℕ) (s : IsSound rt c) (room : length c.lru_list + 1 < 2 ^ 31)
      → insert c.tree k (leaf c k item) ≡ none
      → update_item rt (λ a. true) c k item ≡ (
        record (ready rt c (leaf c k item) s refl room) { freed = item ∷ c.freed },
        no_mem,
        some item,
      )
  unfolding update_item
  refused_item c k item s room short =
      rw (update_item, refused_lem rt c (leaf c k item) s refl room short) refl

  one_round :
      (c : CachePool Tree) (start item : ℕ)
      → (ltb c.cache_size 1 || c.cache_size == 0) ≡ false
      → start % 2 ^ 64 ≡ start
      → cache_update rt (λ a. true) c start (item ∷ []) ≡ (
        (update_item rt (λ a. true) (make_room rt c 1) start item).0,
        (update_item rt (λ a. true) (make_room rt c 1) start item).1,
        (update_item rt (λ a. true) (make_room rt c 1) start item).2 ∷ [],
      )
  unfolding cache_update update_loop
  one_round c start item small key = rw (cache_update, small, update_loop, key) refl

  -- In a pool that is within its size, which is not 0, and whose list and tree agree: when the tree
  -- has no memory for the leaf of a key that the pool does not hold, the cache item is freed twice,
  -- once with the leaf, and once more by the caller, to whom it was left in the basket.
  pub put_ch_items_frees_twice :
      (c : CachePool Tree) (start item : ℕ)
      → IsWithin rt c
      → 0 < c.cache_size
      → start < 2 ^ 64
      → find_key start (make_room rt c 1).lru_list ≡ none
      → ((l : Leaf) → insert (make_room rt c 1).tree start l ≡ none)
      → (put_ch_items rt (λ a. true) c start (item ∷ [])).freed
        ≡ item ∷ item ∷ (make_room rt c 1).freed
  unfolding put_ch_items free_basket
  put_ch_items_frees_twice c start item w some_size fits absent short =
      let size = w.small in
      let room_for = make_room-IsReady rt c 1 w.sound size w.full (omega (arith, some_size)) in
      let r = make_room rt c 1 in
      let room : length r.lru_list + 1 < 2 ^ 31 = omega (arith, room_for.room, size) in
      let small : (ltb c.cache_size 1 || c.cache_size == 0) ≡ false = ground (arith, some_size) in
      let key : start % 2 ^ 64 ≡ start = omega (arith, fits) in
      let l = leaf r start item in
      let left = record (ready rt r l room_for.sound refl room) { freed = item ∷ r.freed } in
      let refused = refused_item r start item room_for.sound room (short l) in
      let upd : cache_update rt (λ a. true) c start (item ∷ []) ≡ (left, no_mem, some item ∷ []) =
        one_round c start item small key
        ∙ ap (λ (u : CachePool Tree × Result × Option ℕ). (u.0, u.1, u.2 ∷ [])) refused in
      let twice =
        inval_absent left start (refused-IsSound rt r l room_for.sound refl room) absent fits in
      rw (put_ch_items, upd) (ap (λ xs. item ∷ xs) twice)
