-- ===== src/Cache/Room.antt =====
-- cache_update makes room first: __kick_meta_cache drops as many leaves as the items are over.
use kt.Base.{
  ℕ, zero, suc, ◌+◌, ◌-◌, ◌%◌, ◌^◌, ◌≤◌, ◌<◌, ◌≡◌, ◌≢◌, refl, ap, sym, ◌∙◌, Bool, true, false, ◌||◌,
  none, List, [], ◌∷◌, arith, length, take, ltb, ◌==◌, if◌then◌else◌, Bool-cases, inl, inr,
  lt_or_le,
}
use kt.Cache.RadixTree.{RadixTree}
use kt.Cache.Pool.{
  Leaf, CachePool, ok, too_big, cache_update, kick_meta_cache, excess, make_room, signed_lt,
}
use kt.Cache.Kept.{IsSound}
use kt.Cache.Kicks.{kick_meta_cache-IsShorter}
use kt.Cache.Refine.{entries, update_loop-IsLoop, update_loop-put_all}
use kt.Cache.Lru
use kt.Cache.Lru.{Lru, view, view-take, length-view}

pub length-take {ℓ} : {A : Type ℓ} (n : ℕ) (xs : List A) → n ≤ length xs → length (take n xs) ≡ n
length-take zero xs le = refl
length-take (suc n) [] le = absurd (omega (arith, le))
length-take (suc n) (x ∷ xs) le = ap suc (length-take n xs (omega (arith, le)))

pub take_whole {ℓ} : {A : Type ℓ} (n : ℕ) (xs : List A) → length xs ≤ n → take n xs ≡ xs
take_whole zero [] le = refl
take_whole zero (x ∷ xs) le = absurd (omega (arith, le))
take_whole (suc n) [] le = refl
take_whole (suc n) (x ∷ xs) le = ap (λ ys. x ∷ ys) (take_whole n xs (omega (arith, le)))

module _ (rt : RadixTree Leaf) where
  open rt use {Tree, insert}

  -- The pool that the loop starts from: its list is short enough for n more.
  pub record IsReady (c : CachePool Tree) (n : ℕ) (c' : CachePool Tree) : Type 0 where
    pub lru : c'.lru_list ≡ take (c.cache_size - n) c.lru_list
    pub size : c'.cache_size ≡ c.cache_size
    pub room : length c'.lru_list + n ≤ c.cache_size
    pub sound : IsSound rt c'

  module _ (c : CachePool Tree) (n : ℕ) (s : IsSound rt c) (small : c.cache_size < 2 ^ 31)
      (full : length c.lru_list ≤ c.cache_size) (le : n ≤ c.cache_size) where
    over_lem :
        c.cache_size < length c.lru_list + n
        → (excess rt c n ≡ (length c.lru_list + n) - c.cache_size)
          × (signed_lt 0 (excess rt c n) ≡ true)
    unfolding excess
    over_lem over =
        let wrap : (c.cache_num + n + (2 ^ 32 - c.cache_size)) % 2 ^ 32
            ≡ (length c.lru_list + n) - c.cache_size =
          omega (arith, s.num, small, full, le, over) in
        let fits : signed_lt c.cache_size ((length c.lru_list + n) - c.cache_size) ≡ false =
          ground (arith, small, full, le, over) in
        rw (excess, wrap, fits) (refl, ground (arith, small, full, le, over))

    under_lem : length c.lru_list + n ≤ c.cache_size → signed_lt 0 (excess rt c n) ≡ false
    unfolding excess
    under_lem under = elim (lt_or_le (length c.lru_list + n) c.cache_size) [
      | inl less ↦
          let wrap : (c.cache_num + n + (2 ^ 32 - c.cache_size)) % 2 ^ 32
              ≡ 2 ^ 32 - (c.cache_size - (length c.lru_list + n)) =
            omega (arith, s.num, small, less) in
          let fits : signed_lt c.cache_size (2 ^ 32 - (c.cache_size - (length c.lru_list + n)))
              ≡ false =
            ground (arith, small, less) in
          rw (excess, wrap, fits) (ground (arith, small, less))
      | inr same ↦
          let wrap : (c.cache_num + n + (2 ^ 32 - c.cache_size)) % 2 ^ 32 ≡ 0 =
            omega (arith, s.num, small, under, same) in
          let fits : signed_lt c.cache_size 0 ≡ false = ground (arith, small) in
          rw (excess, wrap, fits) refl
    ]

    pub make_room-IsReady : IsReady c n (make_room rt c n)
    unfolding make_room
    make_room-IsReady = elim (lt_or_le c.cache_size (length c.lru_list + n)) [
      | inl over ↦
          let (e, go) = over_lem over in
          let k =
            kick_meta_cache-IsShorter rt c s (excess rt c n) (omega (arith, e, over))
              (omega (arith, e, full, le)) in
          let left : length c.lru_list - excess rt c n ≡ c.cache_size - n =
            omega (arith, e, over, full, le) in
          let lru : (kick_meta_cache rt c (excess rt c n) (λ item. true)).0.lru_list
              ≡ take (c.cache_size - n) c.lru_list =
            k.lru ∙ ap (λ m. take m c.lru_list) left in
          let len =
            ap length lru ∙ length-take (c.cache_size - n) c.lru_list (omega (arith, over, le)) in
          rw (make_room, go)
            (record { lru = lru; size = k.size; room = omega (arith, len, le); sound = k.sound })
      | inr under ↦
          rw (make_room, under_lem under)
            (record {
              lru = sym (take_whole (c.cache_size - n) c.lru_list (omega (arith, under)));
              size = refl;
              room = under;
              sound = s;
            })
    ]

  -- What holds of a pool between the operations, its size included.
  pub record IsWithin (c : CachePool Tree) : Type 0 where
    pub sound : IsSound rt c
    pub small : c.cache_size < 2 ^ 31
    pub full : length c.lru_list ≤ c.cache_size

  module _ (mem_alloc : ℕ → Bool) (c : CachePool Tree) (start : ℕ) (items : List ℕ)
      (w : IsWithin c) where
    -- However memory fails, a pool that is within its size and whose list and tree agree is so after
    -- an update, and its size is what it was.
    pub cache_update-IsWithin :
        IsWithin (cache_update rt mem_alloc c start items).0
        × ((cache_update rt mem_alloc c start items).0.cache_size ≡ c.cache_size)
    unfolding cache_update
    cache_update-IsWithin =
        elim (Bool-cases (ltb c.cache_size (length items) || c.cache_size == 0)) [
          | inl big ↦ rw (cache_update, big) (w, refl)
          | inr fits ↦
              let le : length items ≤ c.cache_size = ground (arith, fits) in
              let r = make_room-IsReady c (length items) w.sound w.small w.full le in
              let small = w.small in
              let loop =
                update_loop-IsLoop rt mem_alloc (make_room rt c (length items)) start items ok
                  r.sound (omega (arith, r.room, small)) in
              let size = loop.size ∙ r.size in
              rw (cache_update, fits)
                (
                  record {
                    sound = loop.sound;
                    small = omega (arith, size, small);
                    full = omega (arith, size, loop.grown, r.room);
                  },
                  size,
                )
        ]

    -- With memory for every leaf and every node of the tree, an update of keys below 2 ^ 64 in a pool
    -- that is within its size and whose list and tree agree does to its list what Lru.update does: where
    -- there are more items than the size of the pool, or this size is 0, even if there is no item, the
    -- list stays as it is and the result is too_big; else the entries used least recently make room, the
    -- items are put at the head one after another, and the result is ok.
    pub cache_update-Lru :
        ((a : ℕ) → mem_alloc a ≡ true)
        → ((t : Tree) (k : ℕ) (l : Leaf) → insert t k l ≢ none)
        → start + length items ≤ 2 ^ 64
        → (entries rt (cache_update rt mem_alloc c start items).0
            ≡ Lru.update c.cache_size start items (entries rt c))
          × ((cache_update rt mem_alloc c start items).1
              ≡ (if ltb c.cache_size (length items) || c.cache_size == 0 then too_big else ok))
    unfolding cache_update Lru.update
    cache_update-Lru mem ins keys =
        elim (Bool-cases (ltb c.cache_size (length items) || c.cache_size == 0)) [
          | inl big ↦ rw (cache_update, Lru.update, big) (refl, refl)
          | inr fits ↦
              let le : length items ≤ c.cache_size = ground (arith, fits) in
              let r = make_room-IsReady c (length items) w.sound w.small w.full le in
              let small = w.small in
              let (done, good) =
                update_loop-put_all rt mem_alloc mem ins (make_room rt c (length items)) start items
                  r.sound keys (omega (arith, r.room, small)) in
              let view_room = ap view r.lru ∙ view-take (c.cache_size - length items) c.lru_list in
              rw (cache_update, Lru.update, fits)
                (done ∙ ap (Lru.put_all start items) view_room, good)
        ]
