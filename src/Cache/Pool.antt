-- ===== src/Cache/Pool.antt =====
-- The operations of cache.c on a volume's pool. A leaf is known by its address, which a counter gives
-- out; its key and data do not change, and the reference count and the delete bit of its
-- `flag_refcnt` are kept by address. An atomic counter is the bit pattern of an int32_t. The locks
-- make each operation one step. Statistics are left out.
use kt.Base.{
  ℕ, zero, suc, ◌+◌, ◌-◌, ◌%◌, ◌^◌, Bool, true, false, not, ◌&&◌, ◌||◌, Option, none, some, List,
  [], map, ◌∷◌, length, set, ltb, leb, ◌==◌, if◌then◌else◌,
}
use kt.Cache.RadixTree.{RadixTree}

-- `struct tree_leaf`.
pub record Leaf : Type 0 where
  pub addr : ℕ
  pub item : ℕ
  pub blkid : ℕ

-- `flag_refcnt`.
pub record Flag : Type 0 where
  pub count : ℕ
  pub is_delete : Bool

pub data Result : Type 0 where
  ok too_big no_mem : Result

-- `cache_pool_t`, with the data that have been freed, the last first.
pub record CachePool (T : Type 0) : Type 0 where
  pub cache_num : ℕ
  pub cache_size : ℕ
  pub tree : T
  pub lru_list : List Leaf
  pub flags : ℕ → Flag
  pub next_addr : ℕ
  pub freed : List ℕ

-- A comparison of int32_t.
abbrev pub signed_lt : ℕ → ℕ → Bool
signed_lt a b = ltb ((a + 2 ^ 31) % 2 ^ 32) ((b + 2 ^ 31) % 2 ^ 32)

abbrev pub atomic_dec : ℕ → ℕ
atomic_dec n = (n + (2 ^ 32 - 1)) % 2 ^ 32

-- `list_del` of a leaf.
abbrev pub list_del : ℕ → List Leaf → List Leaf
list_del a [] = []
list_del a (l ∷ ls) = if l.addr == a then ls else l ∷ list_del a ls

abbrev pub set_flag : (ℕ → Flag) → ℕ → Flag → ℕ → Flag
set_flag flags a f b = if a == b then f else flags b

abbrev pub no_leaves : ℕ → List (Option Leaf)
no_leaves zero = []
no_leaves (suc n) = none ∷ no_leaves n

module _ {T : Type 0} where
  -- `release_tree_leaf`.
  unfoldable pub release_tree_leaf : CachePool T → Leaf → CachePool T
  release_tree_leaf c l =
      if ltb 0 (c.flags l.addr).count then c else record c { freed = l.item ∷ c.freed }

  -- What becomes of a leaf that the tree does not hold any more: it leaves the list, and is freed, or
  -- marked for `cache_put` to free it.
  unfoldable pub unlink : CachePool T → Leaf → CachePool T
  unfolding release_tree_leaf
  unlink c l =
      let c' = record c {
        lru_list = list_del l.addr c.lru_list;
        cache_num = atomic_dec c.cache_num;
      } in
      let f = c.flags l.addr in
      if ltb 0 f.count
      then record c' { flags = set_flag c.flags l.addr (record f { is_delete = true }) }
      else release_tree_leaf c' l

module _ (rt : RadixTree Leaf) where
  open rt use {Tree, insert, delete, gang_lookup}

  -- The state of the loop of `__kick_meta_cache`.
  pub record Kick : Type 0 where
    pub pool : CachePool Tree
    pub nr : ℕ
    pub not_all_clear : Bool
    pub stop : Bool

  -- The loop's body, for a count of leaves or, if it is none, for all.
  unfoldable pub kick_leaf : (ℕ → Bool) → Option ℕ → Leaf → Kick → Kick
  unfolding unlink
  kick_leaf md_cmp total l k =
      if k.stop
      then k
      else if not (md_cmp l.item)
      then k
      else let c = record k.pool { tree = (delete k.pool.tree l.blkid).0 } in
        elim total [
          | none ↦ record k {
            pool = unlink c l;
            not_all_clear = k.not_all_clear || ltb 0 (c.flags l.addr).count;
          }
          | some n ↦ record k { pool = unlink c l; nr = k.nr + 1; stop = leb n (k.nr + 1) }
        ]

  -- The loop, which walks the list from its end.
  unfoldable pub kick_loop : (ℕ → Bool) → Option ℕ → List Leaf → Kick → Kick
  kick_loop md_cmp total [] k = k
  kick_loop md_cmp total (l ∷ ls) k = kick_leaf md_cmp total l (kick_loop md_cmp total ls k)

  -- `__kick_meta_cache`, with a comparison that always holds for NULL: the pool and whether a leaf
  -- that should go is still referenced.
  unfoldable pub kick_meta_cache : CachePool Tree → ℕ → (ℕ → Bool) → CachePool Tree × Bool
  unfolding kick_loop
  kick_meta_cache c count md_cmp =
      let first : Kick = record { pool = c; nr = 0; not_all_clear = false; stop = false } in
      let total =
        if count == 2 ^ 32 - 1 || signed_lt c.cache_num count then c.cache_num else count in
      let k =
        kick_loop md_cmp (if count == 2 ^ 32 - 1 then none else some total) c.lru_list first in
      if not (count == 2 ^ 32 - 1 || signed_lt c.cache_num count)
        && (count == 0 || signed_lt count (2 ^ 32 - 1))
      then (c, false)
      else (k.pool, k.not_all_clear)

  -- The leaves that n more are too many for, as an int32_t.
  unfoldable pub excess : CachePool Tree → ℕ → ℕ
  excess c n =
      let over = (c.cache_num + n + (2 ^ 32 - c.cache_size)) % 2 ^ 32 in
      if signed_lt c.cache_size over then c.cache_size else over

  -- What `cache_update` does before its loop.
  unfoldable pub make_room : CachePool Tree → ℕ → CachePool Tree
  unfolding excess kick_meta_cache
  make_room c n =
      if signed_lt 0 (excess c n) then (kick_meta_cache c (excess c n) (λ item. true)).0 else c

  -- The state of the loop of `cache_find`.
  pub record Find : Type 0 where
    pub pool : CachePool Tree
    pub basket : List (Option Leaf)
    pub ret_off : ℕ
    pub rret : ℕ

  unfoldable pub find_leaf : ℕ → Leaf → Find → Find
  find_leaf start l f =
      let c = f.pool in
      let flag = c.flags l.addr in
      if leb start l.blkid && ltb l.blkid f.ret_off && not flag.is_delete
      then record {
        pool = record c {
          lru_list = l ∷ list_del l.addr c.lru_list;
          flags = set_flag c.flags l.addr (record flag { count = flag.count + 1 });
        };
        basket = set f.basket (l.blkid - start) (some l);
        ret_off = l.blkid;
        rret = f.rret + 1;
      }
      else f

  -- The loop, which walks what the tree has found from its end. The i-th leaf has an index of at
  -- least start + i, so that the basket is never written where a leaf is still to be read.
  unfoldable pub find_loop : ℕ → List Leaf → Find → Find
  find_loop start [] f = f
  find_loop start (l ∷ ls) f = find_leaf start l (find_loop start ls f)

  -- `cache_find` in a volume's pool: the pool, the basket and the number of leaves found.
  unfoldable pub cache_find : CachePool Tree → ℕ → ℕ → CachePool Tree × List (Option Leaf) × ℕ
  unfolding find_loop
  cache_find c start count =
      let f = find_loop start (gang_lookup c.tree start count) (record {
        pool = c;
        basket = no_leaves count;
        ret_off = (start + count) % 2 ^ 64;
        rret = 0;
      }) in
      (f.pool, f.basket, f.rret)

  -- The loop of `cache_put`.
  unfoldable pub cache_put : CachePool Tree → List (Option Leaf) → CachePool Tree
  unfolding release_tree_leaf
  cache_put c [] = c
  cache_put c (none ∷ ls) = cache_put c ls
  cache_put c (some l ∷ ls) =
      let f = c.flags l.addr in
      let c' = record c { flags = set_flag c.flags l.addr (record f { count = f.count - 1 }) } in
      cache_put (if f.is_delete && not (ltb 0 (f.count - 1)) then release_tree_leaf c' l else c') ls

  -- The body of the loop of `cache_invalidate_volLB`.
  unfoldable pub invalidate_lb : CachePool Tree → ℕ → CachePool Tree
  unfolding unlink
  invalidate_lb c k =
      let (t, old) = delete c.tree k in
      let c' = record c { tree = t } in elim old [ none ↦ c' | some l ↦ unlink c' l ]

  -- `cache_invalidate_volLB` in a volume's pool.
  unfoldable pub cache_invalidate_vol_lb : CachePool Tree → ℕ → ℕ → CachePool Tree
  unfolding invalidate_lb
  cache_invalidate_vol_lb c start zero = c
  cache_invalidate_vol_lb c start (suc n) =
      cache_invalidate_vol_lb (invalidate_lb c (start % 2 ^ 64)) (start + 1) n

  -- The body of the loop of `cache_update` once it has a leaf, with the result so far.
  unfoldable pub insert_leaf : CachePool Tree → Leaf → CachePool Tree × Result
  unfolding unlink release_tree_leaf
  insert_leaf c l = elim (insert c.tree l.blkid l) [
    | none ↦ (release_tree_leaf c l, no_mem)
    | some (t, old) ↦
        let c' = record c {
          tree = t;
          lru_list = l ∷ c.lru_list;
          cache_num = (c.cache_num + 1) % 2 ^ 32;
        } in
        (elim old [ none ↦ c' | some o ↦ unlink c' o ], ok)
  ]

  -- Whether the memory for a leaf can be had.
  module _ (mem_alloc : ℕ → Bool) where
    -- The body of the loop of `cache_update`: the pool, the result, and the basket's entry.
    unfoldable pub update_item : CachePool Tree → ℕ → ℕ → CachePool Tree × Result × Option ℕ
    unfolding insert_leaf
    update_item c k item =
        let l : Leaf = record { addr = c.next_addr; item = item; blkid = k } in
        let c' = record c {
          next_addr = c.next_addr + 1;
          flags = set_flag c.flags c.next_addr (record { count = 0; is_delete = false });
        } in
        let (c'', r) = insert_leaf c' l in
        if mem_alloc c.next_addr
        then (c'', r, some item)
        else (record c { next_addr = c.next_addr + 1; freed = item ∷ c.freed }, no_mem, none)

    -- The loop of `cache_update`, with the result so far.
    unfoldable pub update_loop :
        CachePool Tree → ℕ → List ℕ → Result → CachePool Tree × Result × List (Option ℕ)
    unfolding update_item
    update_loop c k [] ret = (c, ret, [])
    update_loop c k (item ∷ items) ret =
        let (c', ret', entry) = update_item c (k % 2 ^ 64) item in
        let (c'', ret'', entries) = update_loop c' (k + 1) items ret' in
        (c'', ret'', entry ∷ entries)

    -- `cache_update` in a volume's pool.
    unfoldable pub cache_update :
        CachePool Tree → ℕ → List ℕ → CachePool Tree × Result × List (Option ℕ)
    unfolding update_loop make_room
    cache_update c start items =
        if ltb c.cache_size (length items) || c.cache_size == 0
        then (c, too_big, map some items)
        else update_loop (make_room c (length items)) start items ok
