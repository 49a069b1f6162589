-- ===== src/Cache/MetadataExamples.antt =====
-- The metadata of four blocks: two that are valid, one that is not, and one that has no memory; and
-- a cache item for which the tree has no memory.
use mathlib.Core.List.{append-nil}
use kt.Base.{
  ℕ, ◌≡◌, refl, sym, true, false, Option, none, some, List, [], ◌∷◌, arith, ◌==◌, if◌then◌else◌,
}
use kt.Cache.RadixTree.{RadixTree, collect}
use kt.Cache.Pool.{Leaf, make_room}
use kt.Cache.Room.{IsWithin}
use kt.Cache.Refine.{entries}
use kt.Cache.Lru
use kt.Cache.Metadata.{MdEntry, put_ch_items, update_mdcache, lru_put_items, lru_mdcache}
use kt.Cache.Composition.{IsAt, update_mdcache-Lru}
use kt.Cache.DoubleFree.{put_ch_items_frees_twice}
use kt.Cache.Examples.{function_tree, two_leaves, two_leaves-IsWithin, new_pool}

abbrev four_blocks : List MdEntry
four_blocks =
    record { valid = true; num_hbids = 2; ch_items = some (40 ∷ 51 ∷ []) }
    ∷ record { valid = false; num_hbids = 1; ch_items = none }
    ∷ record { valid = true; num_hbids = 1; ch_items = none }
    ∷ []

update_mdcache-Lru_example :
    IsAt function_tree two_leaves
      (lru_mdcache two_leaves.cache_size 4 four_blocks (entries function_tree two_leaves))
      (update_mdcache function_tree (λ a. true) two_leaves 4 four_blocks)
update_mdcache-Lru_example =
    update_mdcache-Lru function_tree (λ a. true) (λ a. refl) (λ t k l e. cc) two_leaves 4
      four_blocks two_leaves-IsWithin (refl, (tt, (tt, tt))) (omega arith)

-- Blocks 4 and 5 take the place of the two leaves.
mdcache_run : lru_mdcache 2 4 four_blocks ((6, 60) ∷ (5, 50) ∷ []) ≡ (5, 51) ∷ (4, 40) ∷ []
unfolding lru_mdcache lru_put_items Lru.update Lru.invalidate
mdcache_run = refl

-- A tree whose memory is exhausted.
abbrev full_tree : RadixTree Leaf
full_tree = record {
  Tree = ℕ → Option Leaf;
  empty = λ k. none;
  lookup = λ t k. t k;
  insert = λ t k a. none;
  delete = λ t k. ((λ j. if k == j then none else t j), t k);
  gang_lookup = λ t s n. collect t s n;
  lookup-empty = λ k. refl;
  insert_old = λ t k a t' old e. cc;
  lookup-insert_self = λ t k a t' old e. cc;
  lookup-insert_other = λ t k j a t' old e ne. cc;
  delete_old = λ t k. refl;
  lookup-delete_self = λ t k. ground arith;
  lookup-delete_other = λ t k j ne. ground (arith, ne);
  gang_lookup_scan = λ t s n. ([], sym (append-nil (collect t s n)), tt);
}

full_pool-IsWithin : IsWithin full_tree new_pool
full_pool-IsWithin = record {
  sound = record {
    agree = λ k. refl;
    distinct = tt;
    known = tt;
    alive = tt;
    num = refl;
    small = omega arith;
  };
  small = omega arith;
  full = omega arith;
}

put_ch_items_frees_twice_example :
    (put_ch_items full_tree (λ a. true) new_pool 5 (50 ∷ [])).freed
    ≡ 50 ∷ 50 ∷ (make_room full_tree new_pool 1).freed
unfolding make_room
put_ch_items_frees_twice_example =
    put_ch_items_frees_twice full_tree new_pool 5 50 full_pool-IsWithin (omega arith) (omega arith)
      refl (λ l. refl)
