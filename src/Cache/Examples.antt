-- ===== src/Cache/Examples.antt =====
-- The pool on a tree that is a function, in small runs.
use mathlib.Core.List.{append-nil}
use mathlib.Core.Option.{some-injective}
use kt.Base.{
  ℕ, ◌≡◌, refl, sym, ◌∙◌, ap, true, false, Option, none, some, [], ◌∷◌, arith, length, ◌==◌,
  if◌then◌else◌,
}
use kt.Cache.RadixTree.{RadixTree, collect}
use kt.Cache.Pool.{Leaf, CachePool, ok, cache_update, cache_find, cache_invalidate_vol_lb}
use kt.Cache.Leaves.{find_key}
use kt.Cache.Kept.{IsSound}
use kt.Cache.Touch.{looked}
use kt.Cache.Refine.{entries, cache_invalidate_vol_lb-invalidate}
use kt.Cache.Room.{IsWithin, cache_update-IsWithin, cache_update-Lru}
use kt.Cache.Find.{cache_find-Lru}
use kt.Cache.Lru

abbrev pub store : (ℕ → Option Leaf) → ℕ → Leaf → ℕ → Option Leaf
store t k a j = if k == j then some a else t j

pub stored :
    (t : ℕ → Option Leaf) (k : ℕ) (a : Leaf) (t' : ℕ → Option Leaf) (old : Option Leaf)
    → ◌≡◌ {A = Option ((ℕ → Option Leaf) × Option Leaf)} (some (store t k a, t k)) (some (t', old))
    → t' ≡ store t k a
stored t k a t' old e = sym (ap (λ q. q.0) (some-injective _ _ e))

abbrev pub function_tree : RadixTree Leaf
function_tree = record {
  Tree = ℕ → Option Leaf;
  empty = λ k. none;
  lookup = λ t k. t k;
  insert = λ t k a. some (store t k a, t k);
  delete = λ t k. ((λ j. if k == j then none else t j), t k);
  gang_lookup = λ t s n. collect t s n;
  lookup-empty = λ k. refl;
  insert_old = λ t k a t' old e. sym (ap (λ q. q.1) (some-injective _ _ e));
  lookup-insert_self = λ t k a t' old e. ap (λ f. f k) (stored t k a t' old e) ∙ ground arith;
  lookup-insert_other =
      λ t k j a t' old e ne. ap (λ f. f j) (stored t k a t' old e) ∙ ground (arith, ne);
  delete_old = λ t k. refl;
  lookup-delete_self = λ t k. ground arith;
  lookup-delete_other = λ t k j ne. ground (arith, ne);
  gang_lookup_scan = λ t s n. ([], sym (append-nil (collect t s n)), tt);
}

abbrev pub new_pool : CachePool (ℕ → Option Leaf)
new_pool = record {
  cache_num = 0;
  cache_size = 2;
  tree = λ k. none;
  lru_list = [];
  flags = λ a. record { count = 0; is_delete = false };
  next_addr = 0;
  freed = [];
}

pub new_pool-IsWithin : IsWithin function_tree new_pool
new_pool-IsWithin = record {
  sound = record {
    agree = λ k. refl;
    distinct = tt;
    known = tt;
    alive = tt;
    num = refl;
    small = omega arith;
  };
  small = omega arith;
  full = omega arith;
}

-- A pool of two leaves, at 5 and 6.
abbrev pub two_leaves : CachePool (ℕ → Option Leaf)
two_leaves = (cache_update function_tree (λ a. true) new_pool 5 (50 ∷ 60 ∷ [])).0

pub two_leaves-IsWithin : IsWithin function_tree two_leaves
two_leaves-IsWithin =
    (cache_update-IsWithin function_tree (λ a. true) new_pool 5 (50 ∷ 60 ∷ []) new_pool-IsWithin).0

pub two_leaves_size : two_leaves.cache_size ≡ 2
two_leaves_size =
    (cache_update-IsWithin function_tree (λ a. true) new_pool 5 (50 ∷ 60 ∷ []) new_pool-IsWithin).1

cache_update-IsWithin_example : IsWithin function_tree two_leaves × (two_leaves.cache_size ≡ 2)
cache_update-IsWithin_example =
    cache_update-IsWithin function_tree (λ a. true) new_pool 5 (50 ∷ 60 ∷ []) new_pool-IsWithin

-- The leaf at 5 was used least recently, and the one at 6 is replaced.
cache_update-Lru_example :
    (entries function_tree (cache_update function_tree (λ a. true) two_leaves 6 (61 ∷ [])).0
      ≡ Lru.update 2 6 (61 ∷ []) (entries function_tree two_leaves))
    × ((cache_update function_tree (λ a. true) two_leaves 6 (61 ∷ [])).1 ≡ ok)
unfolding cache_update
cache_update-Lru_example =
    cache_update-Lru function_tree (λ a. true) two_leaves 6 (61 ∷ []) two_leaves-IsWithin
      (λ a. refl) (λ t k l e. cc) (omega arith)

update_run : Lru.update 2 6 (61 ∷ []) ((6, 60) ∷ (5, 50) ∷ []) ≡ (6, 61) ∷ []
unfolding Lru.update
update_run = refl

cache_find-Lru_example :
    ((cache_find function_tree two_leaves 4 2).1 ≡ looked (λ k. find_key k two_leaves.lru_list) 4 2)
    × ((cache_find function_tree two_leaves 4 2).2
        ≡ length (collect (λ k. find_key k two_leaves.lru_list) 4 2))
    × (entries function_tree (cache_find function_tree two_leaves 4 2).0
        ≡ Lru.find 4 2 (entries function_tree two_leaves))
    × IsSound function_tree (cache_find function_tree two_leaves 4 2).0
cache_find-Lru_example =
    cache_find-Lru function_tree two_leaves 4 2 two_leaves-IsWithin.sound (omega arith)

find_run : Lru.find 4 2 ((6, 60) ∷ (5, 50) ∷ []) ≡ (5, 50) ∷ (6, 60) ∷ []
unfolding Lru.find
find_run = refl

cache_invalidate_vol_lb-invalidate_example :
    (entries function_tree (cache_invalidate_vol_lb function_tree two_leaves 5 4)
      ≡ Lru.invalidate 5 4 (entries function_tree two_leaves))
    × IsSound function_tree (cache_invalidate_vol_lb function_tree two_leaves 5 4)
cache_invalidate_vol_lb-invalidate_example =
    cache_invalidate_vol_lb-invalidate function_tree two_leaves 5 4 (omega arith)
      two_leaves-IsWithin.sound
