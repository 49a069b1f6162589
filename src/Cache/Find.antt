-- ===== src/Cache/Find.antt =====
-- cache_find takes the leaves it finds to the head of the list, from the last to the first.
use mathlib.Core.Path.{subst, fun_ext}
use mathlib.Core.List.{append-nil}
use kt.Base.{
  ℕ, zero, suc, ◌+◌, ◌-◌, ◌%◌, ◌^◌, ◌≤◌, ◌<◌, ◌≡◌, refl, ap, ap₂, sym, ◌∙◌, true, false, not, ◌&&◌,
  none, some, List, [], ◌∷◌, ◌++◌, arith, length, set, All, ltb, leb, inl, inr,
}
use kt.Cache.RadixTree.{RadixTree, collect, collect_absent, collect_found, IsBeyond}
use kt.Cache.Pool.{Leaf, CachePool, Find, find_leaf, find_loop, no_leaves, cache_find}
use kt.Cache.Leaves.{find_key, found_key, list_del-remove_key, length-remove_key, All-found}
use kt.Cache.Kept.{IsSound}
use kt.Cache.Steps.{Option-cases}
use kt.Cache.Refine.{entries}
use kt.Cache.Lru
use kt.Cache.Lru.{Lru, view, view-remove_key, get-view, get-view_absent, touch_found, touch_absent}
use kt.Cache.Touch.{looked, set-no_leaves, no_leaves_last, touched-IsSound}

module _ (rt : RadixTree Leaf) where
  open rt use {Tree, lookup, gang_lookup, gang_lookup_scan}

  find_loop-append :
      (start : ℕ) (xs ys : List Leaf) (f : Find rt)
      → find_loop rt start (xs ++ ys) f ≡ find_loop rt start xs (find_loop rt start ys f)
  unfolding find_loop
  find_loop-append start [] ys f = refl
  find_loop-append start (x ∷ xs) ys f = ap (find_leaf rt start x) (find_loop-append start xs ys f)

  module _ (c : CachePool Tree) (start count : ℕ) (s : IsSound rt c) where
    abbrev first : Find rt
    first = record { pool = c; basket = no_leaves count; ret_off = start + count; rret = 0 }

    -- What the loop has done after the leaves at the n indices from k on, the m-th from start.
    record IsFound (m k n : ℕ) (f : Find rt) : Type 0 where
      tree : f.pool.tree ≡ c.tree
      size : f.pool.cache_size ≡ c.cache_size
      lru : view f.pool.lru_list ≡ Lru.find k n (view c.lru_list)
      len : length f.pool.lru_list ≡ length c.lru_list
      basket : f.basket ≡ no_leaves m ++ looked (lookup c.tree) k n
      above : k ≤ f.ret_off
      rret : f.rret ≡ length (collect (lookup c.tree) k n)
      sound : IsSound rt f.pool

    beyond_skip :
        (ls : List Leaf)
        → All (IsBeyond (lookup c.tree) (start + count)) ls
        → find_loop rt start ls first ≡ first
    unfolding find_loop find_leaf
    beyond_skip [] h = refl
    beyond_skip (l ∷ ls) ((k, le, e), h) =
        let key = found_key k c.lru_list l (sym (s.agree k) ∙ e) in
        let far : (leb start l.blkid
              && ltb l.blkid (start + count)
              && not (c.flags l.addr).is_delete)
            ≡ false =
          ground (arith, key, le) in
        ap (find_leaf rt start l) (beyond_skip ls h) ∙ rw (find_leaf, far) refl

    find_step :
        (m k n : ℕ) (l : Leaf) (f : Find rt)
        → k ≡ start + m
        → lookup c.tree k ≡ some l
        → IsFound (suc m) (k + 1) n f
        → IsFound m k (suc n) (find_leaf rt start l f)
    unfolding find_leaf view Lru.find
    find_step m k n l f at e i =
        let here : find_key k f.pool.lru_list ≡ some l = sym (i.sound.agree k) ∙ rw i.tree e in
        let key = found_key k f.pool.lru_list l here in
        let above = i.above in
        let alive = All-found _ k f.pool.lru_list l i.sound.alive here in
        let go : (leb start l.blkid && ltb l.blkid f.ret_off && not (f.pool.flags l.addr).is_delete)
            ≡ true =
          ground (arith, key, at, above, alive) in
        let del = list_del-remove_key k f.pool.lru_list l i.sound.distinct here in
        let pos : l.blkid - start ≡ m = omega (arith, key, at) in
        let got = sym (ap (Lru.get k) i.lru) ∙ get-view k f.pool.lru_list l here in
        let fewer = length-remove_key k f.pool.lru_list l here in
        rw (find_leaf, go)
          (record {
            tree = i.tree;
            size = i.size;
            lru =
                ap (λ xs. (l.blkid, l.item) ∷ view xs) del
                ∙ ap₂ (λ j es. (j, l.item) ∷ es) key
                    (view-remove_key k f.pool.lru_list ∙ ap (Lru.remove k) i.lru)
                ∙ sym (touch_found k l.item (Lru.find (k + 1) n (view c.lru_list)) got);
            len = let d = ap length del in omega (arith, d, fewer, i.len);
            basket =
                ap₂ (λ b j. set b j (some l))
                  (i.basket ∙ no_leaves_last m (looked (lookup c.tree) (k + 1) n)) pos
                ∙ set-no_leaves m (some l) (looked (lookup c.tree) (k + 1) n)
                ∙ ap (λ o. no_leaves m ++ o ∷ looked (lookup c.tree) (k + 1) n) (sym e);
            above = omega (arith, key);
            rret =
                let r = ap length (collect_found (lookup c.tree) k n l e) in
                omega (arith, i.rret, r);
            sound = touched-IsSound rt f.pool k l i.sound here;
          })

    find_none :
        (m k n : ℕ) (f : Find rt)
        → lookup c.tree k ≡ none
        → IsFound (suc m) (k + 1) n f
        → IsFound m k (suc n) f
    unfolding Lru.find
    find_none m k n f e i =
        let absent : find_key k f.pool.lru_list ≡ none = sym (i.sound.agree k) ∙ rw i.tree e in
        let got = sym (ap (Lru.get k) i.lru) ∙ get-view_absent k f.pool.lru_list absent in
        let above = i.above in
        record {
          tree = i.tree;
          size = i.size;
          lru = i.lru ∙ sym (touch_absent k (Lru.find (k + 1) n (view c.lru_list)) got);
          len = i.len;
          basket =
              i.basket
              ∙ no_leaves_last m (looked (lookup c.tree) (k + 1) n)
              ∙ ap (λ o. no_leaves m ++ o ∷ looked (lookup c.tree) (k + 1) n) (sym e);
          above = omega (arith, above);
          rret = i.rret ∙ ap length (sym (collect_absent (lookup c.tree) k n e));
          sound = i.sound;
        }

    find_all :
        (m k n : ℕ)
        → k ≡ start + m
        → k + n ≡ start + count
        → IsFound m k n (find_loop rt start (collect (lookup c.tree) k n) first)
    unfolding find_loop Lru.find
    find_all m k zero at end =
        let whole : count ≡ m = omega (arith, at, end) in
        record {
          tree = refl;
          size = refl;
          lru = refl;
          len = refl;
          basket = ap no_leaves whole ∙ sym (append-nil (no_leaves m));
          above = omega (arith, end);
          rret = refl;
          sound = s;
        }
    find_all m k (suc n) at end =
        let rest = find_all (suc m) (k + 1) n (omega (arith, at)) (omega (arith, end)) in
        elim (Option-cases (lookup c.tree k)) [
          | inl e ↦
              subst (λ ls. IsFound m k (suc n) (find_loop rt start ls first))
                (sym (collect_absent (lookup c.tree) k n e)) (find_none m k n _ e rest)
          | inr (l, e) ↦
              subst (λ ls. IsFound m k (suc n) (find_loop rt start ls first))
                (sym (collect_found (lookup c.tree) k n l e)) (find_step m k n l _ at e rest)
        ]

    -- In a pool whose list and tree agree, finding the keys of a range that ends below 2 ^ 64 returns,
    -- for each key in order, the leaf that the pool holds at it or none, and the number of the leaves;
    -- it makes the found the most recently used, as Lru.find does, with the lowest key first, and list
    -- and tree still agree.
    pub cache_find-Lru :
        start + count < 2 ^ 64
        → ((cache_find rt c start count).1 ≡ looked (λ k. find_key k c.lru_list) start count)
          × ((cache_find rt c start count).2
              ≡ length (collect (λ k. find_key k c.lru_list) start count))
          × (entries rt (cache_find rt c start count).0 ≡ Lru.find start count (entries rt c))
          × IsSound rt (cache_find rt c start count).0
    unfolding cache_find
    cache_find-Lru fits =
        let wrap : (start + count) % 2 ^ 64 ≡ start + count = omega (arith, fits) in
        let (rest, scan, far) = gang_lookup_scan c.tree start count in
        let look : lookup c.tree ≡ (λ k. find_key k c.lru_list) = fun_ext s.agree in
        let all = find_all zero start count (omega arith) refl in
        let loop : find_loop rt start (gang_lookup c.tree start count) first
            ≡ find_loop rt start (collect (lookup c.tree) start count) first =
          ap (λ ls. find_loop rt start ls first) scan
          ∙ find_loop-append start (collect (lookup c.tree) start count) rest first
          ∙ ap (find_loop rt start (collect (lookup c.tree) start count)) (beyond_skip rest far) in
        rw (cache_find, wrap, loop)
          (
            all.basket ∙ ap (λ f. looked f start count) look,
            all.rret ∙ ap (λ f. length (collect f start count)) look,
            all.lru,
            all.sound,
          )
