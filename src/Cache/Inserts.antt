-- ===== src/Cache/Inserts.antt =====
-- A leaf that is inserted into a pool.
use mathlib.Core.Path.{subst}
use kt.Base.{
  ℕ, suc, ◌+◌, ◌%◌, ◌^◌, ◌≤◌, ◌<◌, ◌≡◌, ◌≢◌, refl, ap, sym, ◌∙◌, true, false, Option, none, some,
  ◌∷◌, arith, length, All, All-map, ltb, ◌==◌, Bool-cases, inl, inr,
}
use kt.Cache.RadixTree.{RadixTree}
use kt.Cache.Pool.{
  Leaf, Flag, ok, no_mem, CachePool, unlink, release_tree_leaf, set_flag, atomic_dec, insert_leaf,
}
use kt.Cache.Leaves.{
  find_key, has_addr, remove_key, found_addr, list_del-remove_key, find_key-remove_key_self,
  find_key-remove_key_other, Distinct-remove_key, All-remove_key, length-remove_key, found_gone,
  All-other, remove_key_absent, fresh_addr, has_addr-remove_key,
}
use kt.Cache.Kept.{IsSound, unlink-IsUnlinked}
use kt.Cache.Steps.{Option-cases}

module _ (rt : RadixTree Leaf) where
  open rt use {
    Tree, lookup, insert, delete, insert_old, lookup-insert_self, lookup-insert_other, delete_old,
    lookup-delete_self, lookup-delete_other,
  }

  -- A leaf is added at the head, and a leaf of the same key leaves.
  pub record IsMore (c : CachePool Tree) (k item : ℕ) (c' : CachePool Tree) : Type 0 where
    pub new : Leaf
    pub key : new.blkid ≡ k
    pub same_item : new.item ≡ item
    pub lru : c'.lru_list ≡ new ∷ remove_key k c.lru_list
    pub size : c'.cache_size ≡ c.cache_size
    pub sound : IsSound rt c'

  module _ (c : CachePool Tree) (l : Leaf) (s : IsSound rt c) (new : l.addr ≡ c.next_addr)
      (room : length c.lru_list + 1 < 2 ^ 31) where
    l_fresh : has_addr l.addr c.lru_list ≡ false
    l_fresh =
        subst (λ a. has_addr a c.lru_list ≡ false) (sym new) (fresh_addr c.next_addr _ s.known)

    grown : All (λ x. x.addr < c.next_addr + 1) c.lru_list
    grown = All-map (λ x h. omega (arith, h)) c.lru_list s.known

    -- A pool with the leaf in place of those of its key.
    placed :
        (c' : CachePool Tree) (t : Tree) (old : Option Leaf)
        → insert c.tree l.blkid l ≡ some (t, old)
        → c'.tree ≡ t
        → c'.lru_list ≡ l ∷ remove_key l.blkid c.lru_list
        → c'.cache_num ≡ length (l ∷ remove_key l.blkid c.lru_list)
        → c'.next_addr ≡ c.next_addr + 1
        → All (λ x. (c'.flags x.addr).is_delete ≡ false) (l ∷ remove_key l.blkid c.lru_list)
        → length (remove_key l.blkid c.lru_list) ≤ length c.lru_list
        → IsSound rt c'
    placed c' t old ins tree lru num addr alive le = record {
      agree = λ j.
          rw (tree, lru)
            (elim (Bool-cases (l.blkid == j)) [
              | inl here ↦
                  let e : l.blkid ≡ j = ground (arith, here) in
                  rw here (
                    subst (λ i. lookup t i ≡ some l) e
                      (lookup-insert_self c.tree l.blkid l t old ins))
              | inr other ↦
                  let ne : l.blkid ≢ j = λ q. absurd (ground (arith, other, q)) in
                  rw other (
                    lookup-insert_other c.tree l.blkid j l t old ins ne
                    ∙ s.agree j
                    ∙ sym (find_key-remove_key_other l.blkid j c.lru_list ne))
            ]);
      distinct = rw lru (
        find_key-remove_key_self l.blkid c.lru_list s.distinct,
        has_addr-remove_key l.addr l.blkid c.lru_list l_fresh,
        Distinct-remove_key l.blkid c.lru_list s.distinct,
      );
      known = rw lru (
        omega (arith, new, addr),
        All-map (λ x h. omega (arith, h, addr)) _ (All-remove_key _ l.blkid c.lru_list grown),
      );
      alive = rw lru alive;
      num = num ∙ ap length (sym lru);
      small = rw lru (omega (arith, le, room));
    }

    -- The pool that `update_item` gives to `insert_leaf`.
    abbrev pub ready : CachePool Tree
    ready = record c {
      next_addr = c.next_addr + 1;
      flags = set_flag c.flags c.next_addr (record { count = 0; is_delete = false });
    }

    ready_alive : All (λ x. (ready.flags x.addr).is_delete ≡ false) c.lru_list
    ready_alive =
        All-other (λ a. (c.flags a).is_delete ≡ false) (λ a. (ready.flags a).is_delete ≡ false)
          l.addr c.lru_list l_fresh (λ b ne p. ground (arith, ne, p, new)) s.alive

    l_alive : (ready.flags l.addr).is_delete ≡ false
    l_alive = ground (arith, new)

    pub refused_lem :
        insert c.tree l.blkid l ≡ none
        → insert_leaf rt ready l ≡ (record ready { freed = l.item ∷ c.freed }, no_mem)
    unfolding insert_leaf release_tree_leaf
    refused_lem short =
        let idle : ltb 0 (ready.flags l.addr).count ≡ false = ground (arith, new) in
        rw (insert_leaf, short, idle) refl

    pub refused-IsSound : IsSound rt (record ready { freed = l.item ∷ c.freed })
    refused-IsSound = record {
      agree = s.agree;
      distinct = s.distinct;
      known = grown;
      alive = ready_alive;
      num = s.num;
      small = s.small;
    }

    pub unallocated-IsSound :
        IsSound rt (record c { next_addr = c.next_addr + 1; freed = l.item ∷ c.freed })
    unallocated-IsSound = record {
      agree = s.agree;
      distinct = s.distinct;
      known = grown;
      alive = s.alive;
      num = s.num;
      small = s.small;
    }

    pub inserted_ok :
        (t : Tree) (old : Option Leaf)
        → insert c.tree l.blkid l ≡ some (t, old)
        → (insert_leaf rt ready l).1 ≡ ok
    unfolding insert_leaf
    inserted_ok t old ins = rw (insert_leaf, ins) refl

    kept_alive :
        All (λ x. (ready.flags x.addr).is_delete ≡ false) (l ∷ remove_key l.blkid c.lru_list)
    kept_alive = (l_alive, All-remove_key _ l.blkid c.lru_list ready_alive)

    abbrev linked : Tree → CachePool Tree
    linked t = record ready {
      tree = t;
      lru_list = l ∷ c.lru_list;
      cache_num = (c.cache_num + 1) % 2 ^ 32;
    }

    replaced :
        (t : Tree) (old : Option Leaf) (o : Leaf)
        → insert c.tree l.blkid l ≡ some (t, old)
        → find_key l.blkid c.lru_list ≡ some o
        → IsMore c l.blkid l.item (unlink (linked t) o)
    replaced t old o ins e =
        let u = unlink-IsUnlinked (linked t) o in
        let there = found_addr l.blkid c.lru_list o e in
        let ne : o.addr ≢ l.addr = λ q.
          absurd (ground (arith, subst (λ a. has_addr a c.lru_list ≡ true) q there, l_fresh)) in
        let differ : (l.addr == o.addr) ≡ false = ground (arith, ne) in
        let del = list_del-remove_key l.blkid c.lru_list o s.distinct e in
        let lru : (unlink (linked t) o).lru_list ≡ l ∷ remove_key l.blkid c.lru_list =
          u.lru ∙ rw differ (ap (λ xs. l ∷ xs) del) in
        let fewer = length-remove_key l.blkid c.lru_list o e in
        let num : atomic_dec ((c.cache_num + 1) % 2 ^ 32)
            ≡ suc (length (remove_key l.blkid c.lru_list)) =
          omega (arith, s.num, fewer, room) in
        record {
          new = l;
          key = refl;
          same_item = refl;
          lru = lru;
          size = u.size;
          sound =
              placed (unlink (linked t) o) t old ins u.tree lru (u.num ∙ num) u.addr
                (
                  ap (λ (f : Flag). f.is_delete) (u.others l.addr ne) ∙ l_alive,
                  All-other (λ a. (ready.flags a).is_delete ≡ false)
                      (λ a. ((unlink (linked t) o).flags a).is_delete ≡ false) o.addr
                      (remove_key l.blkid c.lru_list) (found_gone l.blkid c.lru_list o s.distinct e)
                      (λ b nb p. ap (λ (f : Flag). f.is_delete) (u.others b nb) ∙ p) kept_alive.1,
                )
                (omega (arith, fewer));
        }

    pub inserted :
        (t : Tree) (old : Option Leaf)
        → insert c.tree l.blkid l ≡ some (t, old)
        → IsMore c l.blkid l.item (insert_leaf rt ready l).0
    unfolding insert_leaf
    inserted t old ins =
        let same = insert_old c.tree l.blkid l t old ins ∙ s.agree l.blkid in
        elim (Option-cases (find_key l.blkid c.lru_list)) [
          | inl absent ↦
              let gone = remove_key_absent l.blkid c.lru_list absent in
              let len = ap length gone in
              rw (insert_leaf, ins, same ∙ absent)
                (record {
                  new = l;
                  key = refl;
                  same_item = refl;
                  lru = ap (λ xs. l ∷ xs) (sym gone);
                  size = refl;
                  sound =
                      placed (linked t) t old ins refl (ap (λ xs. l ∷ xs) (sym gone))
                        (omega (arith, s.num, len, room)) refl kept_alive (omega (arith, len));
                })
          | inr (o, e) ↦ rw (insert_leaf, ins, same ∙ e) (replaced t old o ins e)
        ]
