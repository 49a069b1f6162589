-- ===== src/Cache/Kept.antt =====
-- What holds of a pool between the operations: the tree and the list hold the same leaves.
use mathlib.Core.Path.{subst}
use kt.Base.{
  ℕ, ◌^◌, ◌<◌, ◌≡◌, ◌≢◌, refl, ap, sym, ◌∙◌, false, none, some, arith, length, All, ltb, ◌==◌,
  Bool-cases, inl, inr,
}
use kt.Cache.RadixTree.{RadixTree}
use kt.Cache.Pool.{Leaf, Flag, CachePool, unlink, list_del, atomic_dec}
use kt.Cache.Leaves.{
  find_key, remove_key, Distinct, list_del-remove_key, find_key-remove_key_self,
  find_key-remove_key_other, Distinct-remove_key, All-remove_key, length-remove_key, found_gone,
  All-other,
}

-- What `unlink` does whether or not the leaf is referenced.
pub record IsUnlinked {T : Type 0} (c : CachePool T) (l : Leaf) (c' : CachePool T) : Type 0 where
  pub tree : c'.tree ≡ c.tree
  pub lru : c'.lru_list ≡ list_del l.addr c.lru_list
  pub num : c'.cache_num ≡ atomic_dec c.cache_num
  pub size : c'.cache_size ≡ c.cache_size
  pub addr : c'.next_addr ≡ c.next_addr
  pub others : (b : ℕ) → l.addr ≢ b → c'.flags b ≡ c.flags b

pub unlink-IsUnlinked : {T : Type 0} (c : CachePool T) (l : Leaf) → IsUnlinked c l (unlink c l)
unfolding unlink
unlink-IsUnlinked c l = elim (Bool-cases (ltb 0 (c.flags l.addr).count)) [
  | inl held ↦ rw held (record {
    tree = refl;
    lru = refl;
    num = refl;
    size = refl;
    addr = refl;
    others = λ b ne. ground (arith, ne);
  })
  | inr idle ↦ rw idle (record {
    tree = refl;
    lru = refl;
    num = refl;
    size = refl;
    addr = refl;
    others = λ b ne. refl;
  })
]

module _ (rt : RadixTree Leaf) where
  open rt use {Tree, lookup}

  pub record IsSound (c : CachePool Tree) : Type 0 where
    pub agree : (k : ℕ) → lookup c.tree k ≡ find_key k c.lru_list
    pub distinct : Distinct c.lru_list
    pub known : All (λ l. l.addr < c.next_addr) c.lru_list
    pub alive : All (λ l. (c.flags l.addr).is_delete ≡ false) c.lru_list
    pub num : c.cache_num ≡ length c.lru_list
    pub small : length c.lru_list < 2 ^ 31

  -- What a leaf's leaving does to the list, and the rest.
  pub record IsLess (c : CachePool Tree) (k : ℕ) (c' : CachePool Tree) : Type 0 where
    pub lru : c'.lru_list ≡ remove_key k c.lru_list
    pub size : c'.cache_size ≡ c.cache_size
    pub sound : IsSound c'

  -- The leaf at a key leaves the pool, once the tree has it no more.
  pub unlink-IsLess :
      (c : CachePool Tree) (t : Tree) (k : ℕ) (l : Leaf)
      → IsSound c
      → find_key k c.lru_list ≡ some l
      → lookup t k ≡ none
      → ((j : ℕ) → k ≢ j → lookup t j ≡ lookup c.tree j)
      → IsLess c k (unlink (record c { tree = t }) l)
  unlink-IsLess c t k l s e gone same =
      let u = unlink-IsUnlinked (record c { tree = t }) l in
      let lru = u.lru ∙ list_del-remove_key k c.lru_list l s.distinct e in
      let fewer = length-remove_key k c.lru_list l e in
      record {
        lru = lru;
        size = u.size;
        sound = record {
          agree = λ j.
              rw (u.tree, lru)
                (elim (Bool-cases (k == j)) [
                  | inl here ↦
                      let e : k ≡ j = ground (arith, here) in
                      subst (λ i. lookup t i ≡ find_key i (remove_key k c.lru_list)) e
                        (gone ∙ sym (find_key-remove_key_self k c.lru_list s.distinct))
                  | inr other ↦
                      let ne : k ≢ j = λ q. absurd (ground (arith, other, q)) in
                      same j ne ∙ s.agree j ∙ sym (find_key-remove_key_other k j c.lru_list ne)
                ]);
          distinct = rw lru (Distinct-remove_key k c.lru_list s.distinct);
          known = rw (lru, u.addr) (All-remove_key _ k c.lru_list s.known);
          alive = rw lru (
              All-other (λ a. (c.flags a).is_delete ≡ false)
                (λ a. ((unlink (record c { tree = t }) l).flags a).is_delete ≡ false) l.addr
                (remove_key k c.lru_list) (found_gone k c.lru_list l s.distinct e)
                (λ b ne p. ap (λ (f : Flag). f.is_delete) (u.others b ne) ∙ p)
                (All-remove_key _ k c.lru_list s.alive));
          num =
              let less : atomic_dec c.cache_num ≡ length (remove_key k c.lru_list) =
                omega (arith, s.num, fewer, s.small) in
              u.num ∙ less ∙ ap length (sym lru);
          small = rw lru (omega (arith, fewer, s.small));
        };
      }
