-- ===== src/Cache/Touch.antt =====
-- A leaf that cache_find takes to the head of the list, and the basket's entries.
use mathlib.Core.Path.{subst}
use kt.Base.{
  ℕ, zero, suc, ◌+◌, ◌≡◌, ◌≢◌, refl, ap, sym, ◌∙◌, false, Option, none, some, List, [], ◌∷◌, ◌++◌,
  arith, length, set, All-map, ◌==◌, Bool-cases, inl, inr,
}
use kt.Cache.RadixTree.{RadixTree}
use kt.Cache.Pool.{Leaf, CachePool, no_leaves, list_del, set_flag}
use kt.Cache.Leaves.{
  find_key, remove_key, Distinct, found_key, list_del-remove_key, find_key-remove_key_self,
  find_key-remove_key_other, Distinct-remove_key, All-remove_key, length-remove_key, All-found,
  found_gone,
}
use kt.Cache.Kept.{IsSound}

-- What the basket is to hold: the leaves at the n indices from s.
abbrev pub looked : (ℕ → Option Leaf) → ℕ → ℕ → List (Option Leaf)
looked look s zero = []
looked look s (suc n) = look s ∷ looked look (s + 1) n

pub set-no_leaves :
    (m : ℕ) (x : Option Leaf) (xs : List (Option Leaf))
    → set (no_leaves m ++ none ∷ xs) m x ≡ no_leaves m ++ x ∷ xs
set-no_leaves zero x xs = refl
set-no_leaves (suc m) x xs = ap (λ ys. none ∷ ys) (set-no_leaves m x xs)

pub no_leaves_last :
    (m : ℕ) (xs : List (Option Leaf)) → no_leaves (suc m) ++ xs ≡ no_leaves m ++ none ∷ xs
no_leaves_last zero xs = refl
no_leaves_last (suc m) xs = ap (λ ys. none ∷ ys) (no_leaves_last m xs)

module _ (rt : RadixTree Leaf) where
  open rt use {Tree}

  -- A leaf goes to the head of the list with one reference more.
  abbrev pub touched : CachePool Tree → Leaf → CachePool Tree
  touched c l =
      let flag = c.flags l.addr in
      record c {
        lru_list = l ∷ list_del l.addr c.lru_list;
        flags = set_flag c.flags l.addr (record flag { count = flag.count + 1 });
      }

  pub touched-IsSound :
      (c : CachePool Tree) (k : ℕ) (l : Leaf)
      → IsSound rt c
      → find_key k c.lru_list ≡ some l
      → IsSound rt (touched c l)
  touched-IsSound c k l s e =
      let key = found_key k c.lru_list l e in
      let del = list_del-remove_key k c.lru_list l s.distinct e in
      let fewer = length-remove_key k c.lru_list l e in
      let lru : l ∷ list_del l.addr c.lru_list ≡ l ∷ remove_key k c.lru_list =
        ap (λ xs. l ∷ xs) del in
      let same : (a : ℕ)
          → (c.flags a).is_delete ≡ false
          → ((touched c l).flags a).is_delete ≡ false =
        λ a p. ground (arith, p) in
      record {
        agree = λ j.
            s.agree j
            ∙ sym (
                ap (find_key j) lru ∙ elim (Bool-cases (l.blkid == j)) [
                  | inl here ↦
                      let q : k ≡ j = sym key ∙ ground (arith, here) in
                      rw here (sym (subst (λ i. find_key i c.lru_list ≡ some l) q e))
                  | inr other ↦
                      let ne : k ≢ j = λ q. absurd (ground (arith, other, q, key)) in
                      rw other (find_key-remove_key_other k j c.lru_list ne)
                ]);
        distinct = subst Distinct (sym lru) (
          subst (λ i. find_key i (remove_key k c.lru_list) ≡ none) (sym key)
              (find_key-remove_key_self k c.lru_list s.distinct),
          found_gone k c.lru_list l s.distinct e,
          Distinct-remove_key k c.lru_list s.distinct,
        );
        known =
            rw del (All-found _ k c.lru_list l s.known e, All-remove_key _ k c.lru_list s.known);
        alive = rw del (
          same l.addr (All-found _ k c.lru_list l s.alive e),
          All-map (λ x p. same x.addr p) _ (All-remove_key _ k c.lru_list s.alive),
        );
        num = let len = ap length lru in omega (arith, s.num, fewer, len);
        small = let len = ap length lru in let small = s.small in omega (arith, small, fewer, len);
      }
