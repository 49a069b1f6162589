-- ===== src/Cache/Steps.antt =====
-- A leaf that is deleted from a pool.
use mathlib.Core.Path.{subst}
use kt.Base.{ℕ, ◌≡◌, ◌⊎◌, refl, sym, ◌∙◌, Option, none, some, arith, ◌==◌, Bool-cases, inl, inr}
use kt.Cache.RadixTree.{RadixTree}
use kt.Cache.Pool.{Leaf, CachePool, invalidate_lb}
use kt.Cache.Leaves.{find_key, remove_key_absent}
use kt.Cache.Kept.{IsSound, IsLess, unlink-IsLess}

pub Option-cases : {A : Type 0} (o : Option A) → (o ≡ none) ⊎ ((a : A) × (o ≡ some a))
Option-cases none = inl refl
Option-cases (some a) = inr (a, refl)

module _ (rt : RadixTree Leaf) where
  open rt use {
    Tree, lookup, insert, delete, insert_old, lookup-insert_self, lookup-insert_other, delete_old,
    lookup-delete_self, lookup-delete_other,
  }

  pub invalidate_lb-IsLess :
      (c : CachePool Tree) (k : ℕ) → IsSound rt c → IsLess rt c k (invalidate_lb rt c k)
  unfolding invalidate_lb
  invalidate_lb-IsLess c k s =
      let old = delete_old c.tree k ∙ s.agree k in
      elim (Option-cases (find_key k c.lru_list)) [
        | inl absent ↦
            rw (invalidate_lb, old ∙ absent)
              (record {
                lru = sym (remove_key_absent k c.lru_list absent);
                size = refl;
                sound = record {
                  agree = λ j. elim (Bool-cases (k == j)) [
                    | inl here ↦
                        let e : k ≡ j = ground (arith, here) in
                        subst (λ i. lookup (delete c.tree k).0 i ≡ find_key i c.lru_list) e
                          (lookup-delete_self c.tree k ∙ sym absent)
                    | inr other ↦
                        lookup-delete_other c.tree k j (λ q. absurd (ground (arith, other, q)))
                        ∙ s.agree j
                  ];
                  distinct = s.distinct;
                  known = s.known;
                  alive = s.alive;
                  num = s.num;
                  small = s.small;
                };
              })
        | inr (l, e) ↦
            rw (invalidate_lb, old ∙ e)
              (unlink-IsLess rt c (delete c.tree k).0 k l s e (lookup-delete_self c.tree k)
                (lookup-delete_other c.tree k))
      ]
