-- ===== src/Cache/Kicks.antt =====
-- The loop of __kick_meta_cache takes leaves from the end of the list.
use mathlib.Core.Path.{subst}
use mathlib.Core.List.{append-nil, append_assoc}
use kt.Base.{
  ℕ, suc, ◌-◌, ◌^◌, ◌≤◌, ◌<◌, ◌≡◌, refl, ap, sym, ◌∙◌, true, false, none, some, List, [], ◌∷◌, ◌++◌,
  take, arith, length, leb, ◌==◌, if◌then◌else◌, inl, inr, lt_or_le,
}
use kt.Cache.RadixTree.{RadixTree}
use kt.Cache.Pool.{Leaf, CachePool, Kick, kick_leaf, kick_loop, kick_meta_cache, signed_lt}
use kt.Cache.Leaves.{find_key, remove_key, Distinct}
use kt.Cache.Kept.{IsSound, unlink-IsLess}

find_key-append :
    (k : ℕ) (l : Leaf) (ls : List Leaf) → find_key k (ls ++ l ∷ []) ≡ none → (l.blkid == k) ≡ false
find_key-append k l [] h = ground (arith, h)
find_key-append k l (x ∷ ls) h = ground (arith, h, find_key-append k l ls)

pub last_found :
    (l : Leaf) (ls : List Leaf)
    → Distinct (ls ++ l ∷ [])
    → (find_key l.blkid (ls ++ l ∷ []) ≡ some l) × (remove_key l.blkid (ls ++ l ∷ []) ≡ ls)
last_found l [] d = (ground arith, ground arith)
last_found l (x ∷ ls) d =
    let (a, b) = last_found l ls d.2 in
    let ne = find_key-append x.blkid l ls d.0 in (ground (arith, a, ne), ground (arith, b, ne))

module _ (rt : RadixTree Leaf) (c : CachePool rt.Tree) (s : IsSound rt c) (n : ℕ)
    (pos : 0 < n) where
  open rt use {Tree, lookup, delete, lookup-delete_self, lookup-delete_other}

  abbrev first : Kick rt
  first = record { pool = c; nr = 0; not_all_clear = false; stop = false }

  -- What the loop has done after the last leaves of the list.
  record IsKicked (pre ls : List Leaf) (k : Kick rt) : Type 0 where
    lru : k.pool.lru_list ≡ pre ++ take (length ls - n) ls
    nr : k.nr ≡ (if leb n (length ls) then n else length ls)
    stop : k.stop ≡ leb n (length ls)
    size : k.pool.cache_size ≡ c.cache_size
    sound : IsSound rt k.pool

  kick_step :
      (pre : List Leaf) (l : Leaf) (ls : List Leaf) (k : Kick rt)
      → IsKicked (pre ++ l ∷ []) ls k
      → IsKicked pre (l ∷ ls) (kick_leaf rt (λ item. true) (some n) l k)
  unfolding kick_leaf
  kick_step pre l ls k i = elim (lt_or_le (length ls) n) [
    | inr over ↦
        let stop : k.stop ≡ true = ground (arith, i.stop, over) in
        rw (kick_leaf, stop)
          (record {
            lru =
                let len : suc (length ls) - n ≡ suc (length ls - n) = omega (arith, over) in
                rw len (i.lru ∙ append_assoc pre (l ∷ []) (take (length ls - n) ls));
            nr = ground (arith, i.nr, over);
            stop = ground (arith, i.stop, over);
            size = i.size;
            sound = i.sound;
          })
    | inl under ↦
        let go : k.stop ≡ false = ground (arith, i.stop, under) in
        let none_left : length ls - n ≡ 0 = omega (arith, under) in
        let all_left : suc (length ls) - n ≡ 0 = omega (arith, under) in
        let lru : k.pool.lru_list ≡ pre ++ l ∷ [] =
          i.lru ∙ rw none_left (append-nil (pre ++ l ∷ [])) in
        let (found, gone) = last_found l pre (subst Distinct lru i.sound.distinct) in
        let less =
          unlink-IsLess rt k.pool (delete k.pool.tree l.blkid).0 l.blkid l i.sound
            (ap (find_key l.blkid) lru ∙ found) (lookup-delete_self k.pool.tree l.blkid)
            (lookup-delete_other k.pool.tree l.blkid) in
        rw (kick_leaf, go)
          (record {
            lru =
                rw all_left (less.lru ∙ ap (remove_key l.blkid) lru ∙ gone ∙ sym (append-nil pre));
            nr = ground (arith, i.nr, under);
            stop = ground (arith, i.nr, under);
            size = less.size ∙ i.size;
            sound = less.sound;
          })
  ]

  kick_all :
      (pre ls : List Leaf)
      → c.lru_list ≡ pre ++ ls
      → IsKicked pre ls (kick_loop rt (λ item. true) (some n) ls first)
  unfolding kick_loop
  kick_all pre [] e = record {
    lru = (let z : 0 - n ≡ 0 = omega arith in rw z e);
    nr = ground (arith, pos);
    stop = ground (arith, pos);
    size = refl;
    sound = s;
  }
  kick_all pre (l ∷ ls) e =
      kick_step pre l ls (kick_loop rt (λ item. true) (some n) ls first)
        (kick_all (pre ++ l ∷ []) ls (e ∙ sym (append_assoc pre (l ∷ []) ls)))

  -- The last n leaves of the list go.
  pub record IsShorter (c' : CachePool Tree) : Type 0 where
    pub lru : c'.lru_list ≡ take (length c.lru_list - n) c.lru_list
    pub size : c'.cache_size ≡ c.cache_size
    pub sound : IsSound rt c'

  pub kick_meta_cache-IsShorter :
      n ≤ length c.lru_list → IsShorter (kick_meta_cache rt c n (λ item. true)).0
  unfolding kick_meta_cache
  kick_meta_cache-IsShorter le =
      let small = s.small in
      let few : (n == 2 ^ 32 - 1) ≡ false = ground (arith, le, small) in
      let not_over : signed_lt c.cache_num n ≡ false = ground (arith, le, small, s.num) in
      let some_left : (n == 0) ≡ false = ground (arith, pos) in
      let not_neg : signed_lt n (2 ^ 32 - 1) ≡ false = ground (arith, le, small) in
      let k = kick_all [] c.lru_list refl in
      rw (kick_meta_cache, few, not_over, some_left, not_neg)
        (record { lru = k.lru; size = k.size; sound = k.sound })
