-- ===== src/Cache/Clear.antt =====
-- Kicking a whole pool.
use mathlib.Core.Path.{subst}
use mathlib.Core.List.{append-nil, append_assoc}
use kt.Base.{
  ℕ, zero, suc, ◌+◌, ◌-◌, ◌^◌, ◌≤◌, ◌≡◌, ◌⊎◌, refl, ap, sym, ◌∙◌, Bool, true, false, none, some,
  List, [], ◌∷◌, ◌++◌, arith, length, All, Bool-cases, inl, inr,
}
use kt.Cache.RadixTree.{RadixTree}
use kt.Cache.Pool.{Leaf, CachePool, Kick, kick_leaf, kick_loop, kick_meta_cache}
use kt.Cache.Leaves.{find_key, remove_key, Distinct}
use kt.Cache.Kept.{IsSound, unlink-IsLess}
use kt.Cache.Kicks.{last_found}
use kt.Cache.Manager.{kick_retry, kick_pool, kicked, rm_first, rm_all_cache_pool_tbl}
use kt.Cache.Sizes.{VolPool, Table}
use kt.Cache.Budget.{volumes}

no_more {ℓ} : {A : Type ℓ} (xs : List A) → length xs ≤ 0 → xs ≡ []
no_more [] le = refl
no_more (x ∷ xs) le = absurd (omega (arith, le))

module _ (rt : RadixTree Leaf) where
  open rt use {Tree, lookup, delete, lookup-delete_self, lookup-delete_other}

  -- A pool that has no leaf any more.
  record IsClear (c c' : CachePool Tree) : Type 0 where
    lru : c'.lru_list ≡ []
    num : c'.cache_num ≡ 0
    size : c'.cache_size ≡ c.cache_size
    sound : IsSound rt c'

  module _ (c : CachePool Tree) (s : IsSound rt c) where
    abbrev first : Kick rt
    first = record { pool = c; nr = 0; not_all_clear = false; stop = false }

    record IsLeft (pre : List Leaf) (k : Kick rt) : Type 0 where
      lru : k.pool.lru_list ≡ pre
      stop : k.stop ≡ false
      size : k.pool.cache_size ≡ c.cache_size
      sound : IsSound rt k.pool

    kick_step :
        (pre : List Leaf) (l : Leaf) (k : Kick rt)
        → IsLeft (pre ++ l ∷ []) k
        → IsLeft pre (kick_leaf rt (λ item. true) none l k)
    unfolding kick_leaf
    kick_step pre l k i =
        let lru = i.lru in
        let (found, gone) = last_found l pre (subst Distinct lru i.sound.distinct) in
        let less =
          unlink-IsLess rt k.pool (delete k.pool.tree l.blkid).0 l.blkid l i.sound
            (ap (find_key l.blkid) lru ∙ found) (lookup-delete_self k.pool.tree l.blkid)
            (lookup-delete_other k.pool.tree l.blkid) in
        rw (kick_leaf, i.stop)
          (record {
            lru = less.lru ∙ ap (remove_key l.blkid) lru ∙ gone;
            stop = refl;
            size = less.size ∙ i.size;
            sound = less.sound;
          })

    kick_rest :
        (pre ls : List Leaf)
        → c.lru_list ≡ pre ++ ls
        → IsLeft pre (kick_loop rt (λ item. true) none ls first)
    unfolding kick_loop
    kick_rest pre [] e = record { lru = e ∙ append-nil pre; stop = refl; size = refl; sound = s }
    kick_rest pre (l ∷ ls) e =
        kick_step pre l (kick_loop rt (λ item. true) none ls first)
          (kick_rest (pre ++ l ∷ []) ls (e ∙ sym (append_assoc pre (l ∷ []) ls)))

    kick_meta_cache-IsClear : IsClear c (kick_meta_cache rt c (2 ^ 32 - 1) (λ item. true)).0
    unfolding kick_meta_cache
    kick_meta_cache-IsClear =
        let k = kick_rest [] c.lru_list refl in
        (record {
          lru = k.lru;
          num = k.sound.num ∙ ap length k.lru;
          size = k.size;
          sound = k.sound;
        })

  -- A pool without leaves reports that all are clear.
  kick_meta_cache_empty :
      (c : CachePool Tree)
      → c.lru_list ≡ []
      → (kick_meta_cache rt c (2 ^ 32 - 1) (λ item. true)).1 ≡ false
  unfolding kick_meta_cache kick_loop
  kick_meta_cache_empty c e = rw (kick_meta_cache, e) refl

  kick_retry-IsClear :
      (c0 : CachePool Tree) (n : ℕ) (r : CachePool Tree × Bool)
      → IsClear c0 r.0
      → IsClear c0 (kick_retry rt n r).0
  unfolding kick_retry
  kick_retry-IsClear c0 zero r h = h
  kick_retry-IsClear c0 (suc n) (c, ret) h =
      let again = kick_meta_cache-IsClear c h.sound in
      let rest =
        kick_retry-IsClear c0 n (kick_meta_cache rt c (2 ^ 32 - 1) (λ item. true)) (record {
          lru = again.lru;
          num = again.num;
          size = again.size ∙ h.size;
          sound = again.sound;
        }) in
      elim (Bool-cases ret) [
        | inl more ↦ rw (kick_retry, more) rest
        | inr done ↦ rw (kick_retry, done) h
      ]

  retry_done : (n : ℕ) (r : CachePool Tree × Bool) → r.1 ≡ false → (kick_retry rt n r).1 ≡ false
  unfolding kick_retry
  retry_done zero r e = e
  retry_done (suc n) (c, ret) e = rw e refl

  -- One more round is enough.
  kick_retry_ends :
      (n : ℕ) (r : CachePool Tree × Bool) → r.0.lru_list ≡ [] → (kick_retry rt (suc n) r).1 ≡ false
  unfolding kick_retry
  kick_retry_ends n (c, ret) e = elim (Bool-cases ret) [
    | inl more ↦
        rw (kick_retry, more)
          (retry_done n (kick_meta_cache rt c (2 ^ 32 - 1) (λ item. true))
            (kick_meta_cache_empty c e))
    | inr done ↦ rw (kick_retry, done) refl
  ]

  -- When all of a pool is kicked, no leaf is in its list or its tree any more, and the retries end
  -- with none that is still to be cleared, even if leaves are referenced and so not freed yet.
  kick_pool-IsClear :
      (c : CachePool Tree)
      → IsSound rt c
      → IsClear c (kick_pool rt c (2 ^ 32 - 1) (λ item. true)).0
        × ((k : ℕ) → lookup (kick_pool rt c (2 ^ 32 - 1) (λ item. true)).0.tree k ≡ none)
        × ((kick_pool rt c (2 ^ 32 - 1) (λ item. true)).1 ≡ false)
  unfolding kick_pool
  kick_pool-IsClear c s =
      let once = kick_meta_cache rt c (2 ^ 32 - 1) (λ item. true) in
      let clear = kick_meta_cache-IsClear c s in
      let all = kick_retry-IsClear c 30 once clear in
      (all, (λ k. all.sound.agree k ∙ ap (find_key k) all.lru), kick_retry_ends 29 once clear.lru)

  rm_first-cases :
      (tbl : Table Tree)
      → ((rm_first rt tbl ≡ none) × (volumes tbl ≡ []))
        ⊎ ((v : VolPool Tree) × (tbl' : Table Tree) × (rm_first rt tbl ≡ some (v, tbl'))
            × (volumes tbl ≡ v ∷ volumes tbl'))
  unfolding rm_first
  rm_first-cases [] = inl (refl, refl)
  rm_first-cases ([] ∷ tbl) = elim (rm_first-cases tbl) [
    | inl (e, gone) ↦ inl (rw (rm_first, e) refl, gone)
    | inr (v, tbl', e, same) ↦ inr (v, ([] ∷ tbl'), rw (rm_first, e) refl, same)
  ]
  rm_first-cases ((v ∷ vs) ∷ tbl) = inr (v, (vs ∷ tbl), refl, refl)

  -- The volumes, each with its pool kicked, put one after another in front of those that are gone.
  abbrev pub kicked_onto : List (VolPool Tree) → List (VolPool Tree) → List (VolPool Tree)
  kicked_onto [] gone = gone
  kicked_onto (v ∷ vs) gone = kicked_onto vs (kicked rt (λ item. true) v ∷ gone)

  -- The loop that removes all pools ends: where the list and the tree of each pool agree, as many
  -- rounds as there are volumes leave none in the table. What was taken out is exactly the volumes of
  -- the table, each once, in the order of the table, with its pool kicked, so that its list is empty.
  pub rm_all_cache_pool_tbl_ends :
      (n : ℕ) (tbl : Table Tree) (gone : List (VolPool Tree))
      → All (λ v. IsSound rt v.pool) (volumes tbl)
      → length (volumes tbl) ≤ n
      → All (λ v. v.pool.lru_list ≡ []) gone
      → (let (tbl', gone') = rm_all_cache_pool_tbl rt n tbl gone in
          (volumes tbl' ≡ [])
          × (length gone' ≡ length gone + length (volumes tbl))
          × (gone' ≡ kicked_onto (volumes tbl) gone)
          × All (λ v. v.pool.lru_list ≡ []) gone')
  unfolding rm_all_cache_pool_tbl
  rm_all_cache_pool_tbl_ends zero tbl gone s le clear =
      let none_left = no_more (volumes tbl) le in
      let l = ap length none_left in
      (none_left, omega (arith, l), sym (ap (λ vs. kicked_onto vs gone) none_left), clear)
  rm_all_cache_pool_tbl_ends (suc n) tbl gone s le clear = elim (rm_first-cases tbl) [
    | inl (e, none_left) ↦
        let l = ap length none_left in
        rw (rm_all_cache_pool_tbl, e)
          (none_left, omega (arith, l), sym (ap (λ vs. kicked_onto vs gone) none_left), clear)
    | inr (v, tbl', e, same) ↦
        let len = ap length same in
        let ss = subst (All (λ v. IsSound rt v.pool)) same s in
        let one = kick_pool-IsClear v.pool ss.0 in
        let rest =
          rm_all_cache_pool_tbl_ends n tbl' (kicked rt (λ item. true) v ∷ gone) ss.1
            (omega (arith, le, len)) (one.0.lru, clear) in
        rw (rm_all_cache_pool_tbl, e)
          (
            rest.0,
            rest.1 ∙ omega (arith, len),
            rest.2 ∙ sym (ap (λ vs. kicked_onto vs gone) same),
            rest.3,
          )
  ]
