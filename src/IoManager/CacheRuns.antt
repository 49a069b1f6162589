-- ===== src/IoManager/CacheRuns.antt =====
-- The runs of blocks that the metadata cache answers for (query_volume_MDCache).
use mathlib.Core.Path.{subst}
use kt.Base.{
  ℕ, zero, suc, ◌+◌, ◌-◌, ◌%◌, ◌^◌, ◌≤◌, ◌<◌, ◌≡◌, ◌⊎◌, refl, sym, ap, ◌∙◌, inl, inr, Bool, true,
  false, ◌&&◌, List, [], ◌∷◌, arith, ltb, Bool-cases, lt_or_le,
}
use kt.IoManager.Split.{MdBk, max_seg_len, get_max_seg_len, query_loop, query_volume_md_cache}

-- The blocks of a run are all in the cache, or none is.
abbrev IsSegLen : Bool → (ℕ → Bool) → ℕ → ℕ → ℕ → Type 0
IsSegLen md_ch hit cnt k r = (cnt ≤ r) × (r ≤ cnt + k) × ((j : ℕ) → j < r → hit j ≡ md_ch)

max_seg_len_cases :
    (md_ch : Bool) (hit : ℕ → Bool) (k cnt : ℕ)
    → (max_seg_len md_ch hit (suc k) cnt ≡ cnt)
      ⊎ ((hit cnt ≡ md_ch)
          × (max_seg_len md_ch hit (suc k) cnt ≡ max_seg_len md_ch hit k (cnt + 1)))
unfolding max_seg_len
max_seg_len_cases md_ch hit k cnt = ground arith

max_seg_len_lem :
    (md_ch : Bool) (hit : ℕ → Bool) (k cnt : ℕ)
    → ((j : ℕ) → j < cnt → hit j ≡ md_ch)
    → IsSegLen md_ch hit cnt k (max_seg_len md_ch hit k cnt)
unfolding max_seg_len
max_seg_len_lem md_ch hit zero cnt h = (omega arith, omega arith, h)
max_seg_len_lem md_ch hit (suc k) cnt h = elim (max_seg_len_cases md_ch hit k cnt) [
  | inl stop ↦ subst (IsSegLen md_ch hit cnt (suc k)) (sym stop) (omega arith, omega arith, h)
  | inr (e, more) ↦
      let (from, upto, same) = max_seg_len_lem md_ch hit k (cnt + 1) (λ j lt.
        elim (lt_or_le j cnt) [
          | inl before ↦ h j before
          | inr at ↦ let eq : j ≡ cnt = omega (arith, at, lt) in ap hit eq ∙ e
        ]) in
      subst (IsSegLen md_ch hit cnt (suc k)) (sym more)
        (omega (arith, from), omega (arith, upto), same)
]

get_max_seg_len_lem :
    (hit : ℕ → Bool) (max_len : ℕ)
    → IsSegLen (hit 0) hit 1 (max_len - 1) (get_max_seg_len hit max_len)
unfolding get_max_seg_len
get_max_seg_len_lem hit max_len =
    max_seg_len_lem (hit 0) hit (max_len - 1) 1
      (λ j lt. let e : j ≡ 0 = omega (arith, lt) in ap hit e)

-- From index i to n, runs of blocks that follow one another and are alike in the cache.
abbrev pub MdTiles : ℕ → (ℕ → Bool) → ℕ → List MdBk → ℕ → Type 0
MdTiles base hit i [] n = i ≡ n
MdTiles base hit i (b ∷ bs) n =
    (b.lbid_start ≡ base + i)
    × (0 < b.lbid_len)
    × (i + b.lbid_len ≤ n)
    × ((j : ℕ) → j < b.lbid_len → hit (i + j) ≡ b.has_md)
    × MdTiles base hit (i + b.lbid_len) bs n

query_loop_lem :
    (hit : ℕ → Bool) (fuel base i k lstart : ℕ)
    → k ≤ fuel
    → base + (i + k) < 2 ^ 31
    → lstart ≡ base + i
    → MdTiles base hit i (query_loop fuel hit lstart i k) (i + k)
unfolding query_loop
query_loop_lem hit zero base i k lstart le small e = omega (arith, le)
query_loop_lem hit (suc fuel) base i k lstart le small e = elim (Bool-cases (ltb 0 k)) [
  | inr done ↦ rw done (ground (arith, done))
  | inl more ↦
      let m = get_max_seg_len (λ j. hit (i + j)) k in
      let (from, upto, same) = get_max_seg_len_lem (λ j. hit (i + j)) k in
      let pos : 0 < k = ground (arith, more) in
      rw more (
        ground (arith, e, small),
        omega (arith, from),
        omega (arith, upto, pos),
        λ j lt. same j lt ∙ ap hit (omega arith),
        subst
            (MdTiles base hit (i + m) (query_loop fuel hit ((lstart + m) % 2 ^ 32) (i + m) (k - m)))
            (omega (arith, upto, pos))
            (query_loop_lem hit fuel base (i + m) (k - m) _ (omega (arith, from, le))
              (omega (arith, upto, pos, small)) (omega (arith, e, upto, pos, small))),
      )
]

MdTiles-shift :
    (base i : ℕ) (hit hit' : ℕ → Bool) (k m : ℕ) (bs : List MdBk) (n : ℕ)
    → ((j : ℕ) → j < n → hit' j ≡ hit (i + j))
    → m ≡ i + k
    → MdTiles (base + i) hit' k bs n
    → MdTiles base hit m bs (i + n)
MdTiles-shift base i hit hit' k m [] n h e t = omega (arith, e, t)
MdTiles-shift base i hit hit' k m (b ∷ bs) n h e (a, c, d, f, t) = (
  omega (arith, a, e),
  c,
  omega (arith, d, e),
  λ j lt.
      let at : i + (k + j) ≡ m + j = omega (arith, e) in
      sym (ap hit at) ∙ sym (h (k + j) (omega (arith, d, lt))) ∙ f j lt,
  MdTiles-shift base i hit hit' (k + b.lbid_len) (m + b.lbid_len) bs n h (omega (arith, e)) t,
)

-- The runs that are asked about have metadata if the cache is asked and has it.
pub query-MdTiles :
    (cache_find hit : ℕ → Bool) (base i len : ℕ) (query_cache : Bool)
    → base + (i + len) < 2 ^ 31
    → 0 < len
    → ((j : ℕ) → j < len → hit (i + j) ≡ (query_cache && cache_find (base + (i + j))))
    → MdTiles base hit i
        (query_volume_md_cache cache_find ((base + i) % 2 ^ 64) len query_cache)
        (i + len)
unfolding query_volume_md_cache
query-MdTiles cache_find hit base i len false small pos h =
    (omega (arith, small), pos, omega arith, h, refl)
query-MdTiles cache_find hit base i len true small pos h =
    let found = λ (j : ℕ). cache_find (((base + i) % 2 ^ 64 + j) % 2 ^ 64) in
    MdTiles-shift base i hit found 0 i _ len
      (λ j lt.
        let at : ((base + i) % 2 ^ 64 + j) % 2 ^ 64 ≡ base + (i + j) = omega (arith, small, lt) in
        ap cache_find at ∙ sym (h j lt))
      (omega arith)
      (subst (MdTiles (base + i) found 0 _) (let e : 0 + len ≡ len = omega arith in e) (
        query_loop_lem found len (base + i) 0 len _ (omega arith) (omega (arith, small))
          (omega (arith, small))))
