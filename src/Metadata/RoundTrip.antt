-- ===== src/Metadata/RoundTrip.antt =====
-- What the cache reads back of the places that an item was made of.
use mathlib.Core.Path.{subst}
use mathlib.Core.Option.{some-injective}
use kt.Base.{
  ℕ, zero, suc, ◌+◌, ◌-◌, ◌%◌, ◌^◌, ◌≤◌, ◌<◌, ◌≡◌, inl, inr, refl, ap, sym, ◌∙◌, true, false, some,
  List, [], ◌∷◌, arith, length, drop, get_elem?, All, ltb, lt_or_le,
}
use kt.Metadata.Triple.{decompose_triple, decompose_triple-compose_triple}
use kt.Metadata.Merge.{PhyLoc, create_triplets, get_cont_triplet_length, merge_triplets, split_loc}
use kt.Metadata.Heads.{
  IsPlace, drop-create_triplets, length-drop, get_elem?-drop, All-drop, IsHead, first, merged_head,
  head_lem,
}

index_lt : (ls : List PhyLoc) (k : ℕ) (x : PhyLoc) → get_elem? ls k ≡ some x → k < length ls
index_lt [] k x e = cc
index_lt (l ∷ ls) zero x e = omega arith
index_lt (l ∷ ls) (suc k) x e = omega (arith, index_lt ls k x e)

same_place :
    (r o : ℕ) (x : PhyLoc) → x.rbid ≡ r → x.offset ≡ o → record { rbid = r; offset = o } ≡ x
same_place r o x hr ho = cc

-- The k-th place of a head.
head_place :
    (l : PhyLoc) (ls : List PhyLoc) (q head k : ℕ) (x : PhyLoc)
    → IsHead l ls q head
    → k < suc q
    → get_elem? (l ∷ ls) k ≡ some x
    → record { rbid = l.rbid; offset = l.offset + k } ≡ x
head_place l ls q head zero x c lt e =
    let same : l ≡ x = some-injective _ _ e in
    same_place _ _ x (ap (λ (y : PhyLoc). y.rbid) (sym same))
      (let o = ap (λ (y : PhyLoc). y.offset) same in omega (arith, o))
head_place l ls q head (suc j) x c lt e =
    let (r, o) = c.follows j x (omega (arith, lt)) e in same_place _ _ x r (omega (arith, o))

split_here :
    (prev k q head : ℕ) (l : PhyLoc) (ts : List ℕ)
    → decompose_triple head ≡ (l.rbid, suc q, l.offset)
    → l.offset < 2 ^ 20
    → prev + suc q < 2 ^ 11
    → k < suc q
    → split_loc (prev + k) prev (head ∷ ts) ≡ record { rbid = l.rbid; offset = l.offset + k }
unfolding split_loc
split_here prev k q head l ts d ho small lt =
    let at : (l.offset + (prev + k) + (2 ^ 32 - prev % 2 ^ 32)) % 2 ^ 32 ≡ l.offset + k =
      omega (arith, ho, small, lt) in
    let less : ltb ((prev + k + 2 ^ 31) % 2 ^ 32) (((suc q + prev) % 2 ^ 32 + 2 ^ 31) % 2 ^ 32)
        ≡ true =
      ground (arith, small, lt) in
    rw d (rw less (rw at refl))

split_later :
    (prev k q head : ℕ) (l : PhyLoc) (ts : List ℕ)
    → decompose_triple head ≡ (l.rbid, suc q, l.offset)
    → prev + k < 2 ^ 11
    → suc q ≤ k
    → split_loc (prev + k) prev (head ∷ ts) ≡ split_loc (prev + k) (prev + suc q) ts
unfolding split_loc
split_later prev k q head l ts d small le =
    let next : (prev + suc q) % 2 ^ 32 ≡ prev + suc q = omega (arith, small, le) in
    let less : ltb ((prev + k + 2 ^ 31) % 2 ^ 32) (((suc q + prev) % 2 ^ 32 + 2 ^ 31) % 2 ^ 32)
        ≡ false =
      ground (arith, small, le) in
    rw d (rw less (rw next refl))

merge_eq :
    (fuel : ℕ) (l : PhyLoc) (ls : List PhyLoc)
    → IsPlace l
    → let (n, a) = get_cont_triplet_length (first l) (create_triplets ls) in
      merge_triplets (suc fuel) (create_triplets (l ∷ ls))
      ≡ merged_head l n a ∷ merge_triplets fuel (drop n (create_triplets (l ∷ ls)))
unfolding merge_triplets create_triplets
merge_eq fuel l ls place =
    rw (decompose_triple-compose_triple l.rbid 1 l.offset place.0 (omega arith) place.1) refl

split_merged :
    (fuel : ℕ) (ls : List PhyLoc) (prev k : ℕ) (x : PhyLoc)
    → All IsPlace ls
    → length ls ≤ fuel
    → prev + length ls < 2 ^ 11
    → get_elem? ls k ≡ some x
    → split_loc (prev + k) prev (merge_triplets fuel (create_triplets ls)) ≡ x
split_merged fuel [] prev k x h le small e = cc
split_merged zero (l ∷ ls) prev k x h le small e = absurd (omega (arith, le))
split_merged (suc fuel) (l ∷ ls) prev k x h le small e =
    let (q, n, c) = head_lem l ls h.0 h.1 (omega (arith, small)) in
    let lt = index_lt (l ∷ ls) k x e in
    rw (merge_eq fuel l ls h.0) (elim (lt_or_le k (suc q)) [
      | inl here ↦
          split_here prev k q _ l _ c.triple h.0.1 (omega (arith, small, c.within)) here
          ∙ head_place l ls q _ k x c here e
      | inr later ↦
          split_later prev k q _ l _ c.triple (omega (arith, small, lt)) later
          ∙ (let cut =
                ap (λ m. drop m (create_triplets (l ∷ ls))) n
                ∙ drop-create_triplets (suc q) (l ∷ ls) in
              let back : suc q + (k - suc q) ≡ k = omega (arith, later) in
              let at : prev + suc q + (k - suc q) ≡ prev + k = omega (arith, later) in
              let short = length-drop q ls c.within in
              let rest =
                split_merged fuel (drop q ls) (prev + suc q) (k - suc q) x (All-drop q ls h.1)
                  (omega (arith, short, le)) (omega (arith, short, small))
                  (get_elem?-drop (suc q) (k - suc q) (l ∷ ls)
                    ∙ ap (get_elem? (l ∷ ls)) back
                    ∙ e) in
              rw cut (
                subst
                  (λ i.
                    split_loc i (prev + suc q) (merge_triplets fuel (create_triplets (drop q ls)))
                    ≡ x)
                  at rest))
    ])

-- The places of fewer than 2048 blocks at a datanode, with offsets of 20 bits, each written as a
-- triplet and then merged, are what the cache reads back of the triplets, each at its block.
pub split_loc-merge_triplets :
    (ls : List PhyLoc) (k : ℕ) (x : PhyLoc)
    → All IsPlace ls
    → length ls < 2 ^ 11
    → get_elem? ls k ≡ some x
    → split_loc k 0 (merge_triplets (length ls) (create_triplets ls)) ≡ x
split_loc-merge_triplets ls k x h small e =
    let at : 0 + k ≡ k = omega arith in
    subst (λ i. split_loc i 0 (merge_triplets (length ls) (create_triplets ls)) ≡ x) at
      (split_merged (length ls) ls 0 k x h (omega arith) (omega (arith, small)) e)
