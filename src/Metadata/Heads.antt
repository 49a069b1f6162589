-- ===== src/Metadata/Heads.antt =====
-- The first triplet that the merging of places stores.
use mathlib.Core.Option.{some-injective}
use kt.Base.{
  ℕ, zero, suc, ◌+◌, ◌%◌, ◌^◌, ◌≤◌, ◌<◌, ◌≡◌, inl, inr, refl, ap, ◌∙◌, true, some, List, [], ◌∷◌,
  arith, length, drop, get_elem?, All, ltb, ◌==◌, if◌then◌else◌, Bool-cases,
}
use kt.Metadata.Triple.{compose_triple, decompose_triple, decompose_triple-compose_triple}
use kt.Metadata.Merge.{PhyLoc, create_triplets, cont_triplets, get_cont_triplet_length}

-- A place whose offset fits into the 20 bits that a triplet has for it.
abbrev pub IsPlace : PhyLoc → Type 0
IsPlace l = (l.rbid < 2 ^ 32) × (l.offset < 2 ^ 20)

-- The first q places follow on from one another.
record IsCont (rbid offset m : ℕ) (ls : List PhyLoc) (q : ℕ) : Type 0 where
  found : cont_triplets rbid offset m m (create_triplets ls) ≡ (m + q, m + q)
  within : q ≤ length ls
  follows :
      (j : ℕ) (x : PhyLoc)
      → j < q
      → get_elem? ls j ≡ some x
      → (x.rbid ≡ rbid) × (x.offset ≡ offset + m + j)

stop-IsCont :
    (rbid offset m : ℕ) (ls : List PhyLoc)
    → cont_triplets rbid offset m m (create_triplets ls) ≡ (m, m)
    → IsCont rbid offset m ls 0
stop-IsCont rbid offset m ls e =
    let z : m ≡ m + 0 = omega arith in
    record {
      found = e ∙ ap (λ n. (n, n)) z;
      within = omega arith;
      follows = λ j x lt h. absurd (omega (arith, lt));
    }

follows_next :
    (rbid offset m q : ℕ) (l : PhyLoc) (ls : List PhyLoc)
    → (l.rbid == rbid) ≡ true
    → l.offset ≡ offset + m
    → IsCont rbid offset (suc m) ls q
    → (j : ℕ) (x : PhyLoc) → j < suc q
    → get_elem? (l ∷ ls) j ≡ some x
    → (x.rbid ≡ rbid) × (x.offset ≡ offset + m + j)
follows_next rbid offset m q l ls alike next c zero x lt e =
    let same : l ≡ x = some-injective _ _ e in
    let r = ap (λ (y : PhyLoc). y.rbid) same in
    let o = ap (λ (y : PhyLoc). y.offset) same in (ground (arith, alike, r), omega (arith, next, o))
follows_next rbid offset m q l ls alike next c (suc j) x lt e =
    let (r, o) = c.follows j x (omega (arith, lt)) e in (r, omega (arith, o))

next-IsCont :
    (rbid offset m q : ℕ) (l : PhyLoc) (ls : List PhyLoc)
    → IsPlace l
    → offset < 2 ^ 20
    → m + length (l ∷ ls) < 2 ^ 11
    → (l.rbid == rbid) ≡ true
    → ((offset + m) % 2 ^ 32 == l.offset) ≡ true
    → IsCont rbid offset (suc m) ls q
    → IsCont rbid offset m (l ∷ ls) (suc q)
unfolding cont_triplets create_triplets
next-IsCont rbid offset m q l ls place ho small alike next c =
    let d = decompose_triple-compose_triple l.rbid 1 l.offset place.0 (omega arith) place.1 in
    let count : (m + 1) % 2 ^ 32 ≡ suc m = omega (arith, small) in
    let from : l.offset ≡ offset + m = ground (arith, next, ho, small) in
    let total : suc m + q ≡ m + suc q = omega arith in
    record {
      found = rw d (rw alike (rw next (rw count (c.found ∙ ap (λ n. (n, n)) total))));
      within = omega (arith, c.within);
      follows = follows_next rbid offset m q l ls alike from c;
    }

cont_lem :
    (rbid offset m : ℕ) (ls : List PhyLoc)
    → All IsPlace ls
    → offset < 2 ^ 20
    → m + length ls < 2 ^ 11
    → (q : ℕ) × IsCont rbid offset m ls q
unfolding cont_triplets create_triplets
cont_lem rbid offset m [] h ho small = (0, stop-IsCont rbid offset m [] refl)
cont_lem rbid offset m (l ∷ ls) h ho small =
    let d = decompose_triple-compose_triple l.rbid 1 l.offset h.0.0 (omega arith) h.0.1 in
    elim (Bool-cases (l.rbid == rbid)) [
      | inr other ↦ (0, stop-IsCont rbid offset m (l ∷ ls) (rw d (rw other refl)))
      | inl alike ↦ elim (Bool-cases ((offset + m) % 2 ^ 32 == l.offset)) [
        | inr apart ↦ (0, stop-IsCont rbid offset m (l ∷ ls) (rw d (rw alike (rw apart refl))))
        | inl next ↦
            let (q, c) = cont_lem rbid offset (suc m) ls h.1 ho (omega (arith, small)) in
            (suc q, next-IsCont rbid offset m q l ls h.0 ho small alike next c)
      ]
    ]

pub drop-create_triplets :
    (q : ℕ) (ls : List PhyLoc) → drop q (create_triplets ls) ≡ create_triplets (drop q ls)
unfolding create_triplets
drop-create_triplets zero ls = refl
drop-create_triplets (suc q) [] = refl
drop-create_triplets (suc q) (l ∷ ls) = drop-create_triplets q ls

pub length-drop : (q : ℕ) (ls : List PhyLoc) → q ≤ length ls → length (drop q ls) + q ≡ length ls
length-drop zero ls h = omega arith
length-drop (suc q) [] h = absurd (omega (arith, h))
length-drop (suc q) (l ∷ ls) h = omega (arith, length-drop q ls (omega (arith, h)))

pub get_elem?-drop : (q j : ℕ) (ls : List PhyLoc) → get_elem? (drop q ls) j ≡ get_elem? ls (q + j)
get_elem?-drop zero j ls = ap (get_elem? ls) (omega arith)
get_elem?-drop (suc q) j [] = refl
get_elem?-drop (suc q) j (l ∷ ls) =
    let e : suc (q + j) ≡ suc q + j = omega arith in
    get_elem?-drop q j ls ∙ ap (get_elem? (l ∷ ls)) e

pub All-drop : (q : ℕ) (ls : List PhyLoc) → All IsPlace ls → All IsPlace (drop q ls)
All-drop zero ls h = h
All-drop (suc q) [] h = tt
All-drop (suc q) (l ∷ ls) h = All-drop q ls h.1

-- The first triplet that a merge stores: the first place and the q places that follow on from it.
pub record IsHead (l : PhyLoc) (ls : List PhyLoc) (q : ℕ) (head : ℕ) : Type 0 where
  pub triple : decompose_triple head ≡ (l.rbid, suc q, l.offset)
  pub within : q ≤ length ls
  pub follows :
      (j : ℕ) (x : PhyLoc)
      → j < q
      → get_elem? ls j ≡ some x
      → (x.rbid ≡ l.rbid) × (x.offset ≡ l.offset + 1 + j)

abbrev pub first : PhyLoc → ℕ
first l = compose_triple l.rbid 1 l.offset

abbrev pub merged_head : PhyLoc → ℕ → ℕ → ℕ
merged_head l cont_len accum_len =
    if ltb 1 cont_len then compose_triple l.rbid accum_len l.offset else first l

merged_head_lem :
    (l : PhyLoc) (q : ℕ)
    → IsPlace l
    → suc q < 2 ^ 11
    → decompose_triple (merged_head l (suc q) (suc q)) ≡ (l.rbid, suc q, l.offset)
merged_head_lem l zero place small =
    decompose_triple-compose_triple l.rbid 1 l.offset place.0 (omega arith) place.1
merged_head_lem l (suc q) place small =
    let many : ltb 1 (suc (suc q)) ≡ true = ground arith in
    rw many (decompose_triple-compose_triple l.rbid (suc (suc q)) l.offset place.0 small place.1)

get_cont_many :
    (l x : PhyLoc) (ls : List PhyLoc)
    → IsPlace l
    → get_cont_triplet_length (first l) (create_triplets (x ∷ ls))
      ≡ cont_triplets l.rbid l.offset 1 1 (create_triplets (x ∷ ls))
unfolding get_cont_triplet_length create_triplets
get_cont_many l x ls place =
    ap (λ (d : ℕ × ℕ × ℕ). cont_triplets d.0 d.2 1 d.1 (create_triplets (x ∷ ls)))
      (decompose_triple-compose_triple l.rbid 1 l.offset place.0 (omega arith) place.1)

get_cont_one : (l : PhyLoc) → get_cont_triplet_length (first l) (create_triplets []) ≡ (1, 0)
unfolding get_cont_triplet_length create_triplets
get_cont_one l = refl

pub head_lem :
    (l : PhyLoc) (ls : List PhyLoc)
    → IsPlace l
    → All IsPlace ls
    → suc (length ls) < 2 ^ 11
    → let (n, a) = get_cont_triplet_length (first l) (create_triplets ls) in
      (q : ℕ) × (n ≡ suc q) × IsHead l ls q (merged_head l n a)
head_lem l [] place h small = rw (get_cont_one l) (
  0,
  refl,
  record {
    triple = merged_head_lem l 0 place (omega arith);
    within = omega arith;
    follows = λ j x lt e. absurd (omega (arith, lt));
  },
)
head_lem l (x ∷ ls) place h small =
    let (q, c) = cont_lem l.rbid l.offset 1 (x ∷ ls) h place.1 (omega (arith, small)) in
    let total : 1 + q ≡ suc q = omega arith in
    rw (get_cont_many l x ls place ∙ c.found ∙ ap (λ n. (n, n)) total) (
      q,
      refl,
      record {
        triple = merged_head_lem l q place (omega (arith, c.within, small));
        within = c.within;
        follows = c.follows;
      },
    )
