-- ===== src/Cache/Leaves.antt =====
-- Lists of leaves with distinct addresses and keys: finding and removing by either.
use mathlib.Core.Path.{subst}
use mathlib.Core.Option.{some-injective}
use kt.Base.{
  ℕ, ◌+◌, ◌≤◌, ◌<◌, ◌≡◌, ◌≢◌, refl, ap, sym, Bool, true, false, ◌||◌, Option, none, some, List, [],
  ◌∷◌, arith, length, All, ◌==◌, if◌then◌else◌, Bool-cases, inl, inr,
}
use kt.Cache.Pool.{Leaf, list_del}

abbrev pub find_key : ℕ → List Leaf → Option Leaf
find_key k [] = none
find_key k (l ∷ ls) = if l.blkid == k then some l else find_key k ls

abbrev pub has_addr : ℕ → List Leaf → Bool
has_addr a [] = false
has_addr a (l ∷ ls) = l.addr == a || has_addr a ls

abbrev pub remove_key : ℕ → List Leaf → List Leaf
remove_key k [] = []
remove_key k (l ∷ ls) = if l.blkid == k then ls else l ∷ remove_key k ls

abbrev pub Distinct : List Leaf → Type 0
Distinct [] = Unit
Distinct (l ∷ ls) = (find_key l.blkid ls ≡ none) × (has_addr l.addr ls ≡ false) × Distinct ls

pub found_key : (k : ℕ) (ls : List Leaf) (l : Leaf) → find_key k ls ≡ some l → l.blkid ≡ k
found_key k [] l e = cc
found_key k (x ∷ ls) l e = ground (arith, found_key k ls l, some-injective x l)

pub found_addr :
    (k : ℕ) (ls : List Leaf) (l : Leaf) → find_key k ls ≡ some l → has_addr l.addr ls ≡ true
found_addr k [] l e = cc
found_addr k (x ∷ ls) l e = ground (arith, found_addr k ls l, some-injective x l)

-- A leaf that is found by its key is removed by its address.
pub list_del-remove_key :
    (k : ℕ) (ls : List Leaf) (l : Leaf)
    → Distinct ls
    → find_key k ls ≡ some l
    → list_del l.addr ls ≡ remove_key k ls
list_del-remove_key k [] l d e = refl
list_del-remove_key k (x ∷ ls) l d e = elim (Bool-cases (x.blkid == k)) [
  | inl here ↦
      let same : x ≡ l = some-injective _ _ (ground (arith, here, e)) in
      let a = ap (λ (y : Leaf). y.addr) same in ground (arith, here, a)
  | inr other ↦
      let e' : find_key k ls ≡ some l = ground (arith, other, e) in
      let rest = list_del-remove_key k ls l d.2 e' in
      ground (arith, other, rest, found_addr k ls l e', d.1)
]

pub find_key-remove_key_self :
    (k : ℕ) (ls : List Leaf) → Distinct ls → find_key k (remove_key k ls) ≡ none
find_key-remove_key_self k [] d = refl
find_key-remove_key_self k (x ∷ ls) d =
    let rest = find_key-remove_key_self k ls d.2 in
    elim (Bool-cases (x.blkid == k)) [
      | inl here ↦
          let e : x.blkid ≡ k = ground (arith, here) in
          rw here (subst (λ j. find_key j ls ≡ none) e d.0)
      | inr other ↦ rw other (rw other rest)
    ]

pub find_key-remove_key_other :
    (k j : ℕ) (ls : List Leaf) → k ≢ j → find_key j (remove_key k ls) ≡ find_key j ls
find_key-remove_key_other k j [] ne = refl
find_key-remove_key_other k j (x ∷ ls) ne = ground (arith, find_key-remove_key_other k j ls ne, ne)

pub has_addr-remove_key :
    (a k : ℕ) (ls : List Leaf) → has_addr a ls ≡ false → has_addr a (remove_key k ls) ≡ false
has_addr-remove_key a k [] h = refl
has_addr-remove_key a k (x ∷ ls) h = ground (arith, has_addr-remove_key a k ls)

find_key-remove_key_absent :
    (j k : ℕ) (ls : List Leaf) → find_key j ls ≡ none → find_key j (remove_key k ls) ≡ none
find_key-remove_key_absent j k [] h = refl
find_key-remove_key_absent j k (x ∷ ls) h = ground (arith, find_key-remove_key_absent j k ls)

pub Distinct-remove_key : (k : ℕ) (ls : List Leaf) → Distinct ls → Distinct (remove_key k ls)
Distinct-remove_key k [] d = tt
Distinct-remove_key k (x ∷ ls) d = elim (Bool-cases (x.blkid == k)) [
  | inl here ↦ rw here d.2
  | inr other ↦ rw other (
    find_key-remove_key_absent x.blkid k ls d.0,
    has_addr-remove_key x.addr k ls d.1,
    Distinct-remove_key k ls d.2,
  )
]

pub All-remove_key {ℓ} :
    (P : Leaf → Type ℓ) (k : ℕ) (ls : List Leaf) → All P ls → All P (remove_key k ls)
All-remove_key P k [] h = tt
All-remove_key P k (x ∷ ls) h = elim (Bool-cases (x.blkid == k)) [
  | inl here ↦ rw here h.1
  | inr other ↦ rw other (h.0, All-remove_key P k ls h.1)
]

pub length-remove_key :
    (k : ℕ) (ls : List Leaf) (l : Leaf)
    → find_key k ls ≡ some l
    → length (remove_key k ls) + 1 ≡ length ls
length-remove_key k [] l e = cc
length-remove_key k (x ∷ ls) l e = ground (arith, length-remove_key k ls l)

pub remove_key_absent : (k : ℕ) (ls : List Leaf) → find_key k ls ≡ none → remove_key k ls ≡ ls
remove_key_absent k [] e = refl
remove_key_absent k (x ∷ ls) e = ground (arith, remove_key_absent k ls)

pub All-found {ℓ} :
    (P : Leaf → Type ℓ) (k : ℕ) (ls : List Leaf) (l : Leaf)
    → All P ls
    → find_key k ls ≡ some l
    → P l
All-found P k [] l h e = cc
All-found P k (x ∷ ls) l h e = elim (Bool-cases (x.blkid == k)) [
  | inl here ↦ subst P (some-injective _ _ (ground (arith, here, e))) h.0
  | inr other ↦ All-found P k ls l h.1 (ground (arith, other, e))
]

pub found_gone :
    (k : ℕ) (ls : List Leaf) (l : Leaf)
    → Distinct ls
    → find_key k ls ≡ some l
    → has_addr l.addr (remove_key k ls) ≡ false
found_gone k [] l d e = refl
found_gone k (x ∷ ls) l d e = elim (Bool-cases (x.blkid == k)) [
  | inl here ↦
      let same : x ≡ l = some-injective _ _ (ground (arith, here, e)) in
      rw here (subst (λ (y : Leaf). has_addr y.addr ls ≡ false) same d.1)
  | inr other ↦
      let e' : find_key k ls ≡ some l = ground (arith, other, e) in
      let rest = found_gone k ls l d.2 e' in ground (arith, other, rest, found_addr k ls l e', d.1)
]

-- A property of addresses that holds of a list still does when only another address changes.
pub All-other {ℓ} :
    (P Q : ℕ → Type ℓ) (a : ℕ) (ls : List Leaf)
    → has_addr a ls ≡ false
    → ((b : ℕ) → a ≢ b → P b → Q b)
    → All (λ l. P l.addr) ls
    → All (λ l. Q l.addr) ls
All-other P Q a [] h f p = tt
All-other P Q a (x ∷ ls) h f p = (
  f x.addr (λ e. absurd (let n : x.addr ≡ a = sym e in ground (arith, h, n))) p.0,
  All-other P Q a ls (ground (arith, h)) f p.1,
)

pub fresh_addr : (n : ℕ) (ls : List Leaf) → All (λ l. l.addr < n) ls → has_addr n ls ≡ false
fresh_addr n [] h = refl
fresh_addr n (x ∷ ls) h = ground (arith, fresh_addr n ls h.1, h.0)

pub length-remove_key-le : (k : ℕ) (ls : List Leaf) → length (remove_key k ls) ≤ length ls
length-remove_key-le k [] = omega arith
length-remove_key-le k (x ∷ ls) = ground (arith, length-remove_key-le k ls)
