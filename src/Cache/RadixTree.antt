-- ===== src/Cache/RadixTree.antt =====
-- BlockDeviceDriver2/lib/dms-radix-tree.h, the kernel's radix tree, as its users see it: a map of
-- indices to items, scanned in ascending order.
use kt.Base.{ℕ, zero, suc, ◌+◌, ◌≤◌, ◌≡◌, ◌≢◌, refl, Option, none, some, List, [], ◌∷◌, ◌++◌, All}

-- The items at the n indices from s, in ascending order.
abbrev pub collect {ℓ} : {A : Type ℓ} → (ℕ → Option A) → ℕ → ℕ → List A
collect look s zero = []
collect look s (suc n) = elim (look s) [
  | none ↦ collect look (s + 1) n
  | some a ↦ a ∷ collect look (s + 1) n
]

pub collect_absent {ℓ} :
    {A : Type ℓ} (look : ℕ → Option A) (s n : ℕ)
    → look s ≡ none
    → collect look s (suc n) ≡ collect look (s + 1) n
collect_absent look s n e = rw (collect, e) refl

pub collect_found {ℓ} :
    {A : Type ℓ} (look : ℕ → Option A) (s n : ℕ) (a : A)
    → look s ≡ some a
    → collect look s (suc n) ≡ a ∷ collect look (s + 1) n
collect_found look s n a e = rw (collect, e) refl

-- An item at an index from e on.
abbrev pub IsBeyond {ℓ} : {A : Type ℓ} → (ℕ → Option A) → ℕ → A → Type ℓ
IsBeyond look e a = (k : ℕ) × (e ≤ k) × (look k ≡ some a)

pub record RadixTree (A : Type 0) : Type 1 where
  pub Tree : Type 0
  pub empty : Tree
  pub lookup : Tree → ℕ → Option A
  -- The tree with an item in place of the one that is returned, or none if memory is short.
  pub insert : Tree → ℕ → A → Option (Tree × Option A)
  pub delete : Tree → ℕ → Tree × Option A
  -- At most n items from an index on.
  pub gang_lookup : Tree → ℕ → ℕ → List A
  pub lookup-empty : (k : ℕ) → lookup empty k ≡ none
  pub insert_old :
      (t : Tree) (k : ℕ) (a : A) (t' : Tree) (old : Option A)
      → insert t k a ≡ some (t', old)
      → old ≡ lookup t k
  pub lookup-insert_self :
      (t : Tree) (k : ℕ) (a : A) (t' : Tree) (old : Option A)
      → insert t k a ≡ some (t', old)
      → lookup t' k ≡ some a
  pub lookup-insert_other :
      (t : Tree) (k j : ℕ) (a : A) (t' : Tree) (old : Option A)
      → insert t k a ≡ some (t', old)
      → k ≢ j
      → lookup t' j ≡ lookup t j
  pub delete_old : (t : Tree) (k : ℕ) → (delete t k).1 ≡ lookup t k
  pub lookup-delete_self : (t : Tree) (k : ℕ) → lookup (delete t k).0 k ≡ none
  pub lookup-delete_other : (t : Tree) (k j : ℕ) → k ≢ j → lookup (delete t k).0 j ≡ lookup t j
  -- A scan for n items finds those at the next n indices first.
  pub gang_lookup_scan :
      (t : Tree) (s n : ℕ)
      → (rest : List A) × (gang_lookup t s n ≡ collect (lookup t) s n ++ rest)
        × All (IsBeyond (lookup t) (s + n)) rest
