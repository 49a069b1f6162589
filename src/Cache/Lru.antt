-- ===== src/Cache/Lru.antt =====
-- What a pool promises: a list of keys with their items, the most recently used first, of at most
-- cache_size entries; and the operations on it.
use kt.Base.{
  ℕ, zero, suc, ◌+◌, ◌-◌, ◌≡◌, refl, ap, Option, none, some, List, [], ◌∷◌, arith, length, take,
  ltb, ◌==◌, ◌||◌, if◌then◌else◌,
}
use mathlib.Core.Option.{some-injective}
use kt.Cache.Pool.{Leaf}
use kt.Cache.Leaves.{find_key, remove_key}

abbrev pub Lru : Type 0
Lru = List (ℕ × ℕ)

unfoldable pub get : ℕ → Lru → Option ℕ
get k [] = none
get k ((j, item) ∷ es) = if j == k then some item else get k es

unfoldable pub remove : ℕ → Lru → Lru
remove k [] = []
remove k ((j, item) ∷ es) = if j == k then es else (j, item) ∷ remove k es

unfoldable pub put : ℕ → ℕ → Lru → Lru
unfolding remove
put k item es = (k, item) ∷ remove k es

-- The items of the keys from k on, the last put first.
unfoldable pub put_all : ℕ → List ℕ → Lru → Lru
unfolding put
put_all k [] es = es
put_all k (item ∷ items) es = put_all (k + 1) items (put k item es)

-- Room is made by dropping the entries used least recently; what does not fit at all is refused.
unfoldable pub update : ℕ → ℕ → List ℕ → Lru → Lru
unfolding put_all
update size k items es =
    if ltb size (length items) || size == 0
    then es
    else put_all k items (take (size - length items) es)

unfoldable pub invalidate : ℕ → ℕ → Lru → Lru
unfolding remove
invalidate k zero es = es
invalidate k (suc n) es = invalidate (k + 1) n (remove k es)

unfoldable pub touch : ℕ → Lru → Lru
unfolding get put
touch k es = elim (get k es) [ none ↦ es | some item ↦ put k item es ]

-- The keys from k on are used, the last first.
unfoldable pub find : ℕ → ℕ → Lru → Lru
unfolding touch
find k zero es = es
find k (suc n) es = touch k (find (k + 1) n es)

-- The list of a pool.
unfoldable pub view : List Leaf → Lru
view [] = []
view (l ∷ ls) = (l.blkid, l.item) ∷ view ls

pub view-remove_key : (k : ℕ) (ls : List Leaf) → view (remove_key k ls) ≡ remove k (view ls)
unfolding view remove
view-remove_key k [] = refl
view-remove_key k (l ∷ ls) = ground (arith, view-remove_key k ls)

pub get-view :
    (k : ℕ) (ls : List Leaf) (l : Leaf) → find_key k ls ≡ some l → get k (view ls) ≡ some l.item
unfolding view get
get-view k [] l e = cc
get-view k (x ∷ ls) l e = ground (arith, get-view k ls l, some-injective x l)

pub get-view_absent : (k : ℕ) (ls : List Leaf) → find_key k ls ≡ none → get k (view ls) ≡ none
unfolding view get
get-view_absent k [] e = refl
get-view_absent k (x ∷ ls) e = ground (arith, get-view_absent k ls)

pub view-take : (n : ℕ) (ls : List Leaf) → view (take n ls) ≡ take n (view ls)
unfolding view
view-take zero ls = refl
view-take (suc n) [] = refl
view-take (suc n) (l ∷ ls) = ap (λ es. (l.blkid, l.item) ∷ es) (view-take n ls)

pub length-view : (ls : List Leaf) → length (view ls) ≡ length ls
unfolding view
length-view [] = refl
length-view (l ∷ ls) = ap suc (length-view ls)

pub touch_found :
    (k item : ℕ) (es : Lru) → get k es ≡ some item → touch k es ≡ (k, item) ∷ remove k es
unfolding touch put
touch_found k item es e = rw (touch, e) refl

pub touch_absent : (k : ℕ) (es : Lru) → get k es ≡ none → touch k es ≡ es
unfolding touch
touch_absent k es e = rw (touch, e) refl
