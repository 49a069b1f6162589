-- ===== src/DataNode/Bytes.antt =====
-- Buffers of bytes, and numbers in network byte order: what htons, htonl and htonll of
-- common/common_util.h write into a buffer, whatever the byte order of the host.
use native.Mathlib.Nat.{pow-suc}
use kt.Base.{
  ℕ, zero, suc, ◌+◌, ◌*◌, ◌/◌, ◌%◌, ◌^◌, ◌≤◌, ◌<◌, ◌≡◌, ◌⊎◌, refl, ap, ◌∙◌, List, [], ◌∷◌, arith,
  length, ◌==◌, if◌then◌else◌,
}

-- The bytes by their addresses.
abbrev pub Buffer : Type 0
Buffer = ℕ → ℕ

abbrev pub set_byte : Buffer → ℕ → ℕ → Buffer
set_byte buf i b j = if i == j then b else buf j

-- w bytes in network order.
unfoldable pub store : ℕ → Buffer → ℕ → ℕ → Buffer
store zero buf off x = buf
store (suc k) buf off x = set_byte (store k buf off (x / 256)) (off + k) (x % 256)

unfoldable pub load : ℕ → Buffer → ℕ → ℕ
load zero buf off = 0
load (suc k) buf off = load k buf off * 256 + buf (off + k)

unfoldable pub memcpy : Buffer → ℕ → List ℕ → Buffer
memcpy buf off [] = buf
memcpy buf off (b ∷ bs) = memcpy (set_byte buf off b) (off + 1) bs

pub store_other :
    (w : ℕ) (buf : Buffer) (off x i : ℕ) → (i < off) ⊎ (off + w ≤ i) → store w buf off x i ≡ buf i
unfolding store
store_other zero buf off x i out = refl
store_other (suc k) buf off x i out =
    let rest = store_other k buf off (x / 256) i in ground (arith, rest, out)

pub memcpy_other :
    (buf : Buffer) (off : ℕ) (bs : List ℕ) (i : ℕ)
    → (i < off) ⊎ (off + length bs ≤ i)
    → memcpy buf off bs i ≡ buf i
unfolding memcpy
memcpy_other buf off [] i out = refl
memcpy_other buf off (b ∷ bs) i out =
    let rest = memcpy_other (set_byte buf off b) (off + 1) bs i (omega (arith, out)) in
    rest ∙ ground (arith, out)

pub load_same :
    (w : ℕ) (a b : Buffer) (off : ℕ)
    → ((i : ℕ) → off ≤ i → i < off + w → a i ≡ b i)
    → load w a off ≡ load w b off
unfolding load
load_same zero a b off same = refl
load_same (suc k) a b off same =
    let rest = load_same k a b off (λ i le lt. same i le (omega (arith, lt))) in
    let here = same (off + k) (omega arith) (omega arith) in omega (arith, rest, here)

-- What is stored is what is loaded.
pub load-store :
    (w : ℕ) (buf : Buffer) (off x : ℕ) → x < 256 ^ w → load w (store w buf off x) off ≡ x
unfolding load store
load-store zero buf off x fits = omega (arith, fits)
load-store (suc k) buf off x fits =
    let p = pow-suc 256 k in
    let rest = load-store k buf off (x / 256) (omega (arith, fits, p)) in
    let kept =
      load_same k (store (suc k) buf off x) (store k buf off (x / 256)) off
        (λ i le lt. ground (arith, lt)) in
    let last : store (suc k) buf off x (off + k) ≡ x % 256 = ground arith in
    omega (arith, rest, kept, last)

-- A range that a later store or copy does not meet.
pub load-store_other :
    (w v : ℕ) (buf : Buffer) (off at x : ℕ)
    → (off + w ≤ at) ⊎ (at + v ≤ off)
    → load w (store v buf at x) off ≡ load w buf off
load-store_other w v buf off at x out =
    load_same w (store v buf at x) buf off
      (λ i le lt. store_other v buf at x i (omega (arith, out, le, lt)))

pub load-memcpy_other :
    (w : ℕ) (buf : Buffer) (off at : ℕ) (bs : List ℕ)
    → (off + w ≤ at) ⊎ (at + length bs ≤ off)
    → load w (memcpy buf at bs) off ≡ load w buf off
load-memcpy_other w buf off at bs out =
    load_same w (memcpy buf at bs) buf off
      (λ i le lt. memcpy_other buf at bs i (omega (arith, out, le, lt)))

abbrev pub read_bytes : ℕ → Buffer → ℕ → List ℕ
read_bytes zero buf off = []
read_bytes (suc n) buf off = buf off ∷ read_bytes n buf (off + 1)

pub length-read_bytes : (n : ℕ) (buf : Buffer) (off : ℕ) → length (read_bytes n buf off) ≡ n
length-read_bytes zero buf off = refl
length-read_bytes (suc n) buf off = ap suc (length-read_bytes n buf (off + 1))
