-- ===== src/Volume/Ovw.antt =====
-- BlockDeviceDriver2/discoNN_client/discoC_NNC_ovw.c: the map of a volume's blocks that have been
-- written before, a bit for each, under a lock that makes each function one step. A device that is
-- there has a map; a pointer that is not set is `none`. A read or write outside of the memory, which
-- the source does not check, is a fault, here `none` of the result.
use kt.Base.{
  ℕ, zero, suc, ◌+◌, ◌*◌, ◌/◌, ◌%◌, ◌^◌, ◌≤◌, ◌<◌, ◌≡◌, ◌≢◌, refl, ◌∙◌, inl, inr, Bool, true, false,
  not, ◌&&◌, Option, none, some, List, arith, length, get_elem?, set, All, All-set, All-get_elem?,
  length-set, get_elem?-set_self, get_elem?-set_other, get_elem?_total, ltb, leb, ◌==◌,
  if◌then◌else◌, Bool-cases,
}
use mathlib.Core.Path.{subst}
use kt.Base.Bits.{
  test_bit, set_bit, clear_bit, test_bit-set_bit, test_bit-clear_bit, set_bit_byte, clear_bit_byte,
}

-- `volume_ovw_t`.
pub record VolumeOvw : Type 0 where
  pub ovw_memory : Option (List ℕ)
  pub ovw_init : Bool

-- What a function does on the memory, which it needs.
read_bit : List ℕ → ℕ → Option Bool
read_bit mem lbid = elim (get_elem? mem (lbid / 8)) [
  | none ↦ none
  | some byte ↦ some (test_bit (lbid % 8) byte)
]

new_byte : Bool → ℕ → ℕ → ℕ
new_byte true j byte = set_bit j byte
new_byte false j byte = clear_bit j byte

write_bit : List ℕ → ℕ → Bool → Option (List ℕ)
write_bit mem lbid bitvalue = elim (get_elem? mem (lbid / 8)) [
  | none ↦ none
  | some byte ↦ some (set mem (lbid / 8) (new_byte bitvalue (lbid % 8) byte))
]

-- `ovw_get`: a volume whose map is not ready has no block written before.
unfoldable pub ovw_get : VolumeOvw → ℕ → Option Bool
unfolding read_bit
ovw_get v lbid =
    if not v.ovw_init
    then some false
    else elim v.ovw_memory [ none ↦ some false | some mem ↦ read_bit mem lbid ]

-- `ovw_set`, which does not look whether the memory is there.
unfoldable pub ovw_set : VolumeOvw → ℕ → Bool → Option (VolumeOvw × Bool)
unfolding write_bit new_byte
ovw_set v lbid bitvalue = if not v.ovw_init then some (v, false) else elim v.ovw_memory [
  | none ↦ none
  | some mem ↦ elim (write_bit mem lbid bitvalue) [
    | none ↦ none
    | some mem' ↦ some (record v { ovw_memory = some mem' }, true)
  ]
]

-- `set_vol_ovw_range`: true is 0, false is -EINVAL. The length falls as `i` grows.
unfoldable pub set_vol_ovw_range : VolumeOvw → ℕ → ℕ → Bool → Option (VolumeOvw × Bool)
set_vol_ovw_range v lbid_s zero val = some (v, true)
set_vol_ovw_range v lbid_s (suc len) val = elim (ovw_set v lbid_s val) [
  | none ↦ none
  | some (v', done) ↦ elim done [
    | true ↦ set_vol_ovw_range v' ((lbid_s + 1) % 2 ^ 64) len val
    | false ↦ some (v', false)
  ]
]

-- The map is there, and its memory is n bytes.
pub record IsReady (n : ℕ) (v : VolumeOvw) (mem : List ℕ) : Type 0 where
  pub inited : v.ovw_init ≡ true
  pub there : v.ovw_memory ≡ some mem
  pub size : length mem ≡ n
  pub bytes : All (λ b. b < 256) mem

new_byte_byte : (val : Bool) (j m : ℕ) → j < 8 → m < 256 → new_byte val j m < 256
unfolding new_byte
new_byte_byte true j m hj hm = set_bit_byte j m hj hm
new_byte_byte false j m hj hm = clear_bit_byte j m hj hm

test_bit-new_byte :
    (val : Bool) (j k m : ℕ)
    → j < 8
    → k < 8
    → m < 256
    → test_bit k (new_byte val j m) ≡ (if j == k then val else test_bit k m)
unfolding new_byte
test_bit-new_byte true j k m hj hk hm = test_bit-set_bit j k m hj hk hm
test_bit-new_byte false j k m hj hk hm = test_bit-clear_bit j k m hj hk hm

-- The read of a bit whose byte is known.
read_bit_at :
    (mem : List ℕ) (b x : ℕ)
    → get_elem? mem (b / 8) ≡ some x
    → read_bit mem b ≡ some (test_bit (b % 8) x)
unfolding read_bit
read_bit_at mem b x e = rw (e, read_bit) refl

read_bit_cong :
    (xs ys : List ℕ) (b : ℕ)
    → get_elem? xs (b / 8) ≡ get_elem? ys (b / 8)
    → read_bit xs b ≡ read_bit ys b
unfolding read_bit
read_bit_cong xs ys b e = rw (e, read_bit) refl

module _ (mem : List ℕ) (a x : ℕ) (val : Bool) (bytes : All (λ m. m < 256) mem)
    (ha : a < 8 * length mem) (ex : get_elem? mem (a / 8) ≡ some x) where
  abbrev written : List ℕ
  written = set mem (a / 8) (new_byte val (a % 8) x)

  x_byte : x < 256
  x_byte = All-get_elem? (λ m. m < 256) mem (a / 8) bytes ex

  read-written : (b : ℕ) → read_bit written b ≡ (if a == b then some val else read_bit mem b)
  read-written b = elim (Bool-cases (a / 8 == b / 8)) [
    | inl same ↦
        let e : a / 8 ≡ b / 8 = ground (arith, same) in
        ground (
          arith,
          read_bit_at written b (new_byte val (a % 8) x) (
              subst (λ i. get_elem? written i ≡ some (new_byte val (a % 8) x)) e
                (get_elem?-set_self mem (a / 8) (new_byte val (a % 8) x) (omega (arith, ha)))),
          read_bit_at mem b x (subst (λ i. get_elem? mem i ≡ some x) e ex),
          test_bit-new_byte val (a % 8) (b % 8) x (omega arith) (omega arith) x_byte,
          e,
        )
    | inr other ↦
        let e : a / 8 ≢ b / 8 = ground (arith, other) in
        ground (
          arith,
          read_bit_cong written mem b
              (get_elem?-set_other mem (a / 8) (b / 8) (new_byte val (a % 8) x) e),
          e,
        )
  ]

ovw_get_ready :
    (n : ℕ) (v : VolumeOvw) (mem : List ℕ) (b : ℕ) → IsReady n v mem → ovw_get v b ≡ read_bit mem b
unfolding ovw_get
ovw_get_ready n v mem b r = ground (arith, r.inited, r.there)

-- A set within the memory changes that block's bit alone.
pub ovw_set_lem :
    (n : ℕ) (v : VolumeOvw) (mem : List ℕ) (a : ℕ) (val : Bool)
    → IsReady n v mem
    → a < 8 * n
    → (v' : VolumeOvw) × (mem' : List ℕ) × (ovw_set v a val ≡ some (v', true))
      × IsReady n v' mem'
      × ((b : ℕ) → ovw_get v' b ≡ (if a == b then some val else ovw_get v b))
unfolding ovw_set
ovw_set_lem n v mem a val r ha =
    let (x, ex) = get_elem?_total mem (a / 8) (omega (arith, r.size)) in
    let mem' = written mem a x val r.bytes (omega (arith, r.size)) ex in
    let v' = record v { ovw_memory = some mem' } in
    let r' : IsReady n v' mem' = record {
      inited = r.inited;
      there = refl;
      size = length-set mem (a / 8) (new_byte val (a % 8) x) ∙ r.size;
      bytes =
          All-set (λ m. m < 256) mem (a / 8) _ r.bytes
            (new_byte_byte val (a % 8) x (omega arith)
              (x_byte mem a x val r.bytes (omega (arith, r.size)) ex));
    } in
    (
      v',
      mem',
      ground (arith, r.inited, r.there, ex),
      r',
      λ b. ground (
        arith,
        ovw_get_ready n v' mem' b r',
        ovw_get_ready n v mem b r,
        read-written mem a x val r.bytes (omega (arith, r.size)) ex b,
      ),
    )

set_range_next :
    (v v' : VolumeOvw) (s len : ℕ) (val : Bool)
    → s + 1 < 2 ^ 64
    → ovw_set v s val ≡ some (v', true)
    → set_vol_ovw_range v s (suc len) val ≡ set_vol_ovw_range v' (s + 1) len val
unfolding set_vol_ovw_range
set_range_next v v' s len val small e =
    let step : (s + 1) % 2 ^ 64 ≡ s + 1 = omega (arith, small) in
    rw (e, set_vol_ovw_range, step) refl

-- Where a volume's map is ready and a range of blocks lies within its memory, which has fewer than
-- 2^61 bytes, the range is set without a fault or failure, and then a block is marked as asked if it
-- lies in the range, and as before otherwise; the map stays ready.
pub set_vol_ovw_range_lem :
    (n : ℕ) (v : VolumeOvw) (mem : List ℕ) (s len : ℕ) (val : Bool)
    → IsReady n v mem
    → s + len ≤ 8 * n
    → 8 * n < 2 ^ 64
    → (v' : VolumeOvw) × (mem' : List ℕ) × (set_vol_ovw_range v s len val ≡ some (v', true))
      × IsReady n v' mem'
      × ((b : ℕ) → ovw_get v' b ≡ (if leb s b && ltb b (s + len) then some val else ovw_get v b))
unfolding set_vol_ovw_range
set_vol_ovw_range_lem n v mem s zero val r h big = (v, mem, refl, r, λ b. ground arith)
set_vol_ovw_range_lem n v mem s (suc len) val r h big =
    let (v1, mem1, e1, r1, g1) = ovw_set_lem n v mem s val r (omega arith) in
    let (v2, mem2, e2, r2, g2) =
      set_vol_ovw_range_lem n v1 mem1 (s + 1) len val r1 (omega arith) big in
    (
      v2,
      mem2,
      set_range_next v v1 s len val (omega arith) e1 ∙ e2,
      r2,
      λ b. ground (arith, g1 b, g2 b),
    )
