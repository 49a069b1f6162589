-- ===== src/Metadata/Triple.antt =====
-- A place at a datanode as one 64-bit integer: compose_triple and decompose_triple of
-- common/common_util.c. An int32_t is its bit pattern.
use kt.Base.{ℕ, ◌+◌, ◌-◌, ◌*◌, ◌/◌, ◌%◌, ◌^◌, ◌<◌, ◌≡◌, arith, ltb, if◌then◌else◌}
use kt.Base.BitOr.{bit_or, bit_or-above}

-- The conversion of an int32_t to a uint64_t, and its shift to the right.
abbrev pub to_uint64 : ℕ → ℕ
to_uint64 x = if ltb x (2 ^ 31) then x else x + (2 ^ 64 - 2 ^ 32)

abbrev pub shift_right_20 : ℕ → ℕ
shift_right_20 x = if ltb x (2 ^ 31) then x / 2 ^ 20 else x / 2 ^ 20 + (2 ^ 32 - 2 ^ 12)

unfoldable pub compose_triple : ℕ → ℕ → ℕ → ℕ
compose_triple rbid len offset =
    bit_or 64 (bit_or 64 ((to_uint64 rbid * 2 ^ 32) % 2 ^ 64) ((to_uint64 len * 2 ^ 20) % 2 ^ 64))
      (to_uint64 offset)

-- The rbid, the length and the offset.
unfoldable pub decompose_triple : ℕ → ℕ × ℕ × ℕ
decompose_triple val =
    (val / 2 ^ 32, shift_right_20 (((val * 2 ^ 32) % 2 ^ 64) / 2 ^ 32), val % 2 ^ 20)

sum_lem :
    (rbid len offset : ℕ)
    → rbid < 2 ^ 32
    → len < 2 ^ 11
    → offset < 2 ^ 20
    → compose_triple rbid len offset ≡ rbid * 2 ^ 32 + len * 2 ^ 20 + offset
unfolding compose_triple
sum_lem rbid len offset hr hl ho =
    let a : (to_uint64 rbid * 2 ^ 32) % 2 ^ 64 ≡ rbid * 2 ^ 32 = ground (arith, hr) in
    let b : (to_uint64 len * 2 ^ 20) % 2 ^ 64 ≡ len * 2 ^ 20 = ground (arith, hl) in
    let c : to_uint64 offset ≡ offset = ground (arith, ho) in
    let d = bit_or-above 64 32 rbid (len * 2 ^ 20) (omega (arith, hl)) (omega (arith, hl, hr)) in
    let e : rbid * 2 ^ 32 + len * 2 ^ 20 ≡ (rbid * 2 ^ 12 + len) * 2 ^ 20 = omega arith in
    let f =
      bit_or-above 64 20 (rbid * 2 ^ 12 + len) offset (omega (arith, ho))
        (omega (arith, hl, hr, ho)) in
    rw (a, b, c, d, e) f

-- A place whose length fits into 11 bits and whose offset fits into 20 is read as it was written,
-- whatever its rbid.
pub decompose_triple-compose_triple :
    (rbid len offset : ℕ)
    → rbid < 2 ^ 32
    → len < 2 ^ 11
    → offset < 2 ^ 20
    → decompose_triple (compose_triple rbid len offset) ≡ (rbid, len, offset)
unfolding decompose_triple
decompose_triple-compose_triple rbid len offset hr hl ho =
    let s = sum_lem rbid len offset hr hl ho in rw s (ground (arith, hr, hl, ho))
