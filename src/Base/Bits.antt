-- ===== src/Base/Bits.antt =====
-- The bits of a byte, as the kernel's `test_bit`, `set_bit` and `clear_bit` read and write them.
use Prim.Native.Nat.{ℕ, zero, suc, ◌+◌, ◌-◌, ◌/◌, ◌%◌, ◌^◌, ◌<◌}
use mathlib.Core.Path.{◌≡◌, refl}
use mathlib.Core.Bool.{Bool, true, false, ◌&&◌}
use native.Mathlib.Omega.{arith}
use kt.Base.Tests.{◌==◌, ltb, if◌then◌else◌}

unfoldable pub test_bit : ℕ → ℕ → Bool
test_bit j m = (m / 2 ^ j) % 2 == 1

unfoldable pub set_bit : ℕ → ℕ → ℕ
unfolding test_bit
set_bit j m = if test_bit j m then m else m + 2 ^ j

unfoldable pub clear_bit : ℕ → ℕ → ℕ
unfolding test_bit
clear_bit j m = if test_bit j m then m - 2 ^ j else m

-- A Boolean statement is checked at 0, ..., n - 1, and then holds of any i below n.
unfoldable pub check_upto : (ℕ → Bool) → ℕ → Bool
check_upto test zero = true
check_upto test (suc n) = if test n then check_upto test n else false

pub check_upto_sound :
    (test : ℕ → Bool) (n i : ℕ) → i < n → check_upto test n ≡ true → test i ≡ true
unfolding check_upto
check_upto_sound test (suc n) i lt ok = ground (arith, check_upto_sound test n i)
check_upto_sound test zero i lt ok = absurd (omega (arith, lt))

-- Two bits of a byte.
check_byte : (ℕ → ℕ → ℕ → Bool) → Bool
check_byte test = check_upto (λ j. check_upto (λ k. check_upto (test j k) 256) 8) 8

check_byte_sound :
    (test : ℕ → ℕ → ℕ → Bool) (j k m : ℕ)
    → j < 8
    → k < 8
    → m < 256
    → check_byte test ≡ true
    → test j k m ≡ true
unfolding check_byte
check_byte_sound test j k m hj hk hm ok =
    check_upto_sound (test j k) 256 m hm (check_upto_sound _ 8 k hk (check_upto_sound _ 8 j hj ok))

eq_bool : Bool → Bool → Bool
eq_bool true b = b
eq_bool false true = false
eq_bool false false = true

eq_bool_sound : (a b : Bool) → eq_bool a b ≡ true → a ≡ b
unfolding eq_bool
eq_bool_sound true b h = ground (arith, h)
eq_bool_sound false true h = ground (arith, h)
eq_bool_sound false false h = refl

set_table :
    check_byte (λ j k m.
      eq_bool (test_bit k (set_bit j m)) (if j == k then true else test_bit k m)
      && ltb (set_bit j m) 256)
    ≡ true
unfolding check_byte check_upto eq_bool set_bit
set_table = refl

clear_table :
    check_byte (λ j k m.
      eq_bool (test_bit k (clear_bit j m)) (if j == k then false else test_bit k m)
      && ltb (clear_bit j m) 256)
    ≡ true
unfolding check_byte check_upto eq_bool clear_bit
clear_table = refl

module _ (j k m : ℕ) (hj : j < 8) (hk : k < 8) (hm : m < 256) where
  pub test_bit-set_bit : test_bit k (set_bit j m) ≡ (if j == k then true else test_bit k m)
  test_bit-set_bit =
      let both = check_byte_sound _ j k m hj hk hm set_table in
      eq_bool_sound _ _ (ground (arith, both))

  pub test_bit-clear_bit : test_bit k (clear_bit j m) ≡ (if j == k then false else test_bit k m)
  test_bit-clear_bit =
      let both = check_byte_sound _ j k m hj hk hm clear_table in
      eq_bool_sound _ _ (ground (arith, both))

pub set_bit_byte : (j m : ℕ) → j < 8 → m < 256 → set_bit j m < 256
set_bit_byte j m hj hm =
    let both = check_byte_sound _ j j m hj hj hm set_table in ground (arith, both)

pub clear_bit_byte : (j m : ℕ) → j < 8 → m < 256 → clear_bit j m < 256
clear_bit_byte j m hj hm =
    let both = check_byte_sound _ j j m hj hj hm clear_table in ground (arith, both)

zero_table : check_upto (λ j. eq_bool (test_bit j 0) false) 8 ≡ true
unfolding check_upto eq_bool test_bit
zero_table = refl

pub test_bit_zero : (j : ℕ) → j < 8 → test_bit j 0 ≡ false
test_bit_zero j h = eq_bool_sound _ _ (check_upto_sound _ 8 j h zero_table)
