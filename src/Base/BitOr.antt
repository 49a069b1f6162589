-- ===== src/Base/BitOr.antt =====
-- The bits of either of two numbers, as C's `|` on integers of w bits.
use Prim.Native.Nat.{ℕ, zero, suc, ◌+◌, ◌*◌, ◌/◌, ◌%◌, ◌^◌, ◌<◌}
use mathlib.Core.Path.{◌≡◌, ◌∙◌}
use mathlib.Core.Bool.{◌&&◌}
use native.Mathlib.Omega.{arith}
use kt.Base.Tests.{◌==◌, if◌then◌else◌}

unfoldable pub bit_or : ℕ → ℕ → ℕ → ℕ
bit_or zero m n = 0
bit_or (suc w) m n = (if m % 2 == 0 && n % 2 == 0 then 0 else 1) + 2 * bit_or w (m / 2) (n / 2)

pub bit_or_zero : (w m : ℕ) → m < 2 ^ w → bit_or w m 0 ≡ m
unfolding bit_or
bit_or_zero zero m h = omega (arith, h)
bit_or_zero (suc w) m h =
    let rest = bit_or_zero w (m / 2) (omega (arith, h)) in ground (arith, rest)

double_pow : (k : ℕ) → 2 ^ suc k ≡ 2 * 2 ^ k
double_pow k = omega arith

double_high : (a k : ℕ) → a * 2 ^ suc k ≡ 2 * (a * 2 ^ k)
double_high zero k = omega arith
double_high (suc a) k = omega (arith, double_high a k)

-- The high bits of one number over the low bits of another.
pub bit_or-above :
    (w k a b : ℕ) → b < 2 ^ k → a * 2 ^ k + b < 2 ^ w → bit_or w (a * 2 ^ k) b ≡ a * 2 ^ k + b
unfolding bit_or
bit_or-above zero k a b hb h = omega (arith, h)
bit_or-above (suc w) zero a b hb h =
    let z : b ≡ 0 = omega (arith, hb) in
    let rest = bit_or_zero (suc w) (a * 1) (omega (arith, h)) in rw z (rest ∙ omega arith)
bit_or-above (suc w) (suc k) a b hb h =
    let p = double_pow k in
    let q = double_high a k in
    let pw = double_pow w in
    let half : a * 2 ^ suc k / 2 ≡ a * 2 ^ k = omega (arith, q) in
    let even : a * 2 ^ suc k % 2 ≡ 0 = omega (arith, q) in
    let rest = bit_or-above w k a (b / 2) (omega (arith, hb, p)) (omega (arith, h, q, pw)) in
    rw half (ground (arith, rest, even, q))
