-- ===== src/Prelude/Disjoint.antt =====
-- `x | y` where the two have no bit in common: `(a << k) | b` with `b` below `1 << k` is a sum.
use Prim.Native.Nat.{ℕ, zero, suc, ◌+◌, ◌*◌, ◌/◌, ◌^◌, ◌≤◌, ◌<◌, bit_or, bit_or-bitwise}
use mathlib.Core.Path.{◌≡◌}
use native.Mathlib.Nat.{pow-suc}
use native.Mathlib.Omega.{arith}
use cs416_os.Prelude.Digits.{bit_or-halves}

bit_or-zero : (fuel x : ℕ) → x ≤ fuel → bit_or x 0 ≡ x
bit_or-zero fuel zero h = bit_or-bitwise 0 0
bit_or-zero zero (suc x) h = absurd (omega arith)
bit_or-zero (suc fuel) (suc x) h =
    let tail = bit_or-zero fuel (suc x / 2) (omega arith) in
    omega (arith, tail, bit_or-halves (suc x) 0)

pub bit_or-disjoint : (k a b : ℕ) → b < 2 ^ k → bit_or (a * 2 ^ k) b ≡ a * 2 ^ k + b
bit_or-disjoint zero a b h =
    let none : b ≡ 0 = omega arith in
    let all : a * 2 ^ 0 ≡ a = omega arith in
    rw (all, none) (omega (arith, bit_or-zero a a (omega arith)))
bit_or-disjoint (suc k) a b h =
    let double : a * 2 ^ suc k ≡ 2 * (a * 2 ^ k) = rw (pow-suc 2 k) (omega arith) in
    let half : a * 2 ^ suc k / 2 ≡ a * 2 ^ k = omega arith in
    let ih = bit_or-disjoint k a (b / 2) (omega (arith, pow-suc 2 k)) in
    let step = rw half at (bit_or-halves (a * 2 ^ suc k) b) in omega (arith, step, ih)
