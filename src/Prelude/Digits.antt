-- ===== src/Prelude/Digits.antt =====
-- The native operations on bits, one bit at a time: each has the law that takes both operands' lowest
-- bits off.
use Prim.Native.Nat.{
  ℕ, zero, suc, ◌+◌, ◌*◌, ◌/◌, ◌%◌, ◌≤◌, min, max, digits, bit_or, bit_and, bit_or-bitwise,
  bit_and-bitwise,
}
use mathlib.Core.Path.{◌≡◌, refl, sym, ◌∙◌}
use native.Mathlib.Omega.{arith}

module _ (rest : ℕ → ℕ) (one_bit : ℕ → ℕ → ℕ) where
  nothing_left : (fuel b : ℕ) → digits rest one_bit fuel 0 b ≡ rest b
  nothing_left zero b = refl
  nothing_left (suc fuel) b = refl

  more_fuel :
      (least fuel : ℕ)
      → least ≤ fuel
      → (x y : ℕ) → x ≤ least
      → digits rest one_bit fuel x y ≡ digits rest one_bit least x y
  more_fuel least fuel le zero y enough = nothing_left fuel y ∙ sym (nothing_left least y)
  more_fuel zero fuel le (suc x) y enough = absurd (omega arith)
  more_fuel (suc least) zero le (suc x) y enough = absurd (omega arith)
  more_fuel (suc least) (suc fuel) le (suc x) y enough =
      let tail = more_fuel least fuel (omega arith) (suc x / 2) (y / 2) (omega arith) in
      omega (arith, tail)

  halves :
      (op : ℕ → ℕ → ℕ)
      → ((x y : ℕ) → op x y ≡ digits rest one_bit x x y)
      → ((y : ℕ) → rest y ≡ rest (y / 2) * 2 + one_bit 0 (y % 2))
      → (x y : ℕ) → op x y ≡ op (x / 2) (y / 2) * 2 + one_bit (x % 2) (y % 2)
  halves op law base zero y = omega (arith, law 0 y, law 0 (y / 2), base y)
  halves op law base (suc x) y =
      let tail = more_fuel (suc x / 2) x (omega arith) (suc x / 2) (y / 2) (omega arith) in
      omega (arith, tail, law (suc x) y, law (suc x / 2) (y / 2))

pub bit_or-halves : (x y : ℕ) → bit_or x y ≡ bit_or (x / 2) (y / 2) * 2 + max (x % 2) (y % 2)
bit_or-halves = halves (λ y. y) max bit_or bit_or-bitwise (λ y. omega arith)

pub bit_and-halves : (x y : ℕ) → bit_and x y ≡ bit_and (x / 2) (y / 2) * 2 + min (x % 2) (y % 2)
bit_and-halves = halves (λ y. 0) min bit_and bit_and-bitwise (λ y. omega arith)
