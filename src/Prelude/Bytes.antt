-- ===== src/Prelude/Bytes.antt =====
-- Bits of bytes and of byte arrays: `c & (1 << k)`, `c |= 1 << k` and `c &= ~(1 << k)`.
use Prim.Native.Nat.{ℕ, zero, suc, ◌-◌, ◌^◌, ◌<◌, bit_and, bit_or}
use mathlib.Core.Path.{◌≡◌, refl, subst}
use mathlib.Core.Logic.{inl, inr}
use native.Mathlib.Decide.{ℕ_discrete}
use mathlib.Core.Bool.{Bool, true, false, not, ◌&&◌}
use native.Mathlib.Omega.{arith}
use cs416_os.Prelude.Tests.{Bool-cases, ◌==◌, ltb, if◌then◌else◌}

-- `1 << k`
abbrev pub bit : ℕ → ℕ
bit k = 2 ^ k

-- `c & (1 << k)` as a condition
pub test_bit : ℕ → ℕ → Bool
test_bit c k = not (bit_and c (bit k) == 0)

-- `c |= 1 << k` and, on a byte, `c &= ~(1 << k)`
pub raise_bit : ℕ → ℕ → ℕ
raise_bit c k = bit_or c (bit k)

pub clear_bit : ℕ → ℕ → ℕ
clear_bit c k = bit_and c (255 - bit k)

-- A test passes at every number below a bound: for finite tables, which are computed.
passes : (ℕ → Bool) → ℕ → Bool
passes test zero = true
passes test (suc bound) = let lower = passes test bound in if test bound then lower else false

passes-lookup :
    (test : ℕ → Bool) (bound : ℕ) → passes test bound ≡ true → (k : ℕ) → k < bound → test k ≡ true
unfolding passes
passes-lookup test zero all k inside = absurd (omega arith)
passes-lookup test (suc bound) all k inside = elim (Bool-cases (test bound)) [
  | inr fails ↦ absurd (ground arith)
  | inl holds ↦ elim (ℕ_discrete bound k) [
    | yes e ↦ subst (λ n. test n ≡ true) e holds
    | no ne ↦ passes-lookup test bound (rw holds at all) k (omega arith)
  ]
]

same : Bool → Bool → Bool
same true b = b
same false b = not b

same-eq : (a b : Bool) → same a b ≡ true → a ≡ b
unfolding same
same-eq true true h = refl
same-eq true false h = cc
same-eq false true h = cc
same-eq false false h = refl

raise_row : ℕ → ℕ → ℕ → Bool
raise_row c k j = same (test_bit (raise_bit c k) j) (if k == j then true else test_bit c j)

clear_row : ℕ → ℕ → ℕ → Bool
clear_row c k j = same (test_bit (clear_bit c k) j) (if k == j then false else test_bit c j)

raise_table : passes (λ c. passes (λ k. passes (raise_row c k) 8) 8) 256 ≡ true
unfolding passes raise_row same test_bit raise_bit
raise_table = refl

clear_table : passes (λ c. passes (λ k. passes (clear_row c k) 8) 8) 256 ≡ true
unfolding passes clear_row same test_bit clear_bit
clear_table = refl

module _ (c k j : ℕ) (hc : c < 256) (hk : k < 8) where
  pub test_bit-raise_bit :
      j < 8 → test_bit (raise_bit c k) j ≡ (if k == j then true else test_bit c j)
  unfolding raise_row
  test_bit-raise_bit hj =
      let rows =
        passes-lookup (λ c. passes (λ k. passes (raise_row c k) 8) 8) 256 raise_table c hc in
      let row = passes-lookup (λ k. passes (raise_row c k) 8) 8 rows k hk in
      same-eq _ _ (passes-lookup (raise_row c k) 8 row j hj)

  pub test_bit-clear_bit :
      j < 8 → test_bit (clear_bit c k) j ≡ (if k == j then false else test_bit c j)
  unfolding clear_row
  test_bit-clear_bit hj =
      let rows =
        passes-lookup (λ c. passes (λ k. passes (clear_row c k) 8) 8) 256 clear_table c hc in
      let row = passes-lookup (λ k. passes (clear_row c k) 8) 8 rows k hk in
      same-eq _ _ (passes-lookup (clear_row c k) 8 row j hj)

in_range : ℕ → ℕ → Bool
in_range c k = ltb (raise_bit c k) 256 && ltb (clear_bit c k) 256

range_table : passes (λ c. passes (in_range c) 8) 256 ≡ true
unfolding passes in_range raise_bit clear_bit
range_table = refl

pub byte_range : (c k : ℕ) → c < 256 → k < 8 → (raise_bit c k < 256) × (clear_bit c k < 256)
unfolding in_range
byte_range c k hc hk =
    let row = passes-lookup (λ c. passes (in_range c) 8) 256 range_table c hc in
    ground (arith, passes-lookup (in_range c) 8 row k hk)

zero_row : ℕ → Bool
zero_row j = not (test_bit 0 j)

pub test_bit-zero : (j : ℕ) → j < 8 → test_bit 0 j ≡ false
unfolding passes zero_row test_bit
test_bit-zero j h = let r = passes-lookup zero_row 8 refl j h in ground arith
