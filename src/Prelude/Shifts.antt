-- ===== src/Prelude/Shifts.antt =====
-- The loop that counts how often a value is shifted right by one until it is 0.
use Prim.Native.Nat.{ℕ, zero, suc, ◌+◌, ◌/◌, ◌^◌, ◌≤◌, ◌<◌}
use mathlib.Core.Path.{◌≡◌, refl}
use mathlib.Core.Logic.{◌≢◌}
use native.Mathlib.Decide.{ℕ_discrete}
use native.Mathlib.Nat.{pow-suc}
use native.Mathlib.Omega.{arith}
use cs416_os.Prelude.Tests.{◌==◌, if◌then◌else◌}

-- From `n`, with at most `fuel` rounds.
unfoldable pub shifts : ℕ → ℕ → ℕ → ℕ
shifts zero val n = n
shifts (suc fuel) val n = let rest = shifts fuel (val / 2) (n + 1) in if val == 0 then n else rest

shifts-zero : (fuel n : ℕ) → shifts fuel 0 n ≡ n
unfolding shifts
shifts-zero zero n = refl
shifts-zero (suc fuel) n = refl

power : (k val : ℕ) → val / 2 < 2 ^ (k + 1) → val < 2 ^ (suc k + 1)
power k val h = let e : suc k + 1 ≡ suc (k + 1) = omega arith in rw (e, pow-suc) (omega arith)

pub shifts_lem :
    (fuel val n : ℕ)
    → val < 2 ^ fuel
    → val ≢ 0
    → (k : ℕ) × (shifts fuel val n ≡ n + k + 1) × (2 ^ k ≤ val) × (val < 2 ^ (k + 1))
unfolding shifts
shifts_lem zero val n b ne = absurd (omega arith)
shifts_lem (suc fuel) val n b ne = elim (ℕ_discrete (val / 2) 0) [
  | yes e ↦ (0, ground (arith, shifts-zero fuel (n + 1)), omega arith, omega arith)
  | no more ↦
      let (k, run, low, high) =
        shifts_lem fuel (val / 2) (n + 1) (omega (arith, pow-suc 2 fuel)) more in
      (suc k, ground arith, omega (arith, pow-suc 2 k), power k val high)
]
