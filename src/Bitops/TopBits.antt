-- ===== src/Bitops/TopBits.antt =====
-- p1/bitops.c: what `get_top_bits` extracts.
use cs416_os.Prelude.{
  ℕ, zero, suc, ◌+◌, ◌-◌, ◌*◌, ◌/◌, ◌^◌, ◌≤◌, ◌<◌, ◌≡◌, refl, some, arith, ◌≢◌, ◌∙◌, ap,
}
use Prim.Native.Nat.{bit_and, bit_and-bitwise}
use native.Mathlib.Decide.{dec_lt}
use native.Mathlib.Nat.{
  pow-suc, div-one, div-div-eq-div-mul, mul-div-mul_right, div-lt_iff_lt-mul, le-div_iff_mul-le,
  mul_comm, mul-one, mul_assoc, suc-mul, pow-le-pow_right,
}
use cs416_os.Prelude.Shifts.{shifts, shifts_lem}
use cs416_os.Bitops.{bits_taken, get_top_bits}
use cs416_os.Prelude.Digits.{bit_and-halves}

-- A mask of `w` low bits keeps what fits in them.
low_mask : (w c : ℕ) → c < 2 ^ w → bit_and (2 ^ w - 1) c ≡ c
low_mask zero c h = bit_and-bitwise 0 c ∙ omega arith
low_mask (suc w) c h =
    let p = pow-suc 2 w in
    let half : (2 ^ suc w - 1) / 2 ≡ 2 ^ w - 1 = omega (arith, p) in
    let step = rw half at (bit_and-halves (2 ^ suc w - 1) c) in
    omega (arith, p, step, low_mask w (c / 2) (omega (arith, p)))

pow_two_pos : (k : ℕ) → 0 < 2 ^ k
pow_two_pos zero = omega arith
pow_two_pos (suc k) = omega (arith, pow-suc 2 k, pow_two_pos k)

pow_two_add : (a b : ℕ) → 2 ^ (a + b) ≡ 2 ^ a * 2 ^ b
pow_two_add zero b = let e : 0 + b ≡ b = omega arith in rw e (omega arith)
pow_two_add (suc a) b =
    let e : suc a + b ≡ suc (a + b) = omega arith in
    let shape : 2 ^ a * 2 * 2 ^ b ≡ 2 ^ a * 2 ^ b * 2 =
      rw (mul_assoc (2 ^ a) 2 (2 ^ b), mul_assoc (2 ^ a) (2 ^ b) 2, mul_comm 2 (2 ^ b)) refl in
    rw (e, pow-suc 2 (a + b), pow-suc 2 a, pow_two_add a b, shape) refl

-- A mask that is shifted by `k` masks what stands above the low `k` bits.
shifted_mask : (k a b : ℕ) → bit_and (a * 2 ^ k) b / 2 ^ k ≡ bit_and a (b / 2 ^ k)
shifted_mask zero a b = rw (div-one, div-one, mul-one) refl
shifted_mask (suc k) a b =
    let double : a * 2 ^ suc k ≡ 2 * (a * 2 ^ k) = rw (pow-suc 2 k) (omega arith) in
    let half : a * 2 ^ suc k / 2 ≡ a * 2 ^ k = omega arith in
    let even : bit_and (a * 2 ^ suc k) b ≡ bit_and (a * 2 ^ k) (b / 2) * 2 =
      omega (arith, rw half at (bit_and-halves (a * 2 ^ suc k) b)) in
    let quarter : b / 2 ^ suc k ≡ b / 2 / 2 ^ k =
      rw (div-div-eq-div-mul b 2 (2 ^ k), pow-suc 2 k, mul_comm (2 ^ k) 2) refl in
    rw (even, quarter)
      (rw (pow-suc 2 k) (mul-div-mul_right _ (2 ^ k) (omega arith)) ∙ shifted_mask k a (b / 2))

sub_one_mul : (a p : ℕ) → (a - 1) * p ≡ a * p - p
sub_one_mul zero p = omega arith
sub_one_mul (suc a) p = let e : suc a - 1 ≡ a = omega arith in rw (e, suc-mul a p) (omega arith)

mask : (k : ℕ) → k ≤ 32 → 2 ^ 32 - 2 ^ k ≡ (2 ^ (32 - k) - 1) * 2 ^ k
mask k h =
    let e : 32 - k + k ≡ 32 = omega arith in
    let whole : 2 ^ (32 - k) * 2 ^ k ≡ 2 ^ 32 = rw (← pow_two_add (32 - k) k, e) refl in
    rw (sub_one_mul (2 ^ (32 - k)) (2 ^ k), whole) refl

masked :
    (k value : ℕ) → k ≤ 32 → value < 2 ^ 32 → bit_and (2 ^ 32 - 2 ^ k) value / 2 ^ k ≡ value / 2 ^ k
masked k value h b =
    let e : 32 - k + k ≡ 32 = omega arith in
    let whole : 2 ^ (32 - k) * 2 ^ k ≡ 2 ^ 32 = rw (← pow_two_add (32 - k) k, e) refl in
    rw (mask k h, shifted_mask k (2 ^ (32 - k) - 1) value)
      (low_mask (32 - k) (value / 2 ^ k) ((div-lt_iff_lt-mul (pow_two_pos k)).1 (rw whole b)))

get_top_bits-some :
    (value n : ℕ)
    → n ≤ bits_taken value
    → bits_taken value - n < 32
    → get_top_bits value n
      ≡ some (bit_and (2 ^ 32 - 2 ^ (bits_taken value - n)) value / 2 ^ (bits_taken value - n))
unfolding get_top_bits
get_top_bits-some value n h k = ground arith

bits_taken-shifts : (value : ℕ) → bits_taken value ≡ shifts 32 value 0
unfolding bits_taken
bits_taken-shifts value = refl

-- The quotient of a number of `k + 1` bits by `2 ^ j` has `n` bits, if `n + j` is `k + 1`.
quotient_bits :
    (value k n j : ℕ)
    → 0 < n
    → n + j ≡ k + 1
    → 2 ^ k ≤ value
    → value < 2 ^ (k + 1)
    → (2 ^ (n - 1) ≤ value / 2 ^ j) × (value / 2 ^ j < 2 ^ n)
quotient_bits value k n j pos e low high =
    let l : n - 1 + j ≡ k = omega arith in
    let bottom : 2 ^ (n - 1) * 2 ^ j ≡ 2 ^ k = rw (← pow_two_add (n - 1) j, l) refl in
    let top : 2 ^ n * 2 ^ j ≡ 2 ^ (k + 1) = rw (← pow_two_add n j, e) refl in
    (
      (le-div_iff_mul-le (pow_two_pos j)).1 (rw bottom low),
      (div-lt_iff_lt-mul (pow_two_pos j)).1 (rw top high),
    )

exponent_below : (k value : ℕ) → 2 ^ k ≤ value → value < 2 ^ 32 → k < 32
exponent_below k value low high = elim (dec_lt k 32) [
  | yes h ↦ h
  | no h ↦
      let much : 2 ^ 32 ≤ 2 ^ k = pow-le-pow_right (omega arith) {i = 32} {j = k} (omega arith) in
      absurd (omega arith)
]

-- For a value of 32 bits that is not 0 and takes up at least n bits, n not 0, the top n bits are
-- the value without the bits below them, a number of exactly n bits.
pub get_top_bits_lem :
    (value n : ℕ)
    → value < 2 ^ 32
    → value ≢ 0
    → 0 < n
    → n ≤ bits_taken value
    → (get_top_bits value n ≡ some (value / 2 ^ (bits_taken value - n)))
      × (2 ^ (n - 1) ≤ value / 2 ^ (bits_taken value - n))
      × (value / 2 ^ (bits_taken value - n) < 2 ^ n)
get_top_bits_lem value n b ne pos fits =
    let (k, run, low, high) = shifts_lem 32 value 0 b ne in
    let taken : bits_taken value ≡ k + 1 = omega (arith, run, bits_taken-shifts value) in
    let below : k < 32 = exponent_below k value low b in
    let bits = quotient_bits value k n (bits_taken value - n) pos (omega arith) low high in
    (
      get_top_bits-some value n fits (omega arith)
          ∙ ap some (masked (bits_taken value - n) value (omega arith) b),
      bits.0,
      bits.1,
    )
