-- ===== src/Vm/Bitmap/Count.antt =====
-- p3/code/my_vm.c: `n_bits_available` and `num_bits_set` against the number of bits that are not set.
use cs416_os.Prelude.{
  ℕ, zero, suc, ◌+◌, ◌-◌, ◌*◌, ◌^◌, ◌<◌, ◌≤◌, leb, ◌≡◌, ◌≢◌, List, arith, some, if◌then◌else◌,
}
use native.Mathlib.Nat.{zero-add}
use cs416_os.Vm.Bitmap.{
  byte_at, bit_set_at, wanted_after, available_from, n_bits_available, bits_set_in_byte,
  bits_set_from, num_bits_set,
}
use cs416_os.Vm.Bitmap.Search.{bit_set_at-byte}

-- How many of the `k` bits from position `a` on are not set.
pub unset_count : List ℕ → ℕ → ℕ → ℕ
unset_count bitmap a zero = 0
unset_count bitmap a (suc k) = (if bit_set_at bitmap a then 0 else 1) + unset_count bitmap (a + 1) k

pub unset_count-le : (bitmap : List ℕ) (a k : ℕ) → unset_count bitmap a k ≤ k
unfolding unset_count
unset_count-le bitmap a zero = omega arith
unset_count-le bitmap a (suc k) = ground (arith, unset_count-le bitmap (a + 1) k)

unset_count-add :
    (bitmap : List ℕ) (j k a b : ℕ)
    → a + j ≡ b
    → unset_count bitmap a (j + k) ≡ unset_count bitmap a j + unset_count bitmap b k
unfolding unset_count
unset_count-add bitmap zero k a b e =
    let e' : a ≡ b = omega arith in rw (e', zero-add k) (omega arith)
unset_count-add bitmap (suc j) k a b e =
    let ih = unset_count-add bitmap j k (a + 1) b (omega arith) in
    let s : suc j + k ≡ suc (j + k) = omega arith in rw s (omega (arith, ih))

wanted_after-count :
    (bitmap : List ℕ) (i k pos wanted : ℕ)
    → pos + k ≡ 8
    → wanted ≢ 0
    → wanted_after k pos (byte_at bitmap i) wanted ≡ wanted - unset_count bitmap (i * 8 + pos) k
unfolding wanted_after unset_count
wanted_after-count bitmap i zero pos wanted e ne = omega arith
wanted_after-count bitmap i (suc k) pos wanted e ne =
    let s : i * 8 + pos + 1 ≡ i * 8 + (pos + 1) = omega arith in
    rw (s, bit_set_at-byte bitmap i pos (omega arith))
      (ground (
        arith,
        wanted_after-count bitmap i k (pos + 1) wanted,
        wanted_after-count bitmap i k (pos + 1) (wanted - 1),
      ))

available_from-count :
    (bitmap : List ℕ) (k i wanted : ℕ)
    → wanted ≢ 0
    → available_from k i bitmap wanted ≡ leb wanted (unset_count bitmap (i * 8) (k * 8))
unfolding available_from
available_from-count bitmap zero i wanted ne = ground (arith, unset_count-le bitmap (i * 8) (0 * 8))
available_from-count bitmap (suc k) i wanted ne = ground (
  arith,
  wanted_after-count bitmap i 8 0 wanted (omega arith) ne,
  unset_count-add bitmap 8 (k * 8) (i * 8) ((i + 1) * 8) (omega arith),
  available_from-count bitmap k (i + 1) (wanted - unset_count bitmap (i * 8) 8),
)

-- Asked for a number of bits that is not 0, the test for free bits answers whether at least that
-- many bits of the bitmap are not set.
pub n_bits_available-count :
    (n : ℕ) (bitmap : List ℕ) (wanted : ℕ)
    → wanted ≢ 0
    → n_bits_available n bitmap wanted ≡ some (leb wanted (unset_count bitmap 0 (n * 8)))
unfolding n_bits_available
n_bits_available-count n bitmap wanted ne =
    ground (arith, available_from-count bitmap n 0 wanted ne)

bits_set_in_byte-count :
    (bitmap : List ℕ) (i k pos count : ℕ)
    → pos + k ≡ 8
    → count + k < 2 ^ 32
    → bits_set_in_byte k pos (byte_at bitmap i) count + unset_count bitmap (i * 8 + pos) k
      ≡ count + k
unfolding bits_set_in_byte unset_count
bits_set_in_byte-count bitmap i zero pos count e b = omega arith
bits_set_in_byte-count bitmap i (suc k) pos count e b =
    let s : i * 8 + pos + 1 ≡ i * 8 + (pos + 1) = omega arith in
    rw (s, bit_set_at-byte bitmap i pos (omega arith))
      (ground (
        arith,
        bits_set_in_byte-count bitmap i k (pos + 1) count (omega arith),
        bits_set_in_byte-count bitmap i k (pos + 1) (count + 1) (omega arith),
      ))

bits_set_from-count :
    (bitmap : List ℕ) (k i count : ℕ)
    → count + k * 8 < 2 ^ 32
    → bits_set_from k i bitmap count + unset_count bitmap (i * 8) (k * 8) ≡ count + k * 8
unfolding bits_set_from
bits_set_from-count bitmap zero i count b = omega (arith, unset_count-le bitmap (i * 8) (0 * 8))
bits_set_from-count bitmap (suc k) i count b =
    let byte = bits_set_in_byte-count bitmap i 8 0 count (omega arith) (omega arith) in
    let c = bits_set_in_byte 8 0 (byte_at bitmap i) count in
    ground (
      arith,
      byte,
      unset_count-add bitmap 8 (k * 8) (i * 8) ((i + 1) * 8) (omega arith),
      bits_set_from-count bitmap k (i + 1) c (omega arith),
    )

-- For a bitmap of fewer than 2^32 bits, the count of set bits and the number of bits that are not
-- set make up all its bits.
pub num_bits_set-count :
    (n : ℕ) (bitmap : List ℕ)
    → n * 8 < 2 ^ 32
    → num_bits_set n bitmap + unset_count bitmap 0 (n * 8) ≡ n * 8
unfolding num_bits_set
num_bits_set-count n bitmap b = omega (arith, bits_set_from-count bitmap n 0 0 (omega arith))
