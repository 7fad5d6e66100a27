-- ===== src/Bitops.antt =====
-- p1/bitops.c: the top bits of a word, and single bits of a bitmap of four bytes, whose bits are
-- numbered from the left or, from the last byte on, from the right.
pub mod Laws
pub mod TopBits
mod Tests
use cs416_os.Prelude.{
  ℕ, zero, suc, ◌+◌, ◌-◌, ◌*◌, ◌/◌, ◌%◌, ◌^◌, ◌==◌, Bool, if◌then◌else◌, List, Option, none, some,
  get_or, set, ltb, leb, ◌>>◌, assert,
}
use Prim.Native.Nat.{bit_and}
use cs416_os.Prelude.Shifts.{shifts}
use cs416_os.Prelude.Bytes.{test_bit, raise_bit}

pub data Orientation : Type 0 where
  right_to_left : Orientation
  left_to_right : Orientation

abbrev pub bitmap_size : ℕ
bitmap_size = 4

-- The loop `for (n = value, ns = 0; n; n >>= 1, ++ns)`, on 32 bits: the bits that the value takes up.
unfoldable pub bits_taken : ℕ → ℕ
unfolding shifts
bits_taken value = shifts 32 value 0

-- A shift by a negative amount, or by 32, has no result. `~0 << k` is `2 ^ 32 - 2 ^ k` as an
-- unsigned int.
unfoldable pub get_top_bits : ℕ → ℕ → Option ℕ
get_top_bits value num_bits = do
  assert (leb num_bits (bits_taken value))
  assert (ltb (bits_taken value - num_bits) 32)
  let k = bits_taken value - num_bits in some (bit_and (2 ^ 32 - 2 ^ k) value / 2 ^ k)

abbrev pub byte_offset : Orientation → ℕ → ℕ
byte_offset left_to_right dividend = dividend
byte_offset right_to_left dividend = bitmap_size - 1 - dividend

abbrev pub shift_by : Orientation → ℕ → ℕ
shift_by left_to_right remainder = 7 - remainder
shift_by right_to_left remainder = remainder

unfoldable pub set_bit_at_index : Orientation → List ℕ → ℕ → List ℕ
set_bit_at_index o bitmap index =
    let d = byte_offset o (index / 8) in
    set bitmap d (raise_bit (get_or bitmap d 0) (shift_by o (index % 8)))

unfoldable pub get_bit_at_index : Orientation → List ℕ → ℕ → Bool
get_bit_at_index o bitmap index =
    test_bit (get_or bitmap (byte_offset o (index / 8)) 0) (shift_by o (index % 8))
