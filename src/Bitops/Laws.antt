-- ===== src/Bitops/Laws.antt =====
-- p1/bitops.c: what setting a bit does to each bit.
use cs416_os.Prelude.{
  ℕ, ◌/◌, ◌%◌, ◌<◌, ◌==◌, ◌≡◌, true, List, arith, length, if◌then◌else◌, ◌&&◌, ◌∙◌, ap,
}
use cs416_os.Prelude.BitArray.{IsBytes, test-raise}
use cs416_os.Bitops.{
  Orientation, left_to_right, right_to_left, bitmap_size, byte_offset, shift_by, set_bit_at_index,
  get_bit_at_index,
}

offset_range :
    (o : Orientation) (i : ℕ) → i < 32 → (byte_offset o (i / 8) < 4) × (shift_by o (i % 8) < 8)
offset_range left_to_right i h = (omega arith, omega arith)
offset_range right_to_left i h = (omega arith, omega arith)

same_index :
    (o : Orientation) (i j : ℕ)
    → i < 32
    → j < 32
    → (byte_offset o (i / 8) == byte_offset o (j / 8) && shift_by o (i % 8) == shift_by o (j % 8))
      ≡ (i == j)
same_index left_to_right i j hi hj = ground arith
same_index right_to_left i j hi hj = ground arith

-- In both orientations, on a bitmap of four bytes and at positions below 32, setting a bit sets
-- that bit and no other.
pub get_bit_at_index-set_bit_at_index :
    (o : Orientation) (bitmap : List ℕ) (i j : ℕ)
    → IsBytes bitmap
    → length bitmap ≡ bitmap_size
    → i < 32
    → j < 32
    → get_bit_at_index o (set_bit_at_index o bitmap i) j
      ≡ (if i == j then true else get_bit_at_index o bitmap j)
unfolding get_bit_at_index set_bit_at_index
get_bit_at_index-set_bit_at_index o bitmap i j bytes four hi hj =
    test-raise bitmap bytes (byte_offset o (i / 8)) (shift_by o (i % 8))
      (omega (arith, (offset_range o i hi).0, four)) (offset_range o i hi).1 (byte_offset o (j / 8))
      (shift_by o (j % 8)) (offset_range o j hj).1
    ∙ ap (λ t. if t then true else get_bit_at_index o bitmap j) (same_index o i j hi hj)
