-- ===== src/Vm/Bitmap.antt =====
-- p3/code/my_vm.c: the bitmaps of virtual pages and of frames, arrays of bytes whose bits are
-- numbered from the most significant bit of byte 0. `n` is the number of bytes, which the code
-- reads off the paging scheme.
pub mod Laws
pub mod Search
pub mod Count
use cs416_os.Prelude.{
  ℕ, zero, suc, ◌+◌, ◌-◌, ◌*◌, ◌/◌, ◌%◌, ◌^◌, ◌==◌, Bool, true, false, not, if◌then◌else◌, List,
  Option, ◌>>◌, assert, some, ltb, get_or, set,
}
use cs416_os.Prelude.Bytes.{test_bit, raise_bit, clear_bit}

-- `(position) -1`
abbrev pub no_position : ℕ
no_position = 2 ^ 32 - 1

abbrev pub byte_at : List ℕ → ℕ → ℕ
byte_at bitmap i = get_or bitmap i 0

unfoldable pub bit_set_at : List ℕ → ℕ → Bool
bit_set_at bitmap p = test_bit (byte_at bitmap (p / 8)) (7 - p % 8)

unfoldable pub set_bit_at : List ℕ → ℕ → List ℕ
set_bit_at bitmap p = set bitmap (p / 8) (raise_bit (byte_at bitmap (p / 8)) (7 - p % 8))

unfoldable pub unset_bit_at : List ℕ → ℕ → List ℕ
unset_bit_at bitmap p = set bitmap (p / 8) (clear_bit (byte_at bitmap (p / 8)) (7 - p % 8))

-- The loop of `lowest_unset_bit`, with `k` rounds left.
unfoldable pub lowest_unset_from : ℕ → ℕ → ℕ → ℕ
lowest_unset_from zero pos c = no_position
lowest_unset_from (suc k) pos c =
    let later = lowest_unset_from k (pos + 1) c in if test_bit c (7 - pos) then later else pos

unfoldable pub lowest_unset_bit : ℕ → ℕ
unfolding lowest_unset_from
lowest_unset_bit c = lowest_unset_from 8 0 c

unfoldable pub first_available_from : ℕ → ℕ → List ℕ → ℕ
first_available_from zero i bitmap = no_position
first_available_from (suc k) i bitmap =
    let p = lowest_unset_bit (byte_at bitmap i) in
    let later = first_available_from k (i + 1) bitmap in
    if p == no_position then later else i * 8 + p

unfoldable pub first_available_position : ℕ → List ℕ → ℕ
unfolding first_available_from
first_available_position n bitmap = first_available_from n 0 bitmap

-- The inner loop of `n_bits_available`: what is left of `wanted`, 0 if the loops are left by `return`.
unfoldable pub wanted_after : ℕ → ℕ → ℕ → ℕ → ℕ
wanted_after zero pos c wanted = wanted
wanted_after (suc k) pos c wanted =
    let left = if test_bit c (7 - pos) then wanted else wanted - 1 in
    let later = wanted_after k (pos + 1) c left in if left == 0 then 0 else later

unfoldable pub available_from : ℕ → ℕ → List ℕ → ℕ → Bool
available_from zero i bitmap wanted = false
available_from (suc k) i bitmap wanted =
    let left = wanted_after 8 0 (byte_at bitmap i) wanted in
    let later = available_from k (i + 1) bitmap left in if left == 0 then true else later

unfoldable pub n_bits_available : ℕ → List ℕ → ℕ → Option Bool
n_bits_available n bitmap wanted =
    assert (not (wanted == 0)) >> some (available_from n 0 bitmap wanted)

unfoldable pub bits_set_in_byte : ℕ → ℕ → ℕ → ℕ → ℕ
bits_set_in_byte zero pos c count = count
bits_set_in_byte (suc k) pos c count =
    bits_set_in_byte k (pos + 1) c (if test_bit c (7 - pos) then (count + 1) % 2 ^ 32 else count)

unfoldable pub bits_set_from : ℕ → ℕ → List ℕ → ℕ → ℕ
bits_set_from zero i bitmap count = count
bits_set_from (suc k) i bitmap count =
    bits_set_from k (i + 1) bitmap (bits_set_in_byte 8 0 (byte_at bitmap i) count)

unfoldable pub num_bits_set : ℕ → List ℕ → ℕ
num_bits_set n bitmap = bits_set_from n 0 bitmap 0
