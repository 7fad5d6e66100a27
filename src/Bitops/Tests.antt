-- ===== src/Bitops/Tests.antt =====
-- p1/bitops.c: the theorems at the bit and the word that `main` takes.
use cs416_os.Prelude.{
  ◌/◌, ◌-◌, ◌^◌, ◌<◌, ◌≤◌, ◌==◌, ◌≡◌, refl, true, some, [], ◌∷◌, arith, if◌then◌else◌,
}
use cs416_os.Prelude.Shifts.{shifts}
use cs416_os.Bitops.{left_to_right, set_bit_at_index, get_bit_at_index, bits_taken, get_top_bits}
use cs416_os.Bitops.Laws.{get_bit_at_index-set_bit_at_index}
use cs416_os.Bitops.TopBits.{get_top_bits_lem}

get_bit_at_index-set_bit_at_index_example :
    get_bit_at_index left_to_right (set_bit_at_index left_to_right (0 ∷ 0 ∷ 0 ∷ 0 ∷ []) 17) 17
    ≡ (if 17 == 17 then true else get_bit_at_index left_to_right (0 ∷ 0 ∷ 0 ∷ 0 ∷ []) 17)
get_bit_at_index-set_bit_at_index_example =
    get_bit_at_index-set_bit_at_index left_to_right (0 ∷ 0 ∷ 0 ∷ 0 ∷ []) 17 17
      (omega arith, (omega arith, (omega arith, (omega arith, tt)))) refl (omega arith)
      (omega arith)

get_top_bits_lem_example :
    (get_top_bits 4026544704 4 ≡ some (4026544704 / 2 ^ (bits_taken 4026544704 - 4)))
    × (2 ^ 3 ≤ 4026544704 / 2 ^ (bits_taken 4026544704 - 4))
    × (4026544704 / 2 ^ (bits_taken 4026544704 - 4) < 2 ^ 4)
unfolding bits_taken shifts
get_top_bits_lem_example =
    get_top_bits_lem 4026544704 4 (omega arith) (ground arith) (omega arith) (omega arith)
