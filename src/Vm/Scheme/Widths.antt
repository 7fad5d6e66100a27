-- ===== src/Vm/Scheme/Widths.antt =====
-- p3/code/my_vm.c: the widths that `init_paging_scheme` computes.
use cs416_os.Prelude.{ℕ, ◌+◌, ◌-◌, ◌^◌, ◌≤◌, ◌<◌, ◌≡◌, ◌≢◌, refl, arith}
use cs416_os.Prelude.Shifts.{shifts, shifts_lem}
use cs416_os.Vm.Scheme.{num_bits_needed_to_encode, init_paging_scheme}

num_bits-shifts : (val : ℕ) → num_bits_needed_to_encode val ≡ shifts 64 val 0 - 1
unfolding num_bits_needed_to_encode
num_bits-shifts val = refl

-- For a value of 64 bits that is not 0, the number of bits computed is the logarithm to base 2,
-- rounded down.
pub num_bits_lem :
    (val : ℕ)
    → val ≢ 0
    → val < 2 ^ 64
    → (2 ^ num_bits_needed_to_encode val ≤ val) × (val < 2 ^ (num_bits_needed_to_encode val + 1))
num_bits_lem val ne b =
    let (k, run, low, high) = shifts_lem 64 val 0 b ne in
    let e : num_bits_needed_to_encode val ≡ k = omega (arith, run, num_bits-shifts val) in
    rw e (low, high)

-- The scheme of the program.
pub init_paging_scheme_lem : init_paging_scheme ≡ record {
  va_space = 32;
  pa_space = 30;
  max_bits = 30;
  offset = 12;
  max_pages = 18;
  page_table = 10;
  page_dir = 8;
  chars_for_bitmap = 15;
}
unfolding init_paging_scheme
init_paging_scheme_lem = refl
