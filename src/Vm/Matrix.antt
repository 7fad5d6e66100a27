-- ===== src/Vm/Matrix.antt =====
-- p3/code/my_vm.c: `mat_mult`, a client of `get_value` and `put_value`. An `int` takes 4 bytes, the
-- lowest first. A call of `get_value` or `put_value` gets `fuel` pages.
use cs416_os.Prelude.{
  ℕ, zero, suc, ◌+◌, ◌*◌, ◌/◌, ◌%◌, ◌^◌, Option, some, List, [], ◌∷◌, get_or, ◌>>=◌,
}
use cs416_os.Vm.Machine.{Vm}
use cs416_os.Vm.Values.{put_value, get_value}

abbrev pub int_bytes : ℕ
int_bytes = 4

-- The bytes of an unsigned int, and the int of bytes.
abbrev pub to_bytes : ℕ → List ℕ
to_bytes c = c % 256 ∷ c / 256 % 256 ∷ c / 256 ^ 2 % 256 ∷ c / 256 ^ 3 % 256 ∷ []

abbrev pub from_bytes : List ℕ → ℕ
from_bytes l = get_or l 0 0 + 256 * (get_or l 1 0 + 256 * (get_or l 2 0 + 256 * get_or l 3 0))

-- The address of an element of a matrix with `size` columns.
abbrev pub element : ℕ → ℕ → ℕ → ℕ → ℕ
element mat size i j = (mat + i * size * int_bytes + j * int_bytes) % 2 ^ 32

module _ (fuel mat1 mat2 size answer : ℕ) where
  -- The innermost loop, with `n` rounds left at `k` and the sum `c`.
  unfoldable pub sum_products : ℕ → ℕ → ℕ → ℕ → ℕ → Vm → Option (ℕ × Vm)
  sum_products i j zero k c vm = some (c, vm)
  sum_products i j (suc n) k c vm = get_value fuel (element mat1 size i k) int_bytes vm >>= λ a.
      get_value fuel (element mat2 size k j) int_bytes a.1 >>= λ b.
      sum_products i j n (k + 1) ((c + from_bytes a.0 * from_bytes b.0) % 2 ^ 32) b.1

  -- The loop over the columns, with `n` rounds left at `j`.
  unfoldable pub multiply_columns : ℕ → ℕ → ℕ → Vm → Option Vm
  unfolding sum_products
  multiply_columns i zero j vm = some vm
  multiply_columns i (suc n) j vm = sum_products i j size 0 0 vm >>= λ c.
      put_value fuel (element answer size i j) (to_bytes c.0) c.1 >>= λ r.
      multiply_columns i n (j + 1) r.1

  -- The loop over the rows, with `n` rounds left at `i`.
  unfoldable pub multiply_rows : ℕ → ℕ → Vm → Option Vm
  unfolding multiply_columns
  multiply_rows zero i vm = some vm
  multiply_rows (suc n) i vm = multiply_columns i size 0 vm >>= multiply_rows n (i + 1)

  unfoldable pub mat_mult : Vm → Option Vm
  unfolding multiply_rows
  mat_mult vm = multiply_rows size 0 vm
