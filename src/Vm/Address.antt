-- ===== src/Vm/Address.antt =====
-- p3/code/my_vm.c: virtual addresses and their parts. An `unsigned long` has 32 bits.
pub mod Parts
use Prim.Native.Nat.{bit_or}
use cs416_os.Prelude.{ℕ, ◌*◌, ◌/◌, ◌%◌, ◌^◌, ◌==◌, Bool}
use cs416_os.Vm.Scheme.{PagingScheme}

-- `virtual_addr_t`
pub record VirtualAddr : Type 0 where
  pub byte_offset : ℕ
  pub pte_offset : ℕ
  pub pde_offset : ℕ

-- `x & ((1 << k) - 1)`, `x >> k` and `x << k`
abbrev pub low_bits : ℕ → ℕ → ℕ
low_bits x k = x % 2 ^ k

abbrev pub shift_right : ℕ → ℕ → ℕ
shift_right x k = x / 2 ^ k

abbrev pub shift_left : ℕ → ℕ → ℕ
shift_left x k = x * 2 ^ k % 2 ^ 32

module _ (scheme : PagingScheme) where
  unfoldable pub extract_from : ℕ → VirtualAddr
  extract_from va =
      let page = shift_right va scheme.offset in
      record {
        byte_offset = low_bits va scheme.offset;
        pte_offset = low_bits page scheme.page_table;
        pde_offset = low_bits (shift_right page scheme.page_table) scheme.page_dir;
      }

  unfoldable pub reconvert : VirtualAddr → ℕ
  reconvert v =
      bit_or
        (shift_left (bit_or (shift_left v.pde_offset scheme.page_table) v.pte_offset) scheme.offset)
        v.byte_offset

  unfoldable pub is_valid_va : ℕ → Bool
  is_valid_va va = shift_right va scheme.max_bits == 0

  -- The number of the page of an address.
  abbrev pub page_of : ℕ → ℕ
  page_of va = shift_right va scheme.offset

  unfoldable pub equivalent_virtual_address : ℕ → ℕ → Bool
  equivalent_virtual_address a b = page_of a == page_of b
