-- ===== src/Vm/Scheme.antt =====
-- p3/code/my_vm.h and my_vm.c: the paging scheme, how many bits each part of an address takes.
-- The code is for 32-bit machines: `unsigned long` and pointers have 4 bytes.
pub mod Widths
use cs416_os.Prelude.{ℕ, zero, suc, ◌+◌, ◌-◌, ◌*◌, ◌/◌, ◌==◌, ltb, if◌then◌else◌}
use cs416_os.Prelude.Shifts.{shifts}

abbrev pub pgsize : ℕ
pgsize = 4096

abbrev pub memsize : ℕ
memsize = 1024 * 1024 * 1024

abbrev pub max_memsize : ℕ
max_memsize = 4 * 1024 * 1024 * 1024

-- `sizeof(unsigned long)`, also of a pointer and a page table entry
abbrev pub word_bytes : ℕ
word_bytes = 4

-- `paging_scheme_t`
pub record PagingScheme : Type 0 where
  pub va_space : ℕ
  pub pa_space : ℕ
  pub max_bits : ℕ
  pub offset : ℕ
  pub max_pages : ℕ
  pub page_table : ℕ
  pub page_dir : ℕ
  pub chars_for_bitmap : ℕ

-- A value of 64 bits is shifted out in 64 rounds. (At 0 the code returns -1: `Scheme` has 0.)
unfoldable pub num_bits_needed_to_encode : ℕ → ℕ
unfolding shifts
num_bits_needed_to_encode val = shifts 64 val 0 - 1

unfoldable pub init_paging_scheme : PagingScheme
unfolding num_bits_needed_to_encode
init_paging_scheme =
    let va = num_bits_needed_to_encode max_memsize in
    let pa = num_bits_needed_to_encode memsize in
    let max_bits = if ltb pa va then pa else va in
    let offset = num_bits_needed_to_encode pgsize in
    let max_pages = max_bits - offset in
    let table = num_bits_needed_to_encode (pgsize / word_bytes) in
    let remaining = max_pages - table in
    let dir = if ltb table remaining then table else remaining in
    record {
      va_space = va;
      pa_space = pa;
      max_bits = max_bits;
      offset = offset;
      max_pages = max_pages;
      page_table = table;
      page_dir = dir;
      chars_for_bitmap = dir + table - 3;
    }
