-- ===== src/Vm/Address/Parts.antt =====
-- p3/code/my_vm.c: taking an address apart and putting it together again, at the program's scheme.
use cs416_os.Prelude.{ℕ, ◌+◌, ◌*◌, ◌%◌, ◌^◌, ◌<◌, ◌≡◌, true, arith, ◌∙◌}
use cs416_os.Prelude.Disjoint.{bit_or-disjoint}
use cs416_os.Vm.Scheme.{PagingScheme, init_paging_scheme}
use cs416_os.Vm.Scheme.Widths.{init_paging_scheme_lem}
use cs416_os.Vm.Address.{VirtualAddr, extract_from, reconvert, is_valid_va}

-- The scheme, computed.
abbrev pub scheme : PagingScheme
scheme = record {
  va_space = 32;
  pa_space = 30;
  max_bits = 30;
  offset = 12;
  max_pages = 18;
  page_table = 10;
  page_dir = 8;
  chars_for_bitmap = 15;
}

reconvert-sum :
    (v : VirtualAddr)
    → v.pde_offset < 2 ^ 8
    → v.pte_offset < 2 ^ 10
    → v.byte_offset < 2 ^ 12
    → reconvert scheme v ≡ v.pde_offset * 2 ^ 22 + v.pte_offset * 2 ^ 12 + v.byte_offset
unfolding reconvert
reconvert-sum v d t b =
    let high : v.pde_offset * 2 ^ 10 % 2 ^ 32 ≡ v.pde_offset * 2 ^ 10 = omega arith in
    let middle : (v.pde_offset * 2 ^ 10 + v.pte_offset) * 2 ^ 12 % 2 ^ 32
        ≡ (v.pde_offset * 2 ^ 10 + v.pte_offset) * 2 ^ 12 =
      omega arith in
    rw
      (
        high,
        bit_or-disjoint 10 v.pde_offset v.pte_offset t,
        middle,
        bit_or-disjoint 12 (v.pde_offset * 2 ^ 10 + v.pte_offset) v.byte_offset b,
      )
      (omega arith)

below : (va : ℕ) → is_valid_va scheme va ≡ true → va < 2 ^ 30
unfolding is_valid_va
below va v = ground arith

-- At the program's paging scheme, a valid virtual address is put together again from the parts it
-- is taken into.
pub reconvert-extract_from :
    (va : ℕ)
    → is_valid_va init_paging_scheme va ≡ true
    → reconvert init_paging_scheme (extract_from init_paging_scheme va) ≡ va
unfolding is_valid_va extract_from
reconvert-extract_from va v =
    let small : va < 2 ^ 30 = below va (rw init_paging_scheme_lem at v) in
    rw init_paging_scheme_lem (
      reconvert-sum (extract_from scheme va) (omega arith) (omega arith) (omega arith)
      ∙ omega arith)

-- At the program's paging scheme, parts that are in their ranges of 8, 10 and 12 bits make a valid
-- address, from which the same parts are taken again.
pub extract_from-reconvert :
    (v : VirtualAddr)
    → v.pde_offset < 2 ^ 8
    → v.pte_offset < 2 ^ 10
    → v.byte_offset < 2 ^ 12
    → (is_valid_va init_paging_scheme (reconvert init_paging_scheme v) ≡ true)
      × (extract_from init_paging_scheme (reconvert init_paging_scheme v) ≡ v)
unfolding is_valid_va extract_from
extract_from-reconvert v d t b =
    rw (init_paging_scheme_lem, reconvert-sum v d t b) (ground arith, ground arith)
