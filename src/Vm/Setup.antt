-- ===== src/Vm/Setup.antt =====
-- p3/code/my_vm.c: `set_physical_mem`, the first call's setting up, and `init_page_tables`. What
-- `malloc` returns for the physical memory, and what memory held before, are arguments.
pub mod Directory
use cs416_os.Prelude.{
  ℕ, zero, suc, ◌+◌, ◌-◌, ◌*◌, ◌^◌, ◌==◌, leb, ltb, ◌&&◌, if◌then◌else◌, Option, some, [],
  replicate, ◌>>=◌, ◌>>◌, assert,
}
use cs416_os.Vm.Scheme.{memsize, word_bytes, init_paging_scheme}
use cs416_os.Vm.Bitmap.{first_available_position, n_bits_available, num_bits_set, set_bit_at}
use cs416_os.Vm.Machine.{Vm, bitmap_bytes, store_word, pointer_to_frame_at_position}

-- Takes the first free frame.
unfoldable pub take_frame : Vm → ℕ × Vm
take_frame vm =
    let f = first_available_position (bitmap_bytes vm) vm.frame_bitmap in
    (f, record vm { frame_bitmap = set_bit_at vm.frame_bitmap f })

-- The loop over the page directory: entry `pt` gets the address of the directory's own frame.
unfoldable pub init_directory : ℕ → ℕ → ℕ → Vm → Vm
unfolding take_frame
init_directory pgdir_frame zero pt vm = vm
init_directory pgdir_frame (suc k) pt vm =
    let vm₁ = (take_frame vm).1 in
    init_directory pgdir_frame k (pt + 1) (record vm₁ {
      memory =
          store_word vm₁.memory (vm₁.ptbr + word_bytes * pt)
            (pointer_to_frame_at_position vm₁ pgdir_frame);
    })

unfoldable pub init_page_tables : Vm → Option Vm
unfolding take_frame init_directory
init_page_tables vm =
    let tables = 2 ^ vm.scheme.page_dir in
    let (pgdir_frame, vm₁) = take_frame vm in
    let vm₂ = record vm₁ { ptbr = pointer_to_frame_at_position vm₁ pgdir_frame } in
    let vm₃ = init_directory pgdir_frame tables 0 vm₂ in
    let vm₄ = record vm₃ { virtual_bitmap = set_bit_at vm₃.virtual_bitmap 0 } in
    do
      assert (vm.ptbr == 0)
      assert (num_bits_set (bitmap_bytes vm) vm₃.frame_bitmap == 1 + tables)
      enough ← n_bits_available (bitmap_bytes vm) vm₃.frame_bitmap (bitmap_bytes vm - 1 - tables)
      assert enough
      assert (num_bits_set (bitmap_bytes vm) vm₄.virtual_bitmap == 1)
      some vm₄

unfoldable pub set_physical_mem : ℕ → (ℕ → ℕ) → Option Vm
unfolding init_page_tables init_paging_scheme
set_physical_mem start memory =
    let s = init_paging_scheme in
    init_page_tables (record {
      scheme = s;
      vm_start = start;
      ptbr = 0;
      memory = λ b. if leb start b && ltb b (start + memsize) then 0 else memory b;
      frame_bitmap = replicate (2 ^ s.chars_for_bitmap) 0;
      virtual_bitmap = replicate (2 ^ s.chars_for_bitmap) 0;
      tlb = record { size = 0; entries = [] };
      tlb_misses = 0;
      tlb_lookups = 0;
    })
