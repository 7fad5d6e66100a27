-- ===== src/Vm/Machine.antt =====
-- p3/code/my_vm.c: the globals of the memory manager, with the simulated physical memory as bytes by
-- address. 0 is NULL; `none` is a NULL dereference or a failed assertion.
use cs416_os.Prelude.{ℕ, ◌+◌, ◌-◌, ◌*◌, ◌/◌, ◌%◌, ◌^◌, leb, ltb, ◌&&◌, if◌then◌else◌, List}
use cs416_os.Vm.Scheme.{PagingScheme, pgsize}

-- `tlb_store`: `frame` is the address of the page table entry.
pub record TlbStore : Type 0 where
  pub virtual_address : ℕ
  pub frame : ℕ

-- `List`, the cache, most recently used entry first.
pub record Tlb : Type 0 where
  pub size : ℕ
  pub entries : List TlbStore

pub record Vm : Type 0 where
  pub scheme : PagingScheme
  pub vm_start : ℕ
  pub ptbr : ℕ
  pub memory : ℕ → ℕ
  pub frame_bitmap : List ℕ
  pub virtual_bitmap : List ℕ
  pub tlb : Tlb
  pub tlb_misses : ℕ
  pub tlb_lookups : ℕ

-- The bytes of each bitmap.
abbrev pub bitmap_bytes : Vm → ℕ
bitmap_bytes vm = 2 ^ vm.scheme.chars_for_bitmap

-- A word of 4 bytes, the least significant first.
unfoldable pub load_word : (ℕ → ℕ) → ℕ → ℕ
load_word memory a =
    memory a + 256 * (memory (a + 1) + 256 * (memory (a + 2) + 256 * memory (a + 3)))

unfoldable pub store_word : (ℕ → ℕ) → ℕ → ℕ → ℕ → ℕ
store_word memory a v b = if leb a b && ltb b (a + 4) then v / 256 ^ (b - a) % 256 else memory b

-- `memset(pa, 0, PGSIZE)`
unfoldable pub clear_page : (ℕ → ℕ) → ℕ → ℕ → ℕ
clear_page memory pa b = if leb pa b && ltb b (pa + pgsize) then 0 else memory b

unfoldable pub pointer_to_frame_at_position : Vm → ℕ → ℕ
pointer_to_frame_at_position vm f = (f * pgsize + vm.vm_start) % 2 ^ 32

unfoldable pub frame_position_from_pointer : Vm → ℕ → ℕ
frame_position_from_pointer vm pa = (pa + 2 ^ 32 - vm.vm_start) % 2 ^ 32 / pgsize
