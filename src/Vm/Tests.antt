-- ===== src/Vm/Tests.antt =====
-- p3/code/my_vm.c: the theorems at small states: the page directory is at 4096, its first page table
-- at 8192, and page 1 is in use.
use cs416_os.Prelude.{
  ℕ, ◌*◌, ◌+◌, ◌^◌, ◌<◌, ◌≤◌, ◌==◌, ◌≡◌, refl, true, some, List, [], ◌∷◌, arith, if◌then◌else◌, leb,
}
use cs416_os.Prelude.BitArray.{IsBytes}
use cs416_os.Vm.Scheme.{word_bytes, init_paging_scheme, num_bits_needed_to_encode}
use cs416_os.Vm.Scheme.Widths.{num_bits_lem}
use cs416_os.Vm.Address.{VirtualAddr, extract_from, reconvert, is_valid_va}
use cs416_os.Vm.Address.Parts.{scheme, reconvert-extract_from, extract_from-reconvert}
use cs416_os.Vm.Bitmap.{bit_set_at, first_available_position, n_bits_available, num_bits_set}
use cs416_os.Vm.Bitmap.Search.{IsFirst, first_available_position-IsFirst}
use cs416_os.Vm.Bitmap.Count.{unset_count, n_bits_available-count, num_bits_set-count}
use cs416_os.Vm.Machine.{Vm, load_word, pointer_to_frame_at_position}
use cs416_os.Vm.Setup.{init_directory}
use cs416_os.Vm.Setup.Directory.{init_directory_lem}
use cs416_os.Vm.Tlb.{pte_address}
use cs416_os.Vm.Tlb.Entries.{IsCache}
use cs416_os.Vm.Tlb.Transparent.{IsCoherent, LooksUp, check_tlb-LooksUp}
use cs416_os.Vm.Paging.Mapping.{Mapped, page_map_lem}

-- 11100000 10000000
abbrev bitmap : List ℕ
bitmap = 224 ∷ 128 ∷ []

bitmap-IsBytes : IsBytes bitmap
bitmap-IsBytes = (omega arith, (omega arith, tt))

first_available_position-IsFirst_example :
    IsFirst (bit_set_at bitmap) 0 16 (first_available_position 2 bitmap)
first_available_position-IsFirst_example = first_available_position-IsFirst 2 bitmap

n_bits_available-count_example :
    n_bits_available 2 bitmap 13 ≡ some (leb 13 (unset_count bitmap 0 16))
n_bits_available-count_example = n_bits_available-count 2 bitmap 13 (ground arith)

num_bits_set-count_example : num_bits_set 2 bitmap + unset_count bitmap 0 16 ≡ 16
num_bits_set-count_example = num_bits_set-count 2 bitmap (omega arith)

num_bits_lem_example :
    (2 ^ num_bits_needed_to_encode 4096 ≤ 4096) × (4096 < 2 ^ (num_bits_needed_to_encode 4096 + 1))
num_bits_lem_example = num_bits_lem 4096 (ground arith) (omega arith)

reconvert-extract_from_example :
    reconvert init_paging_scheme (extract_from init_paging_scheme 20000) ≡ 20000
unfolding is_valid_va init_paging_scheme
reconvert-extract_from_example = reconvert-extract_from 20000 refl

abbrev parts : VirtualAddr
parts = record { byte_offset = 7; pte_offset = 5; pde_offset = 3 }

extract_from-reconvert_example :
    (is_valid_va init_paging_scheme (reconvert init_paging_scheme parts) ≡ true)
    × (extract_from init_paging_scheme (reconvert init_paging_scheme parts) ≡ parts)
extract_from-reconvert_example =
    extract_from-reconvert parts (omega arith) (omega arith) (omega arith)

abbrev state : Vm
state = record {
  scheme = scheme;
  vm_start = 4096;
  ptbr = 4096;
  memory = λ b. if b == 4097 then 32 else 0;
  frame_bitmap = 192 ∷ [];
  virtual_bitmap = 192 ∷ [];
  tlb = record { size = 1; entries = record { virtual_address = 4096; frame = 8196 } ∷ [] };
  tlb_misses = 1;
  tlb_lookups = 1;
}

state-IsCache : IsCache state.scheme state.tlb
state-IsCache = record { counted = refl; bounded = omega arith; distinct = (tt, tt) }

state-IsCoherent : IsCoherent state
unfolding pte_address extract_from load_word
state-IsCoherent = (refl, tt)

check_tlb-LooksUp_example : LooksUp state 4100
check_tlb-LooksUp_example = check_tlb-LooksUp state 4100 state-IsCache state-IsCoherent

page_map_lem_example : Mapped state 8192 12288
unfolding pte_address extract_from load_word
page_map_lem_example =
    page_map_lem state 8192 12288 state-IsCache state-IsCoherent (omega arith, tt) (omega arith)
      (ground arith) (omega arith)

init_directory_lem_example :
    load_word (init_directory 0 4 0 state).memory (state.ptbr + word_bytes * 2)
    ≡ pointer_to_frame_at_position state 0
init_directory_lem_example = init_directory_lem 0 4 0 state 2 (omega arith) (omega arith)
