-- ===== src/Vm/Paging.antt =====
-- p3/code/my_vm.c: mapping a page and `t_malloc`, once the memory is set up. The library lock keeps
-- other threads out of these functions, which run as one step.
pub mod Mapping
use cs416_os.Prelude.{
  ℕ, zero, suc, ◌+◌, ◌-◌, ◌*◌, ◌/◌, ◌%◌, ◌==◌, Bool, true, false, not, ◌||◌, if◌then◌else◌, Option,
  none, some, List, [], ◌∷◌, ◌>>=◌, ◌>>◌, assert,
}
use cs416_os.Vm.Scheme.{PagingScheme, pgsize, word_bytes}
use cs416_os.Vm.Address.{is_valid_va, page_of, shift_left}
use cs416_os.Vm.Bitmap.{bit_set_at, set_bit_at, first_available_position, n_bits_available}
use cs416_os.Vm.Machine.{Vm, bitmap_bytes, store_word, clear_page, pointer_to_frame_at_position}
use cs416_os.Vm.Tlb.{translate}
use cs416_os.Vm.Setup.{take_frame}

abbrev pub payload_bytes : ℕ
payload_bytes = pgsize - word_bytes

abbrev pub pages_for : ℕ → ℕ
pages_for size = size / payload_bytes + (if size % payload_bytes == 0 then 0 else 1)

-- A page table entry is written at an address that is not NULL.
abbrev pub write_word : ℕ → ℕ → Vm → Option Vm
write_word a v vm = assert (not (a == 0)) >> some (record vm { memory = store_word vm.memory a v })

-- The result is 1 or 0.
unfoldable pub page_map : ℕ → ℕ → Vm → Option (Bool × Vm)
page_map va pa vm =
    if not (is_valid_va vm.scheme va) || bit_set_at vm.virtual_bitmap (page_of vm.scheme va)
    then some (false, vm)
    else (translate
          (record vm { virtual_bitmap = set_bit_at vm.virtual_bitmap (page_of vm.scheme va) }) va
        >>= λ r. write_word r.0 pa r.1 >>= λ vm₁. some (true, vm₁))

unfoldable pub get_next_avail : Vm → ℕ
get_next_avail vm =
    shift_left (first_available_position (bitmap_bytes vm) vm.virtual_bitmap) vm.scheme.offset

-- A round of the first loop of `t_malloc`: the page's address, its frame's address, the new state.
unfoldable pub allocate_page : Vm → Option (ℕ × ℕ × Vm)
allocate_page vm =
    let va = get_next_avail vm in
    let (f, vm₁) = take_frame vm in
    let pa = pointer_to_frame_at_position vm₁ f in
    do
      (mapped, vm₂) ← page_map va pa (record vm₁ { memory = clear_page vm₁.memory pa })
      assert mapped
      assert (bit_set_at vm₂.virtual_bitmap (page_of vm₂.scheme va))
      assert (bit_set_at vm₂.frame_bitmap f)
      some (va, pa, vm₂)

-- The first loop, `k` rounds: `links` and `requested_frames`.
unfoldable pub allocate_pages : ℕ → Vm → Option (List ℕ × List ℕ × Vm)
allocate_pages zero vm = some ([], [], vm)
allocate_pages (suc k) vm = do
  (va, pa, vm₁) ← allocate_page vm
  (links, frames, vm₂) ← allocate_pages k vm₁
  some (va ∷ links, pa ∷ frames, vm₂)

-- The second loop: the first word of each frame but the last gets the address of the next page.
unfoldable pub link_pages : List ℕ → List ℕ → (ℕ → ℕ) → ℕ → ℕ
link_pages (va ∷ next ∷ links) (pa ∷ frames) memory =
    link_pages (next ∷ links) frames (store_word memory pa next)
link_pages (va ∷ []) frames memory = memory
link_pages [] frames memory = memory
link_pages (va ∷ next ∷ links) [] memory = memory

-- `first_page` is the first address that is not NULL.
unfoldable pub first_page : List ℕ → ℕ
first_page [] = 0
first_page (va ∷ links) = if va == 0 then first_page links else va

unfoldable pub t_malloc : ℕ → Vm → Option (ℕ × Vm)
t_malloc num_bytes vm = if num_bytes == 0 then some (0, vm) else do
  let wanted = pages_for num_bytes
  pages ← n_bits_available (bitmap_bytes vm) vm.virtual_bitmap wanted
  frames ← if pages then n_bits_available (bitmap_bytes vm) vm.frame_bitmap wanted else some false
  if frames
      then (allocate_pages wanted vm >>= λ r.
          some (first_page r.0, record r.2 { memory = link_pages r.0 r.1 r.2.memory }))
      else some (0, vm)
