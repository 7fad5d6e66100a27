-- ===== src/Vm/Release.antt =====
-- p3/code/my_vm.c: the check that pages are linked, and `t_free`.
use cs416_os.Prelude.{
  ℕ, zero, suc, ◌==◌, Bool, true, false, not, ◌||◌, if◌then◌else◌, Option, some, ◌>>=◌, ◌>>◌,
  assert,
}
use cs416_os.Vm.Address.{is_valid_va, page_of}
use cs416_os.Vm.Bitmap.{bit_set_at, unset_bit_at}
use cs416_os.Vm.Machine.{Vm, load_word, clear_page, frame_position_from_pointer}
use cs416_os.Vm.Tlb.{search_and_remove, translate}
use cs416_os.Vm.Paging.{pages_for, write_word}

-- The start is in a page in use, whose entry holds a frame, and so on along the links. The lookups
-- change the cache.
unfoldable pub valid_pages_linked_together_from : ℕ → ℕ → Vm → Option (Bool × Vm)
valid_pages_linked_together_from start zero vm = some (true, vm)
valid_pages_linked_together_from start (suc num_links) vm =
    if start == 0
    then some (false, vm)
    else if not (is_valid_va vm.scheme start)
        || not (bit_set_at vm.virtual_bitmap (page_of vm.scheme start))
    then some (false, vm)
    else (translate vm start >>= λ r.
        if r.0 == 0
        then some (false, r.1)
        else (let pa = load_word r.1.memory r.0 in
            let rest = valid_pages_linked_together_from (load_word r.1.memory pa) num_links r.1 in
            if pa == 0 then some (false, r.1) else rest))

-- What a page's round of `t_free_aux` does: the link, and the new state. `none` is
-- the outcome when NULL is dereferenced.
unfoldable pub free_page : ℕ → Vm → Option (ℕ × Vm)
free_page start vm = do
  (found, t) ← search_and_remove vm.scheme vm.tlb start
  (pte, vm₁) ← translate (record vm { tlb = t }) start
  let pa = load_word vm₁.memory pte
  assert (not (pa == 0))
  vm₂ ← write_word pte 0 vm₁
  let new_start = load_word vm₂.memory pa
  some (
    new_start,
    record vm₂ {
      virtual_bitmap = unset_bit_at vm₂.virtual_bitmap (page_of vm₂.scheme start);
      frame_bitmap = unset_bit_at vm₂.frame_bitmap (frame_position_from_pointer vm₂ pa);
      memory = clear_page vm₂.memory pa;
    },
  )

unfoldable pub t_free_aux : ℕ → ℕ → Vm → Option Vm
t_free_aux start zero vm = some vm
t_free_aux start (suc num_links) vm =
    if start == 0 then some vm else (free_page start vm >>= λ r. t_free_aux r.0 num_links r.1)

-- `size` is not negative.
unfoldable pub t_free : ℕ → ℕ → Vm → Option Vm
t_free va size vm =
    if size == 0
    then some vm
    else (valid_pages_linked_together_from va (pages_for size) vm >>= λ r.
        if r.0 then t_free_aux va (pages_for size) r.1 else some r.1)
