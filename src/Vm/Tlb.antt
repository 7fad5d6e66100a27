-- ===== src/Vm/Tlb.antt =====
-- p3/code/my_vm.c: the translation cache, and the walk of the page tables behind it.
pub mod Entries
pub mod Transparent
use cs416_os.Prelude.{
  ℕ, ◌+◌, ◌-◌, ◌*◌, ◌==◌, Bool, true, false, not, ◌||◌, if◌then◌else◌, Option, none, some, List, [],
  ◌∷◌, ◌>>=◌,
}
use cs416_os.Vm.Scheme.{PagingScheme, word_bytes}
use cs416_os.Vm.Address.{extract_from, is_valid_va, page_of, equivalent_virtual_address}
use cs416_os.Vm.Bitmap.{bit_set_at}
use cs416_os.Vm.Machine.{Tlb, TlbStore, Vm, load_word}

abbrev pub tlb_entries : ℕ
tlb_entries = 512

-- Takes the first entry for the page of `va` out of the nodes.
unfoldable pub remove_entry : PagingScheme → List TlbStore → ℕ → Option (TlbStore × List TlbStore)
remove_entry s [] va = none
remove_entry s (e ∷ es) va =
    if equivalent_virtual_address s e.virtual_address va
    then some (e, es)
    else (remove_entry s es va >>= λ r. some (r.0, e ∷ r.1))

-- The result is the entry, or NULL.
unfoldable pub search_and_remove : PagingScheme → Tlb → ℕ → Option (Option TlbStore × Tlb)
search_and_remove s t va = if t.size == 0 then some (none, t) else elim t.entries [
  | [] ↦ none
  | e ∷ es ↦ some (elim (remove_entry s (e ∷ es) va) [
    | none ↦ (none, t)
    | some (found, rest) ↦ (some found, record { size = t.size - 1; entries = rest })
  ])
]

unfoldable pub drop_last : List TlbStore → List TlbStore
drop_last [] = []
drop_last (e ∷ []) = []
drop_last (e ∷ f ∷ es) = e ∷ drop_last (f ∷ es)

unfoldable pub evict_lru_cached_entry : Tlb → Tlb
evict_lru_cached_entry t =
    if t.size == 0
    then t
    else if t.size == 1
    then record { size = 0; entries = [] }
    else record { size = t.size - 1; entries = drop_last t.entries }

unfoldable pub add_tlb : Tlb → ℕ → ℕ → Tlb
add_tlb t va frame =
    let t' = if t.size == tlb_entries then evict_lru_cached_entry t else t in
    record {
      size = t'.size + 1;
      entries = record { virtual_address = va; frame = frame } ∷ t'.entries;
    }

-- Whether `va` is an address of a page in use.
unfoldable pub is_mapped : Vm → ℕ → Bool
is_mapped vm va =
    if is_valid_va vm.scheme va then bit_set_at vm.virtual_bitmap (page_of vm.scheme va) else false

-- The address of the page table entry of `va`, through the page directory.
unfoldable pub pte_address : Vm → ℕ → ℕ
pte_address vm va =
    let v = extract_from vm.scheme va in
    load_word vm.memory (vm.ptbr + word_bytes * v.pde_offset) + word_bytes * v.pte_offset

unfoldable pub fetch_pte_from : Vm → ℕ → ℕ
fetch_pte_from vm va = if is_mapped vm va then pte_address vm va else 0

-- The state after a lookup that found an entry, which moves to the front, and after one that missed.
abbrev pub hit : Vm → TlbStore → Tlb → Vm
hit vm e t = record vm {
  tlb = record { size = t.size + 1; entries = e ∷ t.entries };
  tlb_lookups = vm.tlb_lookups + 1;
}

abbrev pub missed : Vm → ℕ → Vm
missed vm va =
    if fetch_pte_from vm va == 0
    then record vm { tlb_lookups = vm.tlb_lookups + 1 }
    else record vm {
      tlb = add_tlb vm.tlb va (fetch_pte_from vm va);
      tlb_lookups = vm.tlb_lookups + 1;
      tlb_misses = vm.tlb_misses + 1;
    }

unfoldable pub check_tlb : Vm → ℕ → Option (ℕ × Vm)
check_tlb vm va =
    if is_mapped vm va
    then (search_and_remove vm.scheme vm.tlb va >>= λ r. elim r.0 [
      | some e ↦ some (e.frame, hit vm e r.1)
      | none ↦ some (fetch_pte_from vm va, missed vm va)
    ])
    else some (0, vm)

unfoldable pub translate : Vm → ℕ → Option (ℕ × Vm)
unfolding check_tlb
translate vm va = check_tlb vm va
