-- ===== src/Vm/Tlb/Transparent.antt =====
-- p3/code/my_vm.c: the cache does not show. A lookup gives the page table entry's address that the
-- walk of the page tables gives.
use cs416_os.Prelude.{
  ℕ, ◌+◌, ◌==◌, ◌≡◌, refl, true, false, some, none, List, ◌∷◌, arith, All, inl, inr, ◌-◌,
  Bool-cases, ◌∙◌, sym,
}
use cs416_os.Vm.Scheme.{PagingScheme}
use cs416_os.Vm.Address.{extract_from, equivalent_virtual_address, page_of}
use cs416_os.Vm.Machine.{Vm, Tlb, TlbStore}
use cs416_os.Vm.Tlb.{
  add_tlb, is_mapped, pte_address, fetch_pte_from, check_tlb, hit, missed, search_and_remove,
}
use cs416_os.Vm.Tlb.Entries.{
  IsCache, Uncached, Found, absent, present, search_and_remove-Searched, add_tlb-IsCache,
  add_tlb-All,
}

-- Every cached entry is that of its page.
abbrev pub IsCoherent : Vm → Type 0
IsCoherent vm = All (λ e. e.frame ≡ pte_address vm e.virtual_address) vm.tlb.entries

-- The page table entry of an address depends on its page only.
pub pte_address-page :
    (vm : Vm) (a b : ℕ)
    → equivalent_virtual_address vm.scheme a b ≡ true
    → pte_address vm a ≡ pte_address vm b
unfolding pte_address extract_from equivalent_virtual_address
pte_address-page vm a b h = let e : page_of vm.scheme a ≡ page_of vm.scheme b = ground arith in rw e

-- What a lookup leaves as it was.
pub record SameMemory (vm vm' : Vm) : Type 0 where
  pub scheme_eq : vm'.scheme ≡ vm.scheme
  pub start_eq : vm'.vm_start ≡ vm.vm_start
  pub ptbr_eq : vm'.ptbr ≡ vm.ptbr
  pub memory_eq : vm'.memory ≡ vm.memory
  pub frames_eq : vm'.frame_bitmap ≡ vm.frame_bitmap
  pub pages_eq : vm'.virtual_bitmap ≡ vm.virtual_bitmap

-- A lookup of an address with a valid cache: it does not fail, gives what the walk of the page tables
-- gives, changes nothing but the cache and the counters, and leaves the cache valid.
pub record LooksUp (vm : Vm) (va : ℕ) : Type 0 where
  pub after : Vm
  pub runs : check_tlb vm va ≡ some (fetch_pte_from vm va, after)
  pub same : SameMemory vm after
  pub cache : IsCache vm.scheme after.tlb
  pub coherent : IsCoherent after

fetch-mapped :
    (vm : Vm) (va : ℕ) → is_mapped vm va ≡ true → fetch_pte_from vm va ≡ pte_address vm va
unfolding fetch_pte_from
fetch-mapped vm va h = rw h refl

fetch-unmapped : (vm : Vm) (va : ℕ) → is_mapped vm va ≡ false → fetch_pte_from vm va ≡ 0
unfolding fetch_pte_from
fetch-unmapped vm va h = rw h refl

check_tlb-unmapped :
    (vm : Vm) (va : ℕ) → is_mapped vm va ≡ false → check_tlb vm va ≡ some (fetch_pte_from vm va, vm)
unfolding check_tlb
check_tlb-unmapped vm va h = rw (h, fetch-unmapped vm va h) refl

check_tlb-miss :
    (vm : Vm) (va : ℕ)
    → is_mapped vm va ≡ true
    → search_and_remove vm.scheme vm.tlb va ≡ some (none, vm.tlb)
    → check_tlb vm va ≡ some (fetch_pte_from vm va, missed vm va)
unfolding check_tlb
check_tlb-miss vm va h e = rw (h, e) refl

check_tlb-hit :
    (vm : Vm) (va : ℕ) (f : TlbStore) (t : Tlb)
    → is_mapped vm va ≡ true
    → search_and_remove vm.scheme vm.tlb va ≡ some (some f, t)
    → check_tlb vm va ≡ some (f.frame, hit vm f t)
unfolding check_tlb
check_tlb-hit vm va f t h e = rw (h, e) refl

-- The page table entry's address reads the memory, the scheme and the page directory's base only.
pte_address-same :
    (vm vm' : Vm) (va : ℕ) → SameMemory vm vm' → pte_address vm' va ≡ pte_address vm va
unfolding pte_address
pte_address-same vm vm' va k = rw (k.scheme_eq, k.memory_eq, k.ptbr_eq) refl

hit-IsCache :
    (s : PagingScheme) (t : Tlb) (va : ℕ) (f : TlbStore) (rest : List TlbStore)
    → IsCache s t
    → Found s t.entries va f rest
    → IsCache s (record { size = (t.size - 1) + 1; entries = f ∷ rest })
hit-IsCache s t va f rest c k = record {
  counted = omega (arith, c.counted, k.length_eq);
  bounded = omega (arith, c.counted, k.length_eq, c.bounded);
  distinct = k.distinct c.distinct;
}

same_memory :
    (vm : Vm) (t : Tlb) (n k : ℕ)
    → SameMemory vm (record vm { tlb = t; tlb_lookups = n; tlb_misses = k })
same_memory vm t n k = record {
  scheme_eq = refl;
  start_eq = refl;
  ptbr_eq = refl;
  memory_eq = refl;
  frames_eq = refl;
  pages_eq = refl;
}

IsCoherent-after :
    (vm : Vm) (t : Tlb) (n k : ℕ)
    → All (λ e. e.frame ≡ pte_address vm e.virtual_address) t.entries
    → IsCoherent (record vm { tlb = t; tlb_lookups = n; tlb_misses = k })
unfolding pte_address
IsCoherent-after vm t n k a = a

LooksUp-miss :
    (vm : Vm) (va : ℕ)
    → IsCache vm.scheme vm.tlb
    → IsCoherent vm
    → is_mapped vm va ≡ true
    → Uncached vm.scheme vm.tlb.entries va
    → search_and_remove vm.scheme vm.tlb va ≡ some (none, vm.tlb)
    → LooksUp vm va
LooksUp-miss vm va c h mapped u e = elim (Bool-cases (fetch_pte_from vm va == 0)) [
  | inl zero ↦ record {
    after = record vm { tlb_lookups = vm.tlb_lookups + 1 };
    runs = check_tlb-miss vm va mapped e ∙ rw zero refl;
    same = same_memory vm vm.tlb (vm.tlb_lookups + 1) vm.tlb_misses;
    cache = c;
    coherent = IsCoherent-after vm vm.tlb (vm.tlb_lookups + 1) vm.tlb_misses h;
  }
  | inr some_frame ↦
      let t = add_tlb vm.tlb va (fetch_pte_from vm va) in
      record {
        after = record vm {
          tlb = t;
          tlb_lookups = vm.tlb_lookups + 1;
          tlb_misses = vm.tlb_misses + 1;
        };
        runs = check_tlb-miss vm va mapped e ∙ rw some_frame refl;
        same = same_memory vm t (vm.tlb_lookups + 1) (vm.tlb_misses + 1);
        cache = add_tlb-IsCache vm.scheme vm.tlb va (fetch_pte_from vm va) c u;
        coherent = IsCoherent-after vm t (vm.tlb_lookups + 1) (vm.tlb_misses + 1) (
            add_tlb-All (λ e. e.frame ≡ pte_address vm e.virtual_address) vm.tlb va
              (fetch_pte_from vm va) (fetch-mapped vm va mapped) h);
      }
]

LooksUp-hit :
    (vm : Vm) (va : ℕ) (f : TlbStore) (rest : List TlbStore)
    → IsCache vm.scheme vm.tlb
    → IsCoherent vm
    → is_mapped vm va ≡ true
    → Found vm.scheme vm.tlb.entries va f rest
    → search_and_remove vm.scheme vm.tlb va
      ≡ some (some f, record { size = vm.tlb.size - 1; entries = rest })
    → LooksUp vm va
LooksUp-hit vm va f rest c h mapped k e =
    let t : Tlb = record { size = (vm.tlb.size - 1) + 1; entries = f ∷ rest } in
    let a = k.keeps (λ e. e.frame ≡ pte_address vm e.virtual_address) h in
    let frame_eq : f.frame ≡ fetch_pte_from vm va =
      a.0
      ∙ pte_address-page vm f.virtual_address va k.same_page
      ∙ sym (fetch-mapped vm va mapped) in
    record {
      after = record vm { tlb = t; tlb_lookups = vm.tlb_lookups + 1 };
      runs =
          check_tlb-hit vm va f (record { size = vm.tlb.size - 1; entries = rest }) mapped e
          ∙ rw frame_eq refl;
      same = same_memory vm t (vm.tlb_lookups + 1) vm.tlb_misses;
      cache = hit-IsCache vm.scheme vm.tlb va f rest c k;
      coherent = IsCoherent-after vm t (vm.tlb_lookups + 1) vm.tlb_misses a;
    }

-- With a valid cache, whose entries are counted, at most 512, one for a page, and each that of its
-- page, a lookup gives what the walk of the page tables gives (0 for an address of no page in use),
-- changes only the cache and its counters, and leaves the cache valid.
pub check_tlb-LooksUp :
    (vm : Vm) (va : ℕ) → IsCache vm.scheme vm.tlb → IsCoherent vm → LooksUp vm va
check_tlb-LooksUp vm va c h = elim (Bool-cases (is_mapped vm va)) [
  | inr unmapped ↦ record {
    after = vm;
    runs = check_tlb-unmapped vm va unmapped;
    same = same_memory vm vm.tlb vm.tlb_lookups vm.tlb_misses;
    cache = c;
    coherent = h;
  }
  | inl mapped ↦ elim (search_and_remove-Searched vm.scheme vm.tlb va c.counted) [
    | absent u e ↦ LooksUp-miss vm va c h mapped u e
    | present f rest k e ↦ LooksUp-hit vm va f rest c h mapped k e
  ]
]
