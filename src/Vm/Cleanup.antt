-- ===== src/Vm/Cleanup.antt =====
-- p3/code/my_vm.c: `clean_my_vm`, which runs at exit.
use cs416_os.Prelude.{
  ℕ, zero, suc, ◌≡◌, refl, Option, none, some, List, [], ◌∷◌, ◌>>=◌, arith, length,
}
use cs416_os.Vm.Scheme.{PagingScheme}
use cs416_os.Vm.Machine.{TlbStore, Tlb, Vm}
use cs416_os.Vm.Tlb.Entries.{IsCache}

-- The loop that frees the cached entries, as many as `size`: what is left of the list, or `none` where
-- it reads the front of an empty one.
unfoldable free_entries : ℕ → List TlbStore → Option (List TlbStore)
free_entries zero es = some es
free_entries (suc n) [] = none
free_entries (suc n) (e ∷ es) = free_entries n es

-- What is left of the cache. The rest of the memory is given back.
unfoldable clean_my_vm : Vm → Option Tlb
unfolding free_entries
clean_my_vm vm =
    free_entries vm.tlb.size vm.tlb.entries >>= λ es. some (record { size = 0; entries = es })

free_entries-all : (n : ℕ) (es : List TlbStore) → n ≡ length es → free_entries n es ≡ some []
unfolding free_entries
free_entries-all zero [] e = refl
free_entries-all zero (x ∷ es) e = absurd (omega arith)
free_entries-all (suc n) [] e = absurd (omega arith)
free_entries-all (suc n) (x ∷ es) e = free_entries-all n es (omega arith)

-- Every entry of a valid cache is freed, and no other.
clean_my_vm_lem :
    (s : PagingScheme) (vm : Vm)
    → IsCache s vm.tlb
    → clean_my_vm vm ≡ some (record { size = 0; entries = [] })
unfolding clean_my_vm
clean_my_vm_lem s vm c = rw (free_entries-all vm.tlb.size vm.tlb.entries c.counted) refl
