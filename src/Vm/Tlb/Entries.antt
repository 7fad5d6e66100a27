-- ===== src/Vm/Tlb/Entries.antt =====
-- p3/code/my_vm.c: the cache's list of entries.
use cs416_os.Prelude.{
  ℕ, ◌+◌, ◌-◌, ◌≤◌, ◌==◌, ◌≡◌, refl, sym, true, false, none, some, List, [], ◌∷◌, arith, length,
  All, inl, inr, Bool-cases, >>=-eq-some, Option-cases,
}
use mathlib.Core.Path.{subst}
use cs416_os.Vm.Scheme.{PagingScheme}
use cs416_os.Vm.Address.{equivalent_virtual_address}
use cs416_os.Vm.Machine.{Tlb, TlbStore}
use cs416_os.Vm.Tlb.{
  tlb_entries, remove_entry, search_and_remove, drop_last, evict_lru_cached_entry, add_tlb,
}

module _ (s : PagingScheme) where
  -- No entry of the list is for the page of `va`.
  abbrev pub Uncached : List TlbStore → ℕ → Type 0
  Uncached es va = All (λ e. equivalent_virtual_address s e.virtual_address va ≡ false) es

  -- No two entries are for one page.
  abbrev pub IsDistinct : List TlbStore → Type 0
  IsDistinct [] = Unit
  IsDistinct (e ∷ es) = Uncached es e.virtual_address × IsDistinct es

  -- What `remove_entry` finds: nothing, or the entry of the page and what is left.
  pub record Found (es : List TlbStore) (va : ℕ) (e : TlbStore) (rest : List TlbStore)
      : Type 1 where
    pub same_page : equivalent_virtual_address s e.virtual_address va ≡ true
    pub length_eq : length es ≡ length rest + 1
    pub keeps : (P : TlbStore → Type 0) → All P es → P e × All P rest
    pub distinct : IsDistinct es → Uncached rest e.virtual_address × IsDistinct rest

  remove_entry-none : (es : List TlbStore) (va : ℕ) → remove_entry s es va ≡ none → Uncached es va
  unfolding remove_entry
  remove_entry-none [] va h = tt
  remove_entry-none (e ∷ es) va h =
      elim (Bool-cases (equivalent_virtual_address s e.virtual_address va)) [
        | inl y ↦ absurd (ground arith)
        | inr n ↦ (n, remove_entry-none es va (ground arith))
      ]

  equivalent_symm :
      (a b : ℕ)
      → equivalent_virtual_address s a b ≡ false
      → equivalent_virtual_address s b a ≡ false
  unfolding equivalent_virtual_address
  equivalent_symm a b h = ground arith

  Found-here :
      (e : TlbStore) (es : List TlbStore) (va : ℕ)
      → equivalent_virtual_address s e.virtual_address va ≡ true
      → Found (e ∷ es) va e es
  Found-here e es va y = record {
    same_page = y;
    length_eq = omega arith;
    keeps = λ P a. a;
    distinct = λ d. d;
  }

  Found-later :
      (f : TlbStore) (es : List TlbStore) (va : ℕ) (e : TlbStore) (rest : List TlbStore)
      → equivalent_virtual_address s f.virtual_address va ≡ false
      → Found es va e rest
      → Found (f ∷ es) va e (f ∷ rest)
  Found-later f es va e rest n k = record {
    same_page = k.same_page;
    length_eq = omega (arith, k.length_eq);
    keeps = λ P a. let b = k.keeps P a.1 in (b.0, (a.0, b.1));
    distinct = λ d.
        let b =
          k.keeps (λ g. equivalent_virtual_address s g.virtual_address f.virtual_address ≡ false)
            d.0 in
        let c = k.distinct d.1 in
        ((equivalent_symm e.virtual_address f.virtual_address b.0, c.0), (b.1, c.1));
  }

  remove_entry-Found :
      (es : List TlbStore) (va : ℕ) (e : TlbStore) (rest : List TlbStore)
      → remove_entry s es va ≡ some (e, rest)
      → Found es va e rest
  unfolding remove_entry
  remove_entry-Found [] va e rest h = absurd (cc)
  remove_entry-Found (f ∷ es) va e rest h =
      elim (Bool-cases (equivalent_virtual_address s f.virtual_address va)) [
        | inl y ↦
            let p : f ≡ e = ground arith in
            let q : es ≡ rest = ground arith in rw (← p, ← q) (Found-here f es va y)
        | inr n ↦
            let (r, e₁, e₂) =
              >>=-eq-some (remove_entry s es va) (λ r. some (r.0, f ∷ r.1))
                (rw (n, remove_entry) at h) in
            let p : r.0 ≡ e = ground arith in
            let q : f ∷ r.1 ≡ rest = ground arith in
            rw (← p, ← q) (Found-later f es va r.0 r.1 n (remove_entry-Found es va r.0 r.1 e₁))
      ]

-- The cache counts its entries, holds at most 512, and no two of one page.
pub record IsCache (s : PagingScheme) (t : Tlb) : Type 0 where
  pub counted : t.size ≡ length t.entries
  pub bounded : t.size ≤ tlb_entries
  pub distinct : IsDistinct s t.entries

-- The two outcomes of a search in such a cache.
pub data Searched (s : PagingScheme) (t : Tlb) (va : ℕ) : Type 1 where
  absent : Uncached s t.entries va → search_and_remove s t va ≡ some (none, t) → Searched s t va
  present :
      (e : TlbStore) (rest : List TlbStore)
      → Found s t.entries va e rest
      → search_and_remove s t va ≡ some (some e, record { size = t.size - 1; entries = rest })
      → Searched s t va

pub search_and_remove-Searched :
    (s : PagingScheme) (t : Tlb) (va : ℕ) → t.size ≡ length t.entries → Searched s t va
unfolding search_and_remove
search_and_remove-Searched s t va c = go t.entries refl
  where
    go : (es : List TlbStore) → t.entries ≡ es → Searched s t va
    go [] e = absent (rw e tt) (ground arith)
    go (x ∷ es) e = elim (Option-cases (remove_entry s (x ∷ es) va)) [
      | inl n ↦
          absent (subst (λ l. Uncached s l va) (sym e) (remove_entry-none s (x ∷ es) va n))
            (ground arith)
      | inr ((f, rest), y) ↦
          present f rest
            (subst (λ l. Found s l va f rest) (sym e) (remove_entry-Found s (x ∷ es) va f rest y))
            (ground arith)
    ]

Uncached-drop_last :
    (s : PagingScheme) (es : List TlbStore) (va : ℕ)
    → Uncached s es va
    → Uncached s (drop_last es) va
unfolding drop_last
Uncached-drop_last s [] va u = tt
Uncached-drop_last s (e ∷ []) va u = tt
Uncached-drop_last s (e ∷ f ∷ es) va u = (u.0, Uncached-drop_last s (f ∷ es) va u.1)

drop_last-IsDistinct :
    (s : PagingScheme) (es : List TlbStore) → IsDistinct s es → IsDistinct s (drop_last es)
unfolding drop_last
drop_last-IsDistinct s [] d = tt
drop_last-IsDistinct s (e ∷ []) d = tt
drop_last-IsDistinct s (e ∷ f ∷ es) d =
    (Uncached-drop_last s (f ∷ es) e.virtual_address d.0, drop_last-IsDistinct s (f ∷ es) d.1)

length-drop_last : (es : List TlbStore) → length (drop_last es) ≡ length es - 1
unfolding drop_last
length-drop_last [] = refl
length-drop_last (e ∷ []) = refl
length-drop_last (e ∷ f ∷ es) = omega (arith, length-drop_last (f ∷ es))

drop_last-All : (P : TlbStore → Type 0) (es : List TlbStore) → All P es → All P (drop_last es)
unfolding drop_last
drop_last-All P [] a = tt
drop_last-All P (e ∷ []) a = tt
drop_last-All P (e ∷ f ∷ es) a = (a.0, drop_last-All P (f ∷ es) a.1)

full_size : (t : Tlb) → (t.size == tlb_entries) ≡ true → t.size ≡ 512
full_size t full = ground arith

-- `add_tlb` keeps a cache a cache, if the new page was not cached; all entries come from before.
pub add_tlb-IsCache :
    (s : PagingScheme) (t : Tlb) (va frame : ℕ)
    → IsCache s t
    → Uncached s t.entries va
    → IsCache s (add_tlb t va frame)
unfolding add_tlb evict_lru_cached_entry
add_tlb-IsCache s t va frame c u = elim (Bool-cases (t.size == tlb_entries)) [
  | inl full ↦
      let e : add_tlb t va frame ≡ record {
        size = t.size;
        entries = record { virtual_address = va; frame = frame } ∷ drop_last t.entries;
      } =
        ground arith in
      rw e (record {
        counted = omega (arith, length-drop_last t.entries, c.counted, full_size t full);
        bounded = c.bounded;
        distinct =
            (Uncached-drop_last s t.entries va u, drop_last-IsDistinct s t.entries c.distinct);
      })
  | inr room ↦
      let e : add_tlb t va frame ≡ record {
        size = t.size + 1;
        entries = record { virtual_address = va; frame = frame } ∷ t.entries;
      } =
        ground arith in
      rw e (record {
        counted = omega (arith, c.counted);
        bounded = ground (arith, c.bounded);
        distinct = (u, c.distinct);
      })
]

evict-All :
    (P : TlbStore → Type 0) (t : Tlb) → All P t.entries → All P (evict_lru_cached_entry t).entries
unfolding evict_lru_cached_entry
evict-All P t a = elim (Bool-cases (t.size == 0)) [
  | inl empty ↦ rw empty a
  | inr full ↦ elim (Bool-cases (t.size == 1)) [
    | inl one ↦ rw (full, one) tt
    | inr more ↦ rw (full, more) (drop_last-All P t.entries a)
  ]
]

pub add_tlb-All :
    (P : TlbStore → Type 0) (t : Tlb) (va frame : ℕ)
    → P (record { virtual_address = va; frame = frame })
    → All P t.entries
    → All P (add_tlb t va frame).entries
unfolding add_tlb
add_tlb-All P t va frame p a = elim (Bool-cases (t.size == tlb_entries)) [
  | inl full ↦ rw full (p, evict-All P t a)
  | inr room ↦ rw room (p, a)
]
