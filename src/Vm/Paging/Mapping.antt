-- ===== src/Vm/Paging/Mapping.antt =====
-- p3/code/my_vm.c: what `page_map` does.
use cs416_os.Prelude.{
  ℕ, ◌+◌, ◌-◌, ◌*◌, ◌/◌, ◌%◌, ◌^◌, ◌<◌, ◌≤◌, ◌≡◌, ◌≢◌, ◌==◌, refl, true, false, Bool, Bool-cases,
  inl, inr, ◌⊎◌, some, arith, length, leb, ltb, ◌&&◌, if◌then◌else◌, ◌∙◌, ap,
}
use cs416_os.Prelude.BitArray.{IsBytes}
use cs416_os.Vm.Address.{is_valid_va, page_of}
use cs416_os.Vm.Bitmap.{bit_set_at, set_bit_at}
use cs416_os.Vm.Bitmap.Laws.{bit_set_at-set_bit_at}
use cs416_os.Vm.Machine.{Vm, load_word, store_word}
use cs416_os.Vm.Tlb.{translate, pte_address, is_mapped, fetch_pte_from}
use cs416_os.Vm.Tlb.Entries.{IsCache}
use cs416_os.Vm.Tlb.Transparent.{IsCoherent, LooksUp, check_tlb-LooksUp}
use cs416_os.Vm.Paging.{page_map}

store_word-byte :
    (memory : ℕ → ℕ) (a v k : ℕ) → k < 4 → store_word memory a v (a + k) ≡ v / 256 ^ k % 256
unfolding store_word
store_word-byte memory a v k h =
    let e : a + k - a ≡ k = omega arith in
    let inside : (leb a (a + k) && ltb (a + k) (a + 4)) ≡ true = ground arith in rw (inside, e) refl

store_word-first : (memory : ℕ → ℕ) (a v : ℕ) → store_word memory a v a ≡ v % 256
unfolding store_word
store_word-first memory a v =
    let e : a - a ≡ 0 = omega arith in
    let inside : (leb a a && ltb a (a + 4)) ≡ true = ground arith in rw (inside, e) (omega arith)

-- A word of 32 bits is read back as it was written.
pub load_word-store_word :
    (memory : ℕ → ℕ) (a v : ℕ) → v < 2 ^ 32 → load_word (store_word memory a v) a ≡ v
unfolding load_word
load_word-store_word memory a v h = omega (
  arith,
  store_word-first memory a v,
  store_word-byte memory a v 1 (omega arith),
  store_word-byte memory a v 2 (omega arith),
  store_word-byte memory a v 3 (omega arith),
)

pub store_word-outside :
    (memory : ℕ → ℕ) (a v b : ℕ) → (b < a) ⊎ (a + 4 ≤ b) → store_word memory a v b ≡ memory b
unfolding store_word
store_word-outside memory a v b h = ground arith

abbrev marked : Vm → ℕ → Vm
marked vm va = record vm { virtual_bitmap = set_bit_at vm.virtual_bitmap (page_of vm.scheme va) }

-- A page can be mapped at `va`: it is a valid address, of a page not in use.
abbrev pub IsFree : Vm → ℕ → Type 0
IsFree vm va =
    (is_valid_va vm.scheme va ≡ true)
    × (bit_set_at vm.virtual_bitmap (page_of vm.scheme va) ≡ false)

-- What mapping the page of `va` to the frame at `pa` does.
pub record MapsPage (vm : Vm) (va pa : ℕ) : Type 0 where
  pub after : Vm
  pub runs : page_map va pa vm ≡ some (true, after)
  pub in_use :
      (q : ℕ)
      → bit_set_at after.virtual_bitmap q
        ≡ (if page_of vm.scheme va == q then true else bit_set_at vm.virtual_bitmap q)
  pub entry : load_word after.memory (pte_address vm va) ≡ pa
  pub others :
      (b : ℕ) → (b < pte_address vm va) ⊎ (pte_address vm va + 4 ≤ b) → after.memory b ≡ vm.memory b
  pub frames : after.frame_bitmap ≡ vm.frame_bitmap
  pub cache : IsCache after.scheme after.tlb

marked-IsCoherent : (vm : Vm) (va : ℕ) → IsCoherent vm → IsCoherent (marked vm va)
unfolding pte_address
marked-IsCoherent vm va h = h

marked-pte_address : (vm : Vm) (va : ℕ) → pte_address (marked vm va) va ≡ pte_address vm va
unfolding pte_address
marked-pte_address vm va = refl

if-same : (p : ℕ) (b : Bool) → (if p == p then true else b) ≡ true
if-same p b = ground arith

marked-fetch :
    (vm : Vm) (va : ℕ)
    → is_valid_va vm.scheme va ≡ true
    → bit_set_at (set_bit_at vm.virtual_bitmap (page_of vm.scheme va)) (page_of vm.scheme va) ≡ true
    → fetch_pte_from (marked vm va) va ≡ pte_address vm va
unfolding fetch_pte_from is_mapped
marked-fetch vm va h b = rw (h, b) (marked-pte_address vm va)

page_map-free :
    (vm : Vm) (va pa a : ℕ) (vm₁ : Vm)
    → IsFree vm va
    → translate (marked vm va) va ≡ some (a, vm₁)
    → a ≢ 0
    → page_map va pa vm ≡ some (true, record vm₁ { memory = store_word vm₁.memory a pa })
unfolding page_map
page_map-free vm va pa a vm₁ free e ne =
    let n : (a == 0) ≡ false = ground arith in rw (free.0, free.1, e, n) refl

page_map-refuses :
    (vm : Vm) (va pa : ℕ)
    → (is_valid_va vm.scheme va ≡ false)
      ⊎ (bit_set_at vm.virtual_bitmap (page_of vm.scheme va) ≡ true)
    → page_map va pa vm ≡ some (false, vm)
unfolding page_map
page_map-refuses vm va pa (inl h) = rw h refl
page_map-refuses vm va pa (inr h) = ground (arith, h)

translate-check :
    (vm : Vm) (va : ℕ) (l : LooksUp vm va) → translate vm va ≡ some (fetch_pte_from vm va, l.after)
unfolding translate
translate-check vm va l = l.runs

page_map_maps :
    (vm : Vm) (va pa : ℕ)
    → IsCache vm.scheme vm.tlb
    → IsCoherent vm
    → IsBytes vm.virtual_bitmap
    → page_of vm.scheme va < 8 * length vm.virtual_bitmap
    → pte_address vm va ≢ 0
    → pa < 2 ^ 32
    → IsFree vm va
    → MapsPage vm va pa
page_map_maps vm va pa c h bytes inside ne word free =
    let p = page_of vm.scheme va in
    let l = check_tlb-LooksUp (marked vm va) va c (marked-IsCoherent vm va h) in
    let laws = bit_set_at-set_bit_at vm.virtual_bitmap bytes p inside in
    let fetched = marked-fetch vm va free.0 (laws p ∙ if-same p _) in
    let a = pte_address vm va in
    record {
      after = record l.after { memory = store_word l.after.memory a pa };
      runs =
          page_map-free vm va pa a l.after free
            (translate-check (marked vm va) va l ∙ ap (λ x. some (x, l.after)) fetched) ne;
      in_use = λ q. ap (λ b. bit_set_at b q) l.same.pages_eq ∙ laws q;
      entry = load_word-store_word l.after.memory a pa word;
      others = λ b o. store_word-outside l.after.memory a pa b o ∙ ap (λ m. m b) l.same.memory_eq;
      frames = l.same.frames_eq;
      cache = rw l.same.scheme_eq l.cache;
    }

-- The two outcomes of `page_map`.
pub data Mapped (vm : Vm) (va pa : ℕ) : Type 0 where
  refused :
      (is_valid_va vm.scheme va ≡ false)
        ⊎ (bit_set_at vm.virtual_bitmap (page_of vm.scheme va) ≡ true)
      → page_map va pa vm ≡ some (false, vm)
      → Mapped vm va pa
  mapped : IsFree vm va → MapsPage vm va pa → Mapped vm va pa

-- With a cache that is counted, within its size, without two entries for one page and coherent with
-- the page table, a bitmap of bytes that covers the page, a page table entry that is not NULL and a
-- frame address of 32 bits, mapping a page refuses an invalid address and one of a page in use and
-- changes nothing; otherwise it marks that page in use and no other, the page table entry holds the
-- frame's address, the rest of the memory and the frames in use stay, and the cache is still
-- counted, within its size and without two entries for one page.
pub page_map_lem :
    (vm : Vm) (va pa : ℕ)
    → IsCache vm.scheme vm.tlb
    → IsCoherent vm
    → IsBytes vm.virtual_bitmap
    → page_of vm.scheme va < 8 * length vm.virtual_bitmap
    → pte_address vm va ≢ 0
    → pa < 2 ^ 32
    → Mapped vm va pa
page_map_lem vm va pa c h bytes inside ne word = elim (Bool-cases (is_valid_va vm.scheme va)) [
  | inr invalid ↦ refused (inl invalid) (page_map-refuses vm va pa (inl invalid))
  | inl valid ↦ elim (Bool-cases (bit_set_at vm.virtual_bitmap (page_of vm.scheme va))) [
    | inl used ↦ refused (inr used) (page_map-refuses vm va pa (inr used))
    | inr unused ↦
        mapped (valid, unused) (page_map_maps vm va pa c h bytes inside ne word (valid, unused))
  ]
]
