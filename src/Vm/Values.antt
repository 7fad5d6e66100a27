-- ===== src/Vm/Values.antt =====
-- p3/code/my_vm.c: `put_value` and `get_value`, which copy bytes into and out of linked pages. A size
-- is not negative. `none` is also the outcome of a walk that takes more pages than `fuel`.
use Prim.Native.Nat.{bit_or}
use cs416_os.Prelude.{
  ℕ, zero, suc, ◌+◌, ◌-◌, ◌==◌, leb, ltb, Bool, true, false, if◌then◌else◌, Option, none, some,
  List, [], ◌∷◌, ◌++◌, ◌>>=◌, length, take, drop,
}
use cs416_os.Vm.Scheme.{word_bytes}
use cs416_os.Vm.Address.{extract_from}
use cs416_os.Vm.Machine.{Vm, load_word}
use cs416_os.Vm.Tlb.{translate}
use cs416_os.Vm.Paging.{payload_bytes, pages_for}
use cs416_os.Vm.Release.{valid_pages_linked_together_from}

-- `memcpy` into and out of the memory.
unfoldable pub copy_in : (ℕ → ℕ) → ℕ → List ℕ → ℕ → ℕ
copy_in memory a [] = memory
copy_in memory a (c ∷ cs) = copy_in (λ b. if b == a then c else memory b) (a + 1) cs

unfoldable pub copy_out : (ℕ → ℕ) → ℕ → ℕ → List ℕ
copy_out memory a zero = []
copy_out memory a (suc n) = memory a ∷ copy_out memory (a + 1) n

-- The frame of the page of `start`, the next page's address, and the offset of `start` in its page.
abbrev pub locate : ℕ → Vm → Option (ℕ × ℕ × ℕ × Vm)
locate start vm = translate vm start >>= λ r.
    if r.0 == 0
    then none
    else (let pa = load_word r.1.memory r.0 in
        if pa == 0
        then none
        else some (pa, load_word r.1.memory pa, (extract_from vm.scheme start).byte_offset, r.1))

-- `val` is the list of the bytes that remain.
unfoldable pub put_value_aux : ℕ → ℕ → List ℕ → Vm → Option Vm
put_value_aux fuel start [] vm = some vm
put_value_aux zero start (v ∷ val) vm = none
put_value_aux (suc fuel) start (v ∷ val) vm = locate start vm >>= λ r.
    let (pa, link, offset, vm₁) = r in
    let room = payload_bytes - offset in
    let later = put_value_aux fuel (bit_or link (offset - payload_bytes)) (v ∷ val) vm₁ in
    let all = record vm₁ { memory = copy_in vm₁.memory (pa + word_bytes + offset) (v ∷ val) } in
    let part = record vm₁ {
      memory = copy_in vm₁.memory (pa + word_bytes + offset) (take room (v ∷ val));
    } in
    let rest = put_value_aux fuel link (drop room (v ∷ val)) part in
    if ltb payload_bytes offset
    then later
    else if leb (length (v ∷ val)) room
    then some all
    else rest

-- The result is 0 or -1. The size is that of `val`.
unfoldable pub put_value : ℕ → ℕ → List ℕ → Vm → Option (Bool × Vm)
put_value fuel va val vm =
    let offset = (extract_from vm.scheme va).byte_offset in
    valid_pages_linked_together_from va (pages_for (length val + offset)) vm >>= λ r.
    if r.0 then (put_value_aux fuel va val r.1 >>= λ vm₁. some (true, vm₁)) else some (false, r.1)

unfoldable pub get_value_aux : ℕ → ℕ → ℕ → Vm → Option (List ℕ × Vm)
get_value_aux fuel start zero vm = some ([], vm)
get_value_aux zero start (suc n) vm = none
get_value_aux (suc fuel) start (suc n) vm = locate start vm >>= λ r.
    let (pa, link, offset, vm₁) = r in
    let room = payload_bytes - offset in
    let later = get_value_aux fuel (bit_or link (offset - payload_bytes)) (suc n) vm₁ in
    let rest = get_value_aux fuel link (suc n - room) vm₁ in
    if ltb payload_bytes offset
    then later
    else if leb (suc n) room
    then some (copy_out vm₁.memory (pa + word_bytes + offset) (suc n), vm₁)
    else (rest >>= λ q. some (copy_out vm₁.memory (pa + word_bytes + offset) room ++ q.0, q.1))

-- The check of the pages is made and its result does not stop the copy.
unfoldable pub get_value : ℕ → ℕ → ℕ → Vm → Option (List ℕ × Vm)
get_value fuel va size vm =
    let offset = (extract_from vm.scheme va).byte_offset in
    valid_pages_linked_together_from va (pages_for (size + offset)) vm >>= λ r.
    get_value_aux fuel va size r.1
