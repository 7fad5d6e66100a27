-- ===== src/Vm/Setup/Directory.antt =====
-- p3/code/my_vm.c: what `init_page_tables` stores in the page directory.
use native.Mathlib.Decide.{ℕ_discrete}
use cs416_os.Prelude.{ℕ, zero, suc, ◌+◌, ◌*◌, ◌<◌, ◌≤◌, ◌≡◌, ◌∙◌, refl, arith, inl}
use cs416_os.Vm.Scheme.{word_bytes}
use cs416_os.Vm.Machine.{Vm, load_word, pointer_to_frame_at_position}
use cs416_os.Vm.Setup.{take_frame, init_directory}
use cs416_os.Vm.Paging.Mapping.{load_word-store_word, store_word-outside}

-- The entries before `pt` stay as they are.
init_directory-byte :
    (f k pt : ℕ) (vm : Vm) (b : ℕ)
    → b < vm.ptbr + word_bytes * pt
    → (init_directory f k pt vm).memory b ≡ vm.memory b
unfolding init_directory take_frame
init_directory-byte f zero pt vm b h = refl
init_directory-byte f (suc k) pt vm b h =
    init_directory-byte f k (pt + 1) _ b (omega arith)
    ∙ store_word-outside vm.memory (vm.ptbr + word_bytes * pt) _ b (inl h)

init_directory-word :
    (f k pt : ℕ) (vm : Vm) (q : ℕ)
    → q < pt
    → load_word (init_directory f k pt vm).memory (vm.ptbr + word_bytes * q)
      ≡ load_word vm.memory (vm.ptbr + word_bytes * q)
unfolding load_word
init_directory-word f k pt vm q h =
    let a = vm.ptbr + word_bytes * q in
    rw
      (
        init_directory-byte f k pt vm a (omega arith),
        init_directory-byte f k pt vm (a + 1) (omega arith),
        init_directory-byte f k pt vm (a + 2) (omega arith),
        init_directory-byte f k pt vm (a + 3) (omega arith),
      )
      refl

-- After the loop of init_page_tables over the page directory, every entry of the directory that it
-- went over holds the address of the one frame pgdir_frame, whichever frames were taken for the
-- page tables: all page tables are in the same frame.
pub init_directory_lem :
    (f k pt : ℕ) (vm : Vm) (q : ℕ)
    → pt ≤ q
    → q < pt + k
    → load_word (init_directory f k pt vm).memory (vm.ptbr + word_bytes * q)
      ≡ pointer_to_frame_at_position vm f
unfolding init_directory take_frame pointer_to_frame_at_position
init_directory_lem f zero pt vm q l u = absurd (omega arith)
init_directory_lem f (suc k) pt vm q l u = elim (ℕ_discrete pt q) [
  | no ne ↦ init_directory_lem f k (pt + 1) _ q (omega arith) (omega arith)
  | yes e ↦
      init_directory-word f k (pt + 1) _ q (omega arith)
      ∙ rw (← e) (load_word-store_word vm.memory (vm.ptbr + word_bytes * pt) _ (omega arith))
]
