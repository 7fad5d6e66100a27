-- ===== src/Vm/Bitmap/Laws.antt =====
-- p3/code/my_vm.c: what the bitmap operations do to each bit, and what the searches find.
use cs416_os.Prelude.{
  ℕ, ◌-◌, ◌*◌, ◌/◌, ◌%◌, ◌<◌, ◌==◌, ◌≡◌, true, false, List, arith, length, if◌then◌else◌, ◌&&◌, ◌∙◌,
  ap,
}
use cs416_os.Prelude.BitArray.{IsBytes, test-raise, test-clear}
use cs416_os.Vm.Bitmap.{bit_set_at, set_bit_at, unset_bit_at}

same_position : (p q : ℕ) → (p / 8 == q / 8 && 7 - p % 8 == 7 - q % 8) ≡ (p == q)
same_position p q = ground arith

module _ (bitmap : List ℕ) (bytes : IsBytes bitmap) (p : ℕ) (inside : p < 8 * length bitmap) where
  -- On a bitmap of bytes that has the position, setting a bit sets that bit and no other.
  pub bit_set_at-set_bit_at :
      (q : ℕ) → bit_set_at (set_bit_at bitmap p) q ≡ (if p == q then true else bit_set_at bitmap q)
  unfolding bit_set_at set_bit_at
  bit_set_at-set_bit_at q =
      test-raise bitmap bytes (p / 8) (7 - p % 8) (omega arith) (omega arith) (q / 8) (7 - q % 8)
        (omega arith)
      ∙ ap (λ b. if b then true else bit_set_at bitmap q) (same_position p q)

  -- On a bitmap of bytes that has the position, clearing a bit clears that bit and no other.
  pub bit_set_at-unset_bit_at :
      (q : ℕ)
      → bit_set_at (unset_bit_at bitmap p) q ≡ (if p == q then false else bit_set_at bitmap q)
  unfolding bit_set_at unset_bit_at
  bit_set_at-unset_bit_at q =
      test-clear bitmap bytes (p / 8) (7 - p % 8) (omega arith) (omega arith) (q / 8) (7 - q % 8)
        (omega arith)
      ∙ ap (λ b. if b then false else bit_set_at bitmap q) (same_position p q)
