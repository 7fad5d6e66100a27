-- ===== src/Rufs/Bitmap/Laws.antt =====
-- p4/code/rufs.h: what the bitmap operations do to each bit.
use cs416_os.Prelude.{
  ℕ, zero, suc, ◌+◌, ◌*◌, ◌/◌, ◌%◌, ◌<◌, ◌==◌, ◌≡◌, true, false, List, arith, length, if◌then◌else◌,
  ◌&&◌, ◌∙◌, ap, refl, length-set, ltb, ◌||◌,
}
use cs416_os.Prelude.BitArray.{IsBytes, test-raise, test-clear, raise-IsBytes}
use cs416_os.Rufs.Bitmap.{get_bitmap, set_bitmap, unset_bitmap, set_below}

same_bit : (i j : ℕ) → (i / 8 == j / 8 && i % 8 == j % 8) ≡ (i == j)
same_bit i j = ground arith

module _ (b : List ℕ) (bytes : IsBytes b) (i : ℕ) (inside : i < 8 * length b) where
  -- On a bitmap of bytes that has the position, setting a bit sets that bit and no other.
  pub get_bitmap-set_bitmap :
      (j : ℕ) → get_bitmap (set_bitmap b i) j ≡ (if i == j then true else get_bitmap b j)
  unfolding get_bitmap set_bitmap
  get_bitmap-set_bitmap j =
      test-raise b bytes (i / 8) (i % 8) (omega arith) (omega arith) (j / 8) (j % 8) (omega arith)
      ∙ ap (λ t. if t then true else get_bitmap b j) (same_bit i j)

  -- On a bitmap of bytes that has the position, clearing a bit clears that bit and no other.
  pub get_bitmap-unset_bitmap :
      (j : ℕ) → get_bitmap (unset_bitmap b i) j ≡ (if i == j then false else get_bitmap b j)
  unfolding get_bitmap unset_bitmap
  get_bitmap-unset_bitmap j =
      test-clear b bytes (i / 8) (i % 8) (omega arith) (omega arith) (j / 8) (j % 8) (omega arith)
      ∙ ap (λ t. if t then false else get_bitmap b j) (same_bit i j)

  pub set_bitmap-IsBytes : IsBytes (set_bitmap b i)
  unfolding set_bitmap
  set_bitmap-IsBytes = raise-IsBytes b bytes (i / 8) (i % 8) (omega arith) (omega arith)

pub length-set_bitmap : (b : List ℕ) (i : ℕ) → length (set_bitmap b i) ≡ length b
unfolding set_bitmap
length-set_bitmap b i = length-set b (i / 8) _

pub length-set_below : (b : List ℕ) (n : ℕ) → length (set_below b n) ≡ length b
unfolding set_below
length-set_below b zero = refl
length-set_below b (suc n) = length-set_bitmap (set_below b n) n ∙ length-set_below b n

pub set_below-IsBytes :
    (b : List ℕ) (n : ℕ) → IsBytes b → n < 8 * length b + 1 → IsBytes (set_below b n)
unfolding set_below
set_below-IsBytes b zero bytes h = bytes
set_below-IsBytes b (suc n) bytes h =
    set_bitmap-IsBytes (set_below b n) (set_below-IsBytes b n bytes (omega arith)) n
      (omega (arith, length-set_below b n))

-- On a bitmap of bytes with at least n bits, the loop over the metadata blocks sets the bits below
-- n and leaves the others as they were.
pub get_bitmap-set_below :
    (b : List ℕ) (n j : ℕ)
    → IsBytes b
    → n < 8 * length b + 1
    → get_bitmap (set_below b n) j ≡ (ltb j n || get_bitmap b j)
unfolding set_below
get_bitmap-set_below b zero j bytes h = ground arith
get_bitmap-set_below b (suc n) j bytes h = ground (
  arith,
  get_bitmap-set_bitmap (set_below b n) (set_below-IsBytes b n bytes (omega arith)) n
      (omega (arith, length-set_below b n)) j,
  get_bitmap-set_below b n j bytes (omega arith),
)
