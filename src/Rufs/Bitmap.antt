-- ===== src/Rufs/Bitmap.antt =====
-- p4/code/rufs.h: the bitmaps of inodes and data blocks, arrays of bytes whose bits are numbered
-- from the least significant bit of byte 0. p4/code/rufs.c: the loop that `get_avail_ino` and
-- `get_avail_blkno` share, and what they do with the bitmap when they have read it.
pub mod Laws
pub mod Alloc
use cs416_os.Prelude.{
  ℕ, zero, suc, ◌+◌, ◌/◌, ◌%◌, Bool, if◌then◌else◌, List, Option, none, some, get_or, set,
}
use cs416_os.Prelude.Bytes.{test_bit, raise_bit, clear_bit}

abbrev pub max_inum : ℕ
max_inum = 1024

abbrev pub max_dnum : ℕ
max_dnum = 16384

-- `i & 7` is `i % 8`.
unfoldable pub set_bitmap : List ℕ → ℕ → List ℕ
set_bitmap b i = set b (i / 8) (raise_bit (get_or b (i / 8) 0) (i % 8))

unfoldable pub unset_bitmap : List ℕ → ℕ → List ℕ
unset_bitmap b i = set b (i / 8) (clear_bit (get_or b (i / 8) 0) (i % 8))

unfoldable pub get_bitmap : List ℕ → ℕ → Bool
get_bitmap b i = test_bit (get_or b (i / 8) 0) (i % 8)

-- The loop over the bits, with `k` rounds left: the first bit that is not set, or -1.
unfoldable pub first_clear : List ℕ → ℕ → ℕ → Option ℕ
first_clear b zero i = none
first_clear b (suc k) i =
    let later = first_clear b k (i + 1) in if get_bitmap b i then later else some i

-- Steps 2 and 3 of `get_avail_ino` and `get_avail_blkno`: the number found, and the bitmap as it is
-- written back.
unfoldable pub get_avail : ℕ → List ℕ → Option ℕ × List ℕ
get_avail max b = elim (first_clear b max 0) [
  | none ↦ (none, b)
  | some i ↦ (some i, set_bitmap b i)
]

-- The loop of `rufs_mkfs` that takes the blocks before `n` for the metadata.
unfoldable pub set_below : List ℕ → ℕ → List ℕ
set_below b zero = b
set_below b (suc n) = set_bitmap (set_below b n) n
