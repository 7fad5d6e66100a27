-- ===== src/Rufs/Files/Ready.antt =====
-- p4/code/rufs.c: a file's pointers on a formatted disk.
use cs416_os.Prelude.{ℕ, ◌<◌, ◌≤◌, ◌≡◌, ◌≢◌, true, false, some, List, length, get_or}
use cs416_os.Rufs.Layout.{direct_ptrs, block_size}
use cs416_os.Rufs.Bitmap.{max_dnum}
use cs416_os.Rufs.Disk.{Block, as_bytes}
use cs416_os.Rufs.Inodes.{Fs}
use cs416_os.Rufs.Inodes.Numbers.{is_taken}
use cs416_os.Rufs.Format.{WellFormed}
use cs416_os.Rufs.Directory.{is_valid}

-- A whole block of a file's bytes.
pub record IsByteBlock (b : Block) : Type 0 where
  pub buf : List ℕ
  pub reads : as_bytes b ≡ some buf
  pub size : length buf ≡ block_size

pub record HasBytes (fs : Fs) (p : ℕ) : Type 0 where
  pub data_block : 67 ≤ p
  pub number : p < max_dnum
  pub taken : is_taken (fs.disk.content 2) p ≡ true
  pub block : IsByteBlock (fs.disk.content p)

-- The disk is formatted, the file's pointers that are set are to different data blocks that are taken
-- and hold bytes, and a free block can be read as bytes.
pub record IsReady (fs : Fs) (ptrs : List ℕ) : Type 0 where
  pub formatted : WellFormed fs
  pub size : length ptrs ≡ direct_ptrs
  pub blocks : (i : ℕ) → is_valid (get_or ptrs i 0) ≡ true → HasBytes fs (get_or ptrs i 0)
  pub distinct :
      (i j : ℕ)
      → i ≢ j
      → is_valid (get_or ptrs i 0) ≡ true
      → is_valid (get_or ptrs j 0) ≡ true
      → get_or ptrs i 0 ≢ get_or ptrs j 0
  pub blank :
      (q : ℕ)
      → 67 ≤ q
      → q < max_dnum
      → is_taken (fs.disk.content 2) q ≡ false
      → IsByteBlock (fs.disk.content q)
