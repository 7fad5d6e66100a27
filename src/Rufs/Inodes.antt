-- ===== src/Rufs/Inodes.antt =====
-- p4/code/rufs.c: the file system's globals, the allocation of inode and block numbers, and the inodes
-- on the disk. `none` is a call of `exit`, or a block that is read as what it is not.
pub mod Numbers
use cs416_os.Prelude.{
  ℕ, ◌+◌, ◌-◌, ◌*◌, ◌/◌, ◌%◌, ◌^◌, Bool, Option, none, some, List, ◌++◌, get_or, set, take, drop,
  ◌>>=◌, ◌>>◌, assert,
}
use cs416_os.Rufs.Layout.{Superblock, Inode, zero_inode, sizeof_inode, inodes_in_block, block_size}
use cs416_os.Rufs.Bitmap.{get_avail, max_inum, max_dnum}
use cs416_os.Rufs.Disk.{
  Disk, Block, bytes, inodes, bio_read, bio_write, as_bytes, as_inodes, no_block,
}

pub record Fs : Type 0 where
  pub disk : Disk
  pub superblock : Superblock
  pub inode_bitmap : List ℕ
  pub data_block_bitmap : List ℕ
  pub root_dir_ino : ℕ

abbrev pub inode_bitmap_bytes : ℕ
inode_bitmap_bytes = max_inum / 8

abbrev pub data_block_bitmap_bytes : ℕ
data_block_bitmap_bytes = max_dnum / 8

-- A write whose result the code ignores.
abbrev pub write_block : ℕ → Block → Fs → Fs
write_block n b fs = record fs { disk = (bio_write fs.disk n b).1 }

-- Step 3 of the two searches: the bitmap is written back if a number was taken. `rest` is the buffer
-- behind the bitmap.
unfoldable pub write_back :
    Disk → ℕ → List ℕ → Option ℕ × List ℕ → Option (Option ℕ × List ℕ × Disk)
write_back d blk rest (none, b) = some (none, b, d)
write_back d blk rest (some i, b) =
    let w = bio_write d blk (bytes (b ++ rest)) in (assert w.0 >> some (some i, b, w.1))

-- The bitmap in block `blk` is read; the number taken, the new bitmap, and the disk.
unfoldable pub take_number : Disk → ℕ → ℕ → ℕ → Option (Option ℕ × List ℕ × Disk)
unfolding write_back
take_number d blk max size = do
  let r : Bool × Block = bio_read d blk
  assert r.0
  buf ← as_bytes r.1
  write_back d blk (drop size buf) (get_avail max (take size buf))

unfoldable pub get_avail_ino : Fs → Option (Option ℕ × Fs)
unfolding take_number
get_avail_ino fs =
    take_number fs.disk fs.superblock.i_bitmap_blk max_inum inode_bitmap_bytes >>= λ r.
    some (r.0, record fs { inode_bitmap = r.1; disk = r.2 })

unfoldable pub get_avail_blkno : Fs → Option (Option ℕ × Fs)
unfolding take_number
get_avail_blkno fs =
    take_number fs.disk fs.superblock.d_bitmap_blk max_dnum data_block_bitmap_bytes >>= λ r.
    some (r.0, record fs { data_block_bitmap = r.1; disk = r.2 })

-- The result of `get_avail_blkno` as an `int`, and that of `get_avail_ino` as a `uint16_t`.
abbrev pub block_number : Option ℕ → ℕ
block_number none = no_block
block_number (some n) = n

abbrev pub inode_number : Option ℕ → ℕ
inode_number none = 2 ^ 16 - 1
inode_number (some n) = n

abbrev pub inode_block : Superblock → ℕ → ℕ
inode_block s ino = ino * sizeof_inode / block_size + s.i_start_blk

unfoldable pub readi : Fs → ℕ → Option Inode
readi fs ino = do
  buf ← as_inodes (bio_read fs.disk (inode_block fs.superblock ino)).1
  some (get_or buf (ino % inodes_in_block) zero_inode)

unfoldable pub writei : ℕ → Inode → Fs → Option Fs
writei ino i fs = do
  buf ← as_inodes (bio_read fs.disk (inode_block fs.superblock ino)).1
  some (write_block (inode_block fs.superblock ino) (inodes (set buf (ino % inodes_in_block) i)) fs)
