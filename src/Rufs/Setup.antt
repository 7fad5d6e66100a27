-- ===== src/Rufs/Setup.antt =====
-- p4/code/rufs.c: `rufs_mkfs` and `rufs_init`. `now` is the time.
pub mod First
pub mod Written
pub mod Format
pub mod Root
use cs416_os.Prelude.{
  ℕ, zero, suc, ◌+◌, ◌-◌, ◌/◌, Bool, if◌then◌else◌, Option, some, List, [], ◌∷◌, ◌++◌, replicate,
  ◌>>=◌,
}
use cs416_os.Rufs.Layout.{
  Superblock, Inode, zero_inode, magic_num, valid_mark, invalid_mark, directory_type, direct_ptrs,
  block_size, sizeof_inode,
}
use cs416_os.Rufs.Bitmap.{max_inum, max_dnum, set_below}
use cs416_os.Rufs.Disk.{Disk, bio_read, super, bytes, as_superblock, zero_bytes}
use cs416_os.Rufs.Inodes.{
  Fs, write_block, get_avail_ino, inode_number, readi, writei, inode_bitmap_bytes,
  data_block_bitmap_bytes,
}
use cs416_os.Rufs.Directory.{dir_add}

abbrev pub num_inode_blks : ℕ
num_inode_blks = max_inum / (block_size / sizeof_inode)

-- `S_IFDIR | 0755`
abbrev pub directory_mode : ℕ
directory_mode = 0x41ED

-- "." and ".."
abbrev pub dot : List ℕ
dot = 46 ∷ []

abbrev pub dot_dot : List ℕ
dot_dot = 46 ∷ 46 ∷ []

abbrev pub new_superblock : Superblock
new_superblock = record {
  magic = magic_num;
  max_inum = max_inum;
  max_dnum = max_dnum;
  i_bitmap_blk = 1;
  d_bitmap_blk = 2;
  i_start_blk = 3;
  d_start_blk = 3 + num_inode_blks;
}

-- The loop that writes an invalid inode under each number from `i` on, `k` of them.
unfoldable pub write_inodes : ℕ → ℕ → Fs → Option Fs
write_inodes zero i fs = some fs
write_inodes (suc k) i fs =
    writei i (record zero_inode { ino = i; valid = invalid_mark }) fs >>= write_inodes k (i + 1)

abbrev pub root_dir : ℕ → ℕ → Inode → Inode
root_dir root_dir_ino now i = record i {
  ino = root_dir_ino;
  valid = valid_mark;
  type = directory_type;
  link = 2;
  direct_ptr = replicate direct_ptrs invalid_mark;
  vstat = record i.vstat { st_mode = directory_mode; st_atime = now; st_mtime = now };
}

-- The bitmaps are written to their blocks, behind them zeros.
unfoldable pub write_bitmaps : Fs → Fs
unfolding zero_bytes
write_bitmaps fs =
    write_block new_superblock.d_bitmap_blk
      (bytes (fs.data_block_bitmap ++ zero_bytes (block_size - data_block_bitmap_bytes)))
      (write_block new_superblock.i_bitmap_blk
        (bytes (fs.inode_bitmap ++ zero_bytes (block_size - inode_bitmap_bytes))) fs)

-- The superblock, the inodes and the bitmaps, on the disk file that `dev_init` has made.
unfoldable pub format : Disk → Option Fs
unfolding write_inodes write_bitmaps zero_bytes
format d = do
  let fs : Fs = record {
    disk = d;
    superblock = new_superblock;
    inode_bitmap = zero_bytes inode_bitmap_bytes;
    data_block_bitmap = set_below (zero_bytes data_block_bitmap_bytes) new_superblock.d_start_blk;
    root_dir_ino = 0;
  }
  fs₁ ← write_inodes (max_inum - 1) 1 (write_block 0 (super new_superblock) fs)
  some (write_bitmaps fs₁)

-- The root directory, with its two entries.
unfoldable pub make_root : ℕ → Fs → Option Fs
make_root now fs = do
  (taken, fs₁) ← get_avail_ino fs
  let n = inode_number taken
  i ← readi fs₁ n
  fs₂ ← writei n (root_dir n now i) fs₁
  let fs₃ : Fs = record fs₂ { root_dir_ino = n }
  (r₁, fs₄) ← dir_add (root_dir n now i) n dot fs₃
  j ← readi fs₄ n
  (r₂, fs₅) ← dir_add j n dot_dot fs₄
  some fs₅

unfoldable pub rufs_mkfs : ℕ → Disk → Option Fs
unfolding format make_root
rufs_mkfs now d = format d >>= make_root now

-- `found` tells whether `dev_open` found the disk file.
unfoldable pub rufs_init : ℕ → Bool → Disk → Option Fs
unfolding rufs_mkfs zero_bytes
rufs_init now found d =
    if found
    then (as_superblock (bio_read d 0).1 >>= λ s. some (record {
      disk = d;
      superblock = s;
      inode_bitmap = zero_bytes inode_bitmap_bytes;
      data_block_bitmap = zero_bytes data_block_bitmap_bytes;
      root_dir_ino = 0;
    }))
    else rufs_mkfs now d
