-- ===== src/Rufs/Disk.antt =====
-- p4/code/block.c: the disk file as blocks of 4096 bytes. The code fills each block with data of one
-- kind and reads it as that kind; reading a block as another kind, whose bytes would be taken for what
-- they are not, is `none`. `pread` and `pwrite` fail at the blocks that `broken` tells, and at a
-- negative block number.
pub mod Laws
use cs416_os.Prelude.{
  ℕ, ◌-◌, ◌^◌, Bool, true, false, ◌==◌, ◌||◌, if◌then◌else◌, Option, none, some, List, leb,
  replicate,
}
use cs416_os.Rufs.Layout.{
  Superblock, Inode, Dirent, zero_inode, zero_dirent, inodes_in_block, dirents_in_block, block_size,
}

pub data Block : Type 0 where
  zeros : Block
  super : Superblock → Block
  bytes : List ℕ → Block
  inodes : List Inode → Block
  dirents : List Dirent → Block

pub record Disk : Type 0 where
  pub content : ℕ → Block
  pub broken : ℕ → Bool

-- -1 as a block number
abbrev pub no_block : ℕ
no_block = 2 ^ 32 - 1

unfoldable pub fails : Disk → ℕ → Bool
fails d n = leb (2 ^ 31) n || d.broken n

-- What `bio_read` leaves in the buffer; its result tells whether the read succeeded.
unfoldable pub bio_read : Disk → ℕ → Bool × Block
unfolding fails
bio_read d n = if fails d n then (false, zeros) else (true, d.content n)

unfoldable pub bio_write : Disk → ℕ → Block → Bool × Disk
unfolding fails
bio_write d n b =
    if fails d n
    then (false, d)
    else (true, record d { content = λ k. if n == k then b else d.content k })

-- A buffer of zeros, as bytes.
unfoldable pub zero_bytes : ℕ → List ℕ
zero_bytes n = replicate n 0

-- The buffer as each kind of data.
unfoldable pub as_bytes : Block → Option (List ℕ)
unfolding zero_bytes
as_bytes zeros = some (zero_bytes block_size)
as_bytes (bytes l) = some l
as_bytes b = none

unfoldable pub as_inodes : Block → Option (List Inode)
as_inodes zeros = some (replicate inodes_in_block zero_inode)
as_inodes (inodes l) = some l
as_inodes b = none

unfoldable pub as_dirents : Block → Option (List Dirent)
as_dirents zeros = some (replicate dirents_in_block zero_dirent)
as_dirents (dirents l) = some l
as_dirents b = none

unfoldable pub as_superblock : Block → Option Superblock
as_superblock zeros = some (record {
  magic = 0;
  max_inum = 0;
  max_dnum = 0;
  i_bitmap_blk = 0;
  d_bitmap_blk = 0;
  i_start_blk = 0;
  d_start_blk = 0;
})
as_superblock (super s) = some s
as_superblock b = none
