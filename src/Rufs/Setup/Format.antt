-- ===== src/Rufs/Setup/Format.antt =====
-- p4/code/rufs.c: the first part of `rufs_mkfs`, the superblock, the inodes and the bitmaps, on a disk
-- file that `dev_init` has made, which is all zeros.
use mathlib.Core.Path.{subst}
use cs416_os.Prelude.{
  ℕ, ◌+◌, ◌-◌, ◌*◌, ◌<◌, ◌≤◌, ◌≡◌, refl, sym, ◌∙◌, ap, arith, false, some, List, length, ltb, ◌>>=◌,
}
use cs416_os.Rufs.Layout.{block_size}
use cs416_os.Rufs.Bitmap.{max_inum, max_dnum, set_below}
use cs416_os.Rufs.Bitmap.Laws.{get_bitmap-set_below, set_below-IsBytes, length-set_below}
use cs416_os.Rufs.Disk.{Disk, Block, zeros, super, zero_bytes}
use cs416_os.Rufs.Inodes.{Fs, inode_bitmap_bytes, data_block_bitmap_bytes}
use cs416_os.Rufs.Inodes.Numbers.{is_taken, IsBitmapBlock}
use cs416_os.Rufs.Setup.{new_superblock, write_inodes, write_bitmaps, format}
use cs416_os.Rufs.Format.{
  HasInodes, HasInodes-put, IsInodeBlock, WellFormed, put_block, content-put, write_block-working,
}
use cs416_os.Rufs.Setup.Written.{
  zeros-IsInodeBlock, WritesInodes, write_inodes_lem, padded-IsBitmapBlock, is_taken-padded,
  zero_bytes-IsBytes, length-zero_bytes, get_bitmap-zero_bytes, i_bits_block, d_bits_block,
  write_bitmaps-put,
}

-- A disk file as `dev_init` makes it, on which no read or write fails.
pub record IsBlank (d : Disk) : Type 0 where
  pub works : (n : ℕ) → n < max_dnum → d.broken n ≡ false
  pub blank : (n : ℕ) → d.content n ≡ zeros

abbrev unwritten : Disk → Fs
unwritten d = record {
  disk = d;
  superblock = new_superblock;
  inode_bitmap = zero_bytes inode_bitmap_bytes;
  data_block_bitmap = set_below (zero_bytes data_block_bitmap_bytes) new_superblock.d_start_blk;
  root_dir_ino = 0;
}

abbrev start : Disk → Fs
start d = put_block 0 (super new_superblock) (unwritten d)

-- What the first part does.
pub record FormatsDisk (d : Disk) : Type 0 where
  pub after : Fs
  pub runs : format d ≡ some after
  pub formatted : WellFormed after
  pub no_inode : (q : ℕ) → q < max_inum → is_taken (after.disk.content 1) q ≡ false
  pub no_block : (q : ℕ) → 67 ≤ q → q < max_dnum → is_taken (after.disk.content 2) q ≡ false
  pub blank : (q : ℕ) → 67 ≤ q → after.disk.content q ≡ zeros

module _ (d : Disk) (blank : IsBlank d) where
  start-HasInodes : HasInodes (start d)
  start-HasInodes =
      HasInodes-put (unwritten d) 0 (super new_superblock)
        (record {
          layout = refl;
          works = blank.works;
          inode_blocks = λ n l u. subst IsInodeBlock (sym (blank.blank n)) zeros-IsInodeBlock;
        })
        (λ l u. absurd (omega arith))

  abbrev with_inodes : WritesInodes (max_inum - 1) 1 (start d)
  with_inodes = write_inodes_lem (max_inum - 1) 1 (start d) start-HasInodes (omega arith)

  abbrev pub i_block : Block
  i_block = i_bits_block (zero_bytes inode_bitmap_bytes)

  abbrev data_bits : List ℕ
  data_bits = set_below (zero_bytes data_block_bitmap_bytes) new_superblock.d_start_blk

  abbrev pub d_block : Block
  d_block = d_bits_block data_bits

  abbrev formatted : Fs
  formatted = put_block 2 d_block (put_block 1 i_block with_inodes.after)

  format-runs : format d ≡ some formatted
  unfolding format
  format-runs =
      ap (λ x. write_inodes (max_inum - 1) 1 x >>= λ y. some (write_bitmaps y))
        (write_block-working (unwritten d) 0 (super new_superblock) (omega arith)
          (blank.works 0 (omega arith)))
      ∙ ap (λ x. x >>= λ y. some (write_bitmaps y)) with_inodes.runs
      ∙ ap some (
          write_bitmaps-put with_inodes.after with_inodes.inodes
          ∙ ap
              (λ b.
                put_block 2 (d_bits_block with_inodes.after.data_block_bitmap)
                  (put_block 1 (i_bits_block b) with_inodes.after))
              with_inodes.inode_bits
          ∙ ap (λ b. put_block 2 (d_bits_block b) (put_block 1 i_block with_inodes.after))
              with_inodes.data_bits)

  padding : (m : ℕ) → m ≤ block_size → length (zero_bytes m) + (block_size - m) ≡ block_size
  padding m u = omega (arith, length-zero_bytes m)

  i_block-IsBitmapBlock : IsBitmapBlock i_block
  i_block-IsBitmapBlock =
      padded-IsBitmapBlock (zero_bytes inode_bitmap_bytes) (block_size - inode_bitmap_bytes)
        (zero_bytes-IsBytes inode_bitmap_bytes) (padding inode_bitmap_bytes (omega arith))

  data_room : 67 < 8 * length (zero_bytes data_block_bitmap_bytes) + 1
  data_room = omega (arith, length-zero_bytes data_block_bitmap_bytes)

  length-data_bits : length data_bits ≡ data_block_bitmap_bytes
  length-data_bits =
      length-set_below (zero_bytes data_block_bitmap_bytes) 67
      ∙ length-zero_bytes data_block_bitmap_bytes

  d_block-IsBitmapBlock : IsBitmapBlock d_block
  d_block-IsBitmapBlock =
      padded-IsBitmapBlock data_bits (block_size - data_block_bitmap_bytes)
        (set_below-IsBytes (zero_bytes data_block_bitmap_bytes) 67
          (zero_bytes-IsBytes data_block_bitmap_bytes) data_room)
        (omega (arith, length-data_bits))

  data_bit : (q : ℕ) → q < max_dnum → is_taken d_block q ≡ ltb q 67
  data_bit q u =
      is_taken-padded data_bits (block_size - data_block_bitmap_bytes) q
        (omega (arith, length-data_bits))
      ∙ get_bitmap-set_below (zero_bytes data_block_bitmap_bytes) 67 q
          (zero_bytes-IsBytes data_block_bitmap_bytes) data_room
      ∙ ground (arith, get_bitmap-zero_bytes data_block_bitmap_bytes q)

  -- On a disk file of zeros that works, the first part of `rufs_mkfs` succeeds.
  pub format_lem : FormatsDisk d
  format_lem = record {
    after = formatted;
    runs = format-runs;
    formatted = record {
      inodes =
          HasInodes-put (put_block 1 i_block with_inodes.after) 2 d_block
            (HasInodes-put with_inodes.after 1 i_block with_inodes.inodes
              (λ l u. absurd (omega arith)))
            (λ l u. absurd (omega arith));
      i_bitmap = i_block-IsBitmapBlock;
      d_bitmap = d_block-IsBitmapBlock;
      metadata = λ q h. data_bit q (omega arith) ∙ ground arith;
    };
    no_inode = λ q u.
        is_taken-padded (zero_bytes inode_bitmap_bytes) (block_size - inode_bitmap_bytes) q
          (omega (arith, length-zero_bytes inode_bitmap_bytes))
        ∙ get_bitmap-zero_bytes inode_bitmap_bytes q;
    no_block = λ q l u. data_bit q u ∙ ground arith;
    blank = λ q l.
        content-put (put_block 1 i_block with_inodes.after).disk 2 q d_block (omega arith)
        ∙ content-put with_inodes.after.disk 1 q i_block (omega arith)
        ∙ with_inodes.others q l
        ∙ content-put d 0 q (super new_superblock) (omega arith)
        ∙ blank.blank q;
  }
