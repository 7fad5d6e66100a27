-- ===== src/Rufs/Setup/Written.antt =====
-- p4/code/rufs.c: the loops of `rufs_mkfs` that write the inodes and the bitmaps.
use cs416_os.Prelude.{
  ℕ, zero, suc, ◌+◌, ◌-◌, ◌*◌, ◌/◌, ◌%◌, ◌<◌, ◌≤◌, ◌≡◌, refl, ◌∙◌, ap, arith, false, some, List,
  ◌++◌, length, get_or, replicate, length-append,
}
use cs416_os.Prelude.BitArray.{IsBytes}
use cs416_os.Prelude.Bytes.{test_bit-zero}
use cs416_os.Prelude.Slices.{length-replicate, replicate-All, append-All, get_or-append_left}
use cs416_os.Rufs.Layout.{Inode, zero_inode, inodes_in_block, block_size}
use cs416_os.Rufs.Bitmap.{max_inum, get_bitmap}
use cs416_os.Rufs.Disk.{Block, zeros, bytes, as_inodes, as_bytes, zero_bytes}
use cs416_os.Rufs.Inodes.{Fs, write_block, inode_bitmap_bytes, data_block_bitmap_bytes}
use cs416_os.Rufs.Inodes.Numbers.{is_taken, IsBitmapBlock}
use cs416_os.Rufs.Setup.{write_inodes, write_bitmaps}
use cs416_os.Rufs.Format.{HasInodes, IsInodeBlock, put_block, content-put, write_block-working}
use cs416_os.Rufs.Format.Inodes.{after_writei, writei-put, after_writei-HasInodes}

pub zeros-IsInodeBlock : IsInodeBlock zeros
unfolding as_inodes
zeros-IsInodeBlock = record {
  table = replicate inodes_in_block zero_inode;
  reads = refl;
  size = length-replicate inodes_in_block zero_inode;
}

-- What the loop over the inode numbers leaves as it is.
pub record WritesInodes (k i : ℕ) (fs : Fs) : Type 0 where
  pub after : Fs
  pub runs : write_inodes k i fs ≡ some after
  pub inodes : HasInodes after
  pub inode_bits : after.inode_bitmap ≡ fs.inode_bitmap
  pub data_bits : after.data_block_bitmap ≡ fs.data_block_bitmap
  pub root : after.root_dir_ino ≡ fs.root_dir_ino
  pub others : (n : ℕ) → 67 ≤ n → after.disk.content n ≡ fs.disk.content n

pub write_inodes_lem : (k i : ℕ) (fs : Fs) → HasInodes fs → i + k ≤ max_inum → WritesInodes k i fs
unfolding write_inodes
write_inodes_lem zero i fs h u = record {
  after = fs;
  runs = refl;
  inodes = h;
  inode_bits = refl;
  data_bits = refl;
  root = refl;
  others = λ n l. refl;
}
write_inodes_lem (suc k) i fs h u =
    let v : i < max_inum = omega arith in
    let empty : Inode = record zero_inode { ino = i; valid = 0 } in
    let r =
      write_inodes_lem k (i + 1) (after_writei fs h i v empty)
        (after_writei-HasInodes fs h i v empty) (omega arith) in
    record {
      after = r.after;
      runs = rw (writei-put fs h i v empty) r.runs;
      inodes = r.inodes;
      inode_bits = r.inode_bits;
      data_bits = r.data_bits;
      root = r.root;
      others = λ n l. r.others n l ∙ content-put fs.disk (i / 16 + 3) n _ (omega arith);
    }

-- A bitmap that is followed by zeros.
pub padded-IsBitmapBlock :
    (b : List ℕ) (n : ℕ)
    → IsBytes b
    → length b + n ≡ block_size
    → IsBitmapBlock (bytes (b ++ zero_bytes n))
unfolding as_bytes zero_bytes
padded-IsBitmapBlock b n h e = record {
  bits = b ++ zero_bytes n;
  reads = refl;
  all_bytes =
      append-All (λ c. c < 256) b (replicate n 0) h
        (replicate-All (λ c. c < 256) n 0 (omega arith));
  size = length-append b (replicate n 0) ∙ omega (arith, length-replicate {A = ℕ} n 0);
}

pub is_taken-padded :
    (b : List ℕ) (n q : ℕ)
    → q < 8 * length b
    → is_taken (bytes (b ++ zero_bytes n)) q ≡ get_bitmap b q
unfolding as_bytes get_bitmap
is_taken-padded b n q h = rw (get_or-append_left b (zero_bytes n) (q / 8) 0 (omega arith)) refl

pub zero_bytes-IsBytes : (n : ℕ) → IsBytes (zero_bytes n)
unfolding zero_bytes
zero_bytes-IsBytes n = replicate-All (λ c. c < 256) n 0 (omega arith)

pub length-zero_bytes : (n : ℕ) → length (zero_bytes n) ≡ n
unfolding zero_bytes
length-zero_bytes n = length-replicate {A = ℕ} n 0

get_or-zero_bytes : (n i : ℕ) → get_or (zero_bytes n) i 0 ≡ 0
unfolding zero_bytes
get_or-zero_bytes zero i = refl
get_or-zero_bytes (suc n) zero = refl
get_or-zero_bytes (suc n) (suc i) = get_or-zero_bytes n i

pub get_bitmap-zero_bytes : (n q : ℕ) → get_bitmap (zero_bytes n) q ≡ false
unfolding get_bitmap
get_bitmap-zero_bytes n q = rw (get_or-zero_bytes n (q / 8)) (test_bit-zero (q % 8) (omega arith))

abbrev pub i_bits_block : List ℕ → Block
i_bits_block b = bytes (b ++ zero_bytes (block_size - inode_bitmap_bytes))

abbrev pub d_bits_block : List ℕ → Block
d_bits_block b = bytes (b ++ zero_bytes (block_size - data_block_bitmap_bytes))

pub write_bitmaps-put :
    (fs : Fs)
    → HasInodes fs
    → write_bitmaps fs
      ≡ put_block 2
          (d_bits_block fs.data_block_bitmap)
          (put_block 1 (i_bits_block fs.inode_bitmap) fs)
unfolding write_bitmaps
write_bitmaps-put fs h =
    ap (write_block 2 (d_bits_block fs.data_block_bitmap)) (
      write_block-working fs 1 (i_bits_block fs.inode_bitmap) (omega arith)
        (h.works 1 (omega arith)))
    ∙ write_block-working (put_block 1 (i_bits_block fs.inode_bitmap) fs) 2
        (d_bits_block fs.data_block_bitmap) (omega arith) (h.works 2 (omega arith))
