-- ===== src/Rufs/Format/Numbers.antt =====
-- p4/code/rufs.c: `get_avail_ino` and `get_avail_blkno` on a formatted disk.
use cs416_os.Prelude.{
  ℕ, ◌<◌, ◌≤◌, ◌==◌, ◌≡◌, ◌≢◌, refl, sym, ◌∙◌, arith, true, false, if◌then◌else◌, Option, none,
  some, List,
}
use cs416_os.Rufs.Bitmap.{max_inum, max_dnum}
use cs416_os.Rufs.Disk.{Disk, Block}
use cs416_os.Rufs.Disk.Laws.{put}
use cs416_os.Rufs.Inodes.{
  Fs, take_number, get_avail_ino, get_avail_blkno, inode_bitmap_bytes, data_block_bitmap_bytes,
}
use cs416_os.Rufs.Inodes.Numbers.{
  is_taken, IsBitmapBlock, TakesNumber, none_free, takes_number, take_number_lem,
}
use cs416_os.Rufs.Format.{WellFormed, WellFormed-put, Fits, content-put}

-- What taking a block number does: none is free, or the lowest free one, which is behind the inodes,
-- is marked in the bitmap's block, and nothing else on the disk changes.
pub data TakesBlock (fs : Fs) : Type 0 where
  no_block_free :
      (fs' : Fs)
      → get_avail_blkno fs ≡ some (none, fs')
      → fs'.disk ≡ fs.disk
      → fs'.root_dir_ino ≡ fs.root_dir_ino
      → ((q : ℕ) → q < max_dnum → is_taken (fs.disk.content 2) q ≡ true)
      → WellFormed fs'
      → TakesBlock fs
  takes_block :
      (p : ℕ) (fs' : Fs)
      → get_avail_blkno fs ≡ some (some p, fs')
      → 67 ≤ p
      → p < max_dnum
      → is_taken (fs.disk.content 2) p ≡ false
      → ((q : ℕ) → q < p → is_taken (fs.disk.content 2) q ≡ true)
      → ((q : ℕ)
          → is_taken (fs'.disk.content 2) q
            ≡ (if p == q then true else is_taken (fs.disk.content 2) q))
      → ((n : ℕ) → n ≢ 2 → fs'.disk.content n ≡ fs.disk.content n)
      → fs'.root_dir_ino ≡ fs.root_dir_ino
      → WellFormed fs'
      → TakesBlock fs

module _ (fs : Fs) (w : WellFormed fs) where
  get_avail_blkno-from :
      (r : Option ℕ × List ℕ × Disk)
      → take_number fs.disk 2 max_dnum data_block_bitmap_bytes ≡ some r
      → get_avail_blkno fs ≡ some (r.0, record fs { data_block_bitmap = r.1; disk = r.2 })
  unfolding get_avail_blkno
  get_avail_blkno-from r e = rw (w.inodes.layout) (rw e refl)

  get_avail_ino-from :
      (r : Option ℕ × List ℕ × Disk)
      → take_number fs.disk 1 max_inum inode_bitmap_bytes ≡ some r
      → get_avail_ino fs ≡ some (r.0, record fs { inode_bitmap = r.1; disk = r.2 })
  unfolding get_avail_ino
  get_avail_ino-from r e = rw (w.inodes.layout) (rw e refl)

  -- A bitmap that the write of a number has changed.
  data_bitmap-Fits :
      (p : ℕ) (b : Block)
      → ((q : ℕ) → is_taken b q ≡ (if p == q then true else is_taken (fs.disk.content 2) q))
      → IsBitmapBlock b
      → Fits 2 b
  data_bitmap-Fits p b law i = record {
    inode_bits = λ e. absurd (omega arith);
    data_bits = λ e. i;
    taken = λ e q h. law q ∙ ground (arith, w.metadata q h);
    table = λ l u. absurd (omega arith);
  }

  inode_bitmap-Fits : (b : Block) → IsBitmapBlock b → Fits 1 b
  inode_bitmap-Fits b i = record {
    inode_bits = λ e. i;
    data_bits = λ e. absurd (omega arith);
    taken = λ e. absurd (omega arith);
    table = λ l u. absurd (omega arith);
  }

  -- The copies of the bitmaps in memory are not read before they are loaded again.
  with_data_bitmap : (bits : List ℕ) → WellFormed (record fs { data_block_bitmap = bits })
  with_data_bitmap bits = record {
    inodes = record {
      layout = w.inodes.layout;
      works = w.inodes.works;
      inode_blocks = w.inodes.inode_blocks;
    };
    i_bitmap = w.i_bitmap;
    d_bitmap = w.d_bitmap;
    metadata = w.metadata;
  }

  with_inode_bitmap : (bits : List ℕ) → WellFormed (record fs { inode_bitmap = bits })
  with_inode_bitmap bits = record {
    inodes = record {
      layout = w.inodes.layout;
      works = w.inodes.works;
      inode_blocks = w.inodes.inode_blocks;
    };
    i_bitmap = w.i_bitmap;
    d_bitmap = w.d_bitmap;
    metadata = w.metadata;
  }

  -- On a formatted disk, get_avail_blkno either finds that all block numbers are taken and leaves
  -- the disk as it is, or takes the lowest free one: it is in range and behind the superblock, the
  -- bitmaps and the inodes, its bit is set and no other changes, no other block changes, and the
  -- disk stays formatted.
  pub get_avail_blkno_lem : TakesBlock fs
  get_avail_blkno_lem = go (
      take_number_lem fs.disk 2 (omega arith) (w.inodes.works 2 (omega arith)) w.d_bitmap max_dnum
        data_block_bitmap_bytes (omega arith) (omega arith))
    where
      behind : (p : ℕ) → is_taken (fs.disk.content 2) p ≡ false → 67 ≤ p
      behind p free = ground (arith, w.metadata p)

      go : TakesNumber fs.disk 2 max_dnum data_block_bitmap_bytes → TakesBlock fs
      go (none_free bits all e) =
          no_block_free (record fs { data_block_bitmap = bits }) (get_avail_blkno-from _ e) refl
            refl all (with_data_bitmap bits)
      go (takes_number p bits b e u free lower law i) =
          takes_block p (record fs { data_block_bitmap = bits; disk = put fs.disk 2 b })
            (get_avail_blkno-from _ e) (behind p free) u free lower law
            (λ n ne. content-put fs.disk 2 n b (λ e. ne (sym e))) refl
            (WellFormed-put (record fs { data_block_bitmap = bits }) 2 b (with_data_bitmap bits)
              (data_bitmap-Fits p b law i))

-- What taking an inode number does.
pub data TakesInode (fs : Fs) : Type 0 where
  no_inode_free :
      (fs' : Fs)
      → get_avail_ino fs ≡ some (none, fs')
      → fs'.disk ≡ fs.disk
      → ((q : ℕ) → q < max_inum → is_taken (fs.disk.content 1) q ≡ true)
      → WellFormed fs'
      → TakesInode fs
  takes_inode :
      (p : ℕ) (fs' : Fs)
      → get_avail_ino fs ≡ some (some p, fs')
      → p < max_inum
      → is_taken (fs.disk.content 1) p ≡ false
      → ((q : ℕ) → q < p → is_taken (fs.disk.content 1) q ≡ true)
      → ((q : ℕ)
          → is_taken (fs'.disk.content 1) q
            ≡ (if p == q then true else is_taken (fs.disk.content 1) q))
      → ((n : ℕ) → n ≢ 1 → fs'.disk.content n ≡ fs.disk.content n)
      → WellFormed fs'
      → TakesInode fs

module _ (fs : Fs) (w : WellFormed fs) where
  -- On a formatted disk, taking an inode number either finds that all are taken and leaves the disk
  -- as it is, or takes the lowest free one.
  pub get_avail_ino_lem : TakesInode fs
  get_avail_ino_lem = go (
      take_number_lem fs.disk 1 (omega arith) (w.inodes.works 1 (omega arith)) w.i_bitmap max_inum
        inode_bitmap_bytes (omega arith) (omega arith))
    where
      go : TakesNumber fs.disk 1 max_inum inode_bitmap_bytes → TakesInode fs
      go (none_free bits all e) =
          no_inode_free (record fs { inode_bitmap = bits }) (get_avail_ino-from fs w _ e) refl all
            (with_inode_bitmap fs w bits)
      go (takes_number p bits b e u free lower law i) =
          takes_inode p (record fs { inode_bitmap = bits; disk = put fs.disk 1 b })
            (get_avail_ino-from fs w _ e) u free lower law
            (λ n ne. content-put fs.disk 1 n b (λ e. ne (sym e)))
            (WellFormed-put (record fs { inode_bitmap = bits }) 1 b (with_inode_bitmap fs w bits)
              (inode_bitmap-Fits fs w b i))
