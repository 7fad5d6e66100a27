-- ===== src/Rufs/Format.antt =====
-- p4/code/rufs.c: the state of a disk that `rufs_mkfs` has formatted, and writes that keep it.
pub mod Numbers
pub mod Inodes
pub mod Count
use mathlib.Core.Path.{subst}
use native.Mathlib.Decide.{ℕ_discrete}
use cs416_os.Prelude.{
  ℕ, ◌+◌, ◌<◌, ◌≤◌, ◌^◌, ◌==◌, ◌≡◌, ◌≢◌, refl, sym, ◌∙◌, ap, arith, Bool, true, false,
  if◌then◌else◌, some, List, length,
}
use cs416_os.Rufs.Layout.{Inode, inodes_in_block}
use cs416_os.Rufs.Bitmap.{max_dnum}
use cs416_os.Rufs.Disk.{Disk, Block, bio_write, as_inodes, no_block}
use cs416_os.Rufs.Disk.Laws.{put, bio_write-working, bio_write-no_block}
use cs416_os.Rufs.Inodes.{Fs, write_block}
use cs416_os.Rufs.Inodes.Numbers.{IsBitmapBlock, is_taken}
use cs416_os.Rufs.Setup.{new_superblock}

-- A whole block of inodes.
pub record IsInodeBlock (b : Block) : Type 0 where
  pub table : List Inode
  pub reads : as_inodes b ≡ some table
  pub size : length table ≡ inodes_in_block

-- The superblock is that of `rufs_mkfs`, the blocks of the disk work, and the inodes are where
-- `rufs_mkfs` put them.
pub record HasInodes (fs : Fs) : Type 0 where
  pub layout : fs.superblock ≡ new_superblock
  pub works : (n : ℕ) → n < max_dnum → fs.disk.broken n ≡ false
  pub inode_blocks : (n : ℕ) → 3 ≤ n → n < 67 → IsInodeBlock (fs.disk.content n)

-- The two bitmaps are there as well, and no block of the metadata is free.
pub record WellFormed (fs : Fs) : Type 0 where
  pub inodes : HasInodes fs
  pub i_bitmap : IsBitmapBlock (fs.disk.content 1)
  pub d_bitmap : IsBitmapBlock (fs.disk.content 2)
  pub metadata : (q : ℕ) → q < 67 → is_taken (fs.disk.content 2) q ≡ true

-- The state after a write that works.
abbrev pub put_block : ℕ → Block → Fs → Fs
put_block n b fs = record fs { disk = put fs.disk n b }

pub write_block-working :
    (fs : Fs) (n : ℕ) (b : Block)
    → n < max_dnum
    → fs.disk.broken n ≡ false
    → write_block n b fs ≡ put_block n b fs
write_block-working fs n b h e =
    ap (λ r. record fs { disk = r.1 }) (bio_write-working fs.disk n (omega arith) e b)

pub write_block-no_block : (fs : Fs) (b : Block) → write_block no_block b fs ≡ fs
write_block-no_block fs b = ap (λ r. record fs { disk = r.1 }) (bio_write-no_block fs.disk b)

-- What a block is after a write of block `n`.
pub written_or_old {κ} :
    (P : Block → Type κ) (n k : ℕ) (b c : Block)
    → (n ≡ k → P b)
    → (n ≢ k → P c)
    → P (if n == k then b else c)
written_or_old P n k b c new old = elim (ℕ_discrete n k) [
  | yes e ↦
      let t : (n == k) ≡ true = ground arith in subst (λ r. P (if r then b else c)) (sym t) (new e)
  | no ne ↦
      let t : (n == k) ≡ false = ground arith in
      subst (λ r. P (if r then b else c)) (sym t) (old ne)
]

pub content-put : (d : Disk) (n k : ℕ) (b : Block) → n ≢ k → (put d n b).content k ≡ d.content k
content-put d n k b ne =
    written_or_old (λ c. c ≡ d.content k) n k b (d.content k) (λ e. absurd (ne e)) (λ _. refl)

-- A block that a write may put at `n`.
pub record Fits (n : ℕ) (b : Block) : Type 0 where
  pub inode_bits : n ≡ 1 → IsBitmapBlock b
  pub data_bits : n ≡ 2 → IsBitmapBlock b
  pub taken : n ≡ 2 → (q : ℕ) → q < 67 → is_taken b q ≡ true
  pub table : 3 ≤ n → n < 67 → IsInodeBlock b

pub HasInodes-put :
    (fs : Fs) (n : ℕ) (b : Block)
    → HasInodes fs
    → (3 ≤ n → n < 67 → IsInodeBlock b)
    → HasInodes (put_block n b fs)
HasInodes-put fs n b h f = record {
  layout = h.layout;
  works = h.works;
  inode_blocks = λ k l u.
      written_or_old IsInodeBlock n k b _ (λ e. f (omega arith) (omega arith))
        (λ _. h.inode_blocks k l u);
}

pub WellFormed-put :
    (fs : Fs) (n : ℕ) (b : Block) → WellFormed fs → Fits n b → WellFormed (put_block n b fs)
WellFormed-put fs n b w f = record {
  inodes = HasInodes-put fs n b w.inodes f.table;
  i_bitmap = written_or_old IsBitmapBlock n 1 b _ f.inode_bits (λ _. w.i_bitmap);
  d_bitmap = written_or_old IsBitmapBlock n 2 b _ f.data_bits (λ _. w.d_bitmap);
  metadata = λ q h.
      written_or_old (λ c. is_taken c q ≡ true) n 2 b _ (λ e. f.taken e q h) (λ _. w.metadata q h);
}

-- A block behind the inodes may hold anything.
pub data-Fits : (n : ℕ) (b : Block) → 67 ≤ n → Fits n b
data-Fits n b h = record {
  inode_bits = λ e. absurd (omega arith);
  data_bits = λ e. absurd (omega arith);
  taken = λ e. absurd (omega arith);
  table = λ l u. absurd (omega arith);
}
