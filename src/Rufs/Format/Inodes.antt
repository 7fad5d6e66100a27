-- ===== src/Rufs/Format/Inodes.antt =====
-- p4/code/rufs.c: `readi` and `writei` on a formatted disk.
use mathlib.Core.Path.{subst}
use native.Mathlib.Decide.{ℕ_discrete}
use cs416_os.Prelude.{
  ℕ, ◌+◌, ◌/◌, ◌%◌, ◌<◌, ◌≤◌, ◌==◌, ◌≡◌, ◌≢◌, ◌⊎◌, refl, sym, ◌∙◌, ap, arith, true, false,
  if◌then◌else◌, some, List, get_or, set, length-set, get_or-set_self, get_or-set_ne,
}
use cs416_os.Rufs.Layout.{Inode, zero_inode}
use cs416_os.Rufs.Bitmap.{max_inum}
use cs416_os.Rufs.Disk.{as_inodes, inodes}
use cs416_os.Rufs.Disk.Laws.{bio_read-working}
use cs416_os.Rufs.Inodes.{Fs, readi, writei, inode_block}
use cs416_os.Rufs.Format.{
  HasInodes, HasInodes-put, WellFormed, WellFormed-put, IsInodeBlock, Fits, put_block,
  write_block-working, written_or_old, content-put,
}

block_of : (fs : Fs) (ino : ℕ) → HasInodes fs → inode_block fs.superblock ino ≡ ino / 16 + 3
block_of fs ino w = rw w.layout (omega arith)

works_at :
    (fs : Fs) (ino : ℕ) → HasInodes fs → ino < max_inum → fs.disk.broken (ino / 16 + 3) ≡ false
works_at fs ino w h = w.works (ino / 16 + 3) (omega arith)

-- The inode is read from its block.
readi-table :
    (fs : Fs) (ino : ℕ) (t : List Inode)
    → HasInodes fs
    → ino < max_inum
    → as_inodes (fs.disk.content (ino / 16 + 3)) ≡ some t
    → readi fs ino ≡ some (get_or t (ino % 16) zero_inode)
unfolding readi
readi-table fs ino t w h e =
    rw
      (
        block_of fs ino w,
        bio_read-working fs.disk (ino / 16 + 3) (omega arith) (works_at fs ino w h),
        e,
      )
      refl

-- It depends on nothing else.
pub readi-same :
    (fs fs' : Fs) (ino : ℕ)
    → WellFormed fs
    → WellFormed fs'
    → ino < max_inum
    → fs'.disk.content (ino / 16 + 3) ≡ fs.disk.content (ino / 16 + 3)
    → readi fs' ino ≡ readi fs ino
readi-same fs fs' ino w w' h e =
    let t = w.inodes.inode_blocks (ino / 16 + 3) (omega arith) (omega arith) in
    readi-table fs' ino t.table w'.inodes h (ap as_inodes e ∙ t.reads)
    ∙ sym (readi-table fs ino t.table w.inodes h t.reads)

pub readi-works :
    (fs : Fs) (ino : ℕ) → WellFormed fs → ino < max_inum → (i : Inode) × (readi fs ino ≡ some i)
readi-works fs ino w h =
    let t = w.inodes.inode_blocks (ino / 16 + 3) (omega arith) (omega arith) in
    (get_or t.table (ino % 16) zero_inode, readi-table fs ino t.table w.inodes h t.reads)

-- What writing an inode does: it is read back, the others are as before, and no block outside of the
-- inodes changes.
pub record WritesInode (fs : Fs) (ino : ℕ) (i : Inode) : Type 0 where
  pub after : Fs
  pub runs : writei ino i fs ≡ some after
  pub keeps : WellFormed after
  pub reads : (k : ℕ) → k < max_inum → readi after k ≡ (if ino == k then some i else readi fs k)
  pub others : (n : ℕ) → (n < 3) ⊎ (67 ≤ n) → after.disk.content n ≡ fs.disk.content n
  pub root : after.root_dir_ino ≡ fs.root_dir_ino

module _ (fs : Fs) (w : HasInodes fs) (ino : ℕ) (h : ino < max_inum) (i : Inode) where
  abbrev pub table : IsInodeBlock (fs.disk.content (ino / 16 + 3))
  table = w.inode_blocks (ino / 16 + 3) (omega arith) (omega arith)

  abbrev pub new_table : List Inode
  new_table = set table.table (ino % 16) i

  abbrev pub after_writei : Fs
  after_writei = put_block (ino / 16 + 3) (inodes new_table) fs

  pub writei-put : writei ino i fs ≡ some after_writei
  unfolding writei
  writei-put =
      rw
        (
          block_of fs ino w,
          bio_read-working fs.disk (ino / 16 + 3) (omega arith) (works_at fs ino w h),
          table.reads,
        )
        (ap some (write_block-working fs (ino / 16 + 3) _ (omega arith) (works_at fs ino w h)))

  new_table-IsInodeBlock : IsInodeBlock (inodes new_table)
  unfolding as_inodes
  new_table-IsInodeBlock = record {
    table = new_table;
    reads = refl;
    size = length-set table.table (ino % 16) i ∙ table.size;
  }

  pub after_writei-HasInodes : HasInodes after_writei
  after_writei-HasInodes =
      HasInodes-put fs (ino / 16 + 3) (inodes new_table) w (λ l u. new_table-IsInodeBlock)

  content_at :
      (k : ℕ) → ino / 16 ≡ k / 16 → after_writei.disk.content (k / 16 + 3) ≡ inodes new_table
  content_at k e =
      written_or_old (λ c. c ≡ inodes new_table) (ino / 16 + 3) (k / 16 + 3) _ _ (λ _. refl)
        (λ ne. absurd (ne (omega arith)))

  readi-new_table :
      (k : ℕ)
      → k < max_inum
      → ino / 16 ≡ k / 16
      → readi after_writei k ≡ some (get_or new_table (k % 16) zero_inode)
  unfolding as_inodes
  readi-new_table k u e =
      readi-table after_writei k new_table after_writei-HasInodes u (ap as_inodes (content_at k e))

module _ (fs : Fs) (w : WellFormed fs) (ino : ℕ) (h : ino < max_inum) (i : Inode) where
  abbrev pub written_fs : Fs
  written_fs = after_writei fs w.inodes ino h i

  abbrev t₀ : IsInodeBlock (fs.disk.content (ino / 16 + 3))
  t₀ = table fs w.inodes ino h i

  inodes-Fits : Fits (ino / 16 + 3) (inodes (new_table fs w.inodes ino h i))
  inodes-Fits = record {
    inode_bits = λ e. absurd (omega arith);
    data_bits = λ e. absurd (omega arith);
    taken = λ e. absurd (omega arith);
    table = λ l u. new_table-IsInodeBlock fs w.inodes ino h i;
  }

  kept : WellFormed written_fs
  kept = WellFormed-put fs (ino / 16 + 3) (inodes (new_table fs w.inodes ino h i)) w inodes-Fits

  readi-writei :
      (k : ℕ) → k < max_inum → readi written_fs k ≡ (if ino == k then some i else readi fs k)
  readi-writei k u = elim (ℕ_discrete (ino / 16) (k / 16)) [
    | yes same ↦ (elim (ℕ_discrete ino k) [
      | yes e ↦ rw (readi-new_table fs w.inodes ino h i k u same) (equal k e)
      | no ne ↦ rw (readi-new_table fs w.inodes ino h i k u same) (different k u same ne)
    ])
    | no other ↦
        let n : (ino == k) ≡ false = ground arith in
        rw n (
          readi-same fs written_fs k w kept u
            (content-put fs.disk (ino / 16 + 3) (k / 16 + 3) _ (λ e. other (omega arith))))
  ]
    where
      equal :
          (k : ℕ)
          → ino ≡ k
          → some (get_or (new_table fs w.inodes ino h i) (k % 16) zero_inode)
            ≡ (if ino == k then some i else readi fs k)
      equal k e =
          let t : (ino == k) ≡ true = ground arith in
          rw (t, ← e, get_or-set_self t₀.table (ino % 16) i zero_inode (omega (arith, t₀.size)))
            refl

      different :
          (k : ℕ)
          → k < max_inum
          → ino / 16 ≡ k / 16
          → ino ≢ k
          → some (get_or (new_table fs w.inodes ino h i) (k % 16) zero_inode)
            ≡ (if ino == k then some i else readi fs k)
      different k u same ne =
          let t : (ino == k) ≡ false = ground arith in
          let apart : ino % 16 ≢ k % 16 = λ e. ne (omega arith) in
          rw (t, get_or-set_ne t₀.table i zero_inode apart)
            (sym (
              readi-table fs k t₀.table w.inodes u
                (subst (λ b. as_inodes (fs.disk.content (b + 3)) ≡ some t₀.table) same t₀.reads)))

  -- On a formatted disk, writing an inode under a number below 1024 succeeds and keeps the disk
  -- formatted; readi then gives that inode under that number and under every other number what it
  -- gave before, and no block outside of the inodes changes.
  pub writei_lem : WritesInode fs ino i
  writei_lem = record {
    after = written_fs;
    runs = writei-put fs w.inodes ino h i;
    keeps = kept;
    reads = readi-writei;
    others = λ n o. content-put fs.disk (ino / 16 + 3) n _ (λ e. omega arith);
    root = refl;
  }
