-- ===== src/Rufs/Files/Writing.antt =====
-- p4/code/rufs.c: `rufs_write` on a file, and reading back what it wrote.
use mathlib.Core.Path.{subst}
use cs416_os.Prelude.{
  ℕ, zero, suc, ◌+◌, ◌-◌, ◌*◌, ◌/◌, ◌%◌, ◌<◌, ◌≤◌, ◌^◌, ◌==◌, ◌≡◌, refl, sym, ◌∙◌, ap, arith, leb,
  ltb, true, false, if◌then◌else◌, Option, none, some, List, length, get_or, take, ◌>>=◌,
  Bool-cases, inl, inr,
}
use cs416_os.Rufs.Layout.{Inode, direct_ptrs, block_size}
use cs416_os.Rufs.Bitmap.{max_inum}
use cs416_os.Rufs.Disk.Laws.{bio_read-working}
use cs416_os.Rufs.Inodes.{Fs, readi}
use cs416_os.Rufs.Inodes.Numbers.{is_taken}
use cs416_os.Rufs.Format.{WellFormed}
use cs416_os.Rufs.Format.Inodes.{WritesInode, writei_lem}
use cs416_os.Rufs.Format.Count.{free_blocks}
use cs416_os.Rufs.Directory.{is_valid}
use cs416_os.Rufs.Paths.{get_node_by_path}
use cs416_os.Rufs.Files.{in_block, read_blocks, written, accessed, rufs_read, rufs_write}
use cs416_os.Rufs.Files.Ready.{IsByteBlock, IsReady}
use cs416_os.Rufs.Files.RoundTrip.{WritesBlocks, write_blocks_lem}

-- The loop of `rufs_read` depends on the blocks of the pointers.
pub read_blocks-same :
    (fs fs' : Fs) (ptrs : List ℕ) (k blk off n : ℕ)
    → IsReady fs ptrs
    → WellFormed fs'
    → ((i : ℕ)
        → is_valid (get_or ptrs i 0) ≡ true
        → fs'.disk.content (get_or ptrs i 0) ≡ fs.disk.content (get_or ptrs i 0))
    → read_blocks k fs' ptrs blk off n ≡ read_blocks k fs ptrs blk off n
unfolding read_blocks
read_blocks-same fs fs' ptrs zero blk off n r w' same = refl
read_blocks-same fs fs' ptrs (suc k) blk off zero r w' same = refl
read_blocks-same fs fs' ptrs (suc k) blk off (suc n) r w' same =
    let p = get_or ptrs blk 0 in
    elim (Bool-cases (is_valid p)) [
      | inl v ↦
          let z : (p == 0) ≡ false = ground (arith, v) in
          let h = r.blocks blk v in
          let before =
            bio_read-working fs.disk p (omega (arith, h.number))
              (r.formatted.inodes.works p h.number) in
          let after =
            bio_read-working fs'.disk p (omega (arith, h.number)) (w'.inodes.works p h.number) in
          let later =
            read_blocks-same fs fs' ptrs k (blk + 1) 0 (suc n - in_block off (suc n)) r w' same in
          rw (z, before, after, same blk v) (rw later refl)
      | inr v ↦ (let z : (p == 0) ≡ true = ground (arith, v) in rw z refl)
    ]

-- Writing another inode leaves a file as it is.
IsReady-writei :
    (fs : Fs) (ino : ℕ) (i : Inode) (ptrs : List ℕ) (w : WritesInode fs ino i)
    → IsReady fs ptrs
    → IsReady w.after ptrs
IsReady-writei fs ino i ptrs w r = record {
  formatted = w.keeps;
  size = r.size;
  blocks = λ k v.
      let b = r.blocks k v in
      record {
        data_block = b.data_block;
        number = b.number;
        taken = ap (λ c. is_taken c (get_or ptrs k 0)) (w.others 2 (inl (omega arith))) ∙ b.taken;
        block = subst IsByteBlock (sym (w.others (get_or ptrs k 0) (inr b.data_block))) b.block;
      };
  distinct = r.distinct;
  blank = λ q g b e.
      subst IsByteBlock (sym (w.others q (inr g)))
        (r.blank q g b (sym (ap (λ c. is_taken c q) (w.others 2 (inl (omega arith)))) ∙ e));
}

-- The room from an offset on in the blocks of a file.
abbrev pub room_from : ℕ → ℕ
room_from offset = (direct_ptrs - offset / block_size) * block_size - offset % block_size

-- What `rufs_write` does to the file of inode `i`.
pub record WritesFile (now : ℕ) (path source : List ℕ) (offset : ℕ) (fs : Fs) (i : Inode)
    : Type 0 where
  pub count : ℕ
  pub ptrs' : List ℕ
  pub after : Fs
  pub runs : rufs_write now path source offset fs ≡ some (some count, after)
  pub how_many :
      count ≡ (if leb (length source) (room_from offset) then length source else room_from offset)
  pub inode : readi after i.ino ≡ some (written now count ptrs' i)
  pub ready : IsReady after ptrs'
  pub reads :
      read_blocks
        (direct_ptrs - offset / block_size)
        after
        ptrs'
        (offset / block_size)
        (offset % block_size)
        count
      ≡ some (false, take count source)
  pub root : after.root_dir_ino ≡ fs.root_dir_ino

module _ (now : ℕ) (path source : List ℕ) (offset : ℕ) (fs : Fs) (i : Inode)
    (leads : get_node_by_path fs path fs.root_dir_ino ≡ some (some i)) (number : i.ino < max_inum)
    (file : IsReady fs i.direct_ptr) (inside : offset ≤ direct_ptrs * block_size)
    (space : direct_ptrs - offset / block_size ≤ free_blocks fs) where
  abbrev blocks_left : ℕ
  blocks_left = direct_ptrs - offset / block_size

  abbrev loop :
      WritesBlocks blocks_left i.direct_ptr (offset / block_size) (offset % block_size) source fs
  loop =
      write_blocks_lem blocks_left i.direct_ptr (offset / block_size) (offset % block_size) source
        fs file (omega arith) (omega arith) space

  abbrev stored : WritesInode loop.after i.ino (written now loop.count loop.ptrs' i)
  stored =
      writei_lem loop.after loop.ready.formatted i.ino number (written now loop.count loop.ptrs' i)

  rufs_write-runs : rufs_write now path source offset fs ≡ some (some loop.count, stored.after)
  unfolding rufs_write
  rufs_write-runs = rw leads (rw loop.runs (rw stored.runs refl))

  -- Under the same conditions on the disk, the path, the inode and the free blocks, for an offset
  -- that is not behind the last block a file can have, rufs_write succeeds; it writes all bytes or
  -- as many as there is room for in the file's blocks, stores the inode with new times and with its
  -- size grown by their number, also where existing bytes were overwritten; the bytes are in the
  -- file's blocks, whose pointers are again to different taken data blocks on a formatted disk.
  pub rufs_write_lem : WritesFile now path source offset fs i
  rufs_write_lem = record {
    count = loop.count;
    ptrs' = loop.ptrs';
    after = stored.after;
    runs = rufs_write-runs;
    how_many = elim (Bool-cases (leb (length source) (room_from offset))) [
      | inl e ↦ rw e (loop.all (ground (arith, e)))
      | inr e ↦ rw e (loop.full (ground (arith, e)))
    ];
    inode = stored.reads i.ino number ∙ ground arith;
    ready = IsReady-writei loop.after i.ino _ loop.ptrs' stored loop.ready;
    reads =
        read_blocks-same loop.after stored.after loop.ptrs' blocks_left (offset / block_size)
          (offset % block_size) loop.count loop.ready stored.keeps
          (λ k v. stored.others (get_or loop.ptrs' k 0) (inr (loop.ready.blocks k v).data_block))
        ∙ loop.reads;
    root = stored.root ∙ loop.root;
  }

  -- Reading the file back.
  module _ (later : ℕ)
      (leads_back : get_node_by_path rufs_write_lem.after path rufs_write_lem.after.root_dir_ino
        ≡ some (some (written now rufs_write_lem.count rufs_write_lem.ptrs' i)))
      (no_gap : offset ≤ i.size) (no_overflow : i.size + rufs_write_lem.count < 2 ^ 32)
      (something : 1 ≤ rufs_write_lem.count) where
    abbrev done : WritesFile now path source offset fs i
    done = rufs_write_lem

    abbrev read_inode : Inode
    read_inode = accessed later (written now done.count done.ptrs' i)

    abbrev touched : WritesInode done.after i.ino read_inode
    touched = writei_lem done.after done.ready.formatted i.ino number read_inode

    readable :
        (if ltb ((i.size + done.count) % 2 ^ 32 - offset) done.count
          then (i.size + done.count) % 2 ^ 32 - offset
          else done.count)
        ≡ done.count
    readable = ground arith

    reads_written :
        rufs_read later path done.count offset done.after
        ≡ some (some (take done.count source), touched.after)
    unfolding rufs_read
    reads_written =
        let here : leb ((i.size + done.count) % 2 ^ 32) offset ≡ false = ground arith in
        rw leads_back (rw (here, readable) (rw done.reads (rw touched.runs refl)))

abbrev the_state : Fs → Option (Option ℕ × Fs) → Fs
the_state fs none = fs
the_state fs (some r) = r.1

abbrev the_count : Option (Option ℕ × Fs) → ℕ
the_count none = 0
the_count (some (none, fs)) = 0
the_count (some (some n, fs)) = n

-- On a formatted disk where a path leads to an inode with a number below 1024, whose set pointers
-- are to different taken data blocks of bytes, where free blocks can be read as bytes and there are
-- at least as many of them as the file has pointers from the offset's block on: if rufs_write at an
-- offset that is not behind the file's end nor behind its last block wrote count bytes, at least
-- one, the size did not overflow, and the path still leads to what is stored under the inode's
-- number, then rufs_read of count bytes at that offset, at any time, gives the first count bytes of
-- what was written.
pub rufs_read-rufs_write :
    (now later : ℕ) (path source : List ℕ) (offset : ℕ) (fs fs' : Fs) (i : Inode) (count : ℕ)
    → get_node_by_path fs path fs.root_dir_ino ≡ some (some i)
    → i.ino < max_inum
    → IsReady fs i.direct_ptr
    → offset ≤ direct_ptrs * block_size
    → direct_ptrs - offset / block_size ≤ free_blocks fs
    → rufs_write now path source offset fs ≡ some (some count, fs')
    → get_node_by_path fs' path fs'.root_dir_ino ≡ (readi fs' i.ino >>= λ j. some (some j))
    → offset ≤ i.size
    → i.size + count < 2 ^ 32
    → 1 ≤ count
    → (fs'' : Fs) × (rufs_read later path count offset fs' ≡ some (some (take count source), fs''))
rufs_read-rufs_write now later path source offset fs fs' i count leads n file o space e back g u p =
    let done = rufs_write_lem now path source offset fs i leads n file o space in
    let same : some (some count, fs') ≡ some (some done.count, done.after) = sym e ∙ done.runs in
    let c : count ≡ done.count = ap the_count same in
    let f : fs' ≡ done.after = ap (the_state fs) same in
    let back' =
      subst (λ x. get_node_by_path x path x.root_dir_ino ≡ (readi x i.ino >>= λ j. some (some j))) f
        back
      ∙ ap (λ r. r >>= λ j. some (some j)) done.inode in
    rw (c, f)
      (
        _,
        reads_written now path source offset fs i leads n file o space later back' g
            (omega (arith, c, u)) (omega (arith, c, p)),
      )
