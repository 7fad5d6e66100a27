-- ===== src/Rufs/Entries/Create.antt =====
-- p4/code/rufs.c: `rufs_create` in a directory on a formatted disk.
use mathlib.Core.Path.{subst}
use cs416_os.Prelude.{
  ℕ, ◌+◌, ◌/◌, ◌<◌, ◌≤◌, ◌==◌, ◌≡◌, ◌≢◌, refl, sym, ◌∙◌, ap, arith, true, false, none, some, List,
  length, get_or, inl, inr,
}
use cs416_os.Rufs.Layout.{Name, name_bytes, same_name, Inode}
use cs416_os.Rufs.Bitmap.{max_inum, max_dnum}
use cs416_os.Rufs.Inodes.{Fs, readi, get_avail_ino}
use cs416_os.Rufs.Inodes.Numbers.{is_taken}
use cs416_os.Rufs.Format.{WellFormed}
use cs416_os.Rufs.Format.Inodes.{WritesInode, writei_lem, readi-works, readi-same}
use cs416_os.Rufs.Format.Numbers.{TakesInode, no_inode_free, takes_inode, get_avail_ino_lem}
use cs416_os.Rufs.Directory.{is_valid, dir_find, dir_add, new_entry, added}
use cs416_os.Rufs.Directory.Find.{
  IsDirectory, IsEntryBlock, entry_at, entry_at-same, first_in-same, dir_find-first,
}
use cs416_os.Rufs.Directory.Adding.{HasAdded}
use cs416_os.Rufs.Directory.Adding.Total.{dir_add-room}
use cs416_os.Rufs.Paths.{get_node_by_path, dirname, basename}
use cs416_os.Rufs.Entries.{success, new_file, make_file, add_node, rufs_create}

-- A directory stays what it is when its inode's block, its data blocks and the bitmap do.
module _ (fs fs' : Fs) (dir : Inode) (w : WellFormed fs) (w' : WellFormed fs')
    (d : IsDirectory fs dir) (stored : readi fs' dir.ino ≡ readi fs dir.ino)
    (bitmap : fs'.disk.content 2 ≡ fs.disk.content 2)
    (data_blocks : (n : ℕ) → 67 ≤ n → fs'.disk.content n ≡ fs.disk.content n) where
  same-IsDirectory : IsDirectory fs' dir
  same-IsDirectory = record {
    number = d.number;
    stored = stored ∙ d.stored;
    valid = d.valid;
    size = d.size;
    blocks = λ i v.
        let h = d.blocks i v in
        record {
          data_block = h.data_block;
          number = h.number;
          taken = ap (λ c. is_taken c (get_or dir.direct_ptr i 0)) bitmap ∙ h.taken;
          block =
              subst IsEntryBlock (sym (data_blocks (get_or dir.direct_ptr i 0) h.data_block))
                h.block;
        };
  }

  same-dir_find : (name : Name) → dir_find fs' dir.ino name ≡ dir_find fs dir.ino name
  same-dir_find name =
      dir_find-first fs' dir name w' same-IsDirectory
      ∙ ap some (
          first_in-same (entry_at fs' name) (entry_at fs name) dir.direct_ptr (λ i v.
            entry_at-same fs fs' name (get_or dir.direct_ptr i 0)
              (data_blocks (get_or dir.direct_ptr i 0) (d.blocks i v).data_block)))
      ∙ sym (dir_find-first fs dir name w d)

-- What `rufs_create` does: it takes an inode number for the file.
pub record CreatesFile (now : ℕ) (path : List ℕ) (fs : Fs) (parent : Inode) : Type 0 where
  pub number : ℕ
  pub after : Fs
  pub runs : rufs_create now path fs ≡ some (success, after)
  pub in_range : number < max_inum
  pub was_free : is_taken (fs.disk.content 1) number ≡ false
  pub old : Inode
  pub inode : readi after number ≡ some (new_file number now old)
  pub finds :
      dir_find fs parent.ino (basename path) ≡ some none
      → dir_find after parent.ino (basename path) ≡ some (some (new_entry number (basename path)))
  pub others :
      (name : Name)
      → same_name name (basename path) ≡ false
      → dir_find after parent.ino name ≡ dir_find fs parent.ino name
  pub keeps : WellFormed after

module _ (now : ℕ) (path : List ℕ) (fs : Fs) (parent : Inode) (k q j : ℕ) (w : WellFormed fs)
    (d : IsDirectory fs parent)
    (leads : get_node_by_path fs (dirname path) fs.root_dir_ino ≡ some (some parent))
    (taken : is_taken (fs.disk.content 1) parent.ino ≡ true) (room : k < length parent.direct_ptr)
    (unset : is_valid (get_or parent.direct_ptr k 0) ≡ false) (block : q < max_dnum)
    (free_block : is_taken (fs.disk.content 2) q ≡ false) (inode : j < max_inum)
    (free_inode : is_taken (fs.disk.content 1) j ≡ false)
    (short : length (basename path) < name_bytes) where
  -- Once the number `p` is taken.
  module _ (p : ℕ) (fs₁ : Fs) (taking : get_avail_ino fs ≡ some (some p, fs₁))
      (small : p < max_inum) (free : is_taken (fs.disk.content 1) p ≡ false)
      (same : (n : ℕ) → n ≢ 1 → fs₁.disk.content n ≡ fs.disk.content n) (w₁ : WellFormed fs₁) where
    another : p ≢ parent.ino
    another e = ground (arith, taken, free, ap (is_taken (fs.disk.content 1)) e)

    stored₁ : readi fs₁ parent.ino ≡ readi fs parent.ino
    stored₁ = readi-same fs fs₁ parent.ino w w₁ d.number (same (parent.ino / 16 + 3) (omega arith))

    bitmap₁ : fs₁.disk.content 2 ≡ fs.disk.content 2
    bitmap₁ = same 2 (omega arith)

    data₁ : (n : ℕ) → 67 ≤ n → fs₁.disk.content n ≡ fs.disk.content n
    data₁ n l = same n (omega arith)

    d₁ : IsDirectory fs₁ parent
    d₁ = same-IsDirectory fs fs₁ parent w w₁ d stored₁ bitmap₁ data₁

    abbrev adding :
        (fs' : Fs) × (dir_add parent p (basename path) fs₁ ≡ some (added, fs'))
        × HasAdded fs₁ fs' parent p (basename path)
    adding =
        dir_add-room fs₁ parent p (basename path) w₁ d₁ short k q room unset block
          (ap (λ c. is_taken c q) bitmap₁ ∙ free_block)

    abbrev has : HasAdded fs₁ adding.0 parent p (basename path)
    has = adding.2

    abbrev old : (i : Inode) × (readi adding.0 p ≡ some i)
    old = readi-works adding.0 p has.keeps small

    abbrev made : WritesInode adding.0 p (new_file p now old.0)
    made = writei_lem adding.0 has.keeps p small (new_file p now old.0)

    create-runs : rufs_create now path fs ≡ some (success, made.after)
    unfolding rufs_create add_node make_file
    create-runs = rw leads (rw taking (rw adding.1 (rw old.1 (rw made.runs refl))))

    not_parent : p ≢ has.dir'.ino
    not_parent e = another (e ∙ has.number)

    stored₃ : readi made.after has.dir'.ino ≡ readi adding.0 has.dir'.ino
    stored₃ =
        let n : (p == has.dir'.ino) ≡ false = ground (arith, not_parent) in
        rw n at (made.reads has.dir'.ino has.directory.number)

    dir_find-before : (name : Name) → dir_find fs₁ parent.ino name ≡ dir_find fs parent.ino name
    dir_find-before = same-dir_find fs fs₁ parent w w₁ d stored₁ bitmap₁ data₁

    dir_find-after :
        (name : Name) → dir_find made.after parent.ino name ≡ dir_find adding.0 parent.ino name
    dir_find-after name =
        subst (λ n. dir_find made.after n name ≡ dir_find adding.0 n name) has.number
          (same-dir_find adding.0 made.after has.dir' has.keeps made.keeps has.directory stored₃
            (made.others 2 (inl (omega arith))) (λ n l. made.others n (inr l)) name)

    creates : CreatesFile now path fs parent
    creates = record {
      number = p;
      after = made.after;
      runs = create-runs;
      in_range = small;
      was_free = free;
      old = old.0;
      inode = made.reads p small ∙ ground arith;
      finds = λ e. dir_find-after (basename path) ∙ has.finds (dir_find-before (basename path) ∙ e);
      others = λ name ne. dir_find-after name ∙ has.others name ne ∙ dir_find-before name;
      keeps = made.keeps;
    }

  -- On a formatted disk where the path's dirname leads to a valid directory, all of whose set
  -- pointers are to taken data blocks with whole entries and whose own number is taken, with a
  -- pointer that is not set, a free block and a free inode number, and for a basename of at most
  -- 207 bytes, which fits in an entry: rufs_create succeeds; it takes a number that was free, under
  -- which the new file's inode is stored; dir_find in the directory finds the basename with that
  -- number if it found none before, and every other name as before; and the disk stays formatted.
  pub rufs_create_lem : CreatesFile now path fs parent
  rufs_create_lem = go (get_avail_ino_lem fs w)
    where
      go : TakesInode fs → CreatesFile now path fs parent
      go (no_inode_free fs' e s all w') = absurd (ground (arith, all j inode, free_inode))
      go (takes_inode p fs₁ e small free lower law s w₁) = creates p fs₁ e small free s w₁
