-- ===== src/Rufs/Setup/Root.antt =====
-- p4/code/rufs.c: `rufs_mkfs` on a new disk file, with the root directory and its two entries.
use mathlib.Core.Path.{subst}
use cs416_os.Prelude.{
  ◌==◌, ℕ, ◌<◌, ◌≤◌, ◌≡◌, ◌≢◌, refl, ◌∙◌, ap, arith, false, none, some, get_or, inl, inr,
  Bool-cases,
}
use cs416_os.Prelude.Slices.{length-replicate, get_or-replicate}
use cs416_os.Rufs.Layout.{Name, same_name, Inode, direct_ptrs}
use cs416_os.Rufs.Bitmap.{max_inum, max_dnum}
use cs416_os.Rufs.Disk.{Disk, zeros}
use cs416_os.Rufs.Inodes.{Fs, readi}
use cs416_os.Rufs.Inodes.Numbers.{is_taken}
use cs416_os.Rufs.Format.{WellFormed}
use cs416_os.Rufs.Format.Inodes.{WritesInode, writei_lem, readi-works}
use cs416_os.Rufs.Format.Numbers.{get_avail_ino_lem}
use cs416_os.Rufs.Directory.{is_valid, dir_find, dir_add, new_entry, added}
use cs416_os.Rufs.Directory.Find.{IsDirectory, entry_at, dir_find-first}
use cs416_os.Rufs.Directory.Adding.{HasAdded}
use cs416_os.Rufs.Directory.Adding.Total.{dir_add-room}
use cs416_os.Rufs.Setup.{root_dir, dot, dot_dot, make_root, rufs_mkfs}
use cs416_os.Rufs.Setup.First.{FirstInode, first_inode, first_in-unset, neither}
use cs416_os.Rufs.Setup.Format.{IsBlank, FormatsDisk, format_lem}

-- What `rufs_mkfs` makes.
pub record MakesFileSystem (now : ℕ) (d : Disk) : Type 0 where
  pub after : Fs
  pub runs : rufs_mkfs now d ≡ some after
  pub formatted : WellFormed after
  pub root : Inode
  pub root_dir_ino : after.root_dir_ino ≡ 0
  pub number : root.ino ≡ 0
  pub directory : IsDirectory after root
  pub finds_dot : dir_find after 0 dot ≡ some (some (new_entry 0 dot))
  pub finds_dot_dot : dir_find after 0 dot_dot ≡ some (some (new_entry 0 dot_dot))
  pub nothing_else :
      (name : Name)
      → same_name name dot ≡ false
      → same_name name dot_dot ≡ false
      → dir_find after 0 name ≡ some none
  pub blank :
      (q : ℕ) → 67 ≤ q → is_taken (after.disk.content 2) q ≡ false → after.disk.content q ≡ zeros
  pub inode_bits : (q : ℕ) → q < max_inum → is_taken (after.disk.content 1) q ≡ (0 == q)
  pub pointer : ℕ
  pub pointer_in_range : pointer < direct_ptrs
  pub pointer_unset : is_valid (get_or root.direct_ptr pointer 0) ≡ false
  pub free_block : ℕ
  pub in_range : free_block < max_dnum
  pub is_free : is_taken (after.disk.content 2) free_block ≡ false

module _ (now : ℕ) (d : Disk) (blank : IsBlank d) where
  abbrev formats : FormatsDisk d
  formats = format_lem d blank

  abbrev first : FirstInode formats.after
  first =
      first_inode formats.after (get_avail_ino_lem formats.after formats.formatted)
        (formats.no_inode 0 (omega arith))

  abbrev old : (i : Inode) × (readi first.after 0 ≡ some i)
  old = readi-works first.after 0 first.keeps (omega arith)

  abbrev empty_root : Inode
  empty_root = root_dir 0 now old.0

  abbrev stored : WritesInode first.after 0 empty_root
  stored = writei_lem first.after first.keeps 0 (omega arith) empty_root

  abbrev fs₃ : Fs
  fs₃ = record stored.after { root_dir_ino = 0 }

  w₃ : WellFormed fs₃
  w₃ = record {
    inodes = record {
      layout = stored.keeps.inodes.layout;
      works = stored.keeps.inodes.works;
      inode_blocks = stored.keeps.inodes.inode_blocks;
    };
    i_bitmap = stored.keeps.i_bitmap;
    d_bitmap = stored.keeps.d_bitmap;
    metadata = stored.keeps.metadata;
  }

  read_root : readi fs₃ 0 ≡ some empty_root
  unfolding readi
  read_root = stored.reads 0 (omega arith)

  empty_root-IsDirectory : IsDirectory fs₃ empty_root
  empty_root-IsDirectory = record {
    number = omega arith;
    stored = read_root;
    valid = refl;
    size = length-replicate {A = ℕ} direct_ptrs 0;
    blocks = λ i e. absurd (ground (arith, e, get_or-replicate {A = ℕ} direct_ptrs 0 i));
  }

  free₃ : (q : ℕ) → 67 ≤ q → q < max_dnum → is_taken (fs₃.disk.content 2) q ≡ false
  free₃ q l u =
      ap (λ c. is_taken c q) (stored.others 2 (inl (omega arith)) ∙ first.same 2 (omega arith))
      ∙ formats.no_block q l u

  nothing₃ : (name : Name) → dir_find fs₃ 0 name ≡ some none
  nothing₃ name =
      dir_find-first fs₃ empty_root name w₃ empty_root-IsDirectory
      ∙ ap some (first_in-unset (entry_at fs₃ name) direct_ptrs)

  adds_dot :
      (fs' : Fs) × (dir_add empty_root 0 dot fs₃ ≡ some (added, fs'))
      × HasAdded fs₃ fs' empty_root 0 dot
  adds_dot =
      dir_add-room fs₃ empty_root 0 dot w₃ empty_root-IsDirectory (omega arith) 0 67
        (omega (arith, empty_root-IsDirectory.size)) refl (omega arith)
        (free₃ 67 (omega arith) (omega arith))

  abbrev fs₄ : Fs
  fs₄ = adds_dot.0

  abbrev has_dot : HasAdded fs₃ fs₄ empty_root 0 dot
  has_dot = adds_dot.2

  abbrev root₄ : Inode
  root₄ = has_dot.dir'

  abbrev pointer₄ : (k : ℕ) × (0 ≤ k) × (k < 3) × (k ≢ has_dot.pointer) × (k ≢ has_dot.pointer)
  pointer₄ = neither 0 has_dot.pointer has_dot.pointer

  unset₄ : is_valid (get_or root₄.direct_ptr pointer₄.0 0) ≡ false
  unset₄ = ground (
    arith,
    has_dot.pointers pointer₄.0 pointer₄.3,
    get_or-replicate {A = ℕ} direct_ptrs 0 pointer₄.0,
  )

  free₄ :
      (q : ℕ) → 67 ≤ q → q < max_dnum → q ≢ has_dot.block → is_taken (fs₄.disk.content 2) q ≡ false
  free₄ q l u ne = has_dot.taken q ne ∙ free₃ q l u

  abbrev block₄ : (k : ℕ) × (67 ≤ k) × (k < 70) × (k ≢ has_dot.block) × (k ≢ has_dot.block)
  block₄ = neither 67 has_dot.block has_dot.block

  adds_dot_dot :
      (fs' : Fs) × (dir_add root₄ 0 dot_dot fs₄ ≡ some (added, fs'))
      × HasAdded fs₄ fs' root₄ 0 dot_dot
  adds_dot_dot =
      dir_add-room fs₄ root₄ 0 dot_dot has_dot.keeps has_dot.directory (omega arith) pointer₄.0
        block₄.0 (omega (arith, has_dot.directory.size, pointer₄.2)) unset₄
        (omega (arith, block₄.2)) (free₄ block₄.0 block₄.1 (omega (arith, block₄.2)) block₄.3)

  abbrev fs₅ : Fs
  fs₅ = adds_dot_dot.0

  abbrev has_both : HasAdded fs₄ fs₅ root₄ 0 dot_dot
  has_both = adds_dot_dot.2

  read₄ : readi fs₄ 0 ≡ some root₄
  read₄ = subst (λ n. readi fs₄ n ≡ some root₄) has_dot.number has_dot.directory.stored

  make_root-runs : make_root now formats.after ≡ some fs₅
  unfolding make_root
  make_root-runs =
      rw first.runs (rw old.1 (rw stored.runs (rw adds_dot.1 (rw read₄ (rw adds_dot_dot.1 refl)))))

  rufs_mkfs-runs : rufs_mkfs now d ≡ some fs₅
  unfolding rufs_mkfs
  rufs_mkfs-runs = rw formats.runs make_root-runs

  -- The second addition, at number 0.
  others₅ :
      (name : Name) → same_name name dot_dot ≡ false → dir_find fs₅ 0 name ≡ dir_find fs₄ 0 name
  others₅ =
      subst
        (λ n.
          (name : Name)
          → same_name name dot_dot ≡ false
          → dir_find fs₅ n name ≡ dir_find fs₄ n name)
        has_dot.number has_both.others

  absent₄ : (name : Name) → same_name name dot ≡ false → dir_find fs₄ 0 name ≡ some none
  absent₄ name ne = has_dot.others name ne ∙ nothing₃ name

  finds₅ : dir_find fs₅ 0 dot_dot ≡ some (some (new_entry 0 dot_dot))
  unfolding same_name
  finds₅ =
      subst
        (λ n.
          dir_find fs₄ n dot_dot ≡ some none
          → dir_find fs₅ n dot_dot ≡ some (some (new_entry 0 dot_dot)))
        has_dot.number has_both.finds (absent₄ dot_dot refl)

  dot-dot_dot : same_name dot dot_dot ≡ false
  unfolding same_name
  dot-dot_dot = refl

  abbrev pointer₅ : (k : ℕ) × (0 ≤ k) × (k < 3) × (k ≢ has_dot.pointer) × (k ≢ has_both.pointer)
  pointer₅ = neither 0 has_dot.pointer has_both.pointer

  abbrev block₅ : (k : ℕ) × (67 ≤ k) × (k < 70) × (k ≢ has_dot.block) × (k ≢ has_both.block)
  block₅ = neither 67 has_dot.block has_both.block

  not_taken₄ :
      (q : ℕ) → is_taken (fs₅.disk.content 2) q ≡ false → is_taken (fs₄.disk.content 2) q ≡ false
  not_taken₄ q e = elim (Bool-cases (is_taken (fs₄.disk.content 2) q)) [
    | inl t ↦ (let t' = has_both.still_taken q t in cc)
    | inr f ↦ f
  ]

  -- On a disk file of zeros on which no read or write fails, rufs_mkfs succeeds: the disk is
  -- formatted, inode 0 is the root directory, dir_find finds in it the entries for . and .., both
  -- with number 0, and no other name, no inode number but 0 is taken, some pointer of the root
  -- directory is not set, some block number is free, and every free block behind the inodes is
  -- zeros.
  pub rufs_mkfs_lem : MakesFileSystem now d
  rufs_mkfs_lem = record {
    after = fs₅;
    runs = rufs_mkfs-runs;
    formatted = has_both.keeps;
    root = has_both.dir';
    root_dir_ino = has_both.root ∙ has_dot.root;
    number = has_both.number ∙ has_dot.number;
    directory = has_both.directory;
    finds_dot = others₅ dot dot-dot_dot ∙ has_dot.finds (nothing₃ dot);
    finds_dot_dot = finds₅;
    nothing_else = λ name n n'. others₅ name n' ∙ absent₄ name n;
    blank = λ q l e.
        has_both.untouched q l e
        ∙ has_dot.untouched q l (not_taken₄ q e)
        ∙ stored.others q (inr l)
        ∙ first.same q (omega arith)
        ∙ formats.blank q l;
    inode_bits = λ q u.
        ap (λ c. is_taken c q)
          (has_both.inode_bits ∙ has_dot.inode_bits ∙ stored.others 1 (inl (omega arith)))
        ∙ first.law q
        ∙ ground (arith, formats.no_inode q u);
    pointer = pointer₅.0;
    pointer_in_range = omega (arith, pointer₅.2);
    pointer_unset = ground (
      arith,
      has_both.pointers pointer₅.0 pointer₅.4,
      has_dot.pointers pointer₅.0 pointer₅.3,
      get_or-replicate {A = ℕ} direct_ptrs 0 pointer₅.0,
    );
    free_block = block₅.0;
    in_range = omega (arith, block₅.2);
    is_free =
        has_both.taken block₅.0 block₅.4
        ∙ free₄ block₅.0 block₅.1 (omega (arith, block₅.2)) block₅.3;
  }
