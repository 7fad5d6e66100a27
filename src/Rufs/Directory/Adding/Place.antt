-- ===== src/Rufs/Directory/Adding/Place.antt =====
-- p4/code/rufs.c: `dir_add` when a block of the directory has a free place.
use native.Mathlib.Decide.{ℕ_discrete}
use cs416_os.Prelude.{
  ℕ, ◌+◌, ◌/◌, ◌<◌, ◌≡◌, ◌≢◌, refl, sym, ◌∙◌, ap, arith, true, false, none, some, List, length,
  get_or, set, length-set,
}
use cs416_os.Rufs.Layout.{Name, same_name, Inode, Dirent, zero_dirent}
use cs416_os.Rufs.Disk.{as_dirents, dirents}
use cs416_os.Rufs.Disk.Laws.{bio_read-working}
use cs416_os.Rufs.Inodes.{Fs}
use cs416_os.Rufs.Inodes.Numbers.{is_taken}
use cs416_os.Rufs.Format.{
  WellFormed, WellFormed-put, data-Fits, put_block, write_block-working, written_or_old,
  content-put,
}
use cs416_os.Rufs.Format.Inodes.{readi-same}
use cs416_os.Rufs.Directory.{is_valid, find_entry, dir_find, add_in_place, new_entry}
use cs416_os.Rufs.Directory.Find.{
  IsEntryBlock, HasEntries, IsDirectory, entry_at, entry_at-reads, entry_at-same, first_in,
  dir_find-first, first_in-same, first_in-found, first_in-none,
}
use cs416_os.Rufs.Directory.Spots.{same_name_refl, find_entry-set_new, find_entry-set_other}
use cs416_os.Rufs.Directory.Adding.{HasAdded}

module _ (fs : Fs) (dir : Inode) (f_ino : ℕ) (fname : Name) (w : WellFormed fs)
    (d : IsDirectory fs dir) (k j : ℕ) (h : HasEntries fs (get_or dir.direct_ptr k 0))
    (u : k < length dir.direct_ptr) (v : is_valid (get_or dir.direct_ptr k 0) ≡ true)
    (b : j < length h.block.entries)
    (free : is_valid (get_or h.block.entries j zero_dirent).valid ≡ false) where
  abbrev blk : ℕ
  blk = get_or dir.direct_ptr k 0

  abbrev entries' : List Dirent
  entries' = set h.block.entries j (new_entry f_ino fname)

  abbrev pub after_place : Fs
  after_place = put_block blk (dirents entries') fs

  pub add_in_place-runs : add_in_place dir f_ino fname k j fs ≡ some after_place
  unfolding add_in_place
  add_in_place-runs =
      rw
        (
          bio_read-working fs.disk blk (omega (arith, h.number)) (w.inodes.works blk h.number),
          h.block.reads,
        )
        (ap some
          (write_block-working fs blk (dirents entries') h.number (w.inodes.works blk h.number)))

  keeps : WellFormed after_place
  keeps = WellFormed-put fs blk (dirents entries') w (data-Fits blk (dirents entries') h.data_block)

  content_new : after_place.disk.content blk ≡ dirents entries'
  content_new =
      written_or_old (λ c. c ≡ dirents entries') blk blk _ _ (λ _. refl) (λ ne. absurd (ne refl))

  content_same : (n : ℕ) → n ≢ blk → after_place.disk.content n ≡ fs.disk.content n
  content_same n ne = content-put fs.disk blk n _ (λ e. ne (sym e))

  new-IsEntryBlock : IsEntryBlock (dirents entries')
  unfolding as_dirents
  new-IsEntryBlock = record {
    entries = entries';
    reads = refl;
    size = length-set h.block.entries j _ ∙ h.block.size;
  }

  blocks : (p : ℕ) → HasEntries fs p → HasEntries after_place p
  blocks p e = record {
    data_block = e.data_block;
    number = e.number;
    taken = ap (λ c. is_taken c p) (content_same 2 (λ x. omega (arith, x, h.data_block))) ∙ e.taken;
    block =
        written_or_old IsEntryBlock blk p (dirents entries') (fs.disk.content p)
          (λ _. new-IsEntryBlock) (λ _. e.block);
  }

  directory : IsDirectory after_place dir
  directory = record {
    number = d.number;
    stored =
        readi-same fs after_place dir.ino w keeps d.number
          (content_same (dir.ino / 16 + 3) (λ x. omega (arith, x, h.data_block, d.number)))
        ∙ d.stored;
    valid = d.valid;
    size = d.size;
    blocks = λ i e. blocks (get_or dir.direct_ptr i 0) (d.blocks i e);
  }

  entry_at-new : (name : Name) → entry_at after_place name blk ≡ find_entry name entries'
  unfolding as_dirents
  entry_at-new name = entry_at-reads after_place name blk entries' (ap as_dirents content_new)

  finds :
      dir_find fs dir.ino fname ≡ some none
      → dir_find after_place dir.ino fname ≡ some (some (new_entry f_ino fname))
  finds e =
      dir_find-first after_place dir fname keeps directory
      ∙ ap some (
          first_in-found (entry_at fs fname) (entry_at after_place fname) dir.direct_ptr k blk _
            nothing (λ p ne. sym (entry_at-same fs after_place fname p (content_same p ne)))
            (entry_at-new fname
              ∙ find_entry-set_new fname (new_entry f_ino fname) h.block.entries j before b
                  (same_name_refl fname))
            u refl v)
    where
      nothing : first_in (entry_at fs fname) dir.direct_ptr ≡ none
      nothing = let r = sym (dir_find-first fs dir fname w d) ∙ e in cc

      before : find_entry fname h.block.entries ≡ none
      before =
          sym (entry_at-reads fs fname blk h.block.entries h.block.reads)
          ∙ first_in-none (entry_at fs fname) dir.direct_ptr k nothing v

  others :
      (name : Name)
      → same_name name fname ≡ false
      → dir_find after_place dir.ino name ≡ dir_find fs dir.ino name
  others name ne =
      dir_find-first after_place dir name keeps directory
      ∙ ap some (
          first_in-same (entry_at after_place name) (entry_at fs name) dir.direct_ptr
            (λ i e. same (get_or dir.direct_ptr i 0)))
      ∙ sym (dir_find-first fs dir name w d)
    where
      same : (p : ℕ) → entry_at after_place name p ≡ entry_at fs name p
      same p = elim (ℕ_discrete p blk) [
        | yes e ↦ rw e (
            entry_at-new name
            ∙ find_entry-set_other name (new_entry f_ino fname) h.block.entries j free ne
            ∙ sym (entry_at-reads fs name blk h.block.entries h.block.reads))
        | no x ↦ entry_at-same fs after_place name p (content_same p x)
      ]

  pub place-HasAdded : HasAdded fs after_place dir f_ino fname
  place-HasAdded = record {
    keeps = keeps;
    dir' = dir;
    number = refl;
    directory = directory;
    finds = finds;
    others = others;
    inode_bits = content_same 1 (λ x. omega (arith, x, h.data_block));
    still_taken =
        λ n e. ap (λ c. is_taken c n) (content_same 2 (λ x. omega (arith, x, h.data_block))) ∙ e;
    untouched = λ n g e. content_same n (λ x.
        ground (arith, e, (blocks blk h).taken, ap (is_taken (after_place.disk.content 2)) x));
    root = refl;
    pointer = 0;
    pointers = λ i _. refl;
    block = 0;
    taken = λ n _. ap (λ c. is_taken c n) (content_same 2 (λ x. omega (arith, x, h.data_block)));
  }
