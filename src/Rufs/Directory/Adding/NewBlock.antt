-- ===== src/Rufs/Directory/Adding/NewBlock.antt =====
-- p4/code/rufs.c: `dir_add` when it takes a block for the entry.
use mathlib.Core.Path.{subst}
use native.Mathlib.Decide.{ℕ_discrete}
use cs416_os.Prelude.{
  ℕ, ◌<◌, ◌≤◌, ◌==◌, ◌≡◌, ◌≢◌, refl, sym, ◌∙◌, ap, arith, true, false, if◌then◌else◌, Option, none,
  some, List, length, get_or, set, length-set, replicate, get_or-set_self, get_or-set_ne, inl, inr,
}
use cs416_os.Prelude.Slices.{length-replicate}
use cs416_os.Rufs.Layout.{Name, same_name, Inode, Dirent, zero_dirent, dirents_in_block}
use cs416_os.Rufs.Bitmap.{max_dnum}
use cs416_os.Rufs.Disk.{as_dirents, dirents}
use cs416_os.Rufs.Inodes.{Fs, get_avail_blkno}
use cs416_os.Rufs.Inodes.Numbers.{is_taken}
use cs416_os.Rufs.Format.{
  WellFormed, WellFormed-put, data-Fits, put_block, write_block-working, written_or_old,
  content-put,
}
use cs416_os.Rufs.Format.Inodes.{WritesInode, writei_lem}
use cs416_os.Rufs.Directory.{is_valid, find_entry, dir_find, add_in_new_block, new_entry}
use cs416_os.Rufs.Directory.Find.{
  IsEntryBlock, HasEntries, AllHaveEntries, IsDirectory, entry_at, entry_at-reads, entry_at-same,
  first_in, dir_find-first, first_in-same, first_in-found, first_in-set,
}
use cs416_os.Rufs.Directory.Spots.{
  same_name_refl, find_entry-set_new, find_entry-set_other, find_entry-zeros,
}
use cs416_os.Rufs.Directory.Adding.{HasAdded}

module _ (fs : Fs) (dir : Inode) (f_ino : ℕ) (fname : Name) (w : WellFormed fs)
    (d : IsDirectory fs dir) (k : ℕ) (u : k < length dir.direct_ptr)
    (v : is_valid (get_or dir.direct_ptr k 0) ≡ false) (q : ℕ) (fs₁ : Fs)
    (taking : get_avail_blkno fs ≡ some (some q, fs₁)) (l : 67 ≤ q) (small : q < max_dnum)
    (free : is_taken (fs.disk.content 2) q ≡ false)
    (law : (n : ℕ)
      → is_taken (fs₁.disk.content 2) n ≡ (if q == n then true else is_taken (fs.disk.content 2) n))
    (same : (n : ℕ) → n ≢ 2 → fs₁.disk.content n ≡ fs.disk.content n)
    (same_root : fs₁.root_dir_ino ≡ fs.root_dir_ino) (w₁ : WellFormed fs₁) where
  abbrev entries' : List Dirent
  entries' = set (replicate dirents_in_block zero_dirent) 0 (new_entry f_ino fname)

  abbrev fs₂ : Fs
  fs₂ = put_block q (dirents entries') fs₁

  abbrev w₂ : WellFormed fs₂
  w₂ = WellFormed-put fs₁ q (dirents entries') w₁ (data-Fits q (dirents entries') l)

  abbrev dir₂ : Inode
  dir₂ = record dir { direct_ptr = set dir.direct_ptr k q }

  abbrev stored : WritesInode fs₂ dir.ino dir₂
  stored = writei_lem fs₂ w₂ dir.ino d.number dir₂

  abbrev pub after_block : Fs
  after_block = stored.after

  pub add_in_new_block-runs : add_in_new_block dir f_ino fname k fs ≡ some after_block
  unfolding add_in_new_block
  add_in_new_block-runs = rw taking (
      rw (write_block-working fs₁ q (dirents entries') small (w₁.inodes.works q small)) stored.runs)

  content_data : (n : ℕ) → 67 ≤ n → n ≢ q → after_block.disk.content n ≡ fs.disk.content n
  content_data n g ne =
      stored.others n (inr g)
      ∙ content-put fs₁.disk q n _ (λ e. ne (sym e))
      ∙ same n (λ e. omega (arith, e, g))

  content_new : after_block.disk.content q ≡ dirents entries'
  content_new =
      stored.others q (inr l)
      ∙ written_or_old (λ c. c ≡ dirents entries') q q _ _ (λ _. refl) (λ ne. absurd (ne refl))

  taken :
      (n : ℕ)
      → is_taken (after_block.disk.content 2) n
        ≡ (if q == n then true else is_taken (fs.disk.content 2) n)
  taken n =
      ap (λ c. is_taken c n)
        (stored.others 2 (inl (omega arith))
          ∙ content-put fs₁.disk q 2 _ (λ e. omega (arith, e, l)))
      ∙ law n

  new-HasEntries : HasEntries after_block q
  unfolding as_dirents
  new-HasEntries = record {
    data_block = l;
    number = small;
    taken = taken q ∙ ground arith;
    block = record {
      entries = entries';
      reads = ap as_dirents content_new;
      size =
          length-set (replicate dirents_in_block zero_dirent) 0 (new_entry f_ino fname)
          ∙ length-replicate dirents_in_block zero_dirent;
    };
  }

  other_block : (p : ℕ) → HasEntries fs p → p ≢ q
  other_block p h e =
      ground (arith, h.taken, free, subst (λ x. is_taken (fs.disk.content 2) x ≡ true) e h.taken)

  keeps_block : (p : ℕ) → HasEntries fs p → HasEntries after_block p
  keeps_block p h = record {
    data_block = h.data_block;
    number = h.number;
    taken = taken p ∙ ground (arith, h.taken);
    block = subst IsEntryBlock (sym (content_data p h.data_block (other_block p h))) h.block;
  }

  blocks : AllHaveEntries after_block (set dir.direct_ptr k q)
  blocks i e = elim (ℕ_discrete k i) [
    | yes x ↦
        subst (HasEntries after_block)
          (sym (get_or-set_self dir.direct_ptr k q 0 u)
            ∙ ap (λ y. get_or (set dir.direct_ptr k q) y 0) x)
          new-HasEntries
    | no ne ↦
        let s = get_or-set_ne dir.direct_ptr q 0 ne in
        subst (HasEntries after_block) (sym s) (
          keeps_block (get_or dir.direct_ptr i 0) (d.blocks i (subst (λ x. is_valid x ≡ true) s e)))
  ]

  directory : IsDirectory after_block dir₂
  directory = record {
    number = d.number;
    stored = stored.reads dir.ino d.number ∙ ground arith;
    valid = d.valid;
    size = length-set dir.direct_ptr k q ∙ d.size;
    blocks = blocks;
  }

  entry_at-old :
      (name : Name) (i : ℕ)
      → is_valid (get_or dir.direct_ptr i 0) ≡ true
      → entry_at after_block name (get_or dir.direct_ptr i 0)
        ≡ entry_at fs name (get_or dir.direct_ptr i 0)
  entry_at-old name i e =
      let h = d.blocks i e in
      entry_at-same fs after_block name (get_or dir.direct_ptr i 0)
        (content_data (get_or dir.direct_ptr i 0) h.data_block (other_block _ h))

  entry_at-new : (name : Name) → entry_at after_block name q ≡ find_entry name entries'
  unfolding as_dirents
  entry_at-new name = entry_at-reads after_block name q entries' (ap as_dirents content_new)

  finds :
      dir_find fs dir.ino fname ≡ some none
      → dir_find after_block dir.ino fname ≡ some (some (new_entry f_ino fname))
  finds e =
      dir_find-first after_block dir₂ fname stored.keeps directory
      ∙ ap some (
          first_in-found without (entry_at after_block fname) (set dir.direct_ptr k q) k q _ nothing
            elsewhere
            (entry_at-new fname
              ∙ find_entry-set_new fname (new_entry f_ino fname)
                  (replicate dirents_in_block zero_dirent) 0
                  (find_entry-zeros fname dirents_in_block)
                  (omega (arith, length-replicate dirents_in_block zero_dirent))
                  (same_name_refl fname))
            (omega (arith, length-set dir.direct_ptr k q)) (get_or-set_self dir.direct_ptr k q 0 u)
            (ground (arith, l)))
    where
      without : ℕ → Option Dirent
      without p = if p == q then none else entry_at after_block fname p

      elsewhere : (p : ℕ) → p ≢ q → without p ≡ entry_at after_block fname p
      elsewhere p ne = let n : (p == q) ≡ false = ground arith in rw n refl

      nothing : first_in without (set dir.direct_ptr k q) ≡ none
      nothing =
          first_in-set without dir.direct_ptr k q v (ground arith)
          ∙ first_in-same without (entry_at fs fname) dir.direct_ptr (λ i x.
            elsewhere (get_or dir.direct_ptr i 0) (other_block _ (d.blocks i x))
            ∙ entry_at-old fname i x)
          ∙ (let r = sym (dir_find-first fs dir fname w d) ∙ e in cc)

  others :
      (name : Name)
      → same_name name fname ≡ false
      → dir_find after_block dir.ino name ≡ dir_find fs dir.ino name
  others name ne =
      dir_find-first after_block dir₂ name stored.keeps directory
      ∙ ap some (
          first_in-set (entry_at after_block name) dir.direct_ptr k q v (
            entry_at-new name
            ∙ find_entry-set_other name (new_entry f_ino fname)
                (replicate dirents_in_block zero_dirent) 0 refl ne
            ∙ find_entry-zeros name dirents_in_block)
          ∙ first_in-same _ _ dir.direct_ptr (entry_at-old name))
      ∙ sym (dir_find-first fs dir name w d)

  pub block-HasAdded : HasAdded fs after_block dir f_ino fname
  block-HasAdded = record {
    keeps = stored.keeps;
    dir' = dir₂;
    number = refl;
    directory = directory;
    finds = finds;
    others = others;
    inode_bits =
        stored.others 1 (inl (omega arith))
        ∙ content-put fs₁.disk q 1 _ (λ e. omega (arith, e, l))
        ∙ same 1 (omega arith);
    still_taken = λ n e. taken n ∙ ground (arith, e);
    untouched = λ n g e. content_data n g (λ x.
        ground (arith, e, new-HasEntries.taken, ap (is_taken (after_block.disk.content 2)) x));
    root = stored.root ∙ same_root;
    pointer = k;
    pointers = λ i ne. get_or-set_ne dir.direct_ptr q 0 (λ e. ne (sym e));
    block = q;
    taken = λ n ne. taken n ∙ ground arith;
  }
