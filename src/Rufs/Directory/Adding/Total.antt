-- ===== src/Rufs/Directory/Adding/Total.antt =====
-- p4/code/rufs.c: every way in which `dir_add` ends, in a directory on a formatted disk.
use cs416_os.Prelude.{
  ℕ, ◌+◌, ltb, ◌<◌, ◌≡◌, refl, ◌∙◌, ap, arith, true, false, none, some, length, get_or, set,
  replicate, inr,
}
use cs416_os.Rufs.Layout.{Name, name_bytes, Inode, zero_dirent, dirents_in_block}
use cs416_os.Rufs.Bitmap.{max_dnum}
use cs416_os.Rufs.Disk.{dirents, no_block}
use cs416_os.Rufs.Inodes.{Fs, get_avail_blkno}
use cs416_os.Rufs.Inodes.Numbers.{is_taken}
use cs416_os.Rufs.Format.{WellFormed, write_block-no_block}
use cs416_os.Rufs.Format.Inodes.{WritesInode, writei_lem}
use cs416_os.Rufs.Format.Numbers.{TakesBlock, no_block_free, takes_block, get_avail_blkno_lem}
use cs416_os.Rufs.Directory.{
  is_valid, dir_add, add_in_new_block, new_entry, find_spot, Spot, new_block, place, added,
}
use cs416_os.Rufs.Directory.Find.{IsDirectory}
use cs416_os.Rufs.Directory.Spots.{
  FindsSpot, no_spot, spot_in_new_block, spot_in_place, find_spot_lem,
}
use cs416_os.Rufs.Directory.Adding.{
  AddsEntry, directory_full, adds_entry, loses_entry, HasAdded, dir_add-spot,
}
use cs416_os.Rufs.Directory.Adding.Place.{after_place, add_in_place-runs, place-HasAdded}
use cs416_os.Rufs.Directory.Adding.NewBlock.{after_block, add_in_new_block-runs, block-HasAdded}

module _ (fs : Fs) (dir : Inode) (f_ino : ℕ) (fname : Name) (w : WellFormed fs)
    (d : IsDirectory fs dir) (short : length fname < name_bytes) where
  fits : ltb (length fname) name_bytes ≡ true
  fits = ground (arith, short)

  zero_plus :
      (f : ℕ → Spot) (k : ℕ)
      → find_spot fs dir.direct_ptr 0 ≡ some (some (f (0 + k)))
      → find_spot fs dir.direct_ptr 0 ≡ some (some (f k))
  zero_plus f k e = e ∙ ap (λ x. some (some (f x))) (omega arith)

  in_new_block :
      (k : ℕ) (fs' : Fs)
      → find_spot fs dir.direct_ptr 0 ≡ some (some (new_block (0 + k)))
      → add_in_new_block dir f_ino fname k fs ≡ some fs'
      → dir_add dir f_ino fname fs ≡ some (added, fs')
  in_new_block k fs' s r =
      dir_add-spot fs dir f_ino fname d ∙ rw (zero_plus new_block k s) (rw fits (rw r refl))

  -- The directory's inode is written with -1 as its pointer, and the entry nowhere.
  lost :
      (k : ℕ) (fs₁ : Fs)
      → find_spot fs dir.direct_ptr 0 ≡ some (some (new_block (0 + k)))
      → get_avail_blkno fs ≡ some (none, fs₁)
      → WritesInode fs₁ dir.ino (record dir { direct_ptr = set dir.direct_ptr k no_block })
      → ((q : ℕ) → q < max_dnum → is_taken (fs.disk.content 2) q ≡ true)
      → fs₁.disk ≡ fs.disk
      → AddsEntry fs dir f_ino fname
  unfolding add_in_new_block
  lost k fs₁ s e written all same =
      loses_entry written.after all
        (in_new_block k written.after s (
          rw e (
            rw
              (write_block-no_block fs₁
                (dirents (set (replicate dirents_in_block zero_dirent) 0 (new_entry f_ino fname))))
              written.runs)))
        (λ n g. written.others n (inr g) ∙ ap (λ x. x.content n) same) written.keeps

  -- In a valid directory on a formatted disk, all of whose set pointers are to taken data blocks
  -- with whole entries, for a name of at most 207 bytes, which fits in an entry, dir_add always
  -- ends and never says that the name is already there: it says that there is no space, if all
  -- pointers are set, and changes nothing; or it adds the entry, and then the disk stays formatted,
  -- dir_find finds the entry if it found none of the name before, and finds every other name as
  -- before; or all block numbers are taken, and it says that it added an entry although no data
  -- block has changed.
  pub dir_add_lem : AddsEntry fs dir f_ino fname
  dir_add_lem = go (find_spot_lem fs dir.direct_ptr 0 w d.blocks) (get_avail_blkno_lem fs w)
    where
      go : FindsSpot fs dir.direct_ptr 0 → TakesBlock fs → AddsEntry fs dir f_ino fname
      go (no_spot s all) t = directory_full (dir_add-spot fs dir f_ino fname d ∙ rw s refl) all
      go (spot_in_place k j h s u v b free) t =
          adds_entry (after_place fs dir f_ino fname w d k j h u v b free)
            (dir_add-spot fs dir f_ino fname d
              ∙ rw (zero_plus (λ x. place x j) k s)
                  (rw fits (rw (add_in_place-runs fs dir f_ino fname w d k j h u v b free) refl)))
            (place-HasAdded fs dir f_ino fname w d k j h u v b free)
      go (spot_in_new_block k s u v) (takes_block q fs₁ e l small free lower law same root w₁) =
          adds_entry
            (after_block fs dir f_ino fname w d k u v q fs₁ e l small free law same root w₁)
            (in_new_block k _ s (
              add_in_new_block-runs fs dir f_ino fname w d k u v q fs₁ e l small free law same root
                w₁))
            (block-HasAdded fs dir f_ino fname w d k u v q fs₁ e l small free law same root w₁)
      go (spot_in_new_block k s u v) (no_block_free fs₁ e same root all w₁) =
          lost k fs₁ s e (writei_lem fs₁ w₁ dir.ino d.number _) all same

  -- With a pointer that is not set and a block that is free, the entry is added.
  pub dir_add-room :
      (k q : ℕ)
      → k < length dir.direct_ptr
      → is_valid (get_or dir.direct_ptr k 0) ≡ false
      → q < max_dnum
      → is_taken (fs.disk.content 2) q ≡ false
      → (fs' : Fs) × (dir_add dir f_ino fname fs ≡ some (added, fs'))
        × HasAdded fs fs' dir f_ino fname
  dir_add-room k q u v small free = go dir_add_lem
    where
      go :
          AddsEntry fs dir f_ino fname
          → (fs' : Fs) × (dir_add dir f_ino fname fs ≡ some (added, fs'))
            × HasAdded fs fs' dir f_ino fname
      go (directory_full e all) = absurd (ground (arith, all k u, v))
      go (loses_entry fs' all e same w') = absurd (ground (arith, all q small, free))
      go (adds_entry fs' e h) = (fs', e, h)
