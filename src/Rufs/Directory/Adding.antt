-- ===== src/Rufs/Directory/Adding.antt =====
-- p4/code/rufs.c: what `dir_add` does in a directory on a formatted disk.
pub mod Place
pub mod NewBlock
pub mod Total
use mathlib.Core.Path.{subst}
use mathlib.Core.Option.{some-injective}
use native.Mathlib.Decide.{ℕ_discrete}
use cs416_os.Prelude.{
  ℕ, zero, suc, ◌+◌, ◌<◌, ◌≤◌, ◌==◌, ◌≡◌, ◌≢◌, refl, sym, ◌∙◌, ap, arith, Bool, true, false, not,
  ◌&&◌, if◌then◌else◌, Option, none, some, List, [], ◌∷◌, length, get_or, set, replicate, ◌>>=◌,
  Bool-cases, inl, inr, length-set, get_or-set_self, get_or-set_ne, >>=-eq-some,
}
use cs416_os.Prelude.Slices.{length-replicate}
use cs416_os.Rufs.Layout.{
  Name, same_name, Inode, Dirent, zero_dirent, valid_mark, dirents_in_block, direct_ptrs,
}
use cs416_os.Rufs.Bitmap.{max_inum, max_dnum}
use cs416_os.Rufs.Disk.{Disk, Block, bio_read, as_dirents, dirents, no_block}
use cs416_os.Rufs.Disk.Laws.{bio_read-working}
use cs416_os.Rufs.Inodes.{Fs, readi, writei, write_block, get_avail_blkno}
use cs416_os.Rufs.Inodes.Numbers.{is_taken}
use cs416_os.Rufs.Format.{
  WellFormed, WellFormed-put, data-Fits, put_block, write_block-working, write_block-no_block,
  written_or_old, content-put,
}
use cs416_os.Rufs.Format.Inodes.{readi-same, WritesInode, writei_lem}
use cs416_os.Rufs.Format.Numbers.{TakesBlock, no_block_free, takes_block, get_avail_blkno_lem}
use cs416_os.Rufs.Directory.{
  is_valid, find_entry, find_entry_in, dir_find, dir_add, add_at, add_in_place, add_in_new_block,
  new_entry, find_spot, Spot, Added, added, already_there, no_space,
}
use cs416_os.Rufs.Directory.Find.{
  IsEntryBlock, HasEntries, AllHaveEntries, IsDirectory, entry_at, entry_at-reads, entry_at-same,
  first_in, dir_find-first, first_in-same, first_in-found, first_in-set,
}
use cs416_os.Rufs.Directory.Spots.{
  same_name_refl, find_entry-set_new, find_entry-set_other, find_entry-zeros, FindsSpot, no_spot,
  spot_in_new_block, spot_in_place, find_spot_lem,
}

-- The directory after an entry was added: it has the entry, no other name is found differently, and
-- at most one pointer is set and one block taken for it.
pub record HasAdded (fs fs' : Fs) (dir : Inode) (f_ino : ℕ) (fname : Name) : Type 0 where
  pub keeps : WellFormed fs'
  pub dir' : Inode
  pub number : dir'.ino ≡ dir.ino
  pub directory : IsDirectory fs' dir'
  pub finds :
      dir_find fs dir.ino fname ≡ some none
      → dir_find fs' dir.ino fname ≡ some (some (new_entry f_ino fname))
  pub others :
      (name : Name)
      → same_name name fname ≡ false
      → dir_find fs' dir.ino name ≡ dir_find fs dir.ino name
  pub inode_bits : fs'.disk.content 1 ≡ fs.disk.content 1
  pub still_taken :
      (n : ℕ) → is_taken (fs.disk.content 2) n ≡ true → is_taken (fs'.disk.content 2) n ≡ true
  pub untouched :
      (n : ℕ)
      → 67 ≤ n
      → is_taken (fs'.disk.content 2) n ≡ false
      → fs'.disk.content n ≡ fs.disk.content n
  pub root : fs'.root_dir_ino ≡ fs.root_dir_ino
  pub pointer : ℕ
  pub pointers : (i : ℕ) → i ≢ pointer → get_or dir'.direct_ptr i 0 ≡ get_or dir.direct_ptr i 0
  pub block : ℕ
  pub taken : (n : ℕ) → n ≢ block → is_taken (fs'.disk.content 2) n ≡ is_taken (fs.disk.content 2) n

-- What `dir_add` does: there is no space and nothing changes; or it adds the entry; or, when it needs a
-- block and none is free, it says that it did and no data block has changed.
pub data AddsEntry (fs : Fs) (dir : Inode) (f_ino : ℕ) (fname : Name) : Type 0 where
  directory_full :
      dir_add dir f_ino fname fs ≡ some (no_space, fs)
      → ((k : ℕ) → k < length dir.direct_ptr → is_valid (get_or dir.direct_ptr k 0) ≡ true)
      → AddsEntry fs dir f_ino fname
  adds_entry :
      (fs' : Fs)
      → dir_add dir f_ino fname fs ≡ some (added, fs')
      → HasAdded fs fs' dir f_ino fname
      → AddsEntry fs dir f_ino fname
  loses_entry :
      (fs' : Fs)
      → ((q : ℕ) → q < max_dnum → is_taken (fs.disk.content 2) q ≡ true)
      → dir_add dir f_ino fname fs ≡ some (added, fs')
      → ((n : ℕ) → 67 ≤ n → fs'.disk.content n ≡ fs.disk.content n)
      → WellFormed fs'
      → AddsEntry fs dir f_ino fname

-- The search for the name reads no block, since no pointer is 1.
no_pointer_is_one :
    (fs : Fs) (fname : Name) (ptrs : List ℕ)
    → AllHaveEntries fs ptrs
    → find_entry_in (λ p. p == valid_mark) fs fname ptrs ≡ some none
unfolding find_entry_in
no_pointer_is_one fs fname [] all = refl
no_pointer_is_one fs fname (p ∷ ptrs) all =
    let n : (p == 1) ≡ false = elim (ℕ_discrete p 1) [
      | yes e ↦ (let h = all 0 (ground arith) in ground (arith, h.data_block))
      | no ne ↦ ground arith
    ] in
    rw n (no_pointer_is_one fs fname ptrs (λ i. all (suc i)))

pub dir_add-spot :
    (fs : Fs) (dir : Inode) (f_ino : ℕ) (fname : Name)
    → IsDirectory fs dir
    → dir_add dir f_ino fname fs ≡ (find_spot fs dir.direct_ptr 0 >>= add_at dir f_ino fname fs)
unfolding dir_add
dir_add-spot fs dir f_ino fname d =
    rw (d.valid, no_pointer_is_one fs fname dir.direct_ptr d.blocks) refl
